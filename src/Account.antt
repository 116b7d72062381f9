-- ===== src/Account.antt =====
-- searcher/src/enclave/lib/ecdsa/account.py, over the keys of Keys and the functions of Signing. What
-- the file takes from hexbytes, eth_utils, eth_account and eth_keyfile is a parameter.
pub mod Recovery
pub mod Messages
pub mod Signers
pub mod Keyfiles
pub mod Deprecated
pub mod Settings
pub mod Tests
use sting_flashbots.Base.{
  ℕ, zero, suc, ◌+◌, ◌≡◌, Bool, true, false, List, [], ◌∷◌, ◌++◌, Option, none, some, leb, ltb,
  ◌==◌, ◌&&◌, bytes_eq, length, Result, ok, err, type_error, value_error, validation_error,
  attribute_error, assertion_error, guard, assert, or_raise, ◌>>=◌, ◌>>◌, if◌then◌else◌,
}
use sting_flashbots.Ecdsa.{Curve}
use sting_flashbots.Keys.{
  Validation, Signature, PublicKey, PrivateKey, make_signature, make_private_key, ecdsa_recover,
}
use sting_flashbots.Signing.{
  TransactionPackage, sign_transaction_dict, hash_of_signed_transaction, sign_message_hash,
  to_standard_v, to_standard_signature_bytes,
}

-- An argument that may be bytes, an integer or a text.
pub data Value : Type 0 where
  bytes_value : List ℕ → Value
  int_value : ℕ → Value
  text_value : List ℕ → Value

-- `len`, which an integer has not.
abbrev pub len_value : Value → Result ℕ
len_value (bytes_value bs) = ok (length bs)
len_value (int_value n) = err type_error
len_value (text_value cs) = ok (length cs)

pub record AccountPackage : Type 1 where
  pub Dict : Type 0
  pub T : Type 0
  pub Field : Type 0
  pub Message : Type 0
  pub Keyfile : Type 0
  pub eth : TransactionPackage Dict T Field
  pub hex_bytes : Value → Result (List ℕ)
  pub to_int : Value → Result ℕ
  pub to_bytes : ℕ → List ℕ
  pub keccak : List ℕ → List ℕ
  pub local_address : PrivateKey → List ℕ
  pub to_checksum_address : PublicKey → List ℕ
  pub is_mapping : Dict → Bool
  pub from_field : Dict → Option (List ℕ)
  pub dissoc_from : Dict → Dict
  pub hash_eip191_message : Message → Result (List ℕ)
  pub typed_from_bytes : List ℕ → Result T
  pub typed_vrs : T → ℕ × ℕ × ℕ
  pub legacy_from_bytes : List ℕ → Result T
  pub vrs_from : T → ℕ × ℕ × ℕ
  pub text_bytes : Value → Result (List ℕ)
  pub json_loads : List ℕ → Result Keyfile
  pub create_keyfile_json : List ℕ → List ℕ → List ℕ → Option ℕ → Keyfile
  pub decode_keyfile_json : Keyfile → List ℕ → Result (List ℕ)
  pub seed_from_mnemonic : List ℕ → List ℕ → Result (List ℕ)
  pub key_from_seed : List ℕ → List ℕ → Result (List ℕ)
  pub generate_mnemonic : ℕ → List ℕ → Result (List ℕ)

-- A private key as the callers give it.
pub data KeyArgument : Type 0 where
  key_object : PrivateKey → KeyArgument
  key_value : Value → KeyArgument

-- `eth_account.signers.local.LocalAccount`
pub record LocalAccount : Type 0 where
  pub address : List ℕ
  pub key_obj : PrivateKey

pub record SignedTransaction : Type 0 where
  pub raw_transaction : List ℕ
  pub hash : List ℕ
  pub r : ℕ
  pub s : ℕ
  pub v : ℕ

pub record SignedMessage : Type 0 where
  pub message_hash : List ℕ
  pub r : ℕ
  pub s : ℕ
  pub v : ℕ
  pub signature : List ℕ

-- `except ValidationError`
abbrev pub on_validation_error {ℓ} : {A : Type ℓ} → Result A → Result A → Result A
on_validation_error (err validation_error) handler = handler
on_validation_error other handler = other

module _ (c : Curve) (check : Validation) (e : AccountPackage) where
  -- The message of the ValueError takes the length of the argument.
  unfoldable pub parse_private_key : KeyArgument → Result PrivateKey
  parse_private_key (key_object key) = ok key
  parse_private_key (key_value value) =
      on_validation_error (do bytes ← e.hex_bytes value; make_private_key c check bytes)
        (do size ← len_value value; err value_error)

  unfoldable pub from_key : KeyArgument → Result LocalAccount
  from_key private_key = do
    key ← parse_private_key private_key
    ok (record { address = e.local_address key; key_obj = key })

  -- `create`, with the 32 bytes of `os.urandom`.
  unfoldable pub create : List ℕ → Value → Result LocalAccount
  create random_bytes extra_entropy = do
    extra_key_bytes ← e.text_bytes extra_entropy
    from_key (key_value (bytes_value (e.keccak (random_bytes ++ extra_key_bytes))))

  unfoldable pub check_hash : Value → Result (List ℕ)
  check_hash message_hash = do
    hash_bytes ← e.hex_bytes message_hash
    guard (length hash_bytes == 32) value_error
    ok hash_bytes

  unfoldable pub signature_object : Option (Value × Value × Value) → Option Value → Result Signature
  signature_object (some (v_value, r_value, s_value)) signature = do
    v ← e.to_int v_value
    r ← e.to_int r_value
    s ← e.to_int s_value
    v_standard ← to_standard_v v
    make_signature c check none (some (v_standard, r, s))
  signature_object none (some signature) = do
    signature_bytes ← e.hex_bytes signature
    standard ← to_standard_signature_bytes c check e.to_bytes signature_bytes
    make_signature c check (some standard) none
  signature_object none none = err type_error

  unfoldable pub recover_hash :
      Value → Option (Value × Value × Value) → Option Value → Result (List ℕ)
  recover_hash message_hash vrs signature = do
    hash_bytes ← check_hash message_hash
    signature_obj ← signature_object vrs signature
    pubkey ← ecdsa_recover c check hash_bytes signature_obj
    ok (e.to_checksum_address pubkey)

  abbrev pub vrs_values : ℕ × ℕ × ℕ → Option (Value × Value × Value)
  vrs_values (v, r, s) = some (int_value v, int_value r, int_value s)

  unfoldable pub recover_message :
      e.Message → Option (Value × Value × Value) → Option Value → Result (List ℕ)
  recover_message signable_message vrs signature = do
    message_hash ← e.hash_eip191_message signable_message
    recover_hash (bytes_value message_hash) vrs signature

  -- `len(txn_bytes) > 0 and txn_bytes[0] <= 0x7f`
  unfoldable pub is_typed : List ℕ → Bool
  is_typed [] = false
  is_typed (b ∷ bs) = leb b 127

  unfoldable pub recover_typed : List ℕ → Result (List ℕ)
  recover_typed txn_bytes = do
    typed ← e.typed_from_bytes txn_bytes
    recover_hash (bytes_value (e.eth.hash typed)) (vrs_values (e.typed_vrs typed)) none

  unfoldable pub recover_legacy : List ℕ → Result (List ℕ)
  recover_legacy txn_bytes = do
    txn ← e.legacy_from_bytes txn_bytes
    msg_hash ← hash_of_signed_transaction c check e.eth txn
    recover_hash (bytes_value msg_hash) (vrs_values (e.vrs_from txn)) none

  abbrev pub recover_by_type : Bool → List ℕ → Result (List ℕ)
  recover_by_type true txn_bytes = recover_typed txn_bytes
  recover_by_type false txn_bytes = recover_legacy txn_bytes

  unfoldable pub recover_transaction : Value → Result (List ℕ)
  recover_transaction serialized_transaction = do
    txn_bytes ← e.hex_bytes serialized_transaction
    recover_by_type (is_typed txn_bytes) txn_bytes

  unfoldable pub sign_hash : Value → KeyArgument → Result SignedMessage
  sign_hash message_hash private_key = do
    msg_hash_bytes ← check_hash message_hash
    key ← parse_private_key private_key
    (v, r, s, eth_signature_bytes) ← sign_message_hash c check e.to_bytes key msg_hash_bytes
    ok (record {
      message_hash = msg_hash_bytes;
      r = r;
      s = s;
      v = v;
      signature = eth_signature_bytes;
    })

  unfoldable pub sign_message : e.Message → KeyArgument → Result SignedMessage
  sign_message signable_message private_key = do
    message_hash ← e.hash_eip191_message signable_message
    sign_hash (bytes_value message_hash) private_key

  -- The `from` field is dropped where it is the account's address.
  unfoldable pub sanitize : LocalAccount → e.Dict → Result e.Dict
  sanitize account transaction_dict = elim (e.from_field transaction_dict) [
    | none ↦ ok transaction_dict
    | some from ↦
        guard (bytes_eq from account.address) type_error >> ok (e.dissoc_from transaction_dict)
  ]

  unfoldable pub sign_transaction : e.Dict → KeyArgument → ℕ → Result SignedTransaction
  sign_transaction transaction_dict private_key k = do
    guard (e.is_mapping transaction_dict) type_error
    account ← from_key private_key
    sanitized_transaction ← sanitize account transaction_dict
    (v, r, s, encoded_transaction) ←
        sign_transaction_dict c check e.eth account.key_obj sanitized_transaction k
    ok (record {
      raw_transaction = encoded_transaction;
      hash = e.keccak encoded_transaction;
      r = r;
      s = s;
      v = v;
    })

  -- The key as bytes, for `encrypt`.
  abbrev pub key_bytes_of : KeyArgument → Result (List ℕ)
  key_bytes_of (key_object key) = ok key.raw_key
  key_bytes_of (key_value value) = e.hex_bytes value

  unfoldable pub encrypt :
      List ℕ → KeyArgument → Value → Option (List ℕ) → Option ℕ → Result e.Keyfile
  encrypt default_kdf private_key password kdf_argument iterations = do
    key_bytes ← key_bytes_of private_key
    let kdf : List ℕ = elim kdf_argument [ none ↦ default_kdf | some given ↦ given ]
    password_bytes ← e.text_bytes password
    assert (length key_bytes == 32)
    ok (e.create_keyfile_json key_bytes password_bytes kdf iterations)

  pub data KeyfileArgument : Type 0 where
    json_text : List ℕ → KeyfileArgument
    keyfile_dict : e.Keyfile → KeyfileArgument
    other_argument : KeyfileArgument

  unfoldable pub load_keyfile : KeyfileArgument → Result e.Keyfile
  load_keyfile (json_text text) = e.json_loads text
  load_keyfile (keyfile_dict keyfile) = ok keyfile
  load_keyfile other_argument = err type_error

  unfoldable pub decrypt : KeyfileArgument → Value → Result (List ℕ)
  decrypt keyfile_json password = do
    keyfile ← load_keyfile keyfile_json
    password_bytes ← e.text_bytes password
    e.decode_keyfile_json keyfile password_bytes

  -- The mnemonic features, behind the class's flag `_use_unaudited_hdwallet_features`.
  unfoldable pub from_mnemonic : Bool → List ℕ → List ℕ → List ℕ → Result LocalAccount
  from_mnemonic enabled mnemonic passphrase account_path = do
    guard enabled attribute_error
    seed ← e.seed_from_mnemonic mnemonic passphrase
    private_key ← e.key_from_seed seed account_path
    from_key (key_value (bytes_value private_key))

  unfoldable pub create_with_mnemonic :
      Bool → List ℕ → ℕ → List ℕ → List ℕ → Result (LocalAccount × List ℕ)
  create_with_mnemonic enabled passphrase num_words language account_path = do
    guard enabled attribute_error
    mnemonic ← e.generate_mnemonic num_words language
    account ← from_mnemonic enabled mnemonic passphrase account_path
    ok (account, mnemonic)
