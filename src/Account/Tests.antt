-- ===== src/Account/Tests.antt =====
-- The theorems on the account at concrete inputs. A transaction is its class and the list of its fields.
use sting_flashbots.Base.{
  ℕ, ◌+◌, ◌%◌, ◌≡◌, ◌≢◌, ◌⊎◌, refl, List, [], ◌∷◌, ◌++◌, take, drop, replicate, get_elem?, bytes_eq,
  if◌then◌else◌, Option, none, some, Result, ok, err, value_error, type_error, true, arith, length,
  subst, ok-injective, false,
}
use sting_flashbots.Ecdsa.{ecdsa_raw_sign, nonce, deterministic_generate_k}
use sting_flashbots.Ecdsa.Tests.{small_curve, small_curve-laws, small_jacobian-laws}
use sting_flashbots.Keys.{signature_vrs, make_signature, ecdsa_sign}
use sting_flashbots.Keys.Tests.{small_check, small_check-laws, key_bytes, small_key, small_key_made}
use sting_flashbots.Signing.{
  to_eth_v, TransactionClass, unsigned_transaction, chain_aware_transaction, other_class,
  TransactionPackage, sign_transaction_hash, sign_by_class, sign_transaction_dict,
  sign_message_hash,
}
use sting_flashbots.Signing.Transactions.{chained}
use sting_flashbots.Account.{
  Value, bytes_value, int_value, text_value, AccountPackage, key_object, SignedTransaction,
  SignedMessage, parse_private_key, from_key, check_hash, sanitize, vrs_values, recover_message,
  recover_transaction, sign_hash, sign_message, sign_transaction,
}
use sting_flashbots.Account.Recovery.{
  AccountLaws, legacy_bytes, recover_transaction-sign_transaction,
}
use sting_flashbots.Account.Messages.{recover_message-sign_message}
use sting_flashbots.Account.Signers.{sign_transaction_from}
use sting_flashbots.Keys.Objects.{backend_object, backend_path, set_backend}
use sting_flashbots.Account.Settings.{
  Settings, SettingCall, enable_call, backend_call, change, change_all, set_key_backend,
  enable_unaudited_hdwallet_features, keys_of, last_keys, some_enables, change_all-keys_of,
}

abbrev SmallTx : Type 0
SmallTx = TransactionClass × List ℕ

abbrev field_at : List ℕ → ℕ → ℕ
field_at fields i = elim (get_elem? fields i) [ none ↦ 0 | some x ↦ x ]

abbrev total : List ℕ → ℕ
total [] = 0
total (x ∷ xs) = x + total xs

abbrev pub digest : ℕ → List ℕ
digest n = replicate 31 0 ++ (n ∷ [])

abbrev plain_bytes : Value → Result (List ℕ)
plain_bytes (bytes_value bs) = ok bs
plain_bytes (int_value n) = ok (n ∷ [])
plain_bytes (text_value cs) = ok cs

abbrev plain_int : Value → Result ℕ
plain_int (int_value n) = ok n
plain_int other = err value_error

abbrev unlock : List ℕ × List ℕ → List ℕ → Result (List ℕ)
unlock keyfile password = if bytes_eq keyfile.1 password then ok keyfile.0 else err value_error

abbrev small_transactions : TransactionPackage (Option (List ℕ) × SmallTx) SmallTx ℕ
small_transactions = record {
  serializable_unsigned_transaction_from_dict = λ d. ok d.1;
  class_of = λ t. t.0;
  hash = λ t. digest (total t.1 % 256);
  v_of = λ t. field_at t.1 1;
  encode_transaction = λ t vrs. 248 ∷ field_at t.1 0 ∷ vrs.0 ∷ vrs.1 ∷ vrs.2 ∷ [];
  strip_signature = λ t. take 1 t.1;
  int_field = λ x. x;
  make_unsigned = λ fields. (unsigned_transaction, fields);
  make_chain_aware = λ fields. (chain_aware_transaction, fields);
}

abbrev pub small_account : AccountPackage
small_account = record {
  Dict = Option (List ℕ) × SmallTx;
  T = SmallTx;
  Field = ℕ;
  Message = ℕ;
  Keyfile = List ℕ × List ℕ;
  eth = small_transactions;
  hex_bytes = plain_bytes;
  to_int = plain_int;
  to_bytes = λ x. x ∷ [];
  keccak = λ bs. bs;
  local_address = λ key. key.public_key.raw_key;
  to_checksum_address = λ key. key.raw_key;
  is_mapping = λ d. true;
  from_field = λ d. d.0;
  dissoc_from = λ d. (none, d.1);
  hash_eip191_message = λ m. ok (digest m);
  typed_from_bytes = λ bs. ok (other_class, bs);
  typed_vrs = λ t. (0, 0, 0);
  legacy_from_bytes = λ bs. ok (other_class, drop 1 bs);
  vrs_from = λ t. (field_at t.1 1, field_at t.1 2, field_at t.1 3);
  text_bytes = plain_bytes;
  json_loads = λ cs. ok (cs, []);
  create_keyfile_json = λ key password kdf iterations. (key, password);
  decode_keyfile_json = unlock;
  seed_from_mnemonic = λ words passphrase. ok words;
  key_from_seed = λ seed path. ok seed;
  generate_mnemonic = λ n language. ok key_bytes;
}

pub small_account-laws : AccountLaws small_curve small_account
small_account-laws = record {
  hex_bytes_lem = λ bs. refl;
  to_int_lem = λ n. refl;
  to_bytes-laws = record { to_bytes_byte = λ x h. refl; pad-to_bytes = λ x h. refl };
  local_address_lem = λ key. refl;
  length-hash_eip191_message = λ m h e. digest_size m h e;
  length-hash = λ t. refl;
}
  where
    digest_size : (m : ℕ) (h : List ℕ) → ok (digest m) ≡ ok h → length h ≡ 32
    digest_size m h e = subst (λ d. length d ≡ 32) (ok-injective e) refl

abbrev unsigned_tx : SmallTx
unsigned_tx = (chain_aware_transaction, 6 ∷ 9 ∷ 0 ∷ 0 ∷ [])

abbrev raw_tx : List ℕ
raw_tx = 248 ∷ 6 ∷ 53 ∷ 4 ∷ 3 ∷ []

abbrev signed_tx : SignedTransaction
signed_tx = record { raw_transaction = raw_tx; hash = raw_tx; r = 4; s = 3; v = 53 }

tx_signed :
    sign_transaction small_curve small_check small_account
      (none, unsigned_tx)
      (key_object small_key)
      2
    ≡ ok signed_tx
unfolding sign_transaction from_key parse_private_key sanitize sign_transaction_dict sign_by_class
    sign_transaction_hash ecdsa_sign make_signature signature_vrs ecdsa_raw_sign nonce to_eth_v
tx_signed = refl

recover_transaction-sign_transaction_example :
    recover_transaction small_curve small_check small_account (bytes_value raw_tx)
    ≡ ok (small_key.public_key.raw_key)
unfolding nonce sanitize parse_private_key
recover_transaction-sign_transaction_example =
    recover_transaction-sign_transaction small_curve small_curve-laws small_jacobian-laws
      small_check small_check-laws small_account small_account-laws key_bytes small_key
      (key_object small_key) (none, unsigned_tx) (none, unsigned_tx) unsigned_tx 2 signed_tx
      small_key_made refl refl refl tx_signed
      (legacy_bytes (other_class, 6 ∷ 53 ∷ 4 ∷ 3 ∷ []) 248 (6 ∷ 53 ∷ 4 ∷ 3 ∷ []) refl (omega arith)
        refl refl (chained refl refl refl))
      (omega arith) (omega arith) (omega arith) (omega arith)

abbrev small_message : SignedMessage
small_message = record {
  message_hash = digest 3;
  r = 1;
  s = 1;
  v = 27;
  signature = digest 1 ++ digest 1 ++ (27 ∷ []);
}

message_signed :
    sign_message small_curve small_check small_account 3 (key_object small_key) ≡ ok small_message
unfolding sign_message sign_hash check_hash parse_private_key sign_message_hash ecdsa_sign
    make_signature signature_vrs ecdsa_raw_sign nonce deterministic_generate_k to_eth_v
message_signed = refl

recover_message-sign_message_example :
    (recover_message small_curve small_check small_account 3 none
        (some (bytes_value small_message.signature))
      ≡ ok (small_key.public_key.raw_key))
    × (recover_message small_curve small_check small_account 3
          (vrs_values small_curve small_check small_account (27, 1, 1))
          none
        ≡ ok (small_key.public_key.raw_key))
unfolding nonce parse_private_key deterministic_generate_k
recover_message-sign_message_example =
    recover_message-sign_message small_curve small_curve-laws small_jacobian-laws small_check
      small_check-laws small_account small_account-laws (omega arith) key_bytes (digest 3) 3
      (key_object small_key) small_key small_message small_key_made refl refl message_signed
      (omega arith) (omega arith) (omega arith) (omega arith)

sign_transaction_from_example :
    ((small_key.public_key.raw_key ≡ small_key.public_key.raw_key)
      × (sign_transaction small_curve small_check small_account
            (some small_key.public_key.raw_key, unsigned_tx)
            (key_object small_key)
            2
          ≡ sign_transaction small_curve small_check small_account
              (none, unsigned_tx)
              (key_object small_key)
              2))
    ⊎ ((small_key.public_key.raw_key ≢ small_key.public_key.raw_key)
        × (sign_transaction small_curve small_check small_account
              (some small_key.public_key.raw_key, unsigned_tx)
              (key_object small_key)
              2
            ≡ err type_error))
unfolding parse_private_key
sign_transaction_from_example =
    sign_transaction_from small_curve small_check small_account
      (some small_key.public_key.raw_key, unsigned_tx) (key_object small_key) small_key
      small_key.public_key.raw_key 2 refl refl refl refl refl

-- A backend is found by the length of its path.
abbrev backend_by_path : Option (List ℕ) → Result ℕ
backend_by_path none = ok 9
backend_by_path (some path) = ok (length path)

abbrev at_import : Settings ℕ
at_import = record {
  class_keys = none;
  own_keys = λ account. none;
  use_unaudited_hdwallet_features = false;
}

abbrev two_accounts_set : List (SettingCall ℕ)
two_accounts_set =
    backend_call 1 (backend_object 5) ∷ enable_call ∷ backend_call 2 (backend_path (3 ∷ [])) ∷ []

abbrev settings_after : Settings ℕ
settings_after = elim (change_all backend_by_path at_import two_accounts_set) [
  | err exception ↦ at_import
  | ok settings ↦ settings
]

settings_changed : change_all backend_by_path at_import two_accounts_set ≡ ok settings_after
unfolding change_all change set_key_backend enable_unaudited_hdwallet_features set_backend
settings_changed = refl

change_all-keys_of_example :
    (last_keys backend_by_path 1 (keys_of backend_by_path at_import 1) two_accounts_set
      ≡ ok (keys_of backend_by_path settings_after 1))
    × (settings_after.use_unaudited_hdwallet_features ≡ some_enables false two_accounts_set)
change_all-keys_of_example =
    change_all-keys_of backend_by_path two_accounts_set at_import settings_after 1 settings_changed
