-- ===== src/Flashbots.antt =====
-- `sign_bundle` of searcher/src/enclave/lib/flashbots/flashbots.py. The transaction of an unsigned entry is an
-- object of the caller that the code writes to: a place in the state's `store`. What the file takes from web3,
-- eth_account, rlp and hexbytes is a parameter; the node's answers during a call are functions.
pub mod Responses
pub mod Requests
pub mod Simulate
pub mod Provider
pub mod Stores
pub mod Nonces
pub mod Hex
pub mod Simulations
pub mod Bundles
pub mod Waits
mod Tests
use sting_flashbots.Base.{
  ℕ, ◌+◌, ◌*◌, List, [], ◌∷◌, ◌++◌, map, Option, none, some, Bool, true, false, not, ◌&&◌, ◌||◌,
  ltb, ◌==◌, bytes_eq, Result, ok, err, value_error, index_error, no_such_key, assertion_error,
  assert, or_raise, ◌>>=◌, ◌>>◌, if◌then◌else◌,
}
use sting_flashbots.Account.{Value, bytes_value, int_value, text_value}

-- The parameters of an unsigned transaction; `other` holds those that `sign_bundle` does not read.
pub record TxParams (Other : Type 0) : Type 0 where
  pub from : Option (List ℕ)
  pub nonce : Option ℕ
  pub gas : Option ℕ
  pub other : Other

-- A signed transaction as rlp decodes it.
pub record DecodedTx (Other : Type 0) : Type 0 where
  pub nonce : ℕ
  pub other : Other
  pub vrs : ℕ × ℕ × ℕ

-- The same with its sender, without its signature.
pub record ParsedTx (Other : Type 0) : Type 0 where
  pub from : List ℕ
  pub nonce : ℕ
  pub other : Other

pub data Fees : Type 0 where
  dynamic_fees : ℕ → ℕ → Fees
  gas_price_fee : ℕ → Fees

-- FlashbotsBundleDictTx, the keys that are read.
pub record DictTx (Access : Type 0) : Type 0 where
  pub nonce : Option ℕ
  pub input : Option Value
  pub value : Option ℕ
  pub gas : Option ℕ
  pub max_fee_per_gas : Option ℕ
  pub max_priority_fee_per_gas : Option ℕ
  pub gas_price : Option ℕ
  pub access_list : Option (List Access)
  pub chain_id : Option Value
  pub to : Option Value
  pub hash : Option (List ℕ)

-- `tx_dict`
pub record TxDict (Access : Type 0) : Type 0 where
  pub nonce : ℕ
  pub data_bytes : List ℕ
  pub value : ℕ
  pub gas : ℕ
  pub fees : Fees
  pub access_list : Option (List Access)
  pub chain_id : Option Value
  pub to : Option (List ℕ)

pub record Web3Package : Type 1 where
  pub Other : Type 0
  pub Signer : Type 0
  pub Access : Type 0
  pub Unsigned : Type 0
  pub address : Signer → List ℕ
  pub sign_transaction : Signer → TxParams Other → Result (List ℕ)
  pub get_transaction_count : List ℕ → Result ℕ
  pub estimate_gas : TxParams Other → Result ℕ
  pub keccak : List ℕ → List ℕ
  pub decode_legacy : List ℕ → Result (DecodedTx Other)
  pub decode_access_list : List ℕ → Result (DecodedTx Other)
  pub decode_dynamic_fee : List ℕ → Result (DecodedTx Other)
  pub recover_transaction : List ℕ → Result (List ℕ)
  pub hex_bytes : Value → Result (List ℕ)
  pub serializable_unsigned_transaction_from_dict : TxDict Access → Result Unsigned
  pub encode_transaction : Unsigned → ℕ × ℕ × ℕ → Result (List ℕ)

-- Bytes as Python's own class has them, or as HexBytes.
pub data ByteObject : Type 0 where
  bytes_object : List ℕ → ByteObject
  hex_bytes_object : List ℕ → ByteObject

abbrev pub content : ByteObject → List ℕ
content (bytes_object bs) = bs
content (hex_bytes_object bs) = bs

-- `int(x.hex(), base=16)`, which refuses the text `0x` of no bytes.
abbrev pub big_endian : ℕ → List ℕ → ℕ
big_endian n [] = n
big_endian n (b ∷ bs) = big_endian (n * 256 + b) bs

unfoldable pub int_of_hex : List ℕ → Result ℕ
int_of_hex [] = err value_error
int_of_hex (b ∷ bs) = ok (big_endian b bs)

-- A value that counts as true.
abbrev pub is_truthy : Value → Bool
is_truthy (bytes_value []) = false
is_truthy (bytes_value (b ∷ bs)) = true
is_truthy (int_value n) = not (n == 0)
is_truthy (text_value []) = false
is_truthy (text_value (d ∷ ds)) = true

-- `if tx.get(...)`
abbrev pub if_truthy : Option Value → Option Value
if_truthy none = none
if_truthy (some value) = if is_truthy value then some value else none

abbrev pub if_nonempty {ℓ} : {A : Type ℓ} → Option (List A) → Option (List A)
if_nonempty none = none
if_nonempty (some []) = none
if_nonempty (some (a ∷ rest)) = some (a ∷ rest)

-- "maxFeePerGas" and "maxPriorityFeePerGas", both or neither, and else "gasPrice"
unfoldable pub fees_of : Option ℕ → Option ℕ → Option ℕ → Result Fees
fees_of (some max_fee) (some max_priority_fee) gas_price =
    ok (dynamic_fees max_fee max_priority_fee)
fees_of none none gas_price = do
  price ← or_raise gas_price assertion_error
  ok (gas_price_fee price)
fees_of _ _ gas_price = err assertion_error

module _ (e : Web3Package) where
  -- An entry of a bundle, by the keys that it has; the last form has none of them.
  pub data Entry : Type 0 where
    raw_entry : ByteObject → Entry
    signer_entry : e.Signer → ℕ → Entry
    dict_entry : ℕ → List ℕ → List ℕ → DictTx e.Access → Entry
    unknown_entry : Entry

  -- The local `nonces` and the caller's transaction objects.
  pub record State : Type 0 where
    pub nonces : List ℕ → Option ℕ
    pub store : ℕ → TxParams e.Other

  abbrev pub set_nonce : (List ℕ → Option ℕ) → List ℕ → ℕ → List ℕ → Option ℕ
  set_nonce nonces sender nonce asked = if bytes_eq asked sender then some nonce else nonces asked

  abbrev pub set_tx : (ℕ → TxParams e.Other) → ℕ → TxParams e.Other → ℕ → TxParams e.Other
  set_tx store place tx asked = if asked == place then tx else store asked

  unfoldable pub decode_signed : ℕ → List ℕ → Result (DecodedTx e.Other)
  decode_signed tx_type rest =
      if ltb 127 tx_type
      then e.decode_legacy (tx_type ∷ rest)
      else if tx_type == 1
      then e.decode_access_list rest
      else if tx_type == 2
      then e.decode_dynamic_fee rest
      else err value_error

  unfoldable pub parse_signed_tx : List ℕ → Result (ParsedTx e.Other)
  parse_signed_tx [] = err index_error
  parse_signed_tx (tx_type ∷ rest) = do
    decoded_tx ← decode_signed tx_type rest
    from ← e.recover_transaction (tx_type ∷ rest)
    ok (record { from = from; nonce = decoded_tx.nonce; other = decoded_tx.other })

  -- The count of the account is asked also where the nonce is known from the bundle.
  unfoldable pub nonce_for : State → List ℕ → Option ℕ → Result ℕ
  nonce_for state address (some nonce) = ok nonce
  nonce_for state address none = do
    count ← e.get_transaction_count address
    ok (elim (state.nonces address) [ none ↦ count | some nonce ↦ nonce ])

  unfoldable pub gas_for : TxParams e.Other → Result ℕ
  gas_for tx = elim tx.gas [ none ↦ e.estimate_gas tx | some gas ↦ ok gas ]

  -- `tx_dict`, as it is built key by key.
  unfoldable pub tx_dict_of : DictTx e.Access → Result (TxDict e.Access)
  tx_dict_of tx = do
    nonce ← or_raise tx.nonce no_such_key
    input ← or_raise tx.input no_such_key
    data_bytes ← e.hex_bytes input
    value ← or_raise tx.value no_such_key
    gas ← or_raise tx.gas no_such_key
    fees ← fees_of tx.max_fee_per_gas tx.max_priority_fee_per_gas tx.gas_price
    to ← elim (if_truthy tx.to) [
      | none ↦ ok none
      | some to_value ↦ e.hex_bytes to_value >>= (λ to_bytes. ok (some to_bytes))
    ]
    ok (record {
      nonce = nonce;
      data_bytes = data_bytes;
      value = value;
      gas = gas;
      fees = fees;
      access_list = if_nonempty tx.access_list;
      chain_id = if_truthy tx.chain_id;
      to = to;
    })

  unfoldable pub sign_dict : ℕ → List ℕ → List ℕ → DictTx e.Access → Result (List ℕ)
  sign_dict v r_bytes s_bytes tx = do
    r ← int_of_hex r_bytes
    s ← int_of_hex s_bytes
    tx_dict ← tx_dict_of tx
    unsigned_tx ← e.serializable_unsigned_transaction_from_dict tx_dict
    raw ← e.encode_transaction unsigned_tx (v, r, s)
    hash ← or_raise tx.hash no_such_key
    assert (bytes_eq (e.keccak raw) hash)
    ok raw

  -- One round of the loop: the state after it and what it appends.
  unfoldable pub sign_entry : State → Entry → Result (State × List ByteObject)
  sign_entry state (raw_entry signed_transaction) = do
    tx_params ← parse_signed_tx (content signed_transaction)
    ok (
      record state { nonces = set_nonce state.nonces tx_params.from (1 + tx_params.nonce) },
      signed_transaction ∷ [],
    )
  sign_entry state (signer_entry signer place) = do
    let address = e.address signer
    let asked : TxParams e.Other = record (state.store place) { from = some address }
    nonce ← nonce_for state address asked.nonce
    let numbered : TxParams e.Other = record asked { nonce = some nonce }
    gas ← gas_for numbered
    let complete : TxParams e.Other = record numbered { gas = some gas }
    raw ← e.sign_transaction signer complete
    ok (
      record {
        nonces = set_nonce state.nonces address (1 + nonce);
        store = set_tx state.store place complete;
      },
      hex_bytes_object raw ∷ [],
    )
  sign_entry state (dict_entry v r s tx) = do
    raw ← sign_dict v r s tx
    ok (state, bytes_object raw ∷ [])
  sign_entry state unknown_entry = ok (state, [])

  unfoldable pub sign_entries : State → List Entry → Result (State × List ByteObject)
  sign_entries state [] = ok (state, [])
  sign_entries state (tx ∷ txs) = do
    (next, appended) ← sign_entry state tx
    (last, signed_transactions) ← sign_entries next txs
    ok (last, appended ++ signed_transactions)

  -- The signed transactions, and the caller's objects after the call.
  unfoldable pub sign_bundle :
      (ℕ → TxParams e.Other) → List Entry → Result ((ℕ → TxParams e.Other) × List ByteObject)
  sign_bundle store bundled_transactions = do
    (state, signed_transactions) ←
        sign_entries (record { nonces = λ sender. none; store = store }) bundled_transactions
    ok (state.store, signed_transactions)
