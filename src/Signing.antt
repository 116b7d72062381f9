-- ===== src/Signing.antt =====
-- searcher/src/enclave/lib/ecdsa/signing.py. eth_account's transaction objects are a parameter: their
-- types, the class that `isinstance` finds, and the functions that the code calls; so is eth_utils' `to_bytes`
-- of an integer. A key is a `PrivateKey` of Keys.
pub mod ChainIds
pub mod Messages
pub mod Transactions
mod Tests
use sting_flashbots.Base.{
  ℕ, zero, suc, ◌+◌, ◌-◌, ◌*◌, ◌/◌, ◌%◌, ◌<◌, ◌≡◌, Bool, List, [], ◌∷◌, ◌++◌, Option, none, some,
  ltb, ◌==◌, ◌||◌, if◌then◌else◌, length, take, replicate, get_elem?, Result, ok, err, value_error,
  type_error, index_error, or_raise, guard, assert, ◌>>=◌, ◌>>◌,
}
use sting_flashbots.Ecdsa.{Curve}
use sting_flashbots.Keys.{Validation, Signature, PrivateKey, sign_msg_hash}

-- The chain id, where there is one, and `v` from 27 on.
unfoldable pub extract_chain_id : ℕ → Result (Option ℕ × ℕ)
extract_chain_id raw_v =
    if ltb raw_v 35
    then (if raw_v == 0 || raw_v == 1
        then ok (none, raw_v + 27)
        else if raw_v == 27 || raw_v == 28
        then ok (none, raw_v)
        else err value_error)
    else ok (some ((raw_v - 35) / 2), (raw_v - 35) % 2 + 27)

unfoldable pub to_standard_v : ℕ → Result ℕ
to_standard_v enhanced_v = do
  (_, chain_naive_v) ← extract_chain_id enhanced_v
  let v_standard = chain_naive_v - 27
  assert (v_standard == 0 || v_standard == 1)
  ok v_standard

unfoldable pub to_eth_v : ℕ → Option ℕ → ℕ
to_eth_v v_raw none = v_raw + 27
to_eth_v v_raw (some chain_id) = v_raw + 35 + 2 * chain_id

-- The class of an unsigned transaction.
pub data TransactionClass : Type 0 where
  unsigned_transaction chain_aware_transaction typed_transaction other_class : TransactionClass

module _ (Dict T Field : Type 0) where
  pub record TransactionPackage : Type 0 where
    pub serializable_unsigned_transaction_from_dict : Dict → Result T
    pub class_of : T → TransactionClass
    pub hash : T → List ℕ
    pub v_of : T → ℕ
    pub encode_transaction : T → ℕ × ℕ × ℕ → List ℕ
    pub strip_signature : T → List Field
    pub int_field : ℕ → Field
    pub make_unsigned : List Field → T
    pub make_chain_aware : List Field → T

module _ (c : Curve) (check : Validation) where
  unfoldable pub sign_transaction_hash : PrivateKey → List ℕ → Option ℕ → ℕ → Result (ℕ × ℕ × ℕ)
  sign_transaction_hash account transaction_hash chain_id k = do
    signature ← sign_msg_hash c check account transaction_hash k
    ok (to_eth_v signature.v chain_id, signature.r, signature.s)

  module _ {Dict T Field : Type 0} (eth : TransactionPackage Dict T Field) where
    -- The signature of a transaction by its class; only the second class gets the nonce.
    unfoldable pub sign_by_class : TransactionClass → PrivateKey → T → ℕ → Result (ℕ × ℕ × ℕ)
    sign_by_class unsigned_transaction eth_key unsigned k =
        sign_transaction_hash eth_key (eth.hash unsigned) none 0
    sign_by_class chain_aware_transaction eth_key unsigned k =
        sign_transaction_hash eth_key (eth.hash unsigned) (some (eth.v_of unsigned)) k
    sign_by_class typed_transaction eth_key unsigned k = do
      signature ← sign_msg_hash c check eth_key (eth.hash unsigned) 0
      ok (signature.v, signature.r, signature.s)
    sign_by_class other_class eth_key unsigned k = err type_error

    unfoldable pub sign_transaction_dict : PrivateKey → Dict → ℕ → Result (ℕ × ℕ × ℕ × List ℕ)
    sign_transaction_dict eth_key transaction_dict k = do
      unsigned ← eth.serializable_unsigned_transaction_from_dict transaction_dict
      (v, r, s) ← sign_by_class (eth.class_of unsigned) eth_key unsigned k
      ok (v, r, s, eth.encode_transaction unsigned (v, r, s))

    unfoldable pub hash_of_signed_transaction : T → Result (List ℕ)
    hash_of_signed_transaction txn = do
      (chain_id, _) ← extract_chain_id (eth.v_of txn)
      let unsigned_parts = eth.strip_signature txn
      elim chain_id [
        | none ↦ ok (eth.hash (eth.make_unsigned unsigned_parts))
        | some id ↦ ok (
            eth.hash (
              eth.make_chain_aware
                (unsigned_parts ++ (eth.int_field id ∷ eth.int_field 0 ∷ eth.int_field 0 ∷ []))))
      ]

  module _ (to_bytes : ℕ → List ℕ) where
    -- `bytes_val.rjust(32, b'\0')`
    abbrev pub pad_to_eth_word : List ℕ → List ℕ
    pad_to_eth_word bytes_val = replicate (32 - length bytes_val) 0 ++ bytes_val

    abbrev pub to_bytes32 : ℕ → List ℕ
    to_bytes32 val = pad_to_eth_word (to_bytes val)

    -- `[:-1]` and `[-1]` of the bytes; `to_int` of an integer gives it back.
    unfoldable pub to_standard_signature_bytes : List ℕ → Result (List ℕ)
    to_standard_signature_bytes signature_bytes = do
      let rs = take (length signature_bytes - 1) signature_bytes
      v ← or_raise (get_elem? signature_bytes (length signature_bytes - 1)) index_error
      standard_v ← to_standard_v v
      ok (rs ++ to_bytes standard_v)

    unfoldable pub sign_message_hash : PrivateKey → List ℕ → Result (ℕ × ℕ × ℕ × List ℕ)
    sign_message_hash key msg_hash = do
      signature ← sign_msg_hash c check key msg_hash 0
      let v = to_eth_v signature.v none
      ok (
        v,
        signature.r,
        signature.s,
        (to_bytes32 signature.r ++ to_bytes32 signature.s) ++ to_bytes v,
      )
