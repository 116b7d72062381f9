-- ===== src/Signing/Tests.antt =====
-- The theorems on signing at concrete inputs. A transaction here is its class and the list of its fields.
use sting_flashbots.Base.{
  ℕ, ◌≡◌, refl, List, [], ◌∷◌, ◌++◌, take, get_elem?, none, some, ok, replicate, arith,
}
use sting_flashbots.Ecdsa.{ecdsa_raw_sign, nonce, deterministic_generate_k}
use sting_flashbots.Ecdsa.Tests.{small_curve}
use sting_flashbots.Keys.{signature_vrs, make_signature, ecdsa_sign}
use sting_flashbots.Keys.Tests.{small_check, small_check-laws, small_key}
use sting_flashbots.Signing.{
  to_eth_v, TransactionClass, unsigned_transaction, chain_aware_transaction, other_class,
  TransactionPackage, sign_transaction_hash, sign_by_class, sign_transaction_dict,
  sign_message_hash,
}
use sting_flashbots.Signing.Messages.{ToBytesLaws}
use sting_flashbots.Signing.Transactions.{sign_transaction_dict_nonce}

abbrev SmallTx : Type 0
SmallTx = TransactionClass × List ℕ

abbrev field_at : List ℕ → ℕ → ℕ
field_at fields i = elim (get_elem? fields i) [ none ↦ 0 | some x ↦ x ]

abbrev small_package : TransactionPackage SmallTx SmallTx ℕ
small_package = record {
  serializable_unsigned_transaction_from_dict = λ t. ok t;
  class_of = λ t. t.0;
  hash = λ t. t.1;
  v_of = λ t. field_at t.1 1;
  encode_transaction = λ t vrs. vrs.0 ∷ vrs.1 ∷ vrs.2 ∷ t.1;
  strip_signature = λ t. take 1 t.1;
  int_field = λ x. x;
  make_unsigned = λ fields. (unsigned_transaction, fields);
  make_chain_aware = λ fields. (chain_aware_transaction, fields);
}

abbrev unsigned_tx : SmallTx
unsigned_tx = (chain_aware_transaction, 6 ∷ 9 ∷ 0 ∷ 0 ∷ [])

abbrev signed_tx : SmallTx
signed_tx = (other_class, 6 ∷ 54 ∷ 4 ∷ 3 ∷ [])

tx_signed :
    sign_transaction_dict small_curve small_check small_package small_key unsigned_tx 2
    ≡ ok (54, 4, 3, 54 ∷ 4 ∷ 3 ∷ 6 ∷ 9 ∷ 0 ∷ 0 ∷ [])
unfolding sign_transaction_dict sign_by_class sign_transaction_hash ecdsa_sign make_signature
    signature_vrs ecdsa_raw_sign nonce to_eth_v
tx_signed = refl

sign_transaction_dict_nonce_example : 4 ≡ (small_curve.fast_multiply small_curve.g 2).0
sign_transaction_dict_nonce_example =
    sign_transaction_dict_nonce small_package small_curve small_check small_check-laws small_key
      unsigned_tx unsigned_tx 2 54 4 3 (54 ∷ 4 ∷ 3 ∷ 6 ∷ 9 ∷ 0 ∷ 0 ∷ []) refl (omega arith) refl
      tx_signed

small_to_bytes-laws : ToBytesLaws small_curve (λ x. x ∷ [])
small_to_bytes-laws = record { to_bytes_byte = λ x h. refl; pad-to_bytes = λ x h. refl }

abbrev message_bytes : List ℕ
message_bytes = replicate 31 0 ++ (2 ∷ []) ++ replicate 31 0 ++ (3 ∷ []) ++ (28 ∷ [])

message_signed :
    sign_message_hash small_curve small_check (λ x. x ∷ []) small_key (3 ∷ [])
    ≡ ok (28, 2, 3, message_bytes)
unfolding sign_message_hash ecdsa_sign make_signature signature_vrs ecdsa_raw_sign nonce
    deterministic_generate_k to_eth_v
message_signed = refl
