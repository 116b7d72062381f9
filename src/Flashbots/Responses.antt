-- ===== src/Flashbots/Responses.antt =====
-- The two response classes of searcher/src/enclave/lib/flashbots/flashbots.py. The chain is what the loops see
-- of it: `blocks i` is the block number that the node gives at the i-th reading, `lookup i` its answer to the
-- i-th search for the transaction. A loop runs on fuel, and `none` says that the fuel is used up.
use sting_flashbots.Base.{
  ℕ, zero, suc, List, [], ◌∷◌, ◌++◌, map, Option, none, some, Bool, true, false, ltb, Result, ok,
  err, type_error, not_found, ◌>>=◌, if◌then◌else◌,
}
use sting_flashbots.Flashbots.{ByteObject, content}

pub record SignedTxAndHash : Type 0 where
  pub signed_transaction : ByteObject
  pub hash : List ℕ

pub record BundleResponse : Type 0 where
  pub bundle : List SignedTxAndHash
  pub target_block_number : ℕ

pub record PrivateTransactionResponse : Type 0 where
  pub tx : SignedTxAndHash
  pub max_block_number : ℕ

unfoldable pub parse_tx : (List ℕ → List ℕ) → ByteObject → SignedTxAndHash
parse_tx keccak tx = record { signed_transaction = tx; hash = keccak (content tx) }

unfoldable pub make_bundle_response : (List ℕ → List ℕ) → List ByteObject → ℕ → BundleResponse
make_bundle_response keccak txs target_block_number = record {
  bundle = map (parse_tx keccak) txs;
  target_block_number = target_block_number;
}

-- The reading at which `wait` returns.
unfoldable pub wait : ℕ → (ℕ → ℕ) → ℕ → BundleResponse → Option ℕ
wait zero blocks reading response = none
wait (suc fuel) blocks reading response =
    let later = wait fuel blocks (suc reading) response in
    if ltb (blocks reading) response.target_block_number then later else some reading

abbrev pub receipts_of {ℓ} :
    {Receipt : Type ℓ} → (List ℕ → Result Receipt) → List SignedTxAndHash → Result (List Receipt)
receipts_of get_transaction_receipt [] = ok []
receipts_of get_transaction_receipt (tx ∷ txs) = do
  receipt ← get_transaction_receipt tx.hash
  rest ← receipts_of get_transaction_receipt txs
  ok (receipt ∷ rest)

-- The receipts as the node has them when `wait` has returned.
unfoldable pub receipts {ℓ} :
    {Receipt : Type ℓ}
    → ℕ
    → (ℕ → ℕ)
    → (ℕ → List ℕ → Result Receipt)
    → BundleResponse
    → Option (Result (List Receipt))
receipts fuel blocks get_transaction_receipt response = elim (wait fuel blocks 0 response) [
  | none ↦ none
  | some reading ↦ some (receipts_of (get_transaction_receipt reading) response.bundle)
]

abbrev pub concat_from : List ℕ → List SignedTxAndHash → List ℕ
concat_from hashes [] = hashes
concat_from hashes (tx ∷ txs) = concat_from (hashes ++ tx.hash) txs

-- `reduce` with no initial value refuses an empty bundle.
unfoldable pub concat_hashes : List SignedTxAndHash → Result (List ℕ)
concat_hashes [] = err type_error
concat_hashes (tx ∷ txs) = ok (concat_from tx.hash txs)

unfoldable pub bundle_hash : (List ℕ → List ℕ) → BundleResponse → Result (List ℕ)
bundle_hash keccak response = do hashes ← concat_hashes response.bundle; ok (keccak hashes)

unfoldable pub make_private_response :
    (List ℕ → List ℕ) → ByteObject → ℕ → PrivateTransactionResponse
make_private_response sha3 signed_tx max_block_number = record {
  tx = record { signed_transaction = signed_tx; hash = sha3 (content signed_tx) };
  max_block_number = max_block_number;
}

-- `except TransactionNotFound`
abbrev pub on_not_found {ℓ} :
    {A : Type ℓ} → Result (Unit {0}) → Option (Result A) → A → Option (Result A)
on_not_found (ok done) handler found = some (ok found)
on_not_found (err not_found) handler found = handler
on_not_found (err other) handler found = some (err other)

unfoldable pub private_wait :
    ℕ → (ℕ → ℕ) → (ℕ → Result (Unit {0})) → ℕ → PrivateTransactionResponse → Option (Result Bool)
private_wait zero blocks lookup reading response = none
private_wait (suc fuel) blocks lookup reading response =
    let later = private_wait fuel blocks lookup (suc reading) response in
    on_not_found (lookup reading)
      (if ltb response.max_block_number (blocks reading) then some (ok false) else later) true

abbrev pub receipt_after {ℓ} : {Receipt : Type ℓ} → Bool → Result Receipt → Result (Option Receipt)
receipt_after false asked = ok none
receipt_after true asked = asked >>= (λ receipt. ok (some receipt))

unfoldable pub receipt {ℓ} :
    {Receipt : Type ℓ}
    → ℕ
    → (ℕ → ℕ)
    → (ℕ → Result (Unit {0}))
    → (List ℕ → Result Receipt)
    → PrivateTransactionResponse
    → Option (Result (Option Receipt))
receipt fuel blocks lookup get_transaction_receipt response =
    elim (private_wait fuel blocks lookup 0 response) [
      | none ↦ none
      | some mined ↦ some (
          mined >>= (λ is_mined. receipt_after is_mined (get_transaction_receipt response.tx.hash)))
    ]
