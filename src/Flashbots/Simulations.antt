-- ===== src/Flashbots/Simulations.antt =====
-- What `simulate` asks of the node and returns, and the hash of a bundle that was sent.
use sting_flashbots.Base.{
  ℕ, ◌+◌, ◌≡◌, refl, sym, ap, ◌∙◌, List, [], ◌∷◌, ◌++◌, map, append_assoc, append-nil, Option, some,
  ok, err, type_error, >>=-eq-ok, ok-injective,
}
use sting_flashbots.Flashbots.{ByteObject, content, Web3Package, TxParams, Entry, sign_bundle}
use sting_flashbots.Flashbots.Responses.{
  parse_tx, make_bundle_response, concat_from, concat_hashes, bundle_hash,
}
use sting_flashbots.Flashbots.Requests.{
  FlashbotsOpts, BundleRequest, Flashbots, bundle_response, send_raw_bundle_munger,
  send_bundle_munger,
}

abbrev pub sum : List ℕ → ℕ
sum [] = 0
sum (x ∷ xs) = x + sum xs

-- The hashes of signed transactions, one behind the other.
abbrev pub hashes_of : (List ℕ → List ℕ) → List ByteObject → List ℕ
hashes_of keccak [] = []
hashes_of keccak (tx ∷ txs) = keccak (content tx) ++ hashes_of keccak txs

concat_from-hashes_of :
    (keccak : List ℕ → List ℕ) (txs : List ByteObject) (before : List ℕ)
    → concat_from before (map (parse_tx keccak) txs) ≡ before ++ hashes_of keccak txs
unfolding parse_tx
concat_from-hashes_of keccak [] before = sym (append-nil before)
concat_from-hashes_of keccak (tx ∷ txs) before =
    concat_from-hashes_of keccak txs (before ++ keccak (content tx))
    ∙ append_assoc before (keccak (content tx)) (hashes_of keccak txs)

hash_lem :
    (keccak : List ℕ → List ℕ) (signed : List ByteObject) (target : ℕ)
    → bundle_hash keccak (make_bundle_response keccak signed target)
      ≡ elim signed [ [] ↦ err type_error | tx ∷ rest ↦ ok (keccak (hashes_of keccak (tx ∷ rest))) ]
unfolding bundle_hash make_bundle_response concat_hashes parse_tx
hash_lem keccak [] target = refl
hash_lem keccak (tx ∷ rest) target =
    ap (λ h. ok (keccak h)) (concat_from-hashes_of keccak rest (keccak (content tx)))

-- A bundle that is sent: the module keeps a response for its signed transactions and its target block, and the
-- hash of that response's bundle is that of the transactions' hashes one behind the other, or TypeError where
-- nothing was signed.
pub send_bundle_munger_response :
    (e : Web3Package) (self answered : Flashbots) (store written : ℕ → TxParams e.Other)
    (txs : List (Entry e)) (target : ℕ) (opts : Option FlashbotsOpts) (request : BundleRequest)
    → send_bundle_munger e self store txs target opts ≡ ok (answered, written, request)
    → (signed : List ByteObject) × (sign_bundle e store txs ≡ ok (written, signed))
      × (answered.response ≡ some (bundle_response (make_bundle_response e.keccak signed target)))
      × (bundle_hash e.keccak (make_bundle_response e.keccak signed target) ≡ elim signed [
        | [] ↦ err type_error
        | tx ∷ rest ↦ ok (e.keccak (hashes_of e.keccak (tx ∷ rest)))
      ])
unfolding send_bundle_munger
send_bundle_munger_response e self answered store written txs target opts request h =
    let (pair, signed_is, h1) = >>=-eq-ok (sign_bundle e store txs) _ h in
    let kept : Flashbots = record self {
      response = some (bundle_response (make_bundle_response e.keccak pair.1 target));
    } in
    let (sent, _, h2) = >>=-eq-ok (send_raw_bundle_munger kept pair.1 target opts) _ h1 in
    let made = sym (ok-injective h2) in
    (
      pair.1,
      signed_is
          ∙ ap (λ (w : ℕ → TxParams e.Other). ok (w, pair.1))
              (sym (ap (λ (q : Flashbots × (ℕ → TxParams e.Other) × BundleRequest). q.1) made)),
      ap (λ (q : Flashbots × (ℕ → TxParams e.Other) × BundleRequest). q.0.response) made,
      hash_lem e.keccak pair.1 target,
    )
