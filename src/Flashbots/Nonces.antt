-- ===== src/Flashbots/Nonces.antt =====
-- The nonces that `sign_bundle` gives to the transactions of a bundle.
use sting_flashbots.Base.{
  ℕ, ◌+◌, ◌≡◌, ◌⊎◌, refl, sym, ap, ◌∙◌, List, [], ◌∷◌, ◌++◌, Option, none, some, Bool-cases, true,
  false, ==_refl, bytes_eq, bytes_eq→eq, Result, ok, err, if◌then◌else◌, ok-injective, >>=-eq-ok,
  inl, inr,
}
use sting_flashbots.Flashbots.{
  ByteObject, content, Web3Package, TxParams, ParsedTx, Entry, raw_entry, signer_entry, dict_entry,
  unknown_entry, State, set_nonce, parse_signed_tx, nonce_for, sign_entry, sign_entries,
  sign_bundle,
}
use sting_flashbots.Flashbots.Requests.{value_or}
use sting_flashbots.Flashbots.Bundles.{
  signer_round, raw_round, dict_round, unknown_round, entries_round, sign_bundle_loop,
}
use sting_flashbots.Flashbots.Stores.{
  places, AreDistinct, AreFresh, All-places, loop_keeps, round-AreFresh,
}

module _ (e : Web3Package) where
  -- The nonce that follows a signed transaction, for its sender, and what it was for any other account.
  abbrev pub after_parsed : List ℕ → ℕ → Result (ParsedTx e.Other) → ℕ
  after_parsed address nonce (ok parsed) =
      if bytes_eq address parsed.from then 1 + parsed.nonce else nonce
  after_parsed address nonce (err exception) = nonce

  -- The next nonce of an account after some entries of a bundle, where `nonce` is the one before them.
  abbrev pub next_nonce : List ℕ → ℕ → List (Entry e) → ℕ
  next_nonce address nonce [] = nonce
  next_nonce address nonce (raw_entry tx ∷ txs) =
      next_nonce address (after_parsed address nonce (parse_signed_tx e (content tx))) txs
  next_nonce address nonce (signer_entry signer place ∷ txs) =
      next_nonce address (if bytes_eq address (e.address signer) then 1 + nonce else nonce) txs
  next_nonce address nonce (dict_entry v r s tx ∷ txs) = next_nonce address nonce txs
  next_nonce address nonce (unknown_entry ∷ txs) = next_nonce address nonce txs

  set_nonce_or :
      (nonces : List ℕ → Option ℕ) (sender address : List ℕ) (n count : ℕ)
      → value_or (set_nonce e nonces sender n address) count
        ≡ (if bytes_eq address sender then n else value_or (nonces address) count)
  set_nonce_or nonces sender address n count = elim (Bool-cases (bytes_eq address sender)) [
    | inl h ↦ rw h refl
    | inr h ↦ rw h refl
  ]

  nonce_for_fresh :
      (state : State e) (address : List ℕ) (asked : Option ℕ) (count nonce : ℕ)
      → asked ≡ none
      → e.get_transaction_count address ≡ ok count
      → nonce_for e state address asked ≡ ok nonce
      → nonce ≡ value_or (state.nonces address) count
  unfolding nonce_for
  nonce_for_fresh state address none count nonce fresh counted h =
      let (n, n_is, h1) = >>=-eq-ok (e.get_transaction_count address) _ h in
      let same : n ≡ count = ok-injective (sym n_is ∙ counted) in
      sym (ok-injective h1) ∙ chosen (state.nonces address) n same
    where
      chosen :
          (found : Option ℕ) (n : ℕ)
          → n ≡ count
          → (elim found [ none ↦ n | some nonce ↦ nonce ]) ≡ value_or found count
      chosen none n same = same
      chosen (some m) n same = refl
  nonce_for_fresh state address (some n) count nonce fresh counted h = cc

  -- What a round makes of the next nonce of an account.
  round_nonce :
      (state next : State e) (tx : Entry e) (out : List ByteObject) (address : List ℕ) (count : ℕ)
      → e.get_transaction_count address ≡ ok count
      → AreFresh e state.store (places e (tx ∷ []))
      → sign_entry e state tx ≡ ok (next, out)
      → value_or (next.nonces address) count
        ≡ next_nonce address (value_or (state.nonces address) count) (tx ∷ [])
  round_nonce state next (raw_entry tx) out address count counted fresh h =
      let (parsed, parsed_is, next_is, _) = raw_round e state next tx out h in
      rw (next_is, parsed_is)
        (set_nonce_or state.nonces parsed.from address (1 + parsed.nonce) count)
  round_nonce state next (signer_entry signer place) out address count counted (fresh, _) h =
      let (nonce, tx, raw, nonce_is, _, _, _, next_is, _) =
        signer_round e state next signer place out h in
      ap (λ (t : State e). value_or (t.nonces address) count) next_is
      ∙ set_nonce_or state.nonces (e.address signer) address (1 + nonce) count
      ∙ by_address nonce nonce_is (Bool-cases (bytes_eq address (e.address signer)))
    where
      by_address :
          (nonce : ℕ)
          → nonce_for e state (e.address signer) (state.store place).nonce ≡ ok nonce
          → (bytes_eq address (e.address signer) ≡ true)
            ⊎ (bytes_eq address (e.address signer) ≡ false)
          → (if bytes_eq address (e.address signer)
              then 1 + nonce
              else value_or (state.nonces address) count)
            ≡ (if bytes_eq address (e.address signer)
                then 1 + value_or (state.nonces address) count
                else value_or (state.nonces address) count)
      by_address nonce nonce_is (inr other) = rw other refl
      by_address nonce nonce_is (inl own) =
          let same : address ≡ e.address signer = bytes_eq→eq _ _ own in
          let nonce_at : nonce_for e state address (state.store place).nonce ≡ ok nonce =
            rw same nonce_is in
          rw own (
            ap (λ m. 1 + m)
              (nonce_for_fresh state address (state.store place).nonce count nonce fresh counted
                nonce_at))
  round_nonce state next (dict_entry v r s tx) out address count counted fresh h =
      let (_, _, next_is, _) = dict_round e state next v r s tx out h in rw next_is refl
  round_nonce state next unknown_entry out address count counted fresh h =
      rw (unknown_round e state next out h).0 refl

  next_nonce_cons :
      (address : List ℕ) (nonce : ℕ) (tx : Entry e) (txs : List (Entry e))
      → next_nonce address nonce (tx ∷ txs)
        ≡ next_nonce address (next_nonce address nonce (tx ∷ [])) txs
  next_nonce_cons address nonce (raw_entry tx) txs = refl
  next_nonce_cons address nonce (signer_entry signer place) txs = refl
  next_nonce_cons address nonce (dict_entry v r s tx) txs = refl
  next_nonce_cons address nonce unknown_entry txs = refl

  loop_nonce :
      (state last : State e) (before after : List (Entry e)) (signer : e.Signer) (place count : ℕ)
      (signed : List ByteObject)
      → e.get_transaction_count (e.address signer) ≡ ok count
      → AreDistinct e (places e (before ++ (signer_entry signer place ∷ after)))
      → AreFresh e state.store (places e (before ++ (signer_entry signer place ∷ after)))
      → sign_entries e state (before ++ (signer_entry signer place ∷ after)) ≡ ok (last, signed)
      → (last.store place).nonce
        ≡ some (
            next_nonce (e.address signer) (value_or (state.nonces (e.address signer)) count) before)
  loop_nonce state last [] after signer place count signed counted (apart, distinct) (fresh, _) h =
      let (next, out, rest, round_is, loop_is, _) =
        entries_round e state last (signer_entry signer place) after signed h in
      let (nonce, tx, raw, nonce_is, _, tx_nonce, _, next_is, _) =
        signer_round e state next signer place out round_is in
      let kept = loop_keeps e next last after rest place loop_is apart in
      let written : next.store place ≡ tx =
        ap (λ (t : State e). t.store place) next_is ∙ rw (==_refl place) refl in
      ap (λ (t : TxParams e.Other). t.nonce) (kept ∙ written)
      ∙ tx_nonce
      ∙ ap some (
          nonce_for_fresh state (e.address signer) (state.store place).nonce count nonce fresh
            counted nonce_is)
  loop_nonce state last (tx ∷ before) after signer place count signed counted distinct fresh h =
      let txs = before ++ (signer_entry signer place ∷ after) in
      let (next, out, rest, round_is, loop_is, _) = entries_round e state last tx txs signed h in
      let (distinct', fresh') = round-AreFresh e state next tx txs out round_is distinct fresh in
      let (first, _) = All-places e (λ p. (state.store p).nonce ≡ none) tx txs fresh in
      loop_nonce next last before after signer place count rest counted distinct' fresh' loop_is
      ∙ ap (λ n. some (next_nonce (e.address signer) n before))
          (round_nonce state next tx out (e.address signer) count counted first round_is)
      ∙ ap some (
          sym (
            next_nonce_cons (e.address signer) (value_or (state.nonces (e.address signer)) count) tx
              before))

-- A bundle that is signed, whose signers' transactions are different objects without a nonce: each of them
-- gets the nonce that follows the last transaction of its signer before it in the bundle, signed already or
-- signed here, and where there is none, the number of the account's transactions on the chain.
pub sign_bundle_nonces :
    (e : Web3Package) (store written : ℕ → TxParams e.Other) (before after : List (Entry e))
    (signer : e.Signer) (place count : ℕ) (signed : List ByteObject)
    → e.get_transaction_count (e.address signer) ≡ ok count
    → AreDistinct e (places e (before ++ (signer_entry signer place ∷ after)))
    → AreFresh e store (places e (before ++ (signer_entry signer place ∷ after)))
    → sign_bundle e store (before ++ (signer_entry signer place ∷ after)) ≡ ok (written, signed)
    → (written place).nonce ≡ some (next_nonce e (e.address signer) count before)
sign_bundle_nonces e store written before after signer place count signed counted distinct fresh h =
    let (last, loop_is, written_is) =
      sign_bundle_loop e store written (before ++ (signer_entry signer place ∷ after)) signed h in
    rw written_is (
      loop_nonce e (record { nonces = λ sender. none; store = store }) last before after signer
        place count signed counted distinct fresh loop_is)
