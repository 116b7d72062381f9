-- ===== src/Flashbots/Stores.antt =====
-- The objects of the caller that `sign_bundle` writes to.
use sting_flashbots.Base.{
  ℕ, ◌≡◌, refl, sym, ap, ◌∙◌, List, [], ◌∷◌, none, false, ◌==◌, ok, All, ok-injective, arith,
}
use sting_flashbots.Flashbots.{
  ByteObject, Web3Package, TxParams, Entry, raw_entry, signer_entry, dict_entry, unknown_entry,
  State, set_tx, sign_entry, sign_entries,
}
use sting_flashbots.Flashbots.Bundles.{
  signer_round, raw_round, dict_round, unknown_round, entries_round,
}

module _ (e : Web3Package) where
  -- The caller's objects that a bundle's entries name.
  abbrev pub places : List (Entry e) → List ℕ
  places [] = []
  places (signer_entry signer place ∷ txs) = place ∷ places txs
  places (raw_entry tx ∷ txs) = places txs
  places (dict_entry v r s tx ∷ txs) = places txs
  places (unknown_entry ∷ txs) = places txs

  abbrev pub AreDistinct : List ℕ → Type 0
  AreDistinct [] = Unit {0}
  AreDistinct (p ∷ ps) = All (λ q. (q == p) ≡ false) ps × AreDistinct ps

  -- The objects have no nonce.
  abbrev pub AreFresh : (ℕ → TxParams e.Other) → List ℕ → Type 0
  AreFresh store ps = All (λ p. (store p).nonce ≡ none) ps

  set_tx_other :
      (store : ℕ → TxParams e.Other) (place asked : ℕ) (tx : TxParams e.Other)
      → (asked == place) ≡ false
      → set_tx e store place tx asked ≡ store asked
  set_tx_other store place asked tx h = rw h refl

  set_tx-AreFresh :
      (store : ℕ → TxParams e.Other) (place : ℕ) (tx : TxParams e.Other) (ps : List ℕ)
      → All (λ q. (q == place) ≡ false) ps
      → AreFresh store ps
      → AreFresh (set_tx e store place tx) ps
  set_tx-AreFresh store place tx [] apart fresh = tt
  set_tx-AreFresh store place tx (p ∷ ps) (h, apart) (f, fresh) = (
    ap (λ (t : TxParams e.Other). t.nonce) (set_tx_other store place p tx h) ∙ f,
    set_tx-AreFresh store place tx ps apart fresh,
  )

  apart_sym : (p q : ℕ) → (q == p) ≡ false → (p == q) ≡ false
  apart_sym p q h = ground arith

  -- A round leaves the objects alone that its entry does not name.
  round_keeps :
      (state next : State e) (tx : Entry e) (out : List ByteObject) (p : ℕ)
      → sign_entry e state tx ≡ ok (next, out)
      → All (λ q. (q == p) ≡ false) (places (tx ∷ []))
      → next.store p ≡ state.store p
  round_keeps state next (raw_entry tx) out p h apart =
      let (_, _, next_is, _) = raw_round e state next tx out h in
      ap (λ (t : State e). t.store p) next_is
  round_keeps state next (signer_entry signer place) out p h apart =
      let (nonce, tx, raw, _, _, _, _, next_is, _) = signer_round e state next signer place out h in
      ap (λ (t : State e). t.store p) next_is
      ∙ set_tx_other state.store place p tx (apart_sym p place apart.0)
  round_keeps state next (dict_entry v r s tx) out p h apart =
      let (_, _, next_is, _) = dict_round e state next v r s tx out h in
      ap (λ (t : State e). t.store p) next_is
  round_keeps state next unknown_entry out p h apart =
      ap (λ (t : State e). t.store p) (unknown_round e state next out h).0

  pub All-places :
      (P : ℕ → Type 0) (tx : Entry e) (txs : List (Entry e))
      → All P (places (tx ∷ txs))
      → All P (places (tx ∷ [])) × All P (places txs)
  All-places P (raw_entry tx) txs h = (tt, h)
  All-places P (signer_entry signer place) txs (here, h) = ((here, tt), h)
  All-places P (dict_entry v r s tx) txs h = (tt, h)
  All-places P unknown_entry txs h = (tt, h)

  pub loop_keeps :
      (state last : State e) (txs : List (Entry e)) (signed : List ByteObject) (p : ℕ)
      → sign_entries e state txs ≡ ok (last, signed)
      → All (λ q. (q == p) ≡ false) (places txs)
      → last.store p ≡ state.store p
  unfolding sign_entries
  loop_keeps state last [] signed p h apart =
      ap (λ (q : State e × List ByteObject). q.0.store p) (sym (ok-injective h))
  loop_keeps state last (tx ∷ txs) signed p h apart =
      let (next, out, rest, round_is, loop_is, _) = entries_round e state last tx txs signed h in
      let (first, others) = All-places (λ q. (q == p) ≡ false) tx txs apart in
      loop_keeps next last txs rest p loop_is others
      ∙ round_keeps state next tx out p round_is first

  -- A round leaves the objects of the entries behind it without a nonce.
  pub round-AreFresh :
      (state next : State e) (tx : Entry e) (txs : List (Entry e)) (out : List ByteObject)
      → sign_entry e state tx ≡ ok (next, out)
      → AreDistinct (places (tx ∷ txs))
      → AreFresh state.store (places (tx ∷ txs))
      → AreDistinct (places txs) × AreFresh next.store (places txs)
  round-AreFresh state next (raw_entry tx) txs out h distinct fresh =
      let (_, _, next_is, _) = raw_round e state next tx out h in (distinct, rw next_is fresh)
  round-AreFresh state next (signer_entry signer place) txs out h (apart, distinct) (_, fresh) =
      let (nonce, tx, raw, _, _, _, _, next_is, _) = signer_round e state next signer place out h in
      (distinct, rw next_is (set_tx-AreFresh state.store place tx (places txs) apart fresh))
  round-AreFresh state next (dict_entry v r s tx) txs out h distinct fresh =
      let (_, _, next_is, _) = dict_round e state next v r s tx out h in
      (distinct, rw next_is fresh)
  round-AreFresh state next unknown_entry txs out h distinct fresh =
      (distinct, rw (unknown_round e state next out h).0 fresh)
