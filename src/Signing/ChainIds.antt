-- ===== src/Signing/ChainIds.antt =====
-- The chain id in `v` (EIP-155).
use sting_flashbots.Base.{
  ℕ, zero, suc, ◌+◌, ◌-◌, ◌*◌, ◌/◌, ◌%◌, ◌<◌, ◌≤◌, ◌≡◌, ◌≢◌, ◌⊎◌, inl, inr, Option, none, some,
  false, ltb, leb, ◌==◌, ◌||◌, ok, err, value_error, arith, refl, Bool-cases, assert, ◌>>=◌,
}
use sting_flashbots.Signing.{extract_chain_id, to_standard_v, to_eth_v}

standard_bit :
    (v : ℕ)
    → v ≤ 1
    → (assert (v + 27 - 27 == 0 || v + 27 - 27 == 1) >>= (λ u. ok (v + 27 - 27))) ≡ ok v
standard_bit zero h = refl
standard_bit (suc zero) h = refl
standard_bit (suc (suc v)) h = absurd (omega arith)

-- What `to_eth_v` makes of a recovery bit and a chain id, or of a recovery bit alone, is read back.
pub extract_chain_id-to_eth_v :
    (v : ℕ) (chain_id : Option ℕ)
    → v ≤ 1
    → (extract_chain_id (to_eth_v v chain_id) ≡ ok (chain_id, v + 27))
      × (to_standard_v (to_eth_v v chain_id) ≡ ok v)
unfolding extract_chain_id to_eth_v to_standard_v
extract_chain_id-to_eth_v zero none h = (refl, refl)
extract_chain_id-to_eth_v (suc zero) none h = (refl, refl)
extract_chain_id-to_eth_v (suc (suc v)) none h = absurd (omega arith)
extract_chain_id-to_eth_v v (some id) h =
    let chain : (v + 35 + 2 * id - 35) / 2 ≡ id = omega arith in
    let bit : (v + 35 + 2 * id - 35) % 2 ≡ v = omega arith in
    let above : ltb (v + 35 + 2 * id) 35 ≡ false = ground arith in
    rw (above, chain, bit) (refl, standard_bit v h)

-- The four kinds of `v`.
data RawV (raw_v : ℕ) : Type 0 where
  bare : raw_v ≤ 1 → RawV raw_v
  offset : (raw_v ≡ 27) ⊎ (raw_v ≡ 28) → RawV raw_v
  chained : (id v : ℕ) → v ≤ 1 → raw_v ≡ v + 35 + 2 * id → RawV raw_v
  refused : 1 < raw_v → raw_v < 35 → raw_v ≢ 27 → raw_v ≢ 28 → RawV raw_v

RawV-kind : (raw_v : ℕ) → RawV raw_v
RawV-kind raw_v = elim (Bool-cases (ltb raw_v 35)) [
  | inr large ↦ chained ((raw_v - 35) / 2) ((raw_v - 35) % 2) (omega arith) (ground arith)
  | inl below ↦ elim (Bool-cases (leb raw_v 1)) [
    | inl small ↦ bare (ground arith)
    | inr other ↦ elim (Bool-cases (raw_v == 27)) [
      | inl e27 ↦ offset (inl (ground arith))
      | inr ne27 ↦ elim (Bool-cases (raw_v == 28)) [
        | inl e28 ↦ offset (inr (ground arith))
        | inr ne28 ↦ refused (ground arith) (ground arith) (ground arith) (ground arith)
      ]
    ]
  ]
]

-- The `v` of a signature and what it says: an accepted `v` gives a bit of 27 or 28 and, from 35 on, the
-- chain id that `to_eth_v` turns into it; else there is no chain id, and `v` is the bit, with or without
-- the 27. Only a `v` from 2 to 26 and from 29 to 34 is refused, with ValueError.
pub extract_chain_id_cases :
    (raw_v : ℕ)
    → ((chain_id : Option ℕ) × (v : ℕ) × (extract_chain_id raw_v ≡ ok (chain_id, v))
        × ((v ≡ 27) ⊎ (v ≡ 28))
        × ((to_eth_v (v - 27) chain_id ≡ raw_v) ⊎ ((chain_id ≡ none) × (raw_v + 27 ≡ v))))
      ⊎ ((extract_chain_id raw_v ≡ err value_error)
          × (1 < raw_v)
          × (raw_v < 35)
          × (raw_v ≢ 27)
          × (raw_v ≢ 28))
unfolding to_eth_v
extract_chain_id_cases raw_v = elim (RawV-kind raw_v) [
  | bare small ↦
      inl
        (none, raw_v + 27, unfold extract_chain_id in ground arith, ground arith, inr (refl, refl))
  | offset e ↦ inl (none, raw_v, unfold extract_chain_id in ground arith, e, inl (ground arith))
  | chained id v bit e ↦ inl (
    some id,
    v + 27,
    rw e (extract_chain_id-to_eth_v v (some id) bit).0,
    ground arith,
    inl (omega arith),
  )
  | refused above below ne27 ne28 ↦
      inr (unfold extract_chain_id in ground arith, above, below, ne27, ne28)
]
