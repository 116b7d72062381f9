-- ===== src/Enclave/Turns.antt =====
-- The rounds in which an account's turn comes, for the senders of `generate_signed_txs`.
use sting_flashbots.Base.{
  ℕ, zero, suc, ◌+◌, ◌/◌, ◌%◌, ◌<◌, ◌≡◌, ◌⊎◌, refl, ap, ◌∙◌, ◌==◌, if◌then◌else◌, ltb, arith, Bool,
  false, Bool-cases, inl, inr, List, none, some, get_elem?, length, bytes_eq, Option-cases,
  bytes_eq→eq, bytes_eq_refl,
}
use native.Mathlib.Nat.{
  mod-lt, suc-mod, mod_self, mod-eq_of_lt, zero-mod, zero-div, div-add-mod', div-eq_of_lt-le,
}

-- The rounds before `i` whose number leaves `k`.
abbrev residue_count : ℕ → ℕ → ℕ → ℕ
residue_count n k zero = 0
residue_count n k (suc i) =
    let before = residue_count n k i in if i % n == k then suc before else before

same_turn : (i n : ℕ) → suc (i % n) < n → (suc i / n ≡ i / n) × (suc i % n ≡ suc (i % n))
same_turn i n below =
    let whole = div-add-mod' i n in
    (
      div-eq_of_lt-le n {m = suc i} (grind (arith, whole)) (grind (arith, whole, below)),
      suc-mod i n ∙ mod-eq_of_lt below,
    )

next_turn : (i n : ℕ) → 0 < n → suc (i % n) ≡ n → (suc i / n ≡ suc (i / n)) × (suc i % n ≡ 0)
next_turn i n pos last =
    let whole = div-add-mod' i n in
    (
      div-eq_of_lt-le n {m = suc i} (grind (arith, whole, last)) (grind (arith, whole, last, pos)),
      suc-mod i n ∙ ap (λ r. r % n) last ∙ mod_self n,
    )

count_step :
    (k n q r : ℕ)
    → k < n
    → (suc r < n)
    → (if r == k then suc (q + (if ltb k r then 1 else 0)) else (q + (if ltb k r then 1 else 0)))
      ≡ q + (if ltb k (suc r) then 1 else 0)
count_step k n q r below more = ground arith

count_wrap :
    (k n q r : ℕ)
    → k < n
    → suc r ≡ n
    → (if r == k then suc (q + (if ltb k r then 1 else 0)) else (q + (if ltb k r then 1 else 0)))
      ≡ suc q + (if ltb k 0 then 1 else 0)
count_wrap k n q r below last = ground arith

residue_count_lem :
    (n k i : ℕ) → k < n → residue_count n k i ≡ i / n + (if ltb k (i % n) then 1 else 0)
residue_count_lem n k zero below = rw (zero-div n, zero-mod n) (ground arith)
residue_count_lem n k (suc i) below =
    let rest = residue_count_lem n k i below in
    let inside : i % n < n = mod-lt i {m = n} (omega arith) in
    elim (split inside) [
      | inl more ↦
          let (quotient, residue) = same_turn i n more in
          rw (rest, quotient, residue) (count_step k n (i / n) (i % n) below more)
      | inr last ↦
          let (quotient, residue) = next_turn i n (omega arith) last in
          rw (rest, quotient, residue) (count_wrap k n (i / n) (i % n) below last)
    ]
  where
    split : {r : ℕ} → r < n → (suc r < n) ⊎ (suc r ≡ n)
    split {r = r} h = ground arith

module _ {Account : Type 0} (address : Account → List ℕ) (senders : List Account) where
  -- It is the turn in round `i` of a sender with the address.
  abbrev is_turn : List ℕ → ℕ → Bool
  is_turn from i = elim (get_elem? senders (i % length senders)) [
    | none ↦ false
    | some sender ↦ bytes_eq (address sender) from
  ]

  -- The rounds before `i` in which it is.
  abbrev pub turn_count : List ℕ → ℕ → ℕ
  turn_count from zero = 0
  turn_count from (suc i) =
      let before = turn_count from i in if is_turn from i then suc before else before

  -- No two senders have the same address.
  abbrev pub AreDistinct : Type 0
  AreDistinct =
      (j k : ℕ) (a b : Account)
      → get_elem? senders j ≡ some a
      → get_elem? senders k ≡ some b
      → address a ≡ address b
      → j ≡ k

  is_turn_lem :
      AreDistinct
      → (k j : ℕ) (sender : Account) → get_elem? senders k ≡ some sender
      → is_turn (address sender) j ≡ (j % length senders == k)
  is_turn_lem distinct k j sender at = elim (Bool-cases (j % length senders == k)) [
    | inl now ↦
        let same : j % length senders ≡ k = ground arith in
        rw (now, is_turn, same, at) (bytes_eq_refl (address sender))
    | inr later ↦ rw later (not_now later (Option-cases (get_elem? senders (j % length senders))))
  ]
    where
      not_now :
          (j % length senders == k) ≡ false
          → (get_elem? senders (j % length senders) ≡ none)
            ⊎ ((other : Account) × (get_elem? senders (j % length senders) ≡ some other))
          → is_turn (address sender) j ≡ false
      not_now later (inl missing) = rw (is_turn, missing) refl
      not_now later (inr (other, found)) =
          rw (is_turn, found)
            (elim (Bool-cases (bytes_eq (address other) (address sender))) [
              | inr differ ↦ differ
              | inl equal ↦
                  let same : j % length senders ≡ k =
                    distinct (j % length senders) k other sender found at
                      (bytes_eq→eq (address other) (address sender) equal) in
                  absurd (ground (arith, same, later))
            ])

  turn_count-residue_count :
      AreDistinct
      → (k i : ℕ) (sender : Account) → get_elem? senders k ≡ some sender
      → turn_count (address sender) i ≡ residue_count (length senders) k i
  turn_count-residue_count distinct k zero sender at = refl
  turn_count-residue_count distinct k (suc i) sender at =
      rw (is_turn_lem distinct k i sender at, turn_count-residue_count distinct k i sender at) refl

  -- With the turns in order, each sender has one among as many rounds as there are senders.
  pub turn_count_lem :
      AreDistinct
      → 0 < length senders
      → (i : ℕ) (sender : Account) → get_elem? senders (i % length senders) ≡ some sender
      → turn_count (address sender) i ≡ i / length senders
  turn_count_lem distinct pos i sender at =
      let n = length senders in
      turn_count-residue_count distinct (i % n) i sender at
      ∙ residue_count_lem n (i % n) i (mod-lt i {m = n} pos)
      ∙ itself (i % n) (i / n)
    where
      itself : (r q : ℕ) → q + (if ltb r r then 1 else 0) ≡ q
      itself r q = ground arith
