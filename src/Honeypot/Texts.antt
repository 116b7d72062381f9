-- ===== src/Honeypot/Texts.antt =====
-- The loops of the contract over bytes: a number's decimal digits, and the first 32 bytes.
use sting_flashbots.Base.{
  ℕ, zero, suc, ◌+◌, ◌-◌, ◌*◌, ◌/◌, ◌%◌, ◌<◌, ◌≤◌, ◌≡◌, refl, sym, ap, ◌∙◌, List, [], ◌∷◌, ◌++◌,
  some, length, get_elem?, take, drop, replicate, append-nil, Bool-cases, inl, inr, ◌==◌, ==_iff,
  ok, arith, if◌then◌else◌,
}
use sting_flashbots.Honeypot.{
  count_digits, set_at, fill_digits, uint2str, to_bytes32_from, to_bytes32,
}

drop-get_elem? :
    (b : List ℕ) (i : ℕ)
    → i < length b
    → (x : ℕ) × (get_elem? b i ≡ some x) × (drop i b ≡ x ∷ drop (suc i) b)
drop-get_elem? [] i h = absurd (omega arith)
drop-get_elem? (x ∷ b) zero h = (x, refl, refl)
drop-get_elem? (y ∷ b) (suc i) h = drop-get_elem? b i (omega arith)

to_bytes32_from_lem :
    (left i : ℕ) (b : List ℕ)
    → i + left ≤ length b
    → to_bytes32_from left i b ≡ ok (take left (drop i b))
unfolding to_bytes32_from
to_bytes32_from_lem zero i b h = refl
to_bytes32_from_lem (suc left) i b h =
    let (x, found, rest) = drop-get_elem? b i (omega arith) in
    rw (found, to_bytes32_from_lem left (suc i) b (omega arith), rest) refl

take-whole : (b : List ℕ) → take (length b) b ≡ b
take-whole [] = refl
take-whole (x ∷ b) = ap (λ (r : List ℕ). x ∷ r) (take-whole b)

pub to_bytes32_whole : (b : List ℕ) → length b ≡ 32 → to_bytes32 b ≡ ok b
to_bytes32_whole b size =
    to_bytes32_from_lem 32 0 b (omega arith)
    ∙ ap (λ (n : ℕ). ok (take n b)) (sym size)
    ∙ ap ok (take-whole b)

-- The number of a text of decimal digits, behind a number.
abbrev pub decimal_value : ℕ → List ℕ → ℕ
decimal_value n [] = n
decimal_value n (d ∷ ds) = decimal_value (n * 10 + (d - 48)) ds

abbrev pub AreDigits : List ℕ → Type 0
AreDigits [] = Unit {0}
AreDigits (d ∷ ds) = (48 ≤ d) × (d ≤ 57) × AreDigits ds

-- The digits of a number, from the first, in front of others.
abbrev digits_before : ℕ → ℕ → List ℕ → List ℕ
digits_before zero j ds = ds
digits_before (suc fuel) j ds =
    let longer = digits_before fuel (j / 10) ((48 + j % 10) ∷ ds) in if j == 0 then ds else longer

-- The last of a positive number of zeros.
zeros_last : (k : ℕ) (ys : List ℕ) → replicate (suc k) 0 ++ ys ≡ replicate k 0 ++ (0 ∷ ys)
zeros_last zero ys = refl
zeros_last (suc k) ys = ap (λ (r : List ℕ). 0 ∷ r) (zeros_last k ys)

set_at-zeros :
    (k y : ℕ) (ys : List ℕ) → set_at (replicate k 0 ++ (0 ∷ ys)) k y ≡ replicate k 0 ++ (y ∷ ys)
set_at-zeros zero y ys = refl
set_at-zeros (suc k) y ys = ap (λ (r : List ℕ). 0 ∷ r) (set_at-zeros k y ys)

fill_digits_lem :
    (fuel j : ℕ) (ys : List ℕ)
    → j ≤ fuel
    → fill_digits fuel (count_digits fuel j) j (replicate (count_digits fuel j) 0 ++ ys)
      ≡ digits_before fuel j ys
fill_digits_lem zero j ys h = refl
fill_digits_lem (suc fuel) j ys h = elim (Bool-cases (j == 0)) [
  | inl done ↦ rw done refl
  | inr more ↦
      let count = count_digits fuel (j / 10) in
      let one_less : suc count - 1 ≡ count = omega arith in
      rw (more, one_less)
        (ap (λ (zs : List ℕ). fill_digits fuel count (j / 10) (set_at zs count (48 + j % 10)))
            (zeros_last count ys)
          ∙ ap (λ (zs : List ℕ). fill_digits fuel count (j / 10) zs)
              (set_at-zeros count (48 + j % 10) ys)
          ∙ fill_digits_lem fuel (j / 10) ((48 + j % 10) ∷ ys) (omega arith))
]

digits_before_value :
    (fuel j : ℕ) (ys : List ℕ)
    → j ≤ fuel
    → decimal_value 0 (digits_before fuel j ys) ≡ decimal_value j ys
digits_before_value zero j ys h = ap (λ (n : ℕ). decimal_value n ys) (omega arith)
digits_before_value (suc fuel) j ys h = elim (Bool-cases (j == 0)) [
  | inl done ↦ let j_is : j ≡ 0 = (==_iff j 0).0 done in rw (done, j_is) refl
  | inr more ↦ rw more (
      digits_before_value fuel (j / 10) ((48 + j % 10) ∷ ys) (omega arith)
      ∙ ap (λ (n : ℕ). decimal_value n ys) (omega arith))
]

digits_before-AreDigits :
    (fuel j : ℕ) (ys : List ℕ) → AreDigits ys → AreDigits (digits_before fuel j ys)
digits_before-AreDigits zero j ys h = h
digits_before-AreDigits (suc fuel) j ys h = elim (Bool-cases (j == 0)) [
  | inl done ↦ rw done h
  | inr more ↦
      rw more
        (digits_before-AreDigits fuel (j / 10) ((48 + j % 10) ∷ ys) (omega arith, omega arith, h))
]

-- The text that is made of a number has decimal digits, and they read as that number.
pub decimal_value-uint2str : (n : ℕ) → AreDigits (uint2str n) × (decimal_value 0 (uint2str n) ≡ n)
unfolding uint2str
decimal_value-uint2str n = elim (Bool-cases (n == 0)) [
  | inl none_left ↦
      let n_is : n ≡ 0 = (==_iff n 0).0 none_left in
      rw none_left ((omega arith, omega arith, tt), sym n_is)
  | inr more ↦
      let filled =
        ap (λ (zs : List ℕ). fill_digits n (count_digits n n) n zs)
          (sym (append-nil (replicate (count_digits n n) 0)))
        ∙ fill_digits_lem n n [] (omega arith) in
      rw (more, filled)
        (digits_before-AreDigits n n [] tt, digits_before_value n n [] (omega arith))
]
