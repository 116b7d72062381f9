-- ===== src/Commitment/Points/Text.antt =====
-- A point is read back from its text.
use sting_flashbots.Base.{
  ℕ, zero, suc, ◌+◌, ◌-◌, ◌*◌, ◌/◌, ◌%◌, ◌<◌, ◌≡◌, ◌⊎◌, refl, sym, ap, ◌∙◌, arith, List, [], ◌∷◌,
  true, false, ltb, lt→ltb, ◌==◌, ◌||◌, if◌then◌else◌, length, append-nil, ok, inl, inr, subst,
  Bool-cases, All, ==_refl,
}
use sting_flashbots.Commitment.{uint256_from_str}
use sting_flashbots.Commitment.Integers.{uint256_from_str-uint256_to_str, uint256_to_str_bytes}
use native.Mathlib.Nat.{mod_self, mod-eq_of_lt}
use sting_flashbots.Commitment.Points.{Field, FieldLaws, to_hex, fromhex, sqrt, solve, ser, deser}

pub fromhex-to_hex : (bs : List ℕ) → All (λ b. b < 256) bs → fromhex (to_hex bs) ≡ ok bs
unfolding fromhex to_hex
fromhex-to_hex [] h = refl
fromhex-to_hex (b ∷ bs) (lt, h) =
    let high : ltb (b / 16) 16 ≡ true = lt→ltb (b / 16) 16 (omega arith) in
    let low : ltb (b % 16) 16 ≡ true = lt→ltb (b % 16) 16 (omega arith) in
    let whole : b / 16 * 16 + b % 16 ≡ b = omega arith in
    rw (high, low, fromhex-to_hex bs h, whole) refl

length-to_hex : (bs : List ℕ) → length (to_hex bs) ≡ 2 * length bs
unfolding to_hex
length-to_hex [] = refl
length-to_hex (b ∷ bs) = omega (arith, length-to_hex bs)

minus_zero : (n : ℕ) → n - 0 ≡ n
minus_zero n = omega arith

module _ (f : Field) (laws : FieldLaws f) where
  neg_cases : (y : ℕ) → y < f.q → ((y ≡ 0) × (f.neg y ≡ 0)) ⊎ ((0 < y) × (f.neg y ≡ f.q - y))
  neg_cases zero lt =
      inl (refl, laws.neg_lem 0 lt ∙ ap (λ m. m % f.q) (minus_zero f.q) ∙ mod_self f.q)
  neg_cases (suc y) lt = inr (omega arith, laws.neg_lem (suc y) lt ∙ mod-eq_of_lt (omega arith))

  neg_neg : (y : ℕ) → y < f.q → f.neg (f.neg y) ≡ y
  neg_neg y lt = elim (neg_cases y lt) [
    | inl (zero_y, neg_zero) ↦ ap f.neg neg_zero ∙ ap f.neg (sym zero_y) ∙ neg_zero ∙ sym zero_y
    | inr (pos, negated) ↦ elim (neg_cases (f.q - y) (omega arith)) [
      | inl (whole, _) ↦ absurd (omega arith)
      | inr (_, back) ↦ ap f.neg negated ∙ back ∙ (omega arith)
    ]
  ]

  neg_flips : (y : ℕ) → 0 < y → y < f.q → f.neg y ≡ f.q - y → f.neg y % 2 ≡ 1 - y % 2
  neg_flips y pos lt e = let (order, _) = laws.order in omega arith

  -- The odd one of a number and its negative.
  odd_of :
      (y root : ℕ)
      → y < f.q
      → (root ≡ y) ⊎ (root ≡ f.neg y)
      → (if root % 2 == 0 then f.neg root else root) ≡ (if y % 2 == 0 then f.neg y else y)
  odd_of y root lt (inl e) = rw e refl
  odd_of y root lt (inr e) = elim (neg_cases y lt) [
    | inl (zero_y, neg_zero) ↦ (let same : root ≡ y = e ∙ neg_zero ∙ sym zero_y in rw same refl)
    | inr (pos, negated) ↦
        (let flip = neg_flips y pos lt negated in
          let back = neg_neg y lt in rw e (ground (arith, flip, back)))
  ]

  sign_back :
      (y : ℕ)
      → y < f.q
      → (if (if y % 2 == 0 then 1 else 0) == 0
          then (if y % 2 == 0 then f.neg y else y)
          else f.neg (if y % 2 == 0 then f.neg y else y))
        ≡ y
  sign_back y lt = let back = neg_neg y lt in ground (arith, back)

  times_either :
      (y root : ℕ) → y < f.q → (root ≡ y) ⊎ (root ≡ f.neg y) → f.times root root ≡ f.times y y
  times_either y root lt (inl e) = rw e refl
  times_either y root lt (inr e) = rw e (laws.times-neg y lt)

  odd_either :
      (y : ℕ)
      → ((if y % 2 == 0 then f.neg y else y) ≡ y) ⊎ ((if y % 2 == 0 then f.neg y else y) ≡ f.neg y)
  odd_either y = elim (Bool-cases (y % 2 == 0)) [
    | inl even ↦ inr (rw even refl)
    | inr odd ↦ inl (rw odd refl)
  ]

  sqrt_lem : (y : ℕ) → y < f.q → sqrt f (f.times y y) ≡ ok (f.power (f.times y y) ((f.q + 1) / 4))
  unfolding sqrt
  sqrt_lem y lt =
      let (order, _) = laws.order in
      let first : ((f.q - 1) % 2 == 0) ≡ true = ground arith in
      let second : ((f.q + 1) % 4 == 0) ≡ true = ground arith in
      let differ : (f.power (f.times y y) ((f.q - 1) / 2) == f.minus_one) ≡ false =
        ground (arith, laws.legendre_lem y lt) in
      rw (first, second, differ) refl

  -- `solve` finds the odd one of the two points over `x`.
  solve_lem :
      (x y : ℕ)
      → y < f.q
      → f.test_point x y ≡ true
      → solve f x ≡ ok (x, if y % 2 == 0 then f.neg y else y)
  unfolding solve
  solve_lem x y lt on =
      let side : f.curve_side x ≡ f.times y y =
        (let h = sym (laws.test_point_lem x y) ∙ on in ground arith) in
      let root = f.power (f.times y y) ((f.q + 1) / 4) in
      let square = times_either y root lt (laws.root_lem y lt) in
      let sel = (if y % 2 == 0 then f.neg y else y) in
      let sel_square = times_either y sel lt (odd_either y) in
      let passes : f.test_point x sel ≡ true =
        laws.test_point_lem x sel ∙ rw (sel_square, side) (==_refl (f.times y y)) in
      rw
        (
          side,
          sqrt_lem y lt,
          square,
          ==_refl (f.times y y),
          odd_of y root lt (laws.root_lem y lt),
          passes,
        )
        refl

-- The text of a point: the number 0 or 1 that says whether `y` is even, then the bytes of `x`.
abbrev sign_of : ℕ → ℕ
sign_of y = if y % 2 == 0 then 1 else 0

sign_digit : (y : ℕ) → (ltb (sign_of y) 16 ≡ true) × ((sign_of y == 0 || sign_of y == 1) ≡ true)
sign_digit y = (ground arith, ground arith)

no_front : (n : ℕ) → 0 * 16 + n ≡ n
no_front n = omega arith

deser_text :
    (f : Field)
    → FieldLaws f
    → (x y : ℕ) (bytes : List ℕ) → x < f.q
    → y < f.q
    → f.test_point x y ≡ true
    → length bytes ≡ 32
    → All (λ b. b < 256) bytes
    → uint256_from_str bytes ≡ ok x
    → deser f (0 ∷ sign_of y ∷ to_hex bytes) ≡ ok (x, y)
unfolding deser fromhex
deser_text f laws x y bytes hx hy on size small read =
    let (digit, sign_ok) = sign_digit y in
    rw
      (
        digit,
        fromhex-to_hex bytes small,
        no_front (sign_of y),
        size,
        sign_ok,
        read,
        lt→ltb x f.q hx,
        solve_lem f laws x y hy on,
      )
      (ap (λ m. ok (x, m)) (sign_back f laws y hy))

-- A point of the curve is written as 66 hexadecimal digits, from which the same point is read.
pub deser-ser :
    (f : Field)
    → FieldLaws f
    → (x y : ℕ) → x < f.q
    → y < f.q
    → f.test_point x y ≡ true
    → (s : List ℕ) × (ser f (x, y) ≡ ok s) × (length s ≡ 66) × (deser f s ≡ ok (x, y))
unfolding ser
deser-ser f laws x y hx hy on =
    let (_, fits) = laws.order in
    let (bytes, written, size, read) = uint256_from_str-uint256_to_str x [] (omega arith) in
    let digits : length (to_hex bytes) ≡ 64 = omega (arith, length-to_hex bytes) in
    (
      0 ∷ sign_of y ∷ to_hex bytes,
      rw (on, written, digits) refl,
      omega (arith, digits),
      deser_text f laws x y bytes hx hy on size (uint256_to_str_bytes x bytes written)
          (subst (λ bs. uint256_from_str bs ≡ ok x) (append-nil bytes) read),
    )
