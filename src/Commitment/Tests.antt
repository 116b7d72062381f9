-- ===== src/Commitment/Tests.antt =====
-- The theorems on multiples and integers at concrete inputs.
use sting_flashbots.Base.{
  replicate, some, true, zero, suc, ◌%◌, ◌-◌, ◌*◌, ◌==◌, ◌<◌, ◌≢◌, ◌⊎◌, inl, inr, ℕ, ◌+◌, ◌≡◌,
  arith, ok, length, ◌^◌, List, [], ◌∷◌, ◌++◌, append-nil, append_assoc, refl,
}
use sting_flashbots.Commitment.{uint256_to_str, uint256_from_str, Group, GroupLaws, mult}
use sting_flashbots.Commitment.Multiples.{multiple, mult-times}
use sting_flashbots.Commitment.Integers.{uint256_from_str-uint256_to_str}
use sting_flashbots.Commitment.Random.{
  RangeLaws, IsTried, make_random_point, make_random_point_returns,
}
use sting_flashbots.Commitment.{unpack_words}
use sting_flashbots.Commitment.Points.{sqrt, solve, Field, FieldLaws, ser, deser}
use sting_flashbots.Commitment.Points.Text.{deser-ser}

-- Lists under concatenation show in which order points are added.
abbrev words : Group (List ℕ)
words = record { identity = []; plus = λ a b. a ++ b }

words-laws : GroupLaws words
words-laws = record {
  identity-plus = λ a. refl;
  plus-identity = λ a. append-nil a;
  plus_assoc = λ a b d. append_assoc a b d;
}

mult-times_example : mult words 5 (1 ∷ 2 ∷ []) ≡ multiple words 5 (1 ∷ 2 ∷ [])
mult-times_example = mult-times words words-laws 5 (1 ∷ 2 ∷ [])

uint256_from_str-uint256_to_str_example :
    (bytes : List ℕ) × (uint256_to_str (2 ^ 255 + 7) ≡ ok bytes)
    × (length bytes ≡ 32)
    × (uint256_from_str (bytes ++ (1 ∷ [])) ≡ ok (2 ^ 255 + 7))
uint256_from_str-uint256_to_str_example =
    uint256_from_str-uint256_to_str (2 ^ 255 + 7) (1 ∷ []) (omega arith)

-- The field of seven elements, with -1 = 6: (2, 6) lies on y² = x³ + 7.
abbrev pub small_field : Field
small_field = record {
  q = 7;
  minus_one = 6;
  neg = λ y. (7 - y) % 7;
  times = λ a b. a * b % 7;
  power = λ a e. a ^ e % 7;
  curve_side = λ x. (x ^ 3 + 7) % 7;
  test_point = λ x y. y * y % 7 == (x ^ 3 + 7) % 7;
}

-- For each element: its negative has its square, which the power 3 takes to no -1 and the power 2 to a root.
IsFine : ℕ → Type 0
IsFine y =
    ((7 - y) % 7 * ((7 - y) % 7) % 7 ≡ y * y % 7)
    × ((y * y % 7) ^ 3 % 7 ≢ 6)
    × (((y * y % 7) ^ 2 % 7 ≡ y) ⊎ ((y * y % 7) ^ 2 % 7 ≡ (7 - y) % 7))

fine : (y : ℕ) → y < 7 → IsFine y
unfolding IsFine
fine zero h = (refl, λ e. omega (arith, e), inl refl)
fine (suc zero) h = (refl, λ e. omega (arith, e), inl refl)
fine (suc (suc zero)) h = (refl, λ e. omega (arith, e), inl refl)
fine (suc (suc (suc zero))) h = (refl, λ e. omega (arith, e), inr refl)
fine (suc (suc (suc (suc zero)))) h = (refl, λ e. omega (arith, e), inl refl)
fine (suc (suc (suc (suc (suc zero))))) h = (refl, λ e. omega (arith, e), inr refl)
fine (suc (suc (suc (suc (suc (suc zero)))))) h = (refl, λ e. omega (arith, e), inr refl)
fine (suc (suc (suc (suc (suc (suc (suc y))))))) h = absurd (omega arith)

pub small_field-laws : FieldLaws small_field
unfolding IsFine
small_field-laws = record {
  order = (refl, omega arith);
  neg_lem = λ y h. refl;
  test_point_lem = λ x y. refl;
  times-neg = λ y h. (fine y h).0;
  legendre_lem = λ y h. (fine y h).1;
  root_lem = λ y h. (fine y h).2;
}

deser-ser_example :
    (s : List ℕ) × (ser small_field (2, 6) ≡ ok s)
    × (length s ≡ 66)
    × (deser small_field s ≡ ok (2, 6))
deser-ser_example = deser-ser small_field small_field-laws 2 6 (omega arith) (omega arith) refl

small_ranges : RangeLaws small_field
small_ranges = record { power_below = λ a e. omega arith; neg_below = λ y. omega arith }

-- The number 3 has no point in the small field, and 2 has one.
abbrev drawn_number : ℕ → ℕ
drawn_number zero = 3
drawn_number (suc i) = 2

abbrev draws : ℕ → List ℕ
draws i = drawn_number i ∷ replicate 31 0

drawn : (j : ℕ) → uint256_from_str (draws j) ≡ ok (drawn_number j)
unfolding uint256_from_str unpack_words
drawn zero = refl
drawn (suc j) = refl

tried : (j : ℕ) → IsTried small_field (drawn_number j)
unfolding solve sqrt
tried zero = inr refl
tried (suc j) = inl ((2, 1), refl)

second_found : solve small_field 2 ≡ ok (2, 1)
unfolding solve sqrt
second_found = refl

make_random_point_returns_example :
    (found : ℕ × ℕ) × (make_random_point small_field 2 draws 8 ≡ ok (some found))
    × (small_field.test_point found.0 found.1 ≡ true)
make_random_point_returns_example =
    make_random_point_returns small_field small_field-laws small_ranges 1 draws drawn_number 8 drawn
      tried (2, 1) second_found
