-- ===== src/Commitment/Random.antt =====
-- make_random_point of searcher/src/enclave/lib/commitment/secp256k1.py. The random bytes are arguments: the 32
-- bytes of each round, and the one byte that is drawn last.
use sting_flashbots.Base.{
  ℕ, zero, suc, ◌+◌, ◌-◌, ◌/◌, ◌%◌, ◌<◌, ◌≡◌, ◌⊎◌, inl, inr, refl, sym, ap, ◌∙◌, subst, true, false,
  List, Option, none, some, Bool-cases, ◌==◌, ◌&&◌, Result, ok, err, value_error, guard,
  guard-eq-ok, assert, >>=-eq-ok, ok-injective, ◌>>=◌, if◌then◌else◌, arith,
}
use sting_flashbots.Commitment.{uint256_from_str}
use sting_flashbots.Commitment.Points.{Field, FieldLaws, sqrt, solve}

-- `except ValueError`
abbrev pub on_value_error {ℓ} : {A : Type ℓ} → Result A → Result A → Result A
on_value_error (err value_error) handler = handler
on_value_error other handler = other

module _ (f : Field) where
  -- The rejection loop from round `i` on; on fuel, for a loop that may never end.
  unfoldable pub sample_point : ℕ → (ℕ → List ℕ) → ℕ → Result (Option (ℕ × ℕ))
  sample_point zero draws i = ok none
  sample_point (suc fuel) draws i = do
    let rest = sample_point fuel draws (suc i)
    x ← uint256_from_str (draws i)
    on_value_error (do point ← solve f (x % f.q); ok (some point)) rest

  abbrev pub flip_point : ℕ → ℕ × ℕ → ℕ × ℕ
  flip_point last_byte point = if last_byte % 2 == 0 then (point.0, f.neg point.1) else point

  unfoldable pub make_random_point : ℕ → (ℕ → List ℕ) → ℕ → Result (Option (ℕ × ℕ))
  make_random_point fuel draws last_byte = do
    found ← sample_point fuel draws 0
    ok (elim found [ none ↦ none | some point ↦ some (flip_point last_byte point) ])

-- The field's operations give numbers below its order.
pub record RangeLaws (f : Field) : Type 0 where
  pub power_below : (a e : ℕ) → f.power a e < f.q
  pub neg_below : (y : ℕ) → f.neg y < f.q

sqrt_below : (f : Field) → RangeLaws f → (a y : ℕ) → sqrt f a ≡ ok y → y < f.q
unfolding sqrt
sqrt_below f ranges a y h =
    let (_, _, h1) = >>=-eq-ok (assert ((f.q - 1) % 2 == 0 && (f.q + 1) % 4 == 0)) _ h in
    let (_, _, h2) =
      >>=-eq-ok
        (guard (if f.power a ((f.q - 1) / 2) == f.minus_one then false else true) value_error) _
        h1 in
    subst (λ n. n < f.q) (ok-injective h2) (ranges.power_below a ((f.q + 1) / 4))

abbrev IsPoint : Field → ℕ × ℕ → Type 0
IsPoint f point = (f.test_point point.0 point.1 ≡ true) × (point.1 < f.q)

solve-IsPoint :
    (f : Field) → RangeLaws f → (x : ℕ) (point : ℕ × ℕ) → solve f x ≡ ok point → IsPoint f point
unfolding solve
solve-IsPoint f ranges x point h =
    let (y, y_is, h1) = >>=-eq-ok (sqrt f (f.curve_side x)) _ h in
    let (_, _, h2) = >>=-eq-ok (assert (f.times y y == f.curve_side x)) _ h1 in
    let odd_y = if y % 2 == 0 then f.neg y else y in
    let (_, passed, h3) = >>=-eq-ok (guard (f.test_point x odd_y) value_error) _ h2 in
    subst (IsPoint f) (ok-injective h3)
      (guard-eq-ok _ _ passed, odd_below y (sqrt_below f ranges (f.curve_side x) y y_is))
  where
    odd_below : (y : ℕ) → y < f.q → (if y % 2 == 0 then f.neg y else y) < f.q
    odd_below y below = elim (Bool-cases (y % 2 == 0)) [
      | inl even ↦ rw even (ranges.neg_below y)
      | inr odd ↦ rw odd below
    ]

flip_point-IsPoint :
    (f : Field)
    → FieldLaws f
    → RangeLaws f
    → (last_byte : ℕ) (point : ℕ × ℕ) → IsPoint f point
    → f.test_point (flip_point f last_byte point).0 (flip_point f last_byte point).1 ≡ true
flip_point-IsPoint f laws ranges last_byte point (on, below) =
    elim (Bool-cases (last_byte % 2 == 0)) [
      | inl even ↦ rw even (
          laws.test_point_lem point.0 (f.neg point.1)
          ∙ ap (λ s. s == f.curve_side point.0) (laws.times-neg point.1 below)
          ∙ sym (laws.test_point_lem point.0 point.1)
          ∙ on)
      | inr odd ↦ rw odd on
    ]

-- A round's number gives a point, or ValueError is raised for it.
abbrev pub IsTried : Field → ℕ → Type 0
IsTried f x =
    ((point : ℕ × ℕ) × (solve f (x % f.q) ≡ ok point)) ⊎ (solve f (x % f.q) ≡ err value_error)

sample_point_found :
    (f : Field)
    → RangeLaws f
    → (more : ℕ) (draws : ℕ → List ℕ) (xs : ℕ → ℕ) (i : ℕ)
    → ((j : ℕ) → uint256_from_str (draws j) ≡ ok (xs j))
    → ((j : ℕ) → IsTried f (xs j))
    → (point : ℕ × ℕ) → solve f (xs (i + more) % f.q) ≡ ok point
    → (found : ℕ × ℕ) × (sample_point f (suc more) draws i ≡ ok (some found)) × IsPoint f found
unfolding sample_point
sample_point_found f ranges zero draws xs i drawn tried point good =
    let same : xs (i + 0) ≡ xs i = ap xs (omega arith) in
    let now = subst (λ x. solve f (x % f.q) ≡ ok point) same good in
    (point, rw (drawn i, now) refl, solve-IsPoint f ranges (xs i % f.q) point now)
sample_point_found f ranges (suc more) draws xs i drawn tried point good = elim (tried i) [
  | inl (found, solved) ↦
      (found, rw (drawn i, solved) refl, solve-IsPoint f ranges (xs i % f.q) found solved)
  | inr missed ↦
      let same : xs (i + suc more) ≡ xs (suc i + more) = ap xs (omega arith) in
      let later = subst (λ x. solve f (x % f.q) ≡ ok point) same good in
      rw (drawn i, missed)
        (sample_point_found f ranges more draws xs (suc i) drawn tried point later)
]

-- Draws of 32 bytes, each of whose numbers gives a point or raises ValueError, and of which number `more` gives a
-- point: with fuel for them the function returns a point, and it is on the curve, whatever the last byte is.
pub make_random_point_returns :
    (f : Field)
    → FieldLaws f
    → RangeLaws f
    → (more : ℕ) (draws : ℕ → List ℕ) (xs : ℕ → ℕ) (last_byte : ℕ)
    → ((j : ℕ) → uint256_from_str (draws j) ≡ ok (xs j))
    → ((j : ℕ) → IsTried f (xs j))
    → (point : ℕ × ℕ) → solve f (xs more % f.q) ≡ ok point
    → (found : ℕ × ℕ) × (make_random_point f (suc more) draws last_byte ≡ ok (some found))
      × (f.test_point found.0 found.1 ≡ true)
unfolding make_random_point
make_random_point_returns f laws ranges more draws xs last_byte drawn tried point good =
    let (found, sampled, is_point) =
      sample_point_found f ranges more draws xs 0 drawn tried point
        (subst (λ j. solve f (xs j % f.q) ≡ ok point) (omega arith) good) in
    (
      flip_point f last_byte found,
      rw sampled refl,
      flip_point-IsPoint f laws ranges last_byte found is_point,
    )
