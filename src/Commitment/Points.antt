-- ===== src/Commitment/Points.antt =====
-- The points of the curve as text: sqrt, solve, ser and deser of
-- searcher/src/enclave/lib/commitment/secp256k1.py. An element of the field `Fq` is its number `n`, a string of
-- hexadecimal digits the list of the digits' values. The field's operations are parameters.
pub mod Text
use sting_flashbots.Base.{
  ℕ, zero, suc, ◌+◌, ◌-◌, ◌*◌, ◌/◌, ◌%◌, ◌^◌, ◌<◌, ◌≤◌, ◌≡◌, ◌≢◌, ◌⊎◌, refl, sym, ap, ◌∙◌, arith,
  List, [], ◌∷◌, Bool, true, false, ltb, lt→ltb, ◌==◌, ◌&&◌, ◌||◌, if◌then◌else◌, length, get_elem?,
  drop, append-nil, Result, ok, err, value_error, index_error, or_raise, guard, assert, ◌>>=◌, ◌>>◌,
  inl, inr, subst, Bool-cases, All, ==_refl,
}
use sting_flashbots.Commitment.{uint256_to_str, uint256_from_str}
use sting_flashbots.Commitment.Integers.{uint256_from_str-uint256_to_str, uint256_to_str_bytes}
use native.Mathlib.Nat.{mod_self, mod-eq_of_lt}

-- The vendored field with its modulus `q`; `curve_side x` is `x**3 + 7`.
pub record Field : Type 0 where
  pub q : ℕ
  pub minus_one : ℕ
  pub neg : ℕ → ℕ
  pub times : ℕ → ℕ → ℕ
  pub power : ℕ → ℕ → ℕ
  pub curve_side : ℕ → ℕ
  pub test_point : ℕ → ℕ → Bool

-- The field has odd order, its numbers fit 32 bytes, and for a square the two powers of `sqrt` are not -1 and
-- one of the roots (`q` is 3 mod 4).
pub record FieldLaws (f : Field) : Type 0 where
  pub order : (f.q % 4 ≡ 3) × (f.q ≤ 2 ^ 256)
  pub neg_lem : (y : ℕ) → y < f.q → f.neg y ≡ (f.q - y) % f.q
  pub test_point_lem : (x y : ℕ) → f.test_point x y ≡ (f.times y y == f.curve_side x)
  pub times-neg : (y : ℕ) → y < f.q → f.times (f.neg y) (f.neg y) ≡ f.times y y
  pub legendre_lem : (y : ℕ) → y < f.q → f.power (f.times y y) ((f.q - 1) / 2) ≢ f.minus_one
  pub root_lem :
      (y : ℕ)
      → y < f.q
      → (f.power (f.times y y) ((f.q + 1) / 4) ≡ y)
        ⊎ (f.power (f.times y y) ((f.q + 1) / 4) ≡ f.neg y)

-- `bytes.hex` and `bytes.fromhex`
unfoldable pub to_hex : List ℕ → List ℕ
to_hex [] = []
to_hex (b ∷ bs) = b / 16 ∷ b % 16 ∷ to_hex bs

unfoldable pub fromhex : List ℕ → Result (List ℕ)
fromhex [] = ok []
fromhex (d ∷ []) = err value_error
fromhex (d ∷ e ∷ ds) = do
  guard (ltb d 16 && ltb e 16) value_error
  rest ← fromhex ds
  ok ((d * 16 + e) ∷ rest)

module _ (f : Field) where
  unfoldable pub sqrt : ℕ → Result ℕ
  sqrt a = do
    assert ((f.q - 1) % 2 == 0 && (f.q + 1) % 4 == 0)
    let legendre = f.power a ((f.q - 1) / 2)
    guard (if legendre == f.minus_one then false else true) value_error
    ok (f.power a ((f.q + 1) / 4))

  -- The point with an odd `y`.
  unfoldable pub solve : ℕ → Result (ℕ × ℕ)
  solve x = do
    y ← sqrt (f.curve_side x)
    assert (f.times y y == f.curve_side x)
    let odd_y = if y % 2 == 0 then f.neg y else y
    guard (f.test_point x odd_y) value_error
    ok (x, odd_y)

  unfoldable pub ser : ℕ × ℕ → Result (List ℕ)
  ser (x, y) = do
    assert (f.test_point x y)
    let sign : ℕ = if y % 2 == 0 then 1 else 0
    x_bytes ← uint256_to_str x
    let s = 0 ∷ sign ∷ to_hex x_bytes
    assert (length s == 66)
    ok s

  unfoldable pub deser : List ℕ → Result (ℕ × ℕ)
  deser text = do
    s ← fromhex text
    assert (length s == 33)
    sign ← or_raise (get_elem? s 0) index_error
    assert (sign == 0 || sign == 1)
    x ← uint256_from_str (drop 1 s)
    assert (ltb x f.q)
    (px, py) ← solve x
    ok (px, if sign == 0 then py else f.neg py)
