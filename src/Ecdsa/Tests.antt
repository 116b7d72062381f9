-- ===== src/Ecdsa/Tests.antt =====
-- A group of seven elements in the place of the curve, and the theorems at concrete inputs.
use sting_flashbots.Base.{
  ◌==◌, inr, ◌⊎◌, ℕ, zero, suc, ◌+◌, ◌-◌, ◌*◌, ◌%◌, ◌^◌, ◌≤◌, ◌<◌, ◌≡◌, ◌≢◌, inl, refl, sym, ap,
  ◌∙◌, List, [], ◌∷◌, ◌++◌, arith, true, replicate, ok,
}
use sting_flashbots.Ecdsa.Recover.{JacobianLaws}
use sting_flashbots.Ecdsa.{
  Jacobian, PointXy, Curve, CurveLaws, nonce, s_raw_of, ecdsa_raw_sign, ecdsa_raw_verify,
  private_key_to_public_key, encode_raw_public_key, compress_public_key, decompress_public_key,
  square_root, pow, pow_loop,
}
use sting_flashbots.Ecdsa.Arith.{mul-mod_left}
use sting_flashbots.Ecdsa.Verify.{ecdsa_raw_verify-ecdsa_raw_sign}
use sting_flashbots.Ecdsa.Ranges.{ecdsa_raw_sign_ranges}
use sting_flashbots.Ecdsa.Compress.{decompress_public_key-compress_public_key}

-- The multiple with index `i` stands at (i², i): opposite indices share the first coordinate.
abbrev at : ℕ → PointXy
at i = (i % 7 * (i % 7) % 7, i % 7)

abbrev pub value_of : ℕ → List ℕ → ℕ
value_of acc [] = acc
value_of acc (b ∷ bs) = value_of (acc * 256 + b) bs

abbrev pub small_curve : Curve
small_curve = record {
  n = 7;
  p = 7;
  a = 1;
  b = 6;
  g = (1, 1);
  inv = λ x m. (x % 7) ^ 5 % 7;
  fast_multiply = λ q k. at (q.1 * k);
  fast_add = λ q r. at (q.1 + r.1);
  jacobian_multiply = λ q k. (q.1 * k % 7 * (q.1 * k % 7) % 7, q.1 * k % 7, 1);
  jacobian_add = λ q r. ((q.1 + r.1) % 7 * ((q.1 + r.1) % 7) % 7, (q.1 + r.1) % 7, 1);
  is_identity = λ q. q.1 == 0;
  from_jacobian = λ q. (q.0, q.1);
  big_endian_to_int = value_of 0;
  int_to_big_endian = λ x. x ∷ [];
  pad32 = λ bs. replicate 31 0 ++ bs;
  hmac_digest = λ key m. key ++ m;
}

at-mod : (i j : ℕ) → i % 7 ≡ j % 7 → at i ≡ at j
at-mod i j e = ap (λ (m : ℕ). (m * m % 7, m)) e

inverse_below : (x : ℕ) → x < 7 → x ≢ 0 → x * (x ^ 5 % 7) % 7 ≡ 1
inverse_below zero h nz = absurd (nz refl)
inverse_below (suc zero) h nz = refl
inverse_below (suc (suc zero)) h nz = refl
inverse_below (suc (suc (suc zero))) h nz = refl
inverse_below (suc (suc (suc (suc zero)))) h nz = refl
inverse_below (suc (suc (suc (suc (suc zero))))) h nz = refl
inverse_below (suc (suc (suc (suc (suc (suc zero)))))) h nz = refl
inverse_below (suc (suc (suc (suc (suc (suc (suc x))))))) h nz = absurd (omega arith)

opposite_below : (x y : ℕ) → x < 7 → y < 7 → (x + y) % 7 ≡ 0 → x * x % 7 ≡ y * y % 7
opposite_below zero y hx hy e = let q : y ≡ 0 = omega arith in rw q
opposite_below (suc x) y hx hy e = let q : y ≡ 6 - x = omega arith in rw q (shifted x (omega arith))
  where
    shifted : (z : ℕ) → z < 6 → suc z * suc z % 7 ≡ (6 - z) * (6 - z) % 7
    shifted zero h = refl
    shifted (suc zero) h = refl
    shifted (suc (suc zero)) h = refl
    shifted (suc (suc (suc zero))) h = refl
    shifted (suc (suc (suc (suc zero)))) h = refl
    shifted (suc (suc (suc (suc (suc zero))))) h = refl
    shifted (suc (suc (suc (suc (suc (suc z)))))) h = absurd (omega arith)

pub small_curve-laws : CurveLaws small_curve
small_curve-laws = record {
  order_pos = omega arith;
  inv_lem = λ x h. sym (mul-mod_left 7 x _) ∙ inverse_below (x % 7) (omega arith) h;
  multiply-mod = λ x. at-mod (1 * (x % 7)) (1 * x) (omega arith);
  multiply-multiply = λ x y.
      at-mod (1 * x % 7 * y) (1 * (x * y))
        (mul-mod_left 7 (1 * x) y ∙ ap (λ (m : ℕ). m % 7) (omega arith));
  add-multiply = λ x y. at-mod (1 * x % 7 + 1 * y % 7) (1 * (x + y)) (omega arith);
  multiply_opposite =
      λ x y e. opposite_below (1 * x % 7) (1 * y % 7) (omega arith) (omega arith) (omega arith);
  multiply_bounds = λ x. (omega arith, omega arith);
  length-pad32 = λ x h. refl;
  to_int-pad32 = λ x h. omega arith;
}

abbrev key_bytes : List ℕ
key_bytes = 3 ∷ []

abbrev message : List ℕ
message = 5 ∷ []

ecdsa_raw_verify-ecdsa_raw_sign_example :
    ecdsa_raw_verify small_curve message
      (
        (ecdsa_raw_sign small_curve message key_bytes 2).1,
        (ecdsa_raw_sign small_curve message key_bytes 2).2,
      )
      (encode_raw_public_key small_curve (2, 3))
    ≡ true
unfolding ecdsa_raw_sign nonce private_key_to_public_key
ecdsa_raw_verify-ecdsa_raw_sign_example =
    ecdsa_raw_verify-ecdsa_raw_sign small_curve small_curve-laws message key_bytes
      (encode_raw_public_key small_curve (2, 3)) 2 refl (omega arith) (omega arith) (omega arith)

ecdsa_raw_sign_ranges_example :
    let (v, r, s) = ecdsa_raw_sign small_curve message key_bytes 2 in
    (v ≤ 1)
    × (2 * s ≤ 7)
    × (s < 7)
    × ((0 < s) ⊎ (s_raw_of small_curve (nonce small_curve message key_bytes 2) 5 r 3 ≡ 0))
ecdsa_raw_sign_ranges_example = ecdsa_raw_sign_ranges small_curve (omega arith) message key_bytes 2

-- (4, 2) lies on y² = x³ + x + 6 over the integers mod 7.
decompress_public_key-compress_public_key_example :
    decompress_public_key small_curve
      (compress_public_key small_curve (encode_raw_public_key small_curve (4, 2)))
    ≡ ok (encode_raw_public_key small_curve (4, 2))
unfolding square_root pow pow_loop
decompress_public_key-compress_public_key_example =
    decompress_public_key-compress_public_key small_curve small_curve-laws 4 2 (omega arith)
      (omega arith) (omega arith) refl refl (inl refl)

-- A triple represents the index that its second coordinate is the residue of.
abbrev IsAt : Jacobian → ℕ → Type 0
IsAt q k = (q.1 ≡ k % 7) × (q.0 ≡ k % 7 * (k % 7) % 7)

on_curve_below :
    (k : ℕ) → k < 7 → k ≢ 0 → let x = k * k % 7 in (x * x * x + 1 * x + 6) % 7 ≡ k * k % 7
on_curve_below zero h nz = absurd (nz refl)
on_curve_below (suc zero) h nz = refl
on_curve_below (suc (suc zero)) h nz = refl
on_curve_below (suc (suc (suc zero))) h nz = refl
on_curve_below (suc (suc (suc (suc zero)))) h nz = refl
on_curve_below (suc (suc (suc (suc (suc zero))))) h nz = refl
on_curve_below (suc (suc (suc (suc (suc (suc zero)))))) h nz = refl
on_curve_below (suc (suc (suc (suc (suc (suc (suc k))))))) h nz = absurd (omega arith)

root_below :
    (y : ℕ)
    → y < 7
    → (square_root small_curve (y * y % 7) ≡ y) ⊎ (square_root small_curve (y * y % 7) ≡ 7 - y)
unfolding square_root pow pow_loop
root_below zero h = inl refl
root_below (suc zero) h = inl refl
root_below (suc (suc zero)) h = inl refl
root_below (suc (suc (suc zero))) h = inr refl
root_below (suc (suc (suc (suc zero)))) h = inl refl
root_below (suc (suc (suc (suc (suc zero))))) h = inr refl
root_below (suc (suc (suc (suc (suc (suc zero)))))) h = inr refl
root_below (suc (suc (suc (suc (suc (suc (suc y))))))) h = absurd (omega arith)

IsAt-index : (i k : ℕ) → i % 7 ≡ k % 7 → IsAt (i % 7 * (i % 7) % 7, i % 7, 1) k
IsAt-index i k e = (e, ap (λ (m : ℕ). m * m % 7) e)

pub small_jacobian-laws : JacobianLaws small_curve
small_jacobian-laws = record {
  Represents = IsAt;
  represents_affine = λ k h. IsAt-index (1 * k) k (omega arith);
  represents_multiply =
      λ q k m h. IsAt-index (q.1 * m) (k * m) (ap (λ (i : ℕ). i * m % 7) h.0 ∙ mul-mod_left 7 k m);
  represents_add = λ q r k m h h2. IsAt-index (q.1 + r.1) (k + m) (omega (arith, h.0, h2.0));
  represents_point =
      λ q k h nz. (ground (arith, h.0), rw (h.0, h.1) (at-mod k (1 * k) (omega arith)));
  base_lem = refl;
  odd_modulus = refl;
  y_bounds = λ k h. (omega arith, omega arith);
  on_curve = λ k h. on_curve_below (1 * k % 7) (omega arith) (omega arith);
  opposite_y = λ k m h e. omega arith;
  root_lem = root_below;
}
