-- ===== src/Ecdsa/Compress.antt =====
-- The compressed form of a public key.
use sting_flashbots.Base.{
  ℕ, ◌+◌, ◌-◌, ◌*◌, ◌%◌, ◌^◌, ◌≤◌, ◌<◌, ◌≡◌, ◌⊎◌, arith, true, ◌==◌, ◌&&◌, ◌||◌, ok, Bool-cases,
  inl, inr, if◌then◌else◌, length,
}
use sting_flashbots.Ecdsa.{
  Curve, CurveLaws, encode_raw_public_key, compress_public_key, decompress_public_key, square_root,
}
use sting_flashbots.Ecdsa.Keys.{decode_public_key-encode_raw_public_key}
use native.Mathlib.Nat.{mod_self, mod-eq_of_lt}

-- The prefix byte chooses the root with the parity of `y`.
chosen_root :
    (p y root : ℕ)
    → y < p
    → p % 2 ≡ 1
    → (root ≡ y) ⊎ (root ≡ p - y)
    → let prefix : ℕ = (if y % 2 == 0 then 2 else 3) in
      (if (prefix == 2 && root % 2 == 1) || (prefix == 3 && root % 2 == 0)
        then (p - root % p) % p
        else root)
      ≡ y
chosen_root p y root lt odd (inl same) = ground arith
chosen_root p y root lt odd (inr other) = elim (Bool-cases (y == 0)) [
  | inl zero_y ↦ ground (arith, mod_self p)
  | inr some_y ↦
      ground
        (arith, mod-eq_of_lt {n = p - y} {m = p} (ground arith), mod-eq_of_lt {n = y} {m = p} lt)
]

prefix_ok :
    (y : ℕ) → (((if y % 2 == 0 then 2 else 3) == 2) || ((if y % 2 == 0 then 2 else 3) == 3)) ≡ true
prefix_ok y = ground arith

-- For a point of the curve with coordinates below the odd modulus, compressing its 64 bytes and
-- decompressing the 33 bytes gives the 64 bytes back, where the power that stands for a square root
-- gives one of the two roots of the square of `y`.
pub decompress_public_key-compress_public_key :
    (c : Curve)
    → CurveLaws c
    → (x y : ℕ) → x < 2 ^ 256
    → y < c.p
    → c.p ≤ 2 ^ 256
    → c.p % 2 ≡ 1
    → (x ^ 3 + c.a * x + c.b) % c.p ≡ y * y % c.p
    → ((square_root c (y * y % c.p) ≡ y) ⊎ (square_root c (y * y % c.p) ≡ c.p - y))
    → decompress_public_key c (compress_public_key c (encode_raw_public_key c (x, y)))
      ≡ ok (encode_raw_public_key c (x, y))
unfolding decompress_public_key compress_public_key
decompress_public_key-compress_public_key c laws x y hx hy hp odd on_curve root =
    let (decoded, _) = decode_public_key-encode_raw_public_key c laws x y hx (omega arith) in
    let n33 : length (c.pad32 (c.int_to_big_endian x)) ≡ 32 = laws.length-pad32 x hx in
    let value : c.big_endian_to_int (c.pad32 (c.int_to_big_endian x)) ≡ x =
      laws.to_int-pad32 x hx in
    rw (
      decoded,
      n33,
      value,
      on_curve,
      prefix_ok y,
      chosen_root c.p y (square_root c (y * y % c.p)) hy odd root,
    )
