-- ===== src/Ecdsa/Keys.antt =====
-- The byte form of public keys.
use sting_flashbots.Base.{
  ℕ, ◌^◌, ◌<◌, ◌≡◌, sym, ap, ◌∙◌, List, [], ◌++◌, take, drop, length, take-append, drop-append,
  append-nil, arith, subst, length-append,
}
use sting_flashbots.Ecdsa.{Curve, CurveLaws, decode_public_key, encode_raw_public_key}

pub take-length : (k : ℕ) (xs ys : List ℕ) → length xs ≡ k → take k (xs ++ ys) ≡ xs
take-length k xs ys e = subst (λ m. take m (xs ++ ys) ≡ xs) e (take-append xs ys)

pub drop-length : (k : ℕ) (xs ys : List ℕ) → length xs ≡ k → drop k (xs ++ ys) ≡ ys
drop-length k xs ys e = subst (λ m. drop m (xs ++ ys) ≡ ys) e (drop-append xs ys)

module _ (c : Curve) (laws : CurveLaws c) where
  -- A point with coordinates below 2 ^ 256 is read back from its 64 bytes.
  pub decode_public_key-encode_raw_public_key :
      (x y : ℕ)
      → x < 2 ^ 256
      → y < 2 ^ 256
      → (decode_public_key c (encode_raw_public_key c (x, y)) ≡ (x, y))
        × (length (encode_raw_public_key c (x, y)) ≡ 64)
  unfolding decode_public_key encode_raw_public_key
  decode_public_key-encode_raw_public_key x y hx hy =
      let left : List ℕ = c.pad32 (c.int_to_big_endian x) in
      let right : List ℕ = c.pad32 (c.int_to_big_endian y) in
      let nl : length left ≡ 32 = laws.length-pad32 x hx in
      let nr : length right ≡ 32 = laws.length-pad32 y hy in
      let second : take 32 (drop 32 (left ++ right)) ≡ right =
        ap (take 32) (drop-length 32 left right nl)
        ∙ ap (take 32) (sym (append-nil right))
        ∙ take-length 32 right [] nr in
      let first : take 32 (left ++ right) ≡ left = take-length 32 left right nl in
      (
        rw (first, second, laws.to_int-pad32 x hx, laws.to_int-pad32 y hy),
        omega (arith, length-append left right),
      )

  pub decode-multiple :
      (d : ℕ)
      → decode_public_key c (encode_raw_public_key c (c.fast_multiply c.g d))
        ≡ c.fast_multiply c.g d
  decode-multiple d =
      let (hx, hy) = laws.multiply_bounds d in
      (decode_public_key-encode_raw_public_key (c.fast_multiply c.g d).0 (c.fast_multiply c.g d).1
        hx hy).0
