-- ===== src/Commitment/Integers.antt =====
-- Numbers of 256 bits as 32 bytes.
use sting_flashbots.Base.{
  >>=-eq-ok, assert, ltb, ℕ, zero, suc, ◌+◌, ◌*◌, ◌^◌, ◌/◌, ◌%◌, ◌<◌, ◌≡◌, subst, refl, ap, arith,
  some, List, [], ◌∷◌, ◌++◌, All, length, take, take-append, lt→ltb, ok,
}
use sting_flashbots.Commitment.{
  pack_words, unpack_words, to_words, sum_words, uint256_to_str, uint256_from_str,
}
use native.Mathlib.Nat.{div-div-eq-div-mul}

unpack_words-pack_words :
    (ts : List ℕ)
    → All (λ t. t < 4294967296) ts
    → unpack_words (length ts) (pack_words ts) ≡ some ts
unfolding unpack_words pack_words
unpack_words-pack_words [] h = refl
unpack_words-pack_words (t ∷ ts) (lt, h) =
    let word : t % 256
          + 256 * (t / 256 % 256)
          + 65536 * (t / 65536 % 256)
          + 16777216 * (t / 16777216 % 256)
        ≡ t =
      omega arith in
    rw (word, unpack_words-pack_words ts h) refl

sum_words-to_words : (s : ℕ) → s < 2 ^ 256 → sum_words 0 0 (to_words 8 0 s) ≡ s
sum_words-to_words s h =
    let shift : (c : ℕ) → s / c / 4294967296 ≡ s / (c * 4294967296) =
      λ c. div-div-eq-div-mul s c 4294967296 in
    omega (
      arith,
      shift (2 ^ 32),
      shift (2 ^ 64),
      shift (2 ^ 96),
      shift (2 ^ 128),
      shift (2 ^ 160),
      shift (2 ^ 192),
    )

to_words-IsWords : (rounds i s : ℕ) → All (λ t. t < 4294967296) (to_words rounds i s)
to_words-IsWords zero i s = tt
to_words-IsWords (suc rounds) i s = (omega arith, to_words-IsWords rounds (i + 1) s)

length-pack_words : (ts : List ℕ) → length (pack_words ts) ≡ 4 * length ts
unfolding pack_words
length-pack_words [] = refl
length-pack_words (t ∷ ts) = omega (arith, length-pack_words ts)

-- A number below 2 ^ 256 is written as 32 bytes, and read back from any bytes that begin with them.
pub uint256_from_str-uint256_to_str :
    (s : ℕ) (rest : List ℕ)
    → s < 2 ^ 256
    → (bytes : List ℕ) × (uint256_to_str s ≡ ok bytes)
      × (length bytes ≡ 32)
      × (uint256_from_str (bytes ++ rest) ≡ ok s)
unfolding uint256_to_str uint256_from_str
uint256_from_str-uint256_to_str s rest h =
    let bytes : List ℕ = pack_words (to_words 8 0 s) in
    let size : length bytes ≡ 32 = length-pack_words (to_words 8 0 s) in
    let front : take 32 (bytes ++ rest) ≡ bytes =
      subst (λ n. take n (bytes ++ rest) ≡ bytes) size (take-append bytes rest) in
    let read : unpack_words 8 bytes ≡ some (to_words 8 0 s) =
      unpack_words-pack_words (to_words 8 0 s) (to_words-IsWords 8 0 s) in
    (bytes, rw (lt→ltb s (2 ^ 256) h) refl, size, rw (front, read) (ap ok (sum_words-to_words s h)))

pack_words-IsBytes : (ts : List ℕ) → All (λ b. b < 256) (pack_words ts)
unfolding pack_words
pack_words-IsBytes [] = tt
pack_words-IsBytes (t ∷ ts) =
    (omega arith, (omega arith, (omega arith, (omega arith, pack_words-IsBytes ts))))

pub uint256_to_str_bytes :
    (s : ℕ) (bytes : List ℕ) → uint256_to_str s ≡ ok bytes → All (λ b. b < 256) bytes
unfolding uint256_to_str
uint256_to_str_bytes s bytes e =
    let (_, _, e1) = >>=-eq-ok (assert (ltb s (2 ^ 256))) _ e in
    let same : pack_words (to_words 8 0 s) ≡ bytes = cc in
    subst (All (λ b. b < 256)) same (pack_words-IsBytes (to_words 8 0 s))
