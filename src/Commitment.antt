-- ===== src/Commitment.antt =====
-- The scalar multiplication and the 256-bit integers of searcher/src/enclave/lib/commitment/secp256k1.py. The vendored
-- `Point` with its addition is a parameter.
pub mod Integers
pub mod Multiples
pub mod Points
pub mod Random
pub mod Tests
use sting_flashbots.Base.{
  ℕ, zero, suc, ◌+◌, ◌*◌, ◌^◌, ◌/◌, ◌%◌, ◌≡◌, Option, none, some, ◌==◌, if◌then◌else◌, List, [],
  ◌∷◌, ltb, take, Result, ok, err, struct_error, or_raise, guard, assert, ◌>>=◌, ◌>>◌,
}
use mathlib.Core.Option

pub record Group (Point : Type 0) : Type 0 where
  pub identity : Point
  pub plus : Point → Point → Point

-- What the vendored library states of them.
pub record GroupLaws {Point : Type 0} (group : Group Point) : Type 0 where
  pub identity-plus : (a : Point) → group.plus group.identity a ≡ a
  pub plus-identity : (a : Point) → group.plus a group.identity ≡ a
  pub plus_assoc : (a b d : Point) → group.plus (group.plus a b) d ≡ group.plus a (group.plus b d)

module _ {Point : Type 0} (group : Group Point) where
  -- The loop with `X[i]` and `y`; `m` halves, so as many rounds as its first value are enough. Where the loop
  -- ends with no `return`, Python returns None.
  unfoldable pub mult_loop : ℕ → ℕ → Point → Point → Option Point
  mult_loop zero m x y = none
  mult_loop (suc rounds) m x y =
      let y' = if m % 2 == 1 then group.plus y x else y in
      let rest = mult_loop rounds (m / 2) (group.plus x x) y' in
      if m == 0 then none else if m / 2 == 0 then some y' else rest

  unfoldable pub mult : ℕ → Point → Option Point
  mult m a = mult_loop m m a group.identity

-- `struct.pack` of words of 32 bits, the lowest byte of each first.
unfoldable pub pack_words : List ℕ → List ℕ
pack_words [] = []
pack_words (t ∷ ts) = t % 256 ∷ t / 256 % 256 ∷ t / 65536 % 256 ∷ t / 16777216 % 256 ∷ pack_words ts

-- `struct.unpack` of a number of words; it takes exactly their bytes.
unfoldable pub unpack_words : ℕ → List ℕ → Option (List ℕ)
unpack_words (suc n) (b0 ∷ b1 ∷ b2 ∷ b3 ∷ bs) =
    Option.map (λ (ts : List ℕ). (b0 + 256 * b1 + 65536 * b2 + 16777216 * b3) ∷ ts)
      (unpack_words n bs)
unpack_words zero [] = some []
unpack_words n bs = none

-- `(s >> (i * 32) & 0xffffffff)` for the rounds from `i` on.
abbrev pub to_words : ℕ → ℕ → ℕ → List ℕ
to_words zero i s = []
to_words (suc rounds) i s = s / 2 ^ (i * 32) % 4294967296 ∷ to_words rounds (i + 1) s

-- `r += t[i] << (i * 32)`
abbrev pub sum_words : ℕ → ℕ → List ℕ → ℕ
sum_words r i [] = r
sum_words r i (t ∷ ts) = sum_words (r + t * 2 ^ (i * 32)) (i + 1) ts

unfoldable pub uint256_to_str : ℕ → Result (List ℕ)
uint256_to_str s = do assert (ltb s (2 ^ 256)); ok (pack_words (to_words 8 0 s))

unfoldable pub uint256_from_str : List ℕ → Result ℕ
uint256_from_str s = do t ← or_raise (unpack_words 8 (take 32 s)) struct_error; ok (sum_words 0 0 t)
