-- ===== src/Enclave/Words.antt =====
-- Numbers and their bytes, the first byte the highest.
use sting_flashbots.Base.{
  ℕ, zero, suc, ◌+◌, ◌*◌, ◌/◌, ◌%◌, ◌≤◌, ◌<◌, ◌≡◌, refl, ap, ◌∙◌, List, [], ◌∷◌, Bool-cases, ◌==◌,
  ==_iff, length, arith, inl, inr,
}
use sting_flashbots.Flashbots.{big_endian}
use sting_flashbots.Enclave.{bytes_to_int, int_to_bytes, low_bytes}

abbrev pub AreBytes : List ℕ → Type 0
AreBytes [] = Unit {0}
AreBytes (b ∷ bs) = (b < 256) × AreBytes bs

-- Two strings of as many bytes behind two numbers.
big_endian-injective :
    (xs ys : List ℕ) (n m : ℕ)
    → length xs ≡ length ys
    → AreBytes xs
    → AreBytes ys
    → big_endian n xs ≡ big_endian m ys
    → (n ≡ m) × (xs ≡ ys)
big_endian-injective [] [] n m size hx hy same = (same, refl)
big_endian-injective [] (y ∷ ys) n m size hx hy same = absurd (omega arith)
big_endian-injective (x ∷ xs) [] n m size hx hy same = absurd (omega arith)
big_endian-injective (x ∷ xs) (y ∷ ys) n m size (x_small, hx) (y_small, hy) same =
    let (highs, rest) =
      big_endian-injective xs ys (n * 256 + x) (m * 256 + y) (omega arith) hx hy same in
    let heads : x ≡ y = omega arith in (omega arith, rw (heads, rest) refl)

pub bytes_to_int-injective :
    (xs ys : List ℕ)
    → length xs ≡ length ys
    → AreBytes xs
    → AreBytes ys
    → bytes_to_int xs ≡ bytes_to_int ys
    → xs ≡ ys
bytes_to_int-injective xs ys size hx hy same = (big_endian-injective xs ys 0 0 size hx hy same).1

big_endian-low_bytes :
    (fuel n : ℕ) (bytes : List ℕ)
    → n ≤ fuel
    → big_endian 0 (low_bytes fuel n bytes) ≡ big_endian n bytes
big_endian-low_bytes zero n bytes h = ap (λ m. big_endian m bytes) (omega arith)
big_endian-low_bytes (suc fuel) n bytes h = elim (Bool-cases (n == 0)) [
  | inl none_left ↦ let n_is : n ≡ 0 = (==_iff n 0).0 none_left in rw (none_left, n_is) refl
  | inr more ↦ rw more (
      big_endian-low_bytes fuel (n / 256) (n % 256 ∷ bytes) (omega arith)
      ∙ ap (λ m. big_endian m bytes) (omega arith))
]

low_bytes_above : (fuel n : ℕ) (bytes : List ℕ) → AreBytes bytes → AreBytes (low_bytes fuel n bytes)
low_bytes_above zero n bytes h = h
low_bytes_above (suc fuel) n bytes h = elim (Bool-cases (n == 0)) [
  | inl none_left ↦ rw none_left h
  | inr more ↦ rw more (low_bytes_above fuel (n / 256) (n % 256 ∷ bytes) (omega arith, h))
]

-- A number is written in bytes, from which the same number is read.
pub bytes_to_int-int_to_bytes :
    (x : ℕ) → AreBytes (int_to_bytes x) × (bytes_to_int (int_to_bytes x) ≡ x)
unfolding int_to_bytes
bytes_to_int-int_to_bytes x = (low_bytes_above x x [] tt, big_endian-low_bytes x x [] (omega arith))
