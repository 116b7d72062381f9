-- ===== src/Ecdsa/Ranges.antt =====
-- The form of a signature.
use sting_flashbots.Base.{
  ℕ, ◌+◌, ◌-◌, ◌*◌, ◌%◌, ◌≤◌, ◌<◌, ◌≡◌, List, arith, ◌⊎◌, inl, inr, Bool-cases, ltb, if◌then◌else◌,
}
use sting_flashbots.Ecdsa.{Curve, xor_bit, nonce, s_raw_of, ecdsa_raw_sign}
use native.Mathlib.Nat.{mod-lt}

low_ranges :
    (n x : ℕ) (y : ℕ)
    → 1 < n
    → x < n
    → let s = (if ltb (x * 2) n then x else n - x) in
      (27 + xor_bit (y % 2) (if ltb (x * 2) n then 0 else 1) - 27 ≤ 1)
      × (2 * s ≤ n)
      × (s < n)
      × ((0 < s) ⊎ (x ≡ 0))
low_ranges n x y order lt =
    let not_zero : (0 < (if ltb (x * 2) n then x else n - x)) ⊎ (x ≡ 0) =
      elim (Bool-cases (ltb 0 x)) [
        | inl pos ↦ inl (ground arith)
        | inr none_left ↦ inr (ground arith)
      ] in
    (ground arith, ground arith, ground arith, not_zero)

-- For every message, key and nonce, the recovery bit is 0 or 1, `s` is in the low half of the order,
-- and `s` is 0 only where the unreduced `s` is.
pub ecdsa_raw_sign_ranges :
    (c : Curve)
    → 1 < c.n
    → (msg_hash private_key_bytes : List ℕ) (k : ℕ)
    → let (v, r, s) = ecdsa_raw_sign c msg_hash private_key_bytes k in
      (v ≤ 1)
      × (2 * s ≤ c.n)
      × (s < c.n)
      × ((0 < s)
          ⊎ (s_raw_of c
                (nonce c msg_hash private_key_bytes k)
                (c.big_endian_to_int msg_hash)
                r
                (c.big_endian_to_int private_key_bytes)
              ≡ 0))
unfolding ecdsa_raw_sign
ecdsa_raw_sign_ranges c order m key k =
    low_ranges c.n _ (c.fast_multiply c.g (nonce c m key k)).1 order
      (mod-lt _ {m = c.n} (omega arith))
