-- ===== src/Ecdsa/Verify.antt =====
-- What `ecdsa_raw_sign` makes, `ecdsa_raw_verify` accepts.
use sting_flashbots.Base.{
  ℕ, ◌+◌, ◌-◌, ◌*◌, ◌%◌, ◌<◌, ◌≡◌, ◌≢◌, sym, ap, ◌∙◌, List, arith, true, not, ltb, ◌==◌, ◌&&◌, ok,
  Bool-cases, inl, inr, if◌then◌else◌,
}
use sting_flashbots.Ecdsa.{
  Curve, CurveLaws, PointXy, nonce, s_raw_of, ecdsa_raw_sign, ecdsa_raw_verify, decode_public_key,
  encode_raw_public_key, private_key_to_public_key,
}
use sting_flashbots.Ecdsa.Arith.{mul-mod_right, add-mod_congr, signed_same, signed_opposite}
use sting_flashbots.Ecdsa.Keys.{decode-multiple}
use native.Mathlib.Nat.{add-mod-mod, mod-lt, mod-mod, mod-eq_of_lt, mod_self}

module _ (c : Curve) (laws : CurveLaws c) where
  -- The point that `ecdsa_raw_verify` computes is the multiple of the base point by `t * w`.
  verify_index :
      (z r d w : ℕ)
      → c.fast_add
          (c.fast_multiply c.g (z * w % c.n))
          (c.fast_multiply (c.fast_multiply c.g d) (r * w % c.n))
        ≡ c.fast_multiply c.g ((z + r * d) * w)
  verify_index z r d w =
      let joined : c.fast_add (c.fast_multiply c.g (z * w % c.n))
            (c.fast_multiply (c.fast_multiply c.g d) (r * w % c.n))
          ≡ c.fast_multiply c.g (z * w % c.n + d * (r * w % c.n)) =
        ap (c.fast_add (c.fast_multiply c.g (z * w % c.n))) (laws.multiply-multiply d (r * w % c.n))
        ∙ laws.add-multiply (z * w % c.n) (d * (r * w % c.n)) in
      let residues : (z * w % c.n + d * (r * w % c.n)) % c.n ≡ (z * w + d * (r * w)) % c.n =
        add-mod_congr c.n (z * w % c.n) (d * (r * w % c.n)) (z * w) (d * (r * w))
          (mod-mod (z * w) c.n) (mul-mod_right c.n d (r * w)) in
      let regroup : z * w + d * (r * w) ≡ (z + r * d) * w = omega arith in
      joined
      ∙ sym (laws.multiply-mod _)
      ∙ ap (c.fast_multiply c.g) (residues ∙ ap (λ (m : ℕ). m % c.n) regroup)
      ∙ laws.multiply-mod _

  -- The low form of `s_raw`.
  abbrev low : ℕ → ℕ
  low s_raw = if ltb (s_raw * 2) c.n then s_raw else c.n - s_raw

  one_mod : 1 % c.n ≡ 1
  one_mod = mod-eq_of_lt laws.order_pos

  module _ (k t : ℕ) (knz : k % c.n ≢ 0) where
    abbrev share : ℕ
    share = c.inv k c.n * t

    same_x :
        (s : ℕ)
        → s % c.n ≢ 0
        → s ≡ share % c.n
        → (c.fast_multiply c.g (t * c.inv s c.n)).0 ≡ (c.fast_multiply c.g k).0
    same_x s snz e =
        let index =
          signed_same c.n k (c.inv k c.n) (c.inv s c.n) s t (laws.inv_lem k knz ∙ sym one_mod)
            (laws.inv_lem s snz ∙ sym one_mod) (ap (λ (m : ℕ). m % c.n) e ∙ mod-mod share c.n) in
        ap (λ (q : PointXy). q.0)
          (sym (laws.multiply-mod _) ∙ ap (c.fast_multiply c.g) index ∙ laws.multiply-mod _)

    opposite_x :
        (s : ℕ)
        → s % c.n ≢ 0
        → s ≡ c.n - share % c.n
        → (c.fast_multiply c.g (t * c.inv s c.n)).0 ≡ (c.fast_multiply c.g k).0
    opposite_x s snz e =
        let order : 1 < c.n = laws.order_pos in
        let whole : s + share % c.n ≡ c.n =
          omega (arith, mod-lt share {m = c.n} (omega arith), e) in
        let sum : (s + share) % c.n ≡ 0 =
          sym (add-mod-mod s share c.n) ∙ ap (λ (m : ℕ). m % c.n) whole ∙ mod_self c.n in
        laws.multiply_opposite _ k (
          signed_opposite c.n k (c.inv k c.n) (c.inv s c.n) s t (laws.inv_lem k knz ∙ sym one_mod)
            (laws.inv_lem s snz ∙ sym one_mod) sum)

    -- Its x coordinate is that of the nonce's multiple, whether `s` was flipped or not.
    low_x :
        low (share % c.n) % c.n ≢ 0
        → (c.fast_multiply c.g (t * c.inv (low (share % c.n)) c.n)).0 ≡ (c.fast_multiply c.g k).0
    low_x snz = elim (Bool-cases (ltb (share % c.n * 2) c.n)) [
      | inl small ↦
          same_x (low (share % c.n)) snz
            (ap (λ b. if b then share % c.n else c.n - share % c.n) small)
      | inr large ↦
          opposite_x (low (share % c.n)) snz
            (ap (λ b. if b then share % c.n else c.n - share % c.n) large)
    ]

final_test :
    (n r s : ℕ)
    → r % n ≢ 0
    → s % n ≢ 0
    → ((r == r) && (not (r % n == 0) && not (s % n == 0))) ≡ true
final_test n r s hr hs = ground arith

-- A signature of a message under a private key, with a nonce that is not 0 mod the order and with
-- both parts not 0 mod the order, is accepted under the public key of that private key.
pub ecdsa_raw_verify-ecdsa_raw_sign :
    (c : Curve)
    → CurveLaws c
    → (msg_hash private_key_bytes public_key_bytes : List ℕ) (k : ℕ)
    → private_key_to_public_key c private_key_bytes ≡ ok public_key_bytes
    → nonce c msg_hash private_key_bytes k % c.n ≢ 0
    → (ecdsa_raw_sign c msg_hash private_key_bytes k).1 % c.n ≢ 0
    → (ecdsa_raw_sign c msg_hash private_key_bytes k).2 % c.n ≢ 0
    → ecdsa_raw_verify c msg_hash
        (
          (ecdsa_raw_sign c msg_hash private_key_bytes k).1,
          (ecdsa_raw_sign c msg_hash private_key_bytes k).2,
        )
        public_key_bytes
      ≡ true
unfolding ecdsa_raw_sign ecdsa_raw_verify private_key_to_public_key
ecdsa_raw_verify-ecdsa_raw_sign c laws m key pub_bytes k_arg pk knz rnz snz =
    let z = c.big_endian_to_int m in
    let d = c.big_endian_to_int key in
    let k = nonce c m key k_arg in
    let r = (c.fast_multiply c.g k).0 in
    let pub_is : pub_bytes ≡ encode_raw_public_key c (c.fast_multiply c.g d) =
      unfold private_key_to_public_key in ground arith in
    let pub_point : decode_public_key c pub_bytes ≡ c.fast_multiply c.g d =
      ap (decode_public_key c) pub_is ∙ decode-multiple c laws d in
    let s = low c laws (s_raw_of c k z r d) in
    let x_is =
      ap (λ (q : PointXy). q.0) (verify_index c laws z r d (c.inv s c.n))
      ∙ low_x c laws k (z + r * d) knz snz in
    rw (pub_point, x_is) (final_test c.n r s rnz snz)
