-- ===== src/Keys/Signers.antt =====
-- What a private key signs.
use sting_flashbots.Base.{
  ℕ, ◌%◌, ◌<◌, ◌≤◌, ◌≡◌, ◌≢◌, true, false, sym, ap, ◌∙◌, List, none, some, ltb, lt→ltb, leb-true,
  ltb→lt, Bool-cases, inl, inr, ◌⊎◌, leb→le, Option, arith, ok, err, bad_signature, subst, guard,
  validation_error, >>=-eq-ok,
}
use sting_flashbots.Ecdsa.{Curve, CurveLaws, nonce, ecdsa_raw_sign, private_key_to_public_key}
use sting_flashbots.Ecdsa.Ranges.{ecdsa_raw_sign_ranges}
use sting_flashbots.Ecdsa.Verify.{ecdsa_raw_verify-ecdsa_raw_sign}
use sting_flashbots.Keys.{
  Validation, ValidationLaws, Signature, PublicKey, PrivateKey, signature_vrs, check_rs,
  make_signature, make_public_key, make_private_key, ecdsa_sign, sign_msg_hash, ecdsa_verify,
  verify_msg_hash,
}
use sting_flashbots.Keys.Signatures.{IsValid}
use native.Mathlib.Nat.{mod-eq_of_lt}

module _ (n : ℕ) (c : Curve) (check : Validation) (valid : ValidationLaws n check) (v r s : ℕ)
    (hv : v ≤ 1) (hs : s < n) where
  pub made :
      r < n → make_signature c check none (some (v, r, s)) ≡ ok (record { v = v; r = r; s = s })
  unfolding make_signature signature_vrs
  made hr = rw (
    valid.valid_r_or_s_lem r,
    valid.valid_r_or_s_lem s,
    valid.valid_v_lem v,
    lt→ltb r n hr,
    lt→ltb s n hs,
    leb-true v 1 hv,
  )

  not_made : n ≤ r → make_signature c check none (some (v, r, s)) ≡ err bad_signature
  unfolding make_signature signature_vrs
  not_made hr =
      let outside : ltb r n ≡ false = ground arith in rw (valid.valid_r_or_s_lem r, outside)

-- A key and a message and a nonce argument: either the first coordinate of the nonce's multiple of the base
-- point is below the order, and the key returns the signature with the three numbers of
-- `ecdsa_raw_sign`, or it is not, and BadSignature is raised.
pub sign_msg_hash-ecdsa_raw_sign :
    (c : Curve)
    → 1 < c.n
    → (check : Validation) → ValidationLaws c.n check
    → (key : PrivateKey) (msg_hash : List ℕ) (k : ℕ)
    → let (v, r, s) = ecdsa_raw_sign c msg_hash key.raw_key k in
      ((r < c.n) × (sign_msg_hash c check key msg_hash k ≡ ok (record { v = v; r = r; s = s })))
      ⊎ ((c.n ≤ r) × (sign_msg_hash c check key msg_hash k ≡ err bad_signature))
unfolding ecdsa_sign
sign_msg_hash-ecdsa_raw_sign c order check valid key m k =
    let (hv, _, hs, _) = ecdsa_raw_sign_ranges c order m key.raw_key k in
    let (v, r, s) = ecdsa_raw_sign c m key.raw_key k in
    elim (Bool-cases (ltb r c.n)) [
      | inl below ↦
          inl (ltb→lt r c.n below, made c.n c check valid v r s hv hs (ltb→lt r c.n below))
      | inr above ↦
          (let past : c.n ≤ r = ground arith in
            inr (past, not_made c.n c check valid v r s hv hs past))
    ]

made_public_key :
    (c : Curve) (check : Validation) (bs : List ℕ) (key : PublicKey)
    → make_public_key c check bs ≡ ok key
    → key.raw_key ≡ bs
unfolding make_public_key
made_public_key c check bs key e =
    let (_, _, e1) =
      >>=-eq-ok (guard (check.valid_uncompressed_public_key_bytes bs) validation_error) _ e in
    cc

-- The public key of a private key that was made is the one of its bytes.
pub public_key_of :
    (c : Curve) (check : Validation) (bs : List ℕ) (key : PrivateKey)
    → make_private_key c check bs ≡ ok key
    → (key.raw_key ≡ bs) × (private_key_to_public_key c bs ≡ ok key.public_key.raw_key)
unfolding make_private_key
public_key_of c check bs key e =
    let (_, _, e1) = >>=-eq-ok (guard (check.valid_private_key_bytes bs) validation_error) _ e in
    let (raw, found, e2) = >>=-eq-ok (private_key_to_public_key c bs) _ e1 in
    let (public_key, made_it, e3) = >>=-eq-ok (make_public_key c check raw) _ e2 in
    let same = made_public_key c check raw public_key made_it in (cc, found ∙ ap ok (sym same) ∙ cc)

guard_below :
    (n : ℕ) (check : Validation)
    → ValidationLaws n check
    → (x : ℕ) {u : Unit {0}} → guard (check.valid_r_or_s x) bad_signature ≡ ok u
    → x < n
guard_below n check valid x e = ltb→lt x n (ground (arith, valid.valid_r_or_s_lem x))

guard_at_most_one :
    (n : ℕ) (check : Validation)
    → ValidationLaws n check
    → (v : ℕ) {u : Unit {0}} → guard (check.valid_v v) bad_signature ≡ ok u
    → v ≤ 1
guard_at_most_one n check valid v e = leb→le v 1 (ground (arith, valid.valid_v_lem v))

-- Each signature that is made, from bytes or from numbers, has valid parts.
pub make_signature-IsValid :
    (n : ℕ) (c : Curve) (check : Validation)
    → ValidationLaws n check
    → (signature_bytes : Option (List ℕ)) (vrs : Option (ℕ × ℕ × ℕ)) (signature : Signature)
    → make_signature c check signature_bytes vrs ≡ ok signature
    → IsValid n signature
unfolding make_signature
make_signature-IsValid n c check valid bytes vrs g e =
    let ((v, r, s), _, e1) = >>=-eq-ok (signature_vrs c check bytes vrs) _ e in
    let (_, in_range, e2) = >>=-eq-ok (check_rs c check r s) _ e1 in
    let (_, v_passed, e3) = >>=-eq-ok (guard (check.valid_v v) bad_signature) _ e2 in
    let (_, r_passed, s_passed) =
      >>=-eq-ok (guard (check.valid_r_or_s r) bad_signature) _ in_range in
    let same : record { v = v; r = r; s = s } ≡ g = cc in
    subst (IsValid n) same (
      guard_at_most_one n check valid v v_passed,
      guard_below n check valid r r_passed,
      guard_below n check valid s s_passed,
    )

pub not_zero_mod : (n x y : ℕ) → x ≡ y → y < n → x ≢ 0 → y % n ≢ 0
not_zero_mod n x y e lt nz = λ q. nz (e ∙ sym (mod-eq_of_lt lt) ∙ q)

pub made_parts :
    (n : ℕ) (c : Curve) (check : Validation)
    → ValidationLaws n check
    → (v r s : ℕ) (g : Signature) → make_signature c check none (some (v, r, s)) ≡ ok g
    → (g.r ≡ r) × (g.s ≡ s) × (r < n) × (s < n)
unfolding make_signature signature_vrs
made_parts n c check valid v r s g e =
    let (_, in_range, e1) = >>=-eq-ok (check_rs c check r s) _ e in
    let (_, _, e2) = >>=-eq-ok (guard (check.valid_v v) bad_signature) _ e1 in
    let (_, r_passed, s_passed) =
      >>=-eq-ok (guard (check.valid_r_or_s r) bad_signature) _ in_range in
    (cc, cc, guard_below n check valid r r_passed, guard_below n check valid s s_passed)

pub sign_msg_hash-IsValid :
    (n : ℕ) (c : Curve) (check : Validation)
    → ValidationLaws n check
    → (key : PrivateKey) (msg_hash : List ℕ) (k : ℕ) (signature : Signature)
    → sign_msg_hash c check key msg_hash k ≡ ok signature
    → IsValid n signature
unfolding ecdsa_sign
sign_msg_hash-IsValid n c check valid key m k g e =
    make_signature-IsValid n c check valid none (some (ecdsa_raw_sign c m key.raw_key k)) g e

pub made_v :
    (c : Curve) (check : Validation) (v r s : ℕ) (g : Signature)
    → make_signature c check none (some (v, r, s)) ≡ ok g
    → g.v ≡ v
unfolding make_signature signature_vrs
made_v c check v r s g e =
    let (_, _, e1) = >>=-eq-ok (check_rs c check r s) _ e in
    let (_, _, e2) = >>=-eq-ok (guard (check.valid_v v) bad_signature) _ e1 in cc

-- A private key that was made from bytes, and a signature that it returned with a nonce that is not 0 mod
-- the order and parts that are not 0: its public key verifies the signature of that message.
pub verify_msg_hash-sign_msg_hash :
    (c : Curve)
    → CurveLaws c
    → (check : Validation) → ValidationLaws c.n check
    → (private_key_bytes msg_hash : List ℕ) (k : ℕ) (key : PrivateKey) (signature : Signature)
    → make_private_key c check private_key_bytes ≡ ok key
    → sign_msg_hash c check key msg_hash k ≡ ok signature
    → nonce c msg_hash private_key_bytes k % c.n ≢ 0
    → signature.r ≢ 0
    → signature.s ≢ 0
    → verify_msg_hash c check key.public_key msg_hash signature ≡ true
unfolding ecdsa_verify ecdsa_sign
verify_msg_hash-sign_msg_hash c laws check valid bs m k key g made_key signed knz rnz snz =
    let (raw, public_is) = public_key_of c check bs key made_key in
    let (v, r, s) = ecdsa_raw_sign c m key.raw_key k in
    let (r_is, s_is, r_lt, s_lt) = made_parts c.n c check valid v r s g signed in
    let key_is =
      subst (λ x. private_key_to_public_key c x ≡ ok key.public_key.raw_key) (sym raw) public_is in
    let knz' = subst (λ x. nonce c m x k % c.n ≢ 0) (sym raw) knz in
    rw (r_is, s_is)
      (ecdsa_raw_verify-ecdsa_raw_sign c laws m key.raw_key key.public_key.raw_key k key_is knz'
        (not_zero_mod c.n g.r r r_is r_lt rnz) (not_zero_mod c.n g.s s s_is s_lt snz))
