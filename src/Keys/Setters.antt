-- ===== src/Keys/Setters.antt =====
-- The setters of a signature against its constructor, and the methods that take a message.
use sting_flashbots.Base.{
  ℕ, ◌%◌, ◌≡◌, ◌≢◌, ◌⊎◌, inl, inr, refl, ◌∙◌, List, none, some, true, Bool-cases, leb-true, lt→ltb,
  Result, ok, err, bad_signature, validation_error,
}
use sting_flashbots.Ecdsa.{Curve, CurveLaws, nonce}
use sting_flashbots.Ecdsa.Recover.{JacobianLaws}
use sting_flashbots.Keys.{
  Validation, ValidationLaws, Signature, PrivateKey, make_signature, make_private_key,
  signature_vrs,
}
use sting_flashbots.Keys.Signatures.{IsValid}
use sting_flashbots.Keys.Signers.{
  make_signature-IsValid, public_key_of, verify_msg_hash-sign_msg_hash,
}
use sting_flashbots.Keys.Recovery.{ecdsa_recover-sign_msg_hash, public_key_checked}
use sting_flashbots.Keys.Objects.{
  ObjectPackage, set_v, set_r, set_s, from_private, recover_from_msg, verify_msg, sign_msg,
}

-- A setter and the constructor give the same valid signature, or raise each its own exception.
abbrev pub Agrees : ℕ → Result Signature → Result Signature → Type 0
Agrees n set_it made =
    ((g : Signature) × (set_it ≡ ok g) × (made ≡ ok g) × IsValid n g)
    ⊎ ((set_it ≡ err validation_error) × (made ≡ err bad_signature))

module _ (c : Curve) (check : Validation) (valid : ValidationLaws c.n check) where
  made_of :
      (v r s : ℕ)
      → check.valid_v v ≡ true
      → check.valid_r_or_s r ≡ true
      → check.valid_r_or_s s ≡ true
      → make_signature c check none (some (v, r, s)) ≡ ok (record { v = v; r = r; s = s })
  unfolding make_signature signature_vrs
  made_of v r s hv hr hs = rw (hv, hr, hs) refl

  tests_of :
      (g : Signature)
      → IsValid c.n g
      → (check.valid_v g.v ≡ true)
        × (check.valid_r_or_s g.r ≡ true)
        × (check.valid_r_or_s g.s ≡ true)
  tests_of g (hv, hr, hs) = (
    valid.valid_v_lem g.v ∙ leb-true g.v 1 hv,
    valid.valid_r_or_s_lem g.r ∙ lt→ltb g.r c.n hr,
    valid.valid_r_or_s_lem g.s ∙ lt→ltb g.s c.n hs,
  )

  IsValid-make_signature :
      (v r s : ℕ) (g : Signature)
      → make_signature c check none (some (v, r, s)) ≡ ok g
      → IsValid c.n g
  IsValid-make_signature v r s g made =
      make_signature-IsValid c.n c check valid none (some (v, r, s)) g made

  -- Each setter of a signature with valid parts, and the constructor on the parts with the new value: both give
  -- the same signature, with valid parts, or the setter raises ValidationError and the constructor BadSignature.
  pub set_v-make_signature :
      (g : Signature) (value : ℕ)
      → IsValid c.n g
      → Agrees c.n (set_v c check g value) (make_signature c check none (some (value, g.r, g.s)))
        × Agrees c.n (set_r c check g value) (make_signature c check none (some (g.v, value, g.s)))
        × Agrees c.n (set_s c check g value) (make_signature c check none (some (g.v, g.r, value)))
  unfolding set_v set_r set_s make_signature signature_vrs
  set_v-make_signature g value h =
      let (hv, hr, hs) = tests_of g h in
      (
        elim (Bool-cases (check.valid_v value)) [
          | inl good ↦ inl (
            record g { v = value },
            rw good refl,
            made_of value g.r g.s good hr hs,
            IsValid-make_signature value g.r g.s (record g { v = value })
                (made_of value g.r g.s good hr hs),
          )
          | inr bad ↦ inr (rw bad refl, rw (hr, hs, bad) refl)
        ],
        elim (Bool-cases (check.valid_r_or_s value)) [
          | inl good ↦ inl (
            record g { r = value },
            rw good refl,
            made_of g.v value g.s hv good hs,
            IsValid-make_signature g.v value g.s (record g { r = value })
                (made_of g.v value g.s hv good hs),
          )
          | inr bad ↦ inr (rw bad refl, rw bad refl)
        ],
        elim (Bool-cases (check.valid_r_or_s value)) [
          | inl good ↦ inl (
            record g { s = value },
            rw good refl,
            made_of g.v g.r value hv hr good,
            IsValid-make_signature g.v g.r value (record g { s = value })
                (made_of g.v g.r value hv hr good),
          )
          | inr bad ↦ inr (rw bad refl, rw (hr, bad) refl)
        ],
      )

from_private-make_private_key :
    (c : Curve) (check : Validation) (bs : List ℕ) (key : PrivateKey)
    → make_private_key c check bs ≡ ok key
    → from_private c check key ≡ ok key.public_key
unfolding from_private
from_private-make_private_key c check bs key made =
    let (raw, public_is) = public_key_of c check bs key made in
    rw (raw, public_is) (public_key_checked c check bs key made)

-- A private key that is not 0 was made from bytes, and it signed a message, with a nonce that is not 0 mod the
-- order, as a signature whose parts are not 0: its public key, which is that derived from the private key,
-- verifies the signature of the message, and is recovered from the message and the signature.
pub recover_from_msg-sign_msg :
    (c : Curve)
    → CurveLaws c
    → JacobianLaws c
    → (check : Validation) → ValidationLaws c.n check
    → (e : ObjectPackage) (private_key_bytes message : List ℕ) (key : PrivateKey)
      (signature : Signature)
    → make_private_key c check private_key_bytes ≡ ok key
    → sign_msg c check e key message ≡ ok signature
    → c.big_endian_to_int private_key_bytes ≢ 0
    → nonce c (e.keccak message) private_key_bytes 0 % c.n ≢ 0
    → signature.r ≢ 0
    → signature.s ≢ 0
    → (from_private c check key ≡ ok key.public_key)
      × (verify_msg c check e key.public_key message (signature.r, signature.s) ≡ true)
      × (recover_from_msg c check e message signature ≡ ok key.public_key)
recover_from_msg-sign_msg c laws jac check valid e bs message key g made signed dnz knz rnz snz = (
  from_private-make_private_key c check bs key made,
  verify_msg_hash-sign_msg_hash c laws check valid bs (e.keccak message) 0 key g made signed knz rnz
      snz,
  ecdsa_recover-sign_msg_hash c laws jac check valid bs (e.keccak message) 0 key g made signed dnz
      knz rnz snz,
)
