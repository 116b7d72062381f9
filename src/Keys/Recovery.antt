-- ===== src/Keys/Recovery.antt =====
-- Recovery of the public key from a key's signature.
use sting_flashbots.Base.{
  ℕ, ◌%◌, ◌<◌, ◌≡◌, ◌≢◌, refl, sym, ap, ◌∙◌, subst, List, ltb, ltb→lt, true, guard-eq-ok, guard, ok,
  >>=-eq-ok, other_exception, validation_error,
}
use sting_flashbots.Ecdsa.{Curve, CurveLaws, nonce, ecdsa_raw_sign, private_key_to_public_key}
use sting_flashbots.Ecdsa.Recover.{JacobianLaws, ecdsa_raw_recover-ecdsa_raw_sign}
use sting_flashbots.Keys.{
  Validation, ValidationLaws, Signature, PrivateKey, make_public_key, make_private_key, ecdsa_sign,
  sign_msg_hash, ecdsa_recover,
}
use sting_flashbots.Keys.Signers.{made_parts, public_key_of, not_zero_mod, made_v}
use native.Mathlib.Nat.{mod-eq_of_lt}

-- A number that a public key was made of is below the order.
key_below :
    (c : Curve) (bs pub_bytes : List ℕ)
    → private_key_to_public_key c bs ≡ ok pub_bytes
    → c.big_endian_to_int bs < c.n
unfolding private_key_to_public_key
key_below c bs pub_bytes e =
    let (_, passed, _) = >>=-eq-ok (guard (ltb (c.big_endian_to_int bs) c.n) other_exception) _ e in
    ltb→lt _ _ (guard-eq-ok _ _ passed)

-- The public key was checked when the private key was made.
pub public_key_checked :
    (c : Curve) (check : Validation) (bs : List ℕ) (key : PrivateKey)
    → make_private_key c check bs ≡ ok key
    → make_public_key c check key.public_key.raw_key ≡ ok key.public_key
unfolding make_private_key make_public_key
public_key_checked c check bs key e =
    let (_, _, e1) = >>=-eq-ok (guard (check.valid_private_key_bytes bs) validation_error) _ e in
    let (raw, _, e2) = >>=-eq-ok (private_key_to_public_key c bs) _ e1 in
    let (public_key, made_it, e3) = >>=-eq-ok (make_public_key c check raw) _ e2 in
    let (_, passed, e4) =
      >>=-eq-ok (guard (check.valid_uncompressed_public_key_bytes raw) validation_error) _
        made_it in
    let same : raw ≡ key.public_key.raw_key = cc in
    let test : check.valid_uncompressed_public_key_bytes key.public_key.raw_key ≡ true =
      ap check.valid_uncompressed_public_key_bytes (sym same) ∙ guard-eq-ok _ _ passed in
    rw test refl

-- A private key that is not 0 was made from bytes, and it returned a signature with a nonce that is not 0 mod
-- the order and parts that are not 0: the public key recovered from the signature and the message is
-- the private key's.
pub ecdsa_recover-sign_msg_hash :
    (c : Curve)
    → CurveLaws c
    → JacobianLaws c
    → (check : Validation) → ValidationLaws c.n check
    → (private_key_bytes msg_hash : List ℕ) (k : ℕ) (key : PrivateKey) (signature : Signature)
    → make_private_key c check private_key_bytes ≡ ok key
    → sign_msg_hash c check key msg_hash k ≡ ok signature
    → c.big_endian_to_int private_key_bytes ≢ 0
    → nonce c msg_hash private_key_bytes k % c.n ≢ 0
    → signature.r ≢ 0
    → signature.s ≢ 0
    → ecdsa_recover c check msg_hash signature ≡ ok key.public_key
unfolding ecdsa_recover ecdsa_sign
ecdsa_recover-sign_msg_hash c laws jac check valid bs m k key g made_key signed dnz knz rnz snz =
    let (raw, public_is) = public_key_of c check bs key made_key in
    let (v, r, s) = ecdsa_raw_sign c m key.raw_key k in
    let (r_is, s_is, r_lt, s_lt) = made_parts c.n c check valid v r s g signed in
    let v_is = made_v c check v r s g signed in
    let key_is =
      subst (λ x. private_key_to_public_key c x ≡ ok key.public_key.raw_key) (sym raw) public_is in
    let knz' = subst (λ x. nonce c m x k % c.n ≢ 0) (sym raw) knz in
    let d_small : c.big_endian_to_int bs % c.n ≡ c.big_endian_to_int bs =
      mod-eq_of_lt (key_below c bs _ public_is) in
    let dnz' =
      subst (λ x. c.big_endian_to_int x % c.n ≢ 0) (sym raw) (λ q. dnz (sym d_small ∙ q)) in
    let back =
      ecdsa_raw_recover-ecdsa_raw_sign c laws jac m key.raw_key key.public_key.raw_key k key_is dnz'
        knz' (not_zero_mod c.n g.r r r_is r_lt rnz) (not_zero_mod c.n g.s s s_is s_lt snz) in
    rw (v_is, r_is, s_is, back) (public_key_checked c check bs key made_key)
