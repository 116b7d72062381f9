-- ===== src/Signing/Messages.antt =====
-- Signed messages.
use sting_flashbots.Base.{
  ℕ, ◌-◌, ◌^◌, ◌<◌, ◌≤◌, ◌≡◌, List, [], ◌∷◌, ◌++◌, none, some, replicate, length, length-append,
  take-append, get_elem?, ok, arith, refl, subst, >>=-eq-ok,
}
use sting_flashbots.Ecdsa.{Curve, CurveLaws, ecdsa_raw_sign}
use sting_flashbots.Keys.{
  Validation, ValidationLaws, Signature, PrivateKey, make_signature, sign_msg_hash, ecdsa_sign,
}
use sting_flashbots.Keys
use sting_flashbots.Keys.Signatures.{IsValid, make_signature-to_bytes}
use sting_flashbots.Keys.Signers.{make_signature-IsValid}
use sting_flashbots.Signing.{to_eth_v, to_bytes32, to_standard_signature_bytes, sign_message_hash}
use sting_flashbots.Signing.ChainIds.{extract_chain_id-to_eth_v}

get_elem?-last : (xs : List ℕ) (x : ℕ) → get_elem? (xs ++ (x ∷ [])) (length xs) ≡ some x
get_elem?-last [] x = refl
get_elem?-last (y ∷ xs) x = get_elem?-last xs x

-- What eth_utils documents of `to_bytes`: a number below 256 is one byte, and padded to 32 bytes a number
-- is what `pad32` makes of its shortest big-endian bytes.
pub record ToBytesLaws (c : Curve) (to_bytes : ℕ → List ℕ) : Type 0 where
  pub to_bytes_byte : (x : ℕ) → x < 256 → to_bytes x ≡ x ∷ []
  pub pad-to_bytes :
      (x : ℕ)
      → x < 2 ^ 256
      → replicate (32 - length (to_bytes x)) 0 ++ to_bytes x ≡ c.pad32 (c.int_to_big_endian x)

module _ (c : Curve) (check : Validation) (to_bytes : ℕ → List ℕ) where
  -- A byte string with a last byte that `to_eth_v` made gets its recovery bit back there.
  to_standard-append :
      (front : List ℕ) (v : ℕ)
      → v ≤ 1
      → to_standard_signature_bytes c check to_bytes (front ++ (to_eth_v v none ∷ []))
        ≡ ok (front ++ to_bytes v)
  unfolding to_standard_signature_bytes
  to_standard-append front v h =
      let w : ℕ = to_eth_v v none in
      let size : length (front ++ (w ∷ [])) - 1 ≡ length front =
        omega (arith, length-append front (w ∷ [])) in
      rw (
        size,
        get_elem?-last front w,
        take-append front (w ∷ []),
        (extract_chain_id-to_eth_v v none h).1,
      )

  standard_bytes :
      CurveLaws c
      → ValidationLaws c.n check
      → ToBytesLaws c to_bytes
      → c.n ≤ 2 ^ 256
      → (g : Signature) → IsValid c.n g
      → to_standard_signature_bytes c check to_bytes (
          (to_bytes32 c check to_bytes g.r ++ to_bytes32 c check to_bytes g.s)
          ++ to_bytes (to_eth_v g.v none))
        ≡ ok (Keys.to_bytes c check g)
  unfolding Keys.to_bytes
  standard_bytes laws valid words small g (hv, hr, hs) =
      let eth_byte : to_bytes (to_eth_v g.v none) ≡ to_eth_v g.v none ∷ [] =
        words.to_bytes_byte (to_eth_v g.v none) (unfold to_eth_v in omega arith) in
      rw (
        eth_byte,
        to_standard-append (to_bytes32 c check to_bytes g.r ++ to_bytes32 c check to_bytes g.s) g.v
            hv,
        words.pad-to_bytes g.r (omega arith),
        words.pad-to_bytes g.s (omega arith),
        words.to_bytes_byte g.v (omega arith),
        valid.int_to_byte_lem g.v (omega arith),
      )

-- The bytes that `sign_message_hash` returns, brought to their standard form, are read back as the signature
-- that the key makes of the hash with no nonce given, and its numbers are the other results.
pub make_signature-sign_message_hash :
    (c : Curve)
    → CurveLaws c
    → (check : Validation) → ValidationLaws c.n check
    → c.n ≤ 2 ^ 256
    → (to_bytes : ℕ → List ℕ) → ToBytesLaws c to_bytes
    → (key : PrivateKey) (msg_hash : List ℕ) (v r s : ℕ) (bytes : List ℕ)
    → sign_message_hash c check to_bytes key msg_hash ≡ ok (v, r, s, bytes)
    → (standard : List ℕ) × (signature : Signature) × (to_standard_signature_bytes c check to_bytes
          bytes
        ≡ ok standard)
      × (make_signature c check (some standard) none ≡ ok signature)
      × (sign_msg_hash c check key msg_hash 0 ≡ ok signature)
      × (v ≡ to_eth_v signature.v none)
      × (r ≡ signature.r)
      × (s ≡ signature.s)
unfolding sign_message_hash
make_signature-sign_message_hash c laws check valid small to_bytes words key m v r s bytes e =
    let (g, signed, e1) = >>=-eq-ok (sign_msg_hash c check key m 0) _ e in
    let ok_g =
      make_signature-IsValid c.n c check valid none (some (ecdsa_raw_sign c m key.raw_key 0)) g
        (unfold ecdsa_sign in signed) in
    let whole = standard_bytes c check to_bytes laws valid words small g ok_g in
    let bytes_is : (to_bytes32 c check to_bytes g.r ++ to_bytes32 c check to_bytes g.s)
          ++ to_bytes (to_eth_v g.v none)
        ≡ bytes =
      cc in
    (
      Keys.to_bytes c check g,
      g,
      subst (λ bs. to_standard_signature_bytes c check to_bytes bs ≡ ok (Keys.to_bytes c check g))
          bytes_is whole,
      (make_signature-to_bytes c laws check valid small g ok_g).0,
      signed,
      cc,
      cc,
      cc,
    )
