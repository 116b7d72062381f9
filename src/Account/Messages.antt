-- ===== src/Account/Messages.antt =====
-- Signed messages and the address that is recovered from them.
use sting_flashbots.Base.{
  ℕ, ◌%◌, ◌≤◌, ◌≡◌, ◌≢◌, ◌^◌, sym, ap, ◌∙◌, List, none, some, length, ok, >>=-eq-ok,
}
use sting_flashbots.Ecdsa.{Curve, CurveLaws, nonce}
use sting_flashbots.Ecdsa.Recover.{JacobianLaws}
use sting_flashbots.Keys.{Validation, ValidationLaws, PrivateKey, make_private_key}
use sting_flashbots.Keys.Recovery.{ecdsa_recover-sign_msg_hash}
use sting_flashbots.Keys.Signers.{sign_msg_hash-IsValid}
use sting_flashbots.Signing.{to_standard_v, sign_message_hash}
use sting_flashbots.Signing.ChainIds.{extract_chain_id-to_eth_v}
use sting_flashbots.Signing.Messages.{make_signature-sign_message_hash}
use sting_flashbots.Account.{
  bytes_value, AccountPackage, KeyArgument, SignedMessage, parse_private_key, signature_object,
  recover_hash, vrs_values, recover_message, sign_hash, sign_message,
}
use sting_flashbots.Account.Recovery.{AccountLaws, checked, traced}

-- What `sign_hash` returns was made by `sign_message_hash`.
hash_parts :
    (c : Curve) (check : Validation) (e : AccountPackage) (key : PrivateKey) (h : List ℕ)
    (signed : SignedMessage) (v r s : ℕ) (bytes : List ℕ)
    → ok (record { message_hash = h; r = r; s = s; v = v; signature = bytes }) ≡ ok signed
    → (signed.v ≡ v) × (signed.r ≡ r) × (signed.s ≡ s) × (signed.signature ≡ bytes)
hash_parts c check e key h signed v r s bytes q =
    let same : record { message_hash = h; r = r; s = s; v = v; signature = bytes } ≡ signed = cc in
    (
      sym (ap (λ (t : SignedMessage). t.v) same),
      sym (ap (λ (t : SignedMessage). t.r) same),
      sym (ap (λ (t : SignedMessage). t.s) same),
      sym (ap (λ (t : SignedMessage). t.signature) same),
    )

module _ (c : Curve) (laws : CurveLaws c) (jac : JacobianLaws c) (check : Validation)
    (valid : ValidationLaws c.n check) (e : AccountPackage) (account : AccountLaws c e)
    (small : c.n ≤ 2 ^ 256) where
  pub signed_hash :
      (h : List ℕ) (arg : KeyArgument) (key : PrivateKey) (signed : SignedMessage)
      → length h ≡ 32
      → parse_private_key c check e arg ≡ ok key
      → sign_hash c check e (bytes_value h) arg ≡ ok signed
      → sign_message_hash c check e.to_bytes key h
        ≡ ok (signed.v, signed.r, signed.s, signed.signature)
  unfolding sign_hash
  signed_hash h arg key signed size parsed sent =
      let s1 = rw (checked c laws jac check valid e account h size, parsed) at sent in
      let (vrs, made_it, s2) = >>=-eq-ok (sign_message_hash c check e.to_bytes key h) _ s1 in
      let (v_is, r_is, s_is, b_is) = hash_parts c check e key h signed vrs.0 vrs.1 vrs.2 vrs.3 s2 in
      rw (v_is, r_is, s_is, b_is) made_it

  recovered_hash_lem :
      (bytes h : List ℕ) (arg : KeyArgument) (key : PrivateKey) (signed : SignedMessage)
      → length h ≡ 32
      → make_private_key c check bytes ≡ ok key
      → parse_private_key c check e arg ≡ ok key
      → sign_hash c check e (bytes_value h) arg ≡ ok signed
      → c.big_endian_to_int bytes ≢ 0
      → nonce c h bytes 0 % c.n ≢ 0
      → signed.r ≢ 0
      → signed.s ≢ 0
      → (recover_hash c check e (bytes_value h) none (some (bytes_value signed.signature))
          ≡ ok (e.local_address key))
        × (recover_hash c check e
              (bytes_value h)
              (vrs_values c check e (signed.v, signed.r, signed.s))
              none
            ≡ ok (e.local_address key))
  unfolding recover_hash signature_object
  recovered_hash_lem bytes h arg key signed size made_key parsed sent dnz knz rnz snz =
      let made_it = signed_hash h arg key signed size parsed sent in
      let (standard, g, standard_is, again, g_signed, v_is, r_is, s_is) =
        make_signature-sign_message_hash c laws check valid small e.to_bytes account.to_bytes-laws
          key h signed.v signed.r signed.s signed.signature made_it in
      let found =
        ecdsa_recover-sign_msg_hash c laws jac check valid bytes h 0 key g made_key g_signed dnz knz
          (λ q. rnz (r_is ∙ q)) (λ q. snz (s_is ∙ q)) in
      let (bit, _, _) = sign_msg_hash-IsValid c.n c check valid key h 0 g g_signed in
      let back : to_standard_v signed.v ≡ ok g.v =
        rw v_is (extract_chain_id-to_eth_v g.v none bit).1 in
      (
        rw
            (
              checked c laws jac check valid e account h size,
              account.hex_bytes_lem signed.signature,
              standard_is,
              again,
              found,
            )
            (ap ok (sym (account.local_address_lem key))),
        traced c laws jac check valid e account bytes h key 0 signed.v signed.r signed.s g size
            made_key g_signed back r_is s_is dnz knz rnz snz,
      )

-- A message that an account signs, with a key that is not 0, a nonce that is not 0 mod the order and parts that
-- are not 0: `recover_message` finds the account's address, from the signature's bytes as well as from
-- its three numbers.
pub recover_message-sign_message :
    (c : Curve)
    → CurveLaws c
    → JacobianLaws c
    → (check : Validation) → ValidationLaws c.n check
    → (e : AccountPackage) → AccountLaws c e
    → c.n ≤ 2 ^ 256
    → (private_key_bytes h : List ℕ) (m : e.Message) (private_key : KeyArgument) (key : PrivateKey)
      (signed : SignedMessage)
    → make_private_key c check private_key_bytes ≡ ok key
    → parse_private_key c check e private_key ≡ ok key
    → e.hash_eip191_message m ≡ ok h
    → sign_message c check e m private_key ≡ ok signed
    → c.big_endian_to_int private_key_bytes ≢ 0
    → nonce c h private_key_bytes 0 % c.n ≢ 0
    → signed.r ≢ 0
    → signed.s ≢ 0
    → (recover_message c check e m none (some (bytes_value signed.signature))
        ≡ ok (e.local_address key))
      × (recover_message c check e m (vrs_values c check e (signed.v, signed.r, signed.s)) none
          ≡ ok (e.local_address key))
unfolding recover_message sign_message
recover_message-sign_message c laws jac check valid e account small bytes h m arg key signed
      made_key parsed hashed sent dnz knz rnz snz =
    let sent' = rw hashed at sent in
    rw hashed (
      recovered_hash_lem c laws jac check valid e account small bytes h arg key signed
        (account.length-hash_eip191_message m h hashed) made_key parsed sent' dnz knz rnz snz)
