-- ===== src/Honeypot/Payout.antt =====
-- The contract pays for what the enclave signed.
use sting_flashbots.Base.{
  ℕ, zero, suc, ◌+◌, ◌*◌, ◌%◌, ◌^◌, ◌<◌, ◌≤◌, ◌≡◌, ◌≢◌, refl, sym, ap, ◌∙◌, true, false, Bool-cases,
  inl, inr, List, [], ◌∷◌, ◌++◌, length, leb-true, bytes_eq, bytes_eq→eq, bytes_eq_refl, ok, arith,
  >>=-eq-ok, ok-injective,
}
use sting_flashbots.Ecdsa.{Curve, CurveLaws, nonce, ecdsa_raw_sign}
use sting_flashbots.Ecdsa.Ranges.{ecdsa_raw_sign_ranges}
use sting_flashbots.Ecdsa.Recover.{JacobianLaws}
use sting_flashbots.Keys.{
  Validation, ValidationLaws, Signature, PublicKey, PrivateKey, make_private_key, sign_msg_hash,
  ecdsa_sign, ecdsa_recover,
}
use sting_flashbots.Keys.Signatures.{first_part, second_part, third_part, total_length}
use sting_flashbots.Keys.Signers.{made_parts, sign_msg_hash-IsValid}
use sting_flashbots.Signing.{to_eth_v, sign_message_hash}
use sting_flashbots.Signing.Messages.{ToBytesLaws}
use sting_flashbots.Flashbots.{big_endian}
use sting_flashbots.Keys.Recovery.{ecdsa_recover-sign_msg_hash}
use sting_flashbots.Account.{
  Value, KeyArgument, key_value, SignedMessage, parse_private_key, sign_message,
}
use sting_flashbots.Account.Messages.{signed_hash}
use sting_flashbots.Account.Recovery.{AccountLaws}
use sting_flashbots.Stinger.{EvidencePackage, VerifyData, verify_evidence}
use sting_flashbots.Stinger.Soundness.{signed_block-verify_evidence}
use sting_flashbots.Honeypot.Texts.{to_bytes32_whole}
use sting_flashbots.Honeypot.{
  Evm, Honeypot, Context, highest_s, hash_data, recover, block_of, collect_bounty,
}
use sting_flashbots.Honeypot.Calls.{collected}

differs : (xs ys : List ℕ) → xs ≢ ys → bytes_eq xs ys ≡ false
differs xs ys other = elim (Bool-cases (bytes_eq xs ys)) [
  | inl same ↦ absurd (other (bytes_eq→eq xs ys same))
  | inr differ ↦ differ
]

-- A signature of 65 bytes with a low `s`.
recover_parts :
    (e : Evm) (hash left right address : List ℕ) (v : ℕ)
    → length left ≡ 32
    → length right ≡ 32
    → big_endian 0 right ≤ highest_s
    → e.ecrecover hash v (big_endian 0 left) (big_endian 0 right) ≡ address
    → address ≢ e.zero_address
    → recover e hash ((left ++ right) ++ (v ∷ [])) ≡ ok address
unfolding recover
recover_parts e hash left right address v nl nr low found other =
    let v_is : 0 * 256 + v ≡ v = omega arith in
    rw
      (
        total_length left right (v ∷ []) nl nr,
        first_part left right (v ∷ []) nl nr,
        second_part left right (v ∷ []) nl nr,
        third_part left right (v ∷ []) nl nr,
        leb-true (big_endian 0 right) highest_s low,
        v_is,
        found,
        differs address e.zero_address other,
      )
      refl

-- The bytes of a signed hash.
signed_bytes :
    (c : Curve)
    → CurveLaws c
    → (check : Validation) → ValidationLaws c.n check
    → c.n ≤ 2 ^ 256
    → (to_bytes : ℕ → List ℕ) → ToBytesLaws c to_bytes
    → (key : PrivateKey) (h : List ℕ) (v r s : ℕ) (bytes : List ℕ)
    → sign_message_hash c check to_bytes key h ≡ ok (v, r, s, bytes)
    → (g : Signature) × (sign_msg_hash c check key h 0 ≡ ok g)
      × (r ≡ g.r)
      × (s ≡ g.s)
      × (bytes
          ≡ (c.pad32 (c.int_to_big_endian g.r) ++ c.pad32 (c.int_to_big_endian g.s))
            ++ ((g.v + 27) ∷ []))
unfolding sign_message_hash to_eth_v
signed_bytes c laws check valid small to_bytes words key h v r s bytes made =
    let (g, signed, e1) = >>=-eq-ok (sign_msg_hash c check key h 0) _ made in
    let (hv, hr, hs) = sign_msg_hash-IsValid c.n c check valid key h 0 g signed in
    let whole = sym (ok-injective e1) in
    (
      g,
      signed,
      ap (λ (q : ℕ × ℕ × ℕ × List ℕ). q.1) whole,
      ap (λ (q : ℕ × ℕ × ℕ × List ℕ). q.2) whole,
      rw
          (
            ← words.pad-to_bytes g.r (omega arith),
            ← words.pad-to_bytes g.s (omega arith),
            ← words.to_bytes_byte (g.v + 27) (omega arith),
          )
          (ap (λ (q : ℕ × ℕ × ℕ × List ℕ). q.3) whole),
    )

low_s :
    (c : Curve)
    → CurveLaws c
    → (check : Validation) → ValidationLaws c.n check
    → c.n ≤ 2 * highest_s + 1
    → (key : PrivateKey) (h : List ℕ) (g : Signature) → sign_msg_hash c check key h 0 ≡ ok g
    → g.s ≤ highest_s
unfolding ecdsa_sign
low_s c laws check valid order key h g signed =
    let (v, r, s) = ecdsa_raw_sign c h key.raw_key 0 in
    let (_, s_is, _, _) = made_parts c.n c check valid v r s g signed in
    let (_, half, _, _) = ecdsa_raw_sign_ranges c laws.order_pos h key.raw_key 0 in
    omega (arith, s_is, half)

-- What the EVM and RLPReader document, for what the enclave signs: `ecrecover` gives the address of the key that is
-- recovered from a hash of 32 bytes, for a recovery id of 0 or 1 and parts that are below the order and not 0;
-- EIP-191's hash is that of the contract, bytes are read from the highest, and the encoding of a block of a 256-bit
-- number and a hash of 32 bytes is a list of them.
pub record PayoutLaws (c : Curve) (check : Validation) (e : EvidencePackage) (evm : Evm)
    : Type 0 where
  pub ecrecover_lem :
      (h : List ℕ) (g : Signature) (key : PublicKey)
      → length h ≡ 32
      → g.v ≤ 1
      → 0 < g.r
      → g.r < c.n
      → 0 < g.s
      → g.s < c.n
      → ecdsa_recover c check h g ≡ ok key
      → evm.ecrecover h (g.v + 27) g.r g.s ≡ e.account.to_checksum_address key
  pub hash_eip191-encode_defunct :
      (data_bytes : List ℕ)
      → e.account.hash_eip191_message (e.encode_defunct data_bytes) ≡ ok (hash_data evm data_bytes)
  pub big_endian_lem : (bs : List ℕ) → c.big_endian_to_int bs ≡ big_endian 0 bs
  pub to_list-encode_block :
      (block_num : ℕ) (hash : List ℕ)
      → block_num < 2 ^ 256
      → length hash ≡ 32
      → (a b : evm.RLPItem) × (evm.to_list (e.encode_block block_num hash) ≡ ok (a ∷ b ∷ []))
        × (evm.to_uint a ≡ ok block_num)
        × (evm.to_bytes b ≡ ok hash)

block_of-encode_block :
    (c : Curve) (check : Validation) (e : EvidencePackage) (evm : Evm)
    → PayoutLaws c check e evm
    → (block_num : ℕ) (hash : List ℕ) → block_num < 2 ^ 256
    → length hash ≡ 32
    → block_of evm (e.encode_block block_num hash) ≡ ok (block_num, hash)
unfolding block_of
block_of-encode_block c check e evm laws block_num hash word size =
    let (a, b, listed, number, bytes) = laws.to_list-encode_block block_num hash word size in
    rw (listed, number, bytes, to_bytes32_whole hash size) refl

word_read :
    (c : Curve)
    → CurveLaws c
    → (check : Validation) (e : EvidencePackage) (evm : Evm) → PayoutLaws c check e evm
    → (x : ℕ) → x < 2 ^ 256
    → big_endian 0 (c.pad32 (c.int_to_big_endian x)) ≡ x
word_read c laws check e evm payout x small =
    sym (payout.big_endian_lem (c.pad32 (c.int_to_big_endian x))) ∙ laws.to_int-pad32 x small

not_zero : (x : ℕ) → x ≢ 0 → 0 < x
not_zero zero other = absurd (other refl)
not_zero (suc x) other = omega arith

-- The contract recovers the address of the key that signed a hash.
recover-sign_message_hash :
    (c : Curve)
    → CurveLaws c
    → JacobianLaws c
    → (check : Validation) → ValidationLaws c.n check
    → (e : EvidencePackage) → AccountLaws c e.account
    → (evm : Evm) → PayoutLaws c check e evm
    → c.n ≤ 2 * highest_s + 1
    → (private_key_bytes h : List ℕ) (key : PrivateKey) (v r s : ℕ) (bytes : List ℕ) → length h ≡ 32
    → make_private_key c check private_key_bytes ≡ ok key
    → sign_message_hash c check e.account.to_bytes key h ≡ ok (v, r, s, bytes)
    → c.big_endian_to_int private_key_bytes ≢ 0
    → nonce c h private_key_bytes 0 % c.n ≢ 0
    → r ≢ 0
    → s ≢ 0
    → e.account.local_address key ≢ evm.zero_address
    → recover evm h bytes ≡ ok (e.account.local_address key)
recover-sign_message_hash c laws jac check valid e account evm payout order key_bytes h key v r s
      bytes size made signed dnz knz rnz snz other =
    let (g, g_is, r_is, s_is, bytes_is) =
      signed_bytes c laws check valid (omega (arith, order)) e.account.to_bytes
        account.to_bytes-laws key h v r s bytes signed in
    let (hv, hr, hs) = sign_msg_hash-IsValid c.n c check valid key h 0 g g_is in
    let r_read = word_read c laws check e evm payout g.r (omega arith) in
    let s_read = word_read c laws check e evm payout g.s (omega arith) in
    let low = low_s c laws check valid order key h g g_is in
    let recovered =
      ecdsa_recover-sign_msg_hash c laws jac check valid key_bytes h 0 key g made g_is dnz knz
        (λ q. rnz (r_is ∙ q)) (λ q. snz (s_is ∙ q)) in
    let address_is = account.local_address_lem key in
    let ecrecovered =
      payout.ecrecover_lem h g key.public_key size hv (not_zero g.r (λ q. rnz (r_is ∙ q))) hr
        (not_zero g.s (λ q. snz (s_is ∙ q))) hs recovered in
    rw bytes_is (
      recover_parts evm h (c.pad32 (c.int_to_big_endian g.r)) (c.pad32 (c.int_to_big_endian g.s))
        (e.account.local_address key) (g.v + 27) (laws.length-pad32 g.r (omega arith))
        (laws.length-pad32 g.s (omega arith)) (omega (arith, s_read, low))
        (rw (r_read, s_read) (ecrecovered ∙ sym address_is)) other)

-- The message that was signed, as the hash of the contract.
signed_block_hash :
    (c : Curve)
    → CurveLaws c
    → JacobianLaws c
    → (check : Validation) → ValidationLaws c.n check
    → (e : EvidencePackage) → AccountLaws c e.account
    → (evm : Evm) → PayoutLaws c check e evm
    → c.n ≤ 2 ^ 256
    → (blob : List ℕ) (private_key : KeyArgument) (key : PrivateKey) (signed : SignedMessage)
    → parse_private_key c check e.account private_key ≡ ok key
    → sign_message c check e.account (e.encode_defunct blob) private_key ≡ ok signed
    → sign_message_hash c check e.account.to_bytes key (hash_data evm blob)
      ≡ ok (signed.v, signed.r, signed.s, signed.signature)
unfolding sign_message
signed_block_hash c laws jac check valid e account evm payout small blob private_key key signed
      parsed sent =
    let hashed = payout.hash_eip191-encode_defunct blob in
    signed_hash c laws jac check valid e.account account small (hash_data evm blob) private_key key
      signed (account.length-hash_eip191_message (e.encode_defunct blob) _ hashed) parsed
      (rw hashed at sent)

pub collect_bounty-verify_evidence :
    (c : Curve)
    → CurveLaws c
    → JacobianLaws c
    → (check : Validation) → ValidationLaws c.n check
    → (e : EvidencePackage) → AccountLaws c e.account
    → (evm : Evm) → PayoutLaws c check e evm
    → c.n ≤ 2 * highest_s + 1
    → (evidence : VerifyData e.block.proof.Blob) (stinger : List ℕ) (secret_key : Value)
      (private_key_bytes blob sig hash : List ℕ) (key : PrivateKey) (signed : SignedMessage)
      (self : Honeypot) (msg : Context)
    → verify_evidence c check e evidence stinger secret_key ≡ ok (blob, sig)
    → make_private_key c check private_key_bytes ≡ ok key
    → parse_private_key c check e.account (key_value secret_key) ≡ ok key
    → sign_message c check e.account (e.encode_defunct blob) (key_value secret_key) ≡ ok signed
    → c.big_endian_to_int private_key_bytes ≢ 0
    → nonce c (hash_data evm blob) private_key_bytes 0 % c.n ≢ 0
    → signed.r ≢ 0
    → signed.s ≢ 0
    → e.account.local_address key ≢ evm.zero_address
    → evidence.target_block_num < 2 ^ 256
    → e.block.proof.block_hash evidence.target_block_num ≡ ok hash
    → length hash ≡ 32
    → msg.blockhash evidence.target_block_num ≡ hash
    → self.claimed ≡ false
    → self.enclave_approved (e.account.local_address key) ≡ true
    → self.bounty ≤ self.balance
    → evm.accepts msg.sender ≡ true
    → collect_bounty evm self msg (e.account.local_address key) blob sig
      ≡ ok (collected self msg.sender)
unfolding collect_bounty
collect_bounty-verify_evidence c laws jac check valid e account evm payout order evidence stinger
      secret_key key_bytes blob sig hash key signed self msg accepted made parsed sent dnz knz rnz
      snz other word hash_is size chain unclaimed granted rich takes =
    let n = evidence.target_block_num in
    let (hash', found, b1) =
      >>=-eq-ok (e.block.proof.block_hash n) _
        (signed_block-verify_evidence c check e evidence stinger secret_key (blob, sig) accepted) in
    let (signed', sent', b2) =
      >>=-eq-ok
        (sign_message c check e.account (e.encode_defunct (e.encode_block n hash'))
          (key_value secret_key))
        _ b1 in
    let result = ok-injective b2 in
    let blob_is : e.encode_block n hash' ≡ blob = ap (λ (q : List ℕ × List ℕ). q.0) result in
    let sig_is : signed'.signature ≡ sig = ap (λ (q : List ℕ × List ℕ). q.1) result in
    let hash_eq : hash' ≡ hash = ok-injective (sym found ∙ hash_is) in
    let signed_eq : signed' ≡ signed = ok-injective (sym (rw blob_is at sent') ∙ sent) in
    let block_is =
      rw (← hash_eq, blob_is) at (block_of-encode_block c check e evm payout n hash word size) in
    let recovered =
      recover-sign_message_hash c laws jac check valid e account evm payout order key_bytes
        (hash_data evm blob) key signed.v signed.r signed.s signed.signature
        (account.length-hash_eip191_message (e.encode_defunct blob) _
          (payout.hash_eip191-encode_defunct blob))
        made
        (signed_block_hash c laws jac check valid e account evm payout (omega (arith, order)) blob
          (key_value secret_key) key signed parsed sent)
        dnz knz rnz snz other in
    let sig_eq : sig ≡ signed.signature =
      sym sig_is ∙ ap (λ (q : SignedMessage). q.signature) signed_eq in
    rw
      (
        unclaimed,
        granted,
        sig_eq,
        recovered,
        bytes_eq_refl (e.account.local_address key),
        block_is,
        chain,
        sym hash_eq,
        bytes_eq_refl hash',
        leb-true self.bounty self.balance rich,
        takes,
      )
      refl
