-- ===== src/Account/Recovery.antt =====
-- The address that is recovered from what an account signed.
use sting_flashbots.Base.{
  ℕ, zero, suc, ◌%◌, ◌<◌, ◌≤◌, ◌≡◌, ◌≢◌, refl, sym, ap, ◌∙◌, List, ◌∷◌, none, some, length, true,
  false, arith, ok, >>=-eq-ok, guard, type_error,
}
use sting_flashbots.Ecdsa.{Curve, CurveLaws, nonce}
use sting_flashbots.Ecdsa.Recover.{JacobianLaws}
use sting_flashbots.Keys.{
  Validation, ValidationLaws, Signature, PrivateKey, make_private_key, sign_msg_hash,
}
use sting_flashbots.Keys.Signers.{made, sign_msg_hash-IsValid}
use sting_flashbots.Keys.Recovery.{ecdsa_recover-sign_msg_hash}
use sting_flashbots.Signing.{
  extract_chain_id, to_standard_v, TransactionClass, unsigned_transaction, chain_aware_transaction,
  typed_transaction, other_class, sign_by_class, sign_transaction_dict,
}
use sting_flashbots.Signing.ChainIds.{extract_chain_id-to_eth_v}
use sting_flashbots.Signing.Messages.{ToBytesLaws}
use sting_flashbots.Signing.Transactions.{
  SignedForm, nonce_argument, hash_signed, signed_by_class, recovered_hash,
}
use sting_flashbots.Account.{
  bytes_value, int_value, AccountPackage, KeyArgument, SignedTransaction, parse_private_key,
  from_key, check_hash, signature_object, recover_hash, vrs_values, is_typed, recover_typed,
  recover_legacy, recover_by_type, recover_transaction, sanitize, sign_transaction,
}

-- What the packages document: bytes and integers are converted to themselves, an account has the address of
-- its public key, and a message hash is a Keccak digest.
pub record AccountLaws (c : Curve) (e : AccountPackage) : Type 0 where
  pub hex_bytes_lem : (bs : List ℕ) → e.hex_bytes (bytes_value bs) ≡ ok bs
  pub to_int_lem : (n : ℕ) → e.to_int (int_value n) ≡ ok n
  pub to_bytes-laws : ToBytesLaws c e.to_bytes
  pub local_address_lem :
      (key : PrivateKey) → e.local_address key ≡ e.to_checksum_address key.public_key
  pub length-hash_eip191_message :
      (m : e.Message) (h : List ℕ) → e.hash_eip191_message m ≡ ok h → length h ≡ 32
  pub length-hash : (t : e.T) → length (e.eth.hash t) ≡ 32

-- How the bytes of a signed transaction are read: a legacy transaction starts with a byte above 0x7f and
-- has its signed form, a typed one with a byte up to 0x7f and has the hash that was signed.
pub data SignedBytes (e : AccountPackage) (u : e.T) (vrs : ℕ × ℕ × ℕ) (raw : List ℕ) : Type 0 where
  legacy_bytes :
      (txn : e.T) (first : ℕ) (rest : List ℕ)
      → raw ≡ first ∷ rest
      → 127 < first
      → e.legacy_from_bytes raw ≡ ok txn
      → e.vrs_from txn ≡ vrs
      → SignedForm e.eth u txn vrs.0
      → SignedBytes e u vrs raw
  typed_bytes :
      (txn : e.T) (first : ℕ) (rest : List ℕ)
      → raw ≡ first ∷ rest
      → first ≤ 127
      → e.eth.class_of u ≡ typed_transaction
      → e.typed_from_bytes raw ≡ ok txn
      → e.typed_vrs txn ≡ vrs
      → e.eth.hash txn ≡ e.eth.hash u
      → SignedBytes e u vrs raw

to_standard_v-bit : (v : ℕ) → v ≤ 1 → to_standard_v v ≡ ok v
unfolding to_standard_v extract_chain_id
to_standard_v-bit zero h = refl
to_standard_v-bit (suc zero) h = refl
to_standard_v-bit (suc (suc v)) h = absurd (omega arith)

pub signed_parts :
    (v r s : ℕ) (raw h : List ℕ) (signed : SignedTransaction)
    → ok (record { raw_transaction = raw; hash = h; r = r; s = s; v = v }) ≡ ok signed
    → ◌≡◌ {A = ℕ × ℕ × ℕ × List ℕ}
        (v, r, s, raw)
        (signed.v, signed.r, signed.s, signed.raw_transaction)
signed_parts v r s raw h signed q =
    let same : record { raw_transaction = raw; hash = h; r = r; s = s; v = v } ≡ signed = cc in
    ap (λ (t : SignedTransaction). (t.v, t.r, t.s, t.raw_transaction)) same

-- What a signed transaction holds comes from `sign_transaction_dict` on the sanitized fields.
signed_dict :
    (c : Curve) (check : Validation) (e : AccountPackage) (key : PrivateKey)
    (private_key : KeyArgument) (d d' : e.Dict) (k : ℕ) (signed : SignedTransaction)
    → parse_private_key c check e private_key ≡ ok key
    → sanitize c check e (record { address = e.local_address key; key_obj = key }) d ≡ ok d'
    → sign_transaction c check e d private_key k ≡ ok signed
    → sign_transaction_dict c check e.eth key d' k
      ≡ ok (signed.v, signed.r, signed.s, signed.raw_transaction)
unfolding sign_transaction from_key
signed_dict c check e key arg d d' k signed parsed clean sent =
    let (_, _, s1) = >>=-eq-ok (guard (e.is_mapping d) type_error) _ sent in
    let s2 = rw (parsed, clean) at s1 in
    let (vrs, made_it, s3) = >>=-eq-ok (sign_transaction_dict c check e.eth key d' k) _ s2 in
    made_it ∙ ap ok (signed_parts vrs.0 vrs.1 vrs.2 vrs.3 (e.keccak vrs.3) signed s3)

module _ (c : Curve) (laws : CurveLaws c) (jac : JacobianLaws c) (check : Validation)
    (valid : ValidationLaws c.n check) (e : AccountPackage) (account : AccountLaws c e) where
  -- The signature with which a key signs a hash leads back to the address of the key.
  abbrev IsTraced : List ℕ → ℕ × ℕ × ℕ → PrivateKey → Type 0
  IsTraced h vrs key =
      recover_hash c check e (bytes_value h) (vrs_values c check e vrs) none
      ≡ ok (e.local_address key)

  pub checked : (h : List ℕ) → length h ≡ 32 → check_hash c check e (bytes_value h) ≡ ok h
  unfolding check_hash
  checked h size = rw (account.hex_bytes_lem h, size) refl

  pub traced :
      (bytes h : List ℕ) (key : PrivateKey) (k v r s : ℕ) (g : Signature)
      → length h ≡ 32
      → make_private_key c check bytes ≡ ok key
      → sign_msg_hash c check key h k ≡ ok g
      → to_standard_v v ≡ ok g.v
      → r ≡ g.r
      → s ≡ g.s
      → c.big_endian_to_int bytes ≢ 0
      → nonce c h bytes k % c.n ≢ 0
      → r ≢ 0
      → s ≢ 0
      → IsTraced h (v, r, s) key
  unfolding recover_hash signature_object
  traced bytes h key k v r s g size made_key signed standard r_is s_is dnz knz rnz snz =
      let (gv, gr, gs) = sign_msg_hash-IsValid c.n c check valid key h k g signed in
      let again = made c.n c check valid g.v g.r g.s gv gs gr in
      let found =
        ecdsa_recover-sign_msg_hash c laws jac check valid bytes h k key g made_key signed dnz knz
          (λ q. rnz (r_is ∙ q)) (λ q. snz (s_is ∙ q)) in
      rw
        (
          checked h size,
          account.to_int_lem v,
          account.to_int_lem r,
          account.to_int_lem s,
          standard,
          r_is,
          s_is,
          again,
          found,
        )
        (ap ok (sym (account.local_address_lem key)))

  -- Each class of transaction is signed with a `v` that the standard form turns into the recovery bit.
  standard_of :
      (key : PrivateKey) (cls : TransactionClass) (u : e.T) (k v r s : ℕ)
      → sign_by_class c check e.eth cls key u k ≡ ok (v, r, s)
      → (g : Signature) × (sign_msg_hash c check key (e.eth.hash u) (nonce_argument cls k) ≡ ok g)
        × (to_standard_v v ≡ ok g.v)
        × (r ≡ g.r)
        × (s ≡ g.s)
  unfolding sign_by_class
  standard_of key unsigned_transaction u k v r s h =
      let (g, signed, v_is, r_is, s_is) =
        hash_signed e.eth c check key (e.eth.hash u) none 0 v r s h in
      let (bit, _, _) = sign_msg_hash-IsValid c.n c check valid key (e.eth.hash u) 0 g signed in
      (g, signed, rw v_is (extract_chain_id-to_eth_v g.v none bit).1, r_is, s_is)
  standard_of key chain_aware_transaction u k v r s h =
      let chain = some (e.eth.v_of u) in
      let (g, signed, v_is, r_is, s_is) =
        hash_signed e.eth c check key (e.eth.hash u) chain k v r s h in
      let (bit, _, _) = sign_msg_hash-IsValid c.n c check valid key (e.eth.hash u) k g signed in
      (g, signed, rw v_is (extract_chain_id-to_eth_v g.v chain bit).1, r_is, s_is)
  standard_of key typed_transaction u k v r s h =
      let (g, signed, h1) = >>=-eq-ok (sign_msg_hash c check key (e.eth.hash u) 0) _ h in
      let (bit, _, _) = sign_msg_hash-IsValid c.n c check valid key (e.eth.hash u) 0 g signed in
      let v_is : v ≡ g.v = cc in (g, signed, rw v_is (to_standard_v-bit g.v bit), cc, cc)
  standard_of key other_class u k v r s h = cc

  legacy_first :
      (first : ℕ) (rest raw : List ℕ)
      → raw ≡ first ∷ rest
      → 127 < first
      → is_typed c check e raw ≡ false
  unfolding is_typed
  legacy_first first rest raw raw_is above = rw raw_is (ground arith)

  typed_first :
      (first : ℕ) (rest raw : List ℕ)
      → raw ≡ first ∷ rest
      → first ≤ 127
      → is_typed c check e raw ≡ true
  unfolding is_typed
  typed_first first rest raw raw_is below = rw raw_is (ground arith)

  recovered_bytes :
      (key : PrivateKey) (u : e.T) (k v r s : ℕ) (raw : List ℕ)
      → sign_by_class c check e.eth (e.eth.class_of u) key u k ≡ ok (v, r, s)
      → SignedBytes e u (v, r, s) raw
      → IsTraced (e.eth.hash u) (v, r, s) key
      → recover_transaction c check e (bytes_value raw) ≡ ok (e.local_address key)
  unfolding recover_transaction recover_legacy recover_typed
  recovered_bytes key u k v r s raw signed (legacy_bytes txn first rest raw_is above read vrs form)
        trace =
      let legacy : is_typed c check e raw ≡ false = legacy_first first rest raw raw_is above in
      let hashed = recovered_hash e.eth c check key c.n valid u txn k v r s form signed in
      rw (account.hex_bytes_lem raw)
        (ap (λ b. recover_by_type c check e b raw) legacy ∙ rw (read, hashed, vrs) trace)
  recovered_bytes key u k v r s raw signed
        (typed_bytes txn first rest raw_is below cls read vrs same) trace =
      let typed : is_typed c check e raw ≡ true = typed_first first rest raw raw_is below in
      rw (account.hex_bytes_lem raw)
        (ap (λ b. recover_by_type c check e b raw) typed ∙ rw (read, vrs, same) trace)

-- A transaction that an account signs, legacy or typed, with a key that is not 0, a nonce that is not 0 mod the
-- order and parts that are not 0: `recover_transaction` finds the account's address from the raw bytes.
pub recover_transaction-sign_transaction :
    (c : Curve)
    → CurveLaws c
    → JacobianLaws c
    → (check : Validation) → ValidationLaws c.n check
    → (e : AccountPackage) → AccountLaws c e
    → (private_key_bytes : List ℕ) (key : PrivateKey) (private_key : KeyArgument) (d d' : e.Dict)
      (u : e.T) (k : ℕ) (signed : SignedTransaction)
    → make_private_key c check private_key_bytes ≡ ok key
    → parse_private_key c check e private_key ≡ ok key
    → sanitize c check e (record { address = e.local_address key; key_obj = key }) d ≡ ok d'
    → e.eth.serializable_unsigned_transaction_from_dict d' ≡ ok u
    → sign_transaction c check e d private_key k ≡ ok signed
    → SignedBytes e u (signed.v, signed.r, signed.s) signed.raw_transaction
    → c.big_endian_to_int private_key_bytes ≢ 0
    → nonce c (e.eth.hash u) private_key_bytes (nonce_argument (e.eth.class_of u) k) % c.n ≢ 0
    → signed.r ≢ 0
    → signed.s ≢ 0
    → recover_transaction c check e (bytes_value signed.raw_transaction) ≡ ok (e.local_address key)
recover_transaction-sign_transaction c laws jac check valid e account bytes key arg d d' u k signed
      made_key parsed clean read sent form dnz knz rnz snz =
    let dict_signed = signed_dict c check e key arg d d' k signed parsed clean sent in
    let by_class =
      signed_by_class e.eth c check key d' u k signed.v signed.r signed.s signed.raw_transaction
        read dict_signed in
    let (g, g_signed, standard, r_is, s_is) =
      standard_of c laws jac check valid e account key (e.eth.class_of u) u k signed.v signed.r
        signed.s by_class in
    recovered_bytes c laws jac check valid e account key u k signed.v signed.r signed.s
      signed.raw_transaction by_class form
      (traced c laws jac check valid e account bytes (e.eth.hash u) key
        (nonce_argument (e.eth.class_of u) k) signed.v signed.r signed.s g (account.length-hash u)
        made_key g_signed standard r_is s_is dnz knz rnz snz)
