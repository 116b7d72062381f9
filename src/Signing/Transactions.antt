-- ===== src/Signing/Transactions.antt =====
-- Signed transactions.
use sting_flashbots.Base.{
  ℕ, ◌%◌, ◌≤◌, ◌≡◌, ◌≢◌, List, [], ◌∷◌, ◌++◌, Option, none, some, Result, ok, err, arith, refl, ap,
  ◌∙◌, true, ◌==◌, if◌then◌else◌, >>=-eq-ok, ◌>>=◌,
}
use sting_flashbots.Ecdsa.{Curve, CurveLaws, nonce, ecdsa_raw_sign, deterministic_generate_k}
use sting_flashbots.Keys.{
  Validation, ValidationLaws, Signature, PrivateKey, make_private_key, sign_msg_hash, ecdsa_sign,
  ecdsa_verify,
}
use sting_flashbots.Keys.Signers.{make_signature-IsValid, verify_msg_hash-sign_msg_hash, made_parts}
use sting_flashbots.Signing.{
  to_eth_v, TransactionClass, unsigned_transaction, chain_aware_transaction, typed_transaction,
  other_class, TransactionPackage, sign_transaction_hash, sign_by_class, sign_transaction_dict,
  hash_of_signed_transaction,
}
use sting_flashbots.Signing.ChainIds.{extract_chain_id-to_eth_v}

-- The nonce that reaches the signer.
abbrev pub nonce_argument : TransactionClass → ℕ → ℕ
nonce_argument chain_aware_transaction k = k
nonce_argument cls k = 0

triple_of :
    (m : Result (ℕ × ℕ × ℕ)) (f : ℕ × ℕ × ℕ → List ℕ) {v r s : ℕ} {b : List ℕ}
    → ◌>>=◌ {S = ℕ × ℕ × ℕ × List ℕ} m (λ x. ok (x.0, x.1, x.2, f (x.0, x.1, x.2)))
      ≡ ok (v, r, s, b)
    → m ≡ ok (v, r, s)
triple_of (err x) f e = cc
triple_of (ok (v, r, s)) f e = cc

module _ {Dict T Field : Type 0} (eth : TransactionPackage Dict T Field) where
  -- What eth_account documents of a signed legacy transaction: it carries `v`, and its parts without the
  -- signature, with the chain id and two zeros where there is one, make the unsigned transaction again.
  pub data SignedForm (u txn : T) (v : ℕ) : Type 0 where
    plain :
        eth.class_of u ≡ unsigned_transaction
        → eth.v_of txn ≡ v
        → eth.make_unsigned (eth.strip_signature txn) ≡ u
        → SignedForm u txn v
    chained :
        eth.class_of u ≡ chain_aware_transaction
        → eth.v_of txn ≡ v
        → eth.make_chain_aware (
            eth.strip_signature txn
            ++ (eth.int_field (eth.v_of u) ∷ eth.int_field 0 ∷ eth.int_field 0 ∷ []))
          ≡ u
        → SignedForm u txn v

  module _ (c : Curve) (check : Validation) (key : PrivateKey) where
    -- A transaction hash is signed by the key, with a `v` made of the signature's and the chain id.
    pub hash_signed :
        (h : List ℕ) (chain_id : Option ℕ) (k v r s : ℕ)
        → sign_transaction_hash c check key h chain_id k ≡ ok (v, r, s)
        → (g : Signature) × (sign_msg_hash c check key h k ≡ ok g)
          × (v ≡ to_eth_v g.v chain_id)
          × (r ≡ g.r)
          × (s ≡ g.s)
    unfolding sign_transaction_hash
    hash_signed h chain_id k v r s e =
        let (g, signed, e1) = >>=-eq-ok (sign_msg_hash c check key h k) _ e in
        (g, signed, cc, cc, cc)

    pub at_most_one :
        (n : ℕ)
        → ValidationLaws n check
        → (h : List ℕ) (k : ℕ) (g : Signature) → sign_msg_hash c check key h k ≡ ok g
        → g.v ≤ 1
    unfolding ecdsa_sign
    at_most_one n valid h k g e =
        (make_signature-IsValid n c check valid none (some (ecdsa_raw_sign c h key.raw_key k)) g
          e).0

    pub signed_by_class :
        (d : Dict) (u : T) (k v r s : ℕ) (encoded : List ℕ)
        → eth.serializable_unsigned_transaction_from_dict d ≡ ok u
        → sign_transaction_dict c check eth key d k ≡ ok (v, r, s, encoded)
        → sign_by_class c check eth (eth.class_of u) key u k ≡ ok (v, r, s)
    unfolding sign_transaction_dict
    signed_by_class d u k v r s encoded read e =
        triple_of (sign_by_class c check eth (eth.class_of u) key u k) (eth.encode_transaction u)
          (rw read at e)

    -- Only a transaction of the class that knows its chain is signed with the nonce that was given.
    pub signed_by :
        (cls : TransactionClass) (u : T) (k v r s : ℕ)
        → sign_by_class c check eth cls key u k ≡ ok (v, r, s)
        → (g : Signature) × (sign_msg_hash c check key (eth.hash u) (nonce_argument cls k) ≡ ok g)
          × (r ≡ g.r)
          × (s ≡ g.s)
    unfolding sign_by_class
    signed_by unsigned_transaction u k v r s e =
        let (g, signed, _, r_is, s_is) = hash_signed (eth.hash u) none 0 v r s e in
        (g, signed, r_is, s_is)
    signed_by chain_aware_transaction u k v r s e =
        let (g, signed, _, r_is, s_is) = hash_signed (eth.hash u) (some (eth.v_of u)) k v r s e in
        (g, signed, r_is, s_is)
    signed_by typed_transaction u k v r s e =
        let (g, signed, e1) = >>=-eq-ok (sign_msg_hash c check key (eth.hash u) 0) _ e in
        (g, signed, cc, cc)
    signed_by other_class u k v r s e = cc

    -- The hash that is recovered from the signed form is the one that was signed.
    pub recovered_hash :
        (n : ℕ)
        → ValidationLaws n check
        → (u txn : T) (k v r s : ℕ) → SignedForm u txn v
        → sign_by_class c check eth (eth.class_of u) key u k ≡ ok (v, r, s)
        → hash_of_signed_transaction c check eth txn ≡ ok (eth.hash u)
    unfolding sign_by_class hash_of_signed_transaction
    recovered_hash n valid u txn k v r s (plain cls v_is rebuilt) e =
        let (g, signed, v_made, _, _) = hash_signed (eth.hash u) none 0 v r s (rw cls at e) in
        let bit = at_most_one n valid (eth.hash u) 0 g signed in
        rw (v_is, v_made, (extract_chain_id-to_eth_v g.v none bit).0)
          (ap (λ w. ok (eth.hash w)) rebuilt)
    recovered_hash n valid u txn k v r s (chained cls v_is rebuilt) e =
        let (g, signed, v_made, _, _) =
          hash_signed (eth.hash u) (some (eth.v_of u)) k v r s (rw cls at e) in
        let bit = at_most_one n valid (eth.hash u) k g signed in
        rw (v_is, v_made, (extract_chain_id-to_eth_v g.v (some (eth.v_of u)) bit).0)
          (ap (λ w. ok (eth.hash w)) rebuilt)

-- A legacy transaction, with or without a chain id, that a key made from bytes signs, with a nonce that is
-- not 0 mod the order and parts that are not 0: the hash that `hash_of_signed_transaction` recovers from
-- its signed form is one for which the key's public key verifies the signature.
pub ecdsa_verify-hash_of_signed_transaction :
    {Dict T Field : Type 0} (eth : TransactionPackage Dict T Field) (c : Curve)
    → CurveLaws c
    → (check : Validation) → ValidationLaws c.n check
    → (private_key_bytes : List ℕ) (key : PrivateKey) (d : Dict) (u txn : T) (k v r s : ℕ)
      (encoded : List ℕ)
    → make_private_key c check private_key_bytes ≡ ok key
    → eth.serializable_unsigned_transaction_from_dict d ≡ ok u
    → sign_transaction_dict c check eth key d k ≡ ok (v, r, s, encoded)
    → SignedForm eth u txn v
    → nonce c (eth.hash u) private_key_bytes (nonce_argument (eth.class_of u) k) % c.n ≢ 0
    → r ≢ 0
    → s ≢ 0
    → (h : List ℕ) × (hash_of_signed_transaction c check eth txn ≡ ok h)
      × (ecdsa_verify c check h (r, s) key.public_key ≡ true)
ecdsa_verify-hash_of_signed_transaction eth c laws check valid bytes key d u txn k v r s encoded
      made read signed form knz rnz snz =
    let by_class = signed_by_class eth c check key d u k v r s encoded read signed in
    let (g, g_signed, r_is, s_is) = signed_by eth c check key (eth.class_of u) u k v r s by_class in
    let verified =
      verify_msg_hash-sign_msg_hash c laws check valid bytes (eth.hash u)
        (nonce_argument (eth.class_of u) k) key g made g_signed knz (λ q. rnz (r_is ∙ q))
        (λ q. snz (s_is ∙ q)) in
    (
      eth.hash u,
      recovered_hash eth c check key c.n valid u txn k v r s form by_class,
      rw (r_is, s_is) verified,
    )

sign_by_class_nonce :
    {Dict T Field : Type 0} (eth : TransactionPackage Dict T Field) (c : Curve) (check : Validation)
    → (cls : TransactionClass) (key : PrivateKey) (u : T) (k : ℕ) → cls ≢ chain_aware_transaction
    → sign_by_class c check eth cls key u k ≡ sign_by_class c check eth cls key u 0
unfolding sign_by_class
sign_by_class_nonce eth c check unsigned_transaction key u k ne = refl
sign_by_class_nonce eth c check chain_aware_transaction key u k ne = absurd (ne refl)
sign_by_class_nonce eth c check typed_transaction key u k ne = refl
sign_by_class_nonce eth c check other_class key u k ne = refl

-- The `r` of a signature is the first coordinate of the multiple of the base point by the nonce.
signed_r :
    (n : ℕ) (c : Curve) (check : Validation)
    → ValidationLaws n check
    → (key : PrivateKey) (h : List ℕ) (k : ℕ) (g : Signature) → k ≢ 0
    → sign_msg_hash c check key h k ≡ ok g
    → g.r ≡ (c.fast_multiply c.g k).0
unfolding ecdsa_sign ecdsa_raw_sign nonce
signed_r n c check valid key h k g nz e =
    let (v, r, s) = ecdsa_raw_sign c h key.raw_key k in
    let given : (if k == 0 then deterministic_generate_k c h key.raw_key else k) ≡ k =
      ground arith in
    (made_parts n c check valid v r s g e).0 ∙ ap (λ m. (c.fast_multiply c.g m).0) given

-- A transaction that knows its chain, signed with a nonce that is not 0: the `r` that is returned is the
-- first coordinate of the nonce's multiple of the base point.
pub sign_transaction_dict_nonce :
    {Dict T Field : Type 0} (eth : TransactionPackage Dict T Field) (c : Curve) (check : Validation)
    → ValidationLaws c.n check
    → (key : PrivateKey) (d : Dict) (u : T) (k v r s : ℕ) (encoded : List ℕ)
    → eth.serializable_unsigned_transaction_from_dict d ≡ ok u
    → k ≢ 0
    → eth.class_of u ≡ chain_aware_transaction
    → sign_transaction_dict c check eth key d k ≡ ok (v, r, s, encoded)
    → r ≡ (c.fast_multiply c.g k).0
sign_transaction_dict_nonce eth c check valid key d u k v r s encoded read nz cls signed =
    let by_class = signed_by_class eth c check key d u k v r s encoded read signed in
    let (g, g_signed, r_is, _) = signed_by eth c check key (eth.class_of u) u k v r s by_class in
    r_is ∙ signed_r c.n c check valid key (eth.hash u) k g nz (rw cls at g_signed)

-- A transaction of each other class is signed as if no nonce were given, whatever the nonce is.
pub sign_transaction_dict_other_classes :
    {Dict T Field : Type 0} (eth : TransactionPackage Dict T Field) (c : Curve) (check : Validation)
    → (key : PrivateKey) (d : Dict) (u : T) (k : ℕ)
    → eth.serializable_unsigned_transaction_from_dict d ≡ ok u
    → eth.class_of u ≢ chain_aware_transaction
    → sign_transaction_dict c check eth key d k ≡ sign_transaction_dict c check eth key d 0
unfolding sign_transaction_dict
sign_transaction_dict_other_classes eth c check key d u k read ne =
    rw (read, sign_by_class_nonce eth c check (eth.class_of u) key u k ne) refl
