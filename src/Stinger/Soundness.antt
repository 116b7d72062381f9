-- ===== src/Stinger/Soundness.antt =====
-- What an evidence shows that the enclave accepts.
use sting_flashbots.Base.{
  Result, ℕ, ◌≡◌, ◌≢◌, ◌⊎◌, inl, inr, Bool-cases, false, arith, sym, ap, ◌∙◌, List, none, ◌==◌,
  ==_iff, bytes_eq, bytes_eq→eq, ok, assert, guard, guard-eq-ok, type_error, >>=-eq-ok, ◌>>=◌,
}
use sting_flashbots.Ecdsa.{Curve}
use sting_flashbots.Keys.{Validation, ValidationLaws, PrivateKey}
use sting_flashbots.Signing.{chain_aware_transaction, sign_transaction_dict}
use sting_flashbots.Signing.Transactions.{sign_transaction_dict_nonce}
use sting_flashbots.Account.{
  Value, bytes_value, AccountPackage, KeyArgument, key_value, SignedTransaction, from_key,
  sign_transaction, sign_message,
}
use sting_flashbots.Account.Recovery.{signed_parts}
use sting_flashbots.Account.Signers.{sanitize-none}
use sting_flashbots.Enclave.{compute_pedersen_commitment, encode_tx}
use sting_flashbots.Flashbots.Requests.{hex_number}
use sting_flashbots.Flashbots.Hex.{number_of_hex}
use sting_flashbots.Mpt.Blob.{SignedTx, UnsignedTx, verify_tx_proof}
use sting_flashbots.Stinger.{
  EvidencePackage, VerifyData, transaction_of, signature_number, verify_evidence,
}

-- The dictionary of an unsigned transaction has no sender, and a chain id and a gas price: eth_account makes
-- a legacy transaction of it that knows its chain.
pub record EvidenceLaws (e : EvidencePackage) : Type 0 where
  pub from_field-tx_dict : (tx : UnsignedTx) → e.account.from_field (e.tx_dict tx) ≡ none
  pub class_of-tx_dict :
      (tx : UnsignedTx) (t : e.account.T)
      → e.account.eth.serializable_unsigned_transaction_from_dict (e.tx_dict tx) ≡ ok t
      → e.account.eth.class_of t ≡ chain_aware_transaction

-- A dictionary without a sender is signed as it stands.
signed_plain :
    (c : Curve) (check : Validation) (e : AccountPackage) (private_key : KeyArgument) (d : e.Dict)
    (k : ℕ) (signed : SignedTransaction)
    → e.from_field d ≡ none
    → sign_transaction c check e d private_key k ≡ ok signed
    → (key : PrivateKey) × (sign_transaction_dict c check e.eth key d k
        ≡ ok (signed.v, signed.r, signed.s, signed.raw_transaction))
unfolding sign_transaction
signed_plain c check e private_key d k signed gone sent =
    let (_, _, s1) = >>=-eq-ok (guard (e.is_mapping d) type_error) _ sent in
    let (account, _, s2) = >>=-eq-ok (from_key c check e private_key) _ s1 in
    let s3 = rw (sanitize-none c check e account d gone) at s2 in
    let (vrs, made_it, s4) =
      >>=-eq-ok (sign_transaction_dict c check e.eth account.key_obj d k) _ s3 in
    (
      account.key_obj,
      made_it ∙ ap ok (signed_parts vrs.0 vrs.1 vrs.2 vrs.3 (e.keccak vrs.3) signed s4),
    )

-- The first coordinate of the nonce's multiple of the base point, for a dictionary that eth_account reads.
signed_nonce :
    (c : Curve) (check : Validation)
    → ValidationLaws c.n check
    → (e : EvidencePackage) → EvidenceLaws e
    → (tx : UnsignedTx) (private_key : KeyArgument) (k : ℕ) (signed : SignedTransaction) → k ≢ 0
    → sign_transaction c check e.account (e.tx_dict tx) private_key k ≡ ok signed
    → signed.r ≡ (c.fast_multiply c.g k).0
unfolding sign_transaction_dict
signed_nonce c check valid e laws tx private_key k signed nz sent =
    let (key, made_it) =
      signed_plain c check e.account private_key (e.tx_dict tx) k signed
        (laws.from_field-tx_dict tx) sent in
    let (t, read, _) =
      >>=-eq-ok (e.account.eth.serializable_unsigned_transaction_from_dict (e.tx_dict tx)) _
        made_it in
    sign_transaction_dict_nonce e.account.eth c check valid key (e.tx_dict tx) t k signed.v signed.r
      signed.s signed.raw_transaction read nz (laws.class_of-tx_dict tx t read) made_it

-- The block's hash, and its signature.
abbrev pub signed_block :
    (c : Curve) (check : Validation) (e : EvidencePackage) → ℕ → Value → Result (List ℕ × List ℕ)
signed_block c check e block_num secret_key = do
  block_hash ← e.block.proof.block_hash block_num
  let proof_blob = e.encode_block block_num block_hash
  sig ← sign_message c check e.account (e.encode_defunct proof_blob) (key_value secret_key)
  ok (proof_blob, sig.signature)

-- What is returned for an evidence that is accepted is the signature of its block.
pub signed_block-verify_evidence :
    (c : Curve) (check : Validation) (e : EvidencePackage)
    (evidence : VerifyData e.block.proof.Blob) (stinger : List ℕ) (secret_key : Value)
    (result : List ℕ × List ℕ)
    → verify_evidence c check e evidence stinger secret_key ≡ ok result
    → signed_block c check e evidence.target_block_num secret_key ≡ ok result
unfolding verify_evidence
signed_block-verify_evidence c check e evidence stinger secret_key result accepted =
    let n = evidence.target_block_num in
    let (adv, _, h1) = >>=-eq-ok (verify_tx_proof e.block.proof n evidence.adv_prf) _ accepted in
    let (victim, _, h2) = >>=-eq-ok (verify_tx_proof e.block.proof n evidence.victim_prf) _ h1 in
    let (commitment, _, h3) =
      >>=-eq-ok
        (compute_pedersen_commitment e.field e.generators (signature_number c check e victim.1)
          evidence.r)
        _ h2 in
    let (account, _, h4) =
      >>=-eq-ok (from_key c check e.account (key_value evidence.adv_private_key)) _ h3 in
    let key = key_value (bytes_value account.key_obj.raw_key) in
    let (computed, _, h5) =
      >>=-eq-ok (sign_transaction c check e.account (e.tx_dict adv.0) key commitment) _ h4 in
    let (_, _, h6) = >>=-eq-ok (assert (adv.1.v == computed.v)) _ h5 in
    let (_, _, h7) = >>=-eq-ok (assert (adv.1.r == computed.r)) _ h6 in
    let (_, _, h8) = >>=-eq-ok (assert (adv.1.s == number_of_hex (hex_number computed.s))) _ h7 in
    let (tx, _, h9) = >>=-eq-ok (transaction_of victim.1) _ h8 in
    let (encoded, _, h10) = >>=-eq-ok (encode_tx e.raw tx) _ h9 in
    let (_, _, h11) = >>=-eq-ok (assert (bytes_eq stinger encoded)) _ h10 in h11

-- An evidence that the enclave accepts: its two proofs are accepted for the block; the second gives a
-- transaction whose encoding is the stinger; the commitment to the signature of that transaction, opened with
-- the evidence's blinding number, has a number `commitment`, and where that is not 0, the `r` of the
-- transaction of the first proof is the first coordinate of the commitment's multiple of the base point.
pub verify_evidence_sound :
    (c : Curve) (check : Validation)
    → ValidationLaws c.n check
    → (e : EvidencePackage) → EvidenceLaws e
    → (evidence : VerifyData e.block.proof.Blob) (stinger : List ℕ) (secret_key : Value)
      (blob signature : List ℕ)
    → verify_evidence c check e evidence stinger secret_key ≡ ok (blob, signature)
    → (unsigned_adv unsigned_victim : UnsignedTx) × (adv victim : SignedTx) × (commitment : ℕ)
      × (verify_tx_proof e.block.proof evidence.target_block_num evidence.adv_prf
          ≡ ok (unsigned_adv, adv))
      × (verify_tx_proof e.block.proof evidence.target_block_num evidence.victim_prf
          ≡ ok (unsigned_victim, victim))
      × ((transaction_of victim >>= encode_tx e.raw) ≡ ok stinger)
      × (compute_pedersen_commitment e.field e.generators
            (signature_number c check e victim)
            evidence.r
          ≡ ok commitment)
      × ((commitment ≡ 0) ⊎ (adv.r ≡ (c.fast_multiply c.g commitment).0))
unfolding verify_evidence
verify_evidence_sound c check valid e laws evidence stinger secret_key blob signature accepted =
    let n = evidence.target_block_num in
    let (adv, adv_is, h1) =
      >>=-eq-ok (verify_tx_proof e.block.proof n evidence.adv_prf) _ accepted in
    let (victim, victim_is, h2) =
      >>=-eq-ok (verify_tx_proof e.block.proof n evidence.victim_prf) _ h1 in
    let (commitment, commitment_is, h3) =
      >>=-eq-ok
        (compute_pedersen_commitment e.field e.generators (signature_number c check e victim.1)
          evidence.r)
        _ h2 in
    let (account, _, h4) =
      >>=-eq-ok (from_key c check e.account (key_value evidence.adv_private_key)) _ h3 in
    let key = key_value (bytes_value account.key_obj.raw_key) in
    let (computed, computed_is, h5) =
      >>=-eq-ok (sign_transaction c check e.account (e.tx_dict adv.0) key commitment) _ h4 in
    let (_, _, h6) = >>=-eq-ok (assert (adv.1.v == computed.v)) _ h5 in
    let (_, r_same, h7) = >>=-eq-ok (assert (adv.1.r == computed.r)) _ h6 in
    let (_, _, h8) = >>=-eq-ok (assert (adv.1.s == number_of_hex (hex_number computed.s))) _ h7 in
    let (tx, tx_is, h9) = >>=-eq-ok (transaction_of victim.1) _ h8 in
    let (encoded, encoded_is, h10) = >>=-eq-ok (encode_tx e.raw tx) _ h9 in
    let (_, stinger_same, _) = >>=-eq-ok (assert (bytes_eq stinger encoded)) _ h10 in
    let stinger_is : stinger ≡ encoded = bytes_eq→eq _ _ (guard-eq-ok _ _ stinger_same) in
    let r_is : adv.1.r ≡ computed.r = (==_iff adv.1.r computed.r).0 (guard-eq-ok _ _ r_same) in
    (
      adv.0,
      victim.0,
      adv.1,
      victim.1,
      commitment,
      adv_is,
      victim_is,
      rw (tx_is, encoded_is) (ap ok (sym stinger_is)),
      commitment_is,
      elim (Bool-cases (commitment == 0)) [
        | inl zero_is ↦ inl ((==_iff commitment 0).0 zero_is)
        | inr other ↦ inr (
            r_is
            ∙ signed_nonce c check valid e laws adv.0 key commitment computed
                (not_zero commitment other) computed_is)
      ],
    )
  where
    not_zero : (m : ℕ) → (m == 0) ≡ false → m ≢ 0
    not_zero m h = λ q. ground arith
