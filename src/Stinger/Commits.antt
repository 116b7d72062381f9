-- ===== src/Stinger/Commits.antt =====
-- The commitment with which evidence is made and checked.
use sting_flashbots.Base.{
  ℕ, ◌≡◌, refl, sym, ap, ◌∙◌, subst, List, [], ◌∷◌, ◌++◌, some, ltb, ok, assert, >>=-eq-ok,
  ok-injective,
}
use sting_flashbots.Ecdsa.{Curve}
use sting_flashbots.Keys.{Validation}
use sting_flashbots.Account.{text_value, key_value, LocalAccount, SignedTransaction, from_key}
use sting_flashbots.Enclave.{
  TransferTx, DecodedRawTx, make_pedersen_commitment, compute_pedersen_commitment, decode_raw_tx,
  make_bundle, send_bundle,
}
use sting_flashbots.Enclave.Commitments.{compute-make}
use sting_flashbots.Commitment.Points.{to_hex}
use sting_flashbots.Flashbots.{Web3Package, TxParams}
use sting_flashbots.Flashbots.Requests.{Flashbots, hex_number, hex_prefix_text, bytes_hex}
use sting_flashbots.Mpt.Blob.{SignedTx}
use sting_flashbots.Mpt.Blocks.{generate_proof_blob}
use sting_flashbots.Stinger.{EvidencePackage, VerifyData, signature_number}
use sting_flashbots.Stinger.Scripts.{EvidenceInput, sign_tx, leaked_number, adv_tx, make_evidence}

-- The number of a leaked transaction is that of a transaction with the same signature.
pub leaked_number-signature_number :
    (c : Curve) (check : Validation) (e : EvidencePackage) (web3 : Web3Package)
    (transfer_dict : TransferTx → e.account.Dict) (leaked : DecodedRawTx) (victim : SignedTx)
    → leaked.v ≡ victim.v
    → leaked.r ≡ hex_number victim.r
    → leaked.s ≡ hex_number victim.s
    → leaked_number c check e web3 transfer_dict leaked ≡ signature_number c check e victim
unfolding leaked_number signature_number
leaked_number-signature_number c check e web3 transfer_dict leaked victim v_same r_same s_same =
    rw (v_same, r_same, s_same) refl

-- Evidence that was made: the leaked file was decoded, the transaction that the evidence is about was signed by
-- the stinger's account with a nonce, and that nonce is the commitment that is computed from the number of the
-- leaked transaction's signature with the evidence's blinding number. The evidence's key is the sender's, as a text.
pub compute_pedersen_commitment-make_evidence :
    (c : Curve) (check : Validation) (e : EvidencePackage) (web3 : Web3Package)
    (transfer_dict : TransferTx → e.account.Dict) (input : EvidenceInput) (flashbots : Flashbots)
    (store : ℕ → TxParams web3.Other) (evidence : VerifyData e.block.proof.Blob)
    (signed_adv : SignedTransaction)
    → make_evidence c check e web3 transfer_dict input flashbots store ≡ ok (evidence, signed_adv)
    → (buff : List ℕ) × (leaked : DecodedRawTx) × (sender : LocalAccount) × (nonce : ℕ)
      × (input.leaked_file input.stinger_data.stinger_tx_hash ≡ ok buff)
      × (decode_raw_tx e.raw (to_hex buff) ≡ ok leaked)
      × (from_key c check e.account (key_value input.stinger_key) ≡ ok sender)
      × (sign_tx c check e web3 transfer_dict
            (transfer_dict (adv_tx c check e web3 transfer_dict input sender))
            sender
            nonce
          ≡ ok signed_adv)
      × (compute_pedersen_commitment e.field e.generators
            (leaked_number c check e web3 transfer_dict leaked)
            evidence.r
          ≡ ok nonce)
      × (evidence.adv_private_key
          ≡ text_value (hex_prefix_text ++ bytes_hex sender.key_obj.raw_key))
unfolding make_evidence
compute_pedersen_commitment-make_evidence c check e web3 transfer_dict input flashbots store
      evidence signed_adv made =
    let (buff, buff_is, h1) =
      >>=-eq-ok (input.leaked_file input.stinger_data.stinger_tx_hash) _ made in
    let (leaked, leaked_is, h2) = >>=-eq-ok (decode_raw_tx e.raw (to_hex buff)) _ h1 in
    let (pair, pair_is, h3) =
      >>=-eq-ok
        (make_pedersen_commitment e.field e.generators
          (leaked_number c check e web3 transfer_dict leaked) input.random_bytes)
        _ h2 in
    let (sender, sender_is, h4) =
      >>=-eq-ok (from_key c check e.account (key_value input.stinger_key)) _ h3 in
    let unsigned = transfer_dict (adv_tx c check e web3 transfer_dict input sender) in
    let (signed, signed_is, h5) =
      >>=-eq-ok (sign_tx c check e web3 transfer_dict unsigned sender pair.0) _ h4 in
    let target = input.stinger_data.target_block_num in
    let (_, _, h6) = >>=-eq-ok (assert (ltb input.block_number target)) _ h5 in
    let (_, _, h7) =
      >>=-eq-ok
        (send_bundle web3 flashbots store
          (make_bundle web3 (input.stinger_data.sting_bundle ++ (signed.raw_transaction ∷ [])))
          input.searcher_address input.block_number (some target))
        _ h6 in
    let (victim_receipt, _, h8) = >>=-eq-ok (input.receipt leaked.hash) _ h7 in
    let (victim_prf, _, h9) =
      >>=-eq-ok
        (generate_proof_blob e.block input.fuel victim_receipt.block_number
          victim_receipt.transaction_index)
        _ h8 in
    let (adv_receipt, _, h10) = >>=-eq-ok (input.receipt signed.hash) _ h9 in
    let (adv_prf, _, h11) =
      >>=-eq-ok
        (generate_proof_blob e.block input.fuel adv_receipt.block_number
          adv_receipt.transaction_index)
        _ h10 in
    let result = ok-injective h11 in
    let r_is : pair.1 ≡ evidence.r =
      ap (λ (q : VerifyData e.block.proof.Blob × SignedTransaction). q.0.r) result in
    let signed_eq : signed ≡ signed_adv =
      ap (λ (q : VerifyData e.block.proof.Blob × SignedTransaction). q.1) result in
    (
      buff,
      leaked,
      sender,
      pair.0,
      buff_is,
      leaked_is,
      sender_is,
      signed_is ∙ ap ok signed_eq,
      subst
          (λ r.
            compute_pedersen_commitment e.field e.generators
              (leaked_number c check e web3 transfer_dict leaked) r
            ≡ ok pair.0)
          r_is
          (compute-make e.field e.generators (leaked_number c check e web3 transfer_dict leaked)
            pair.0 pair.1 input.random_bytes pair_is),
      sym (
          ap (λ (q : VerifyData e.block.proof.Blob × SignedTransaction). q.0.adv_private_key)
            result),
    )
