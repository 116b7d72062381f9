-- ===== src/Stinger/Complete.antt =====
-- Evidence that is made is accepted.
use sting_flashbots.Base.{
  ℕ, ◌<◌, ◌≡◌, refl, sym, ap, ◌∙◌, List, ◌++◌, some, true, All, ==_refl, bytes_eq_refl, arith,
  Result, ok, err, value_error, ◌>>=◌, >>=-eq-ok, ok-injective,
}
use sting_flashbots.Ecdsa.{Curve}
use sting_flashbots.Keys.{Validation, PrivateKey, make_private_key}
use sting_flashbots.Keys.Signers.{public_key_of}
use sting_flashbots.Account.{
  Value, text_value, bytes_value, AccountPackage, key_value, LocalAccount, SignedTransaction,
  from_key, parse_private_key, on_validation_error, len_value, sign_transaction,
}
use sting_flashbots.Account.Signers.{sign_transaction_same}
use sting_flashbots.Commitment.Points.{to_hex}
use sting_flashbots.Commitment.Points.Text.{fromhex-to_hex}
use sting_flashbots.Enclave.{
  TransferTx, Transaction, DecodedRawTx, RawTxPackage, decode_raw_tx, encode_tx,
  compute_pedersen_commitment,
}
use sting_flashbots.Flashbots.{Web3Package, TxParams}
use sting_flashbots.Flashbots.Requests.{Flashbots, hex_number, hex_prefix_text, bytes_hex}
use sting_flashbots.Flashbots.Hex.{number_of_hex-hex_number}
use sting_flashbots.Mpt.Blob.{SignedTx, UnsignedTx, verify_tx_proof}
use sting_flashbots.Stinger.{
  EvidencePackage, VerifyData, bytes_of, transaction_of, signature_number, verify_evidence,
}
use sting_flashbots.Stinger.Soundness.{EvidenceLaws, signed_block}
use sting_flashbots.Stinger.Scripts.{EvidenceInput, sign_tx, adv_tx, make_evidence}
use sting_flashbots.Stinger.Commits.{
  leaked_number-signature_number, compute_pedersen_commitment-make_evidence,
}

-- The dictionaries are mappings, and that of a transfer has its sender.
pub record DictLaws (e : EvidencePackage) (transfer_dict : TransferTx → e.account.Dict)
    : Type 0 where
  pub is_mapping-tx_dict : (tx : UnsignedTx) → e.account.is_mapping (e.tx_dict tx) ≡ true
  pub from_field-transfer_dict :
      (tx : TransferTx) → e.account.from_field (transfer_dict tx) ≡ some tx.from

-- The handler raises in every case.
pub not_handled :
    {A : Type 0} (r : Result A) (size : Result ℕ) {a : A}
    → on_validation_error r (size >>= (λ n. err value_error)) ≡ ok a
    → r ≡ ok a
not_handled (ok x) size h = h
not_handled (err exception) size h = ground arith

-- The key of an account, read from a text of its bytes, is that account's again.
pub from_key_again :
    (c : Curve) (check : Validation) (e : AccountPackage) (value : Value) (account : LocalAccount)
    (text : Value)
    → from_key c check e (key_value value) ≡ ok account
    → e.hex_bytes text ≡ ok account.key_obj.raw_key
    → from_key c check e (key_value text) ≡ ok account
unfolding from_key parse_private_key make_private_key
from_key_again c check e value account text made read =
    let (key, parsed, m1) = >>=-eq-ok (parse_private_key c check e (key_value value)) _ made in
    let whole = ok-injective m1 in
    let key_is : key ≡ account.key_obj = ap (λ (q : LocalAccount). q.key_obj) whole in
    let (bytes, _, m2) = >>=-eq-ok (e.hex_bytes value) _ (
      not_handled (do bs ← e.hex_bytes value; make_private_key c check bs) (len_value value)
        parsed) in
    let (raw_is, _) = public_key_of c check bytes key m2 in
    let read' : e.hex_bytes text ≡ ok bytes =
      read ∙ ap (λ (q : PrivateKey). ok q.raw_key) (sym key_is) ∙ ap ok raw_is in
    rw (read', m2) (ap ok whole)

-- The bytes of a leaked file are decoded as the transaction that they encode.
decoded_leaked :
    (e : RawTxPackage) (buff : List ℕ) (tx : Transaction) (leaked : DecodedRawTx)
    → All (λ b. b < 256) buff
    → e.decode buff ≡ ok tx
    → decode_raw_tx e (to_hex buff) ≡ ok leaked
    → (leaked.v ≡ tx.v) × (leaked.r ≡ hex_number tx.r) × (leaked.s ≡ hex_number tx.s)
unfolding decode_raw_tx
decoded_leaked e buff tx leaked small read decoded =
    let h1 = rw (fromhex-to_hex buff small, read) at decoded in
    let (from, _, h2) = >>=-eq-ok (e.recover_transaction buff) _ h1 in
    let made = sym (ok-injective h2) in
    (
      ap (λ (q : DecodedRawTx). q.v) made,
      ap (λ (q : DecodedRawTx). q.r) made,
      ap (λ (q : DecodedRawTx). q.s) made,
    )

transaction_of-vrs :
    (victim : SignedTx) (tx : Transaction)
    → transaction_of victim ≡ ok tx
    → (tx.v ≡ victim.v) × (tx.r ≡ victim.r) × (tx.s ≡ victim.s)
unfolding transaction_of
transaction_of-vrs victim tx h =
    let (to, _, h1) = >>=-eq-ok (bytes_of victim.to) _ h in
    let (data_bytes, _, h2) = >>=-eq-ok (bytes_of victim.data_item) _ h1 in
    let made = sym (ok-injective h2) in
    (
      ap (λ (q : Transaction). q.v) made,
      ap (λ (q : Transaction). q.r) made,
      ap (λ (q : Transaction). q.s) made,
    )

accepted :
    (c : Curve) (check : Validation) (e : EvidencePackage)
    (evidence : VerifyData e.block.proof.Blob) (buff : List ℕ) (secret_key : Value)
    (tx : Transaction) (account : LocalAccount) (signed_adv : SignedTransaction) (nonce : ℕ)
    (unsigned_adv unsigned_victim : UnsignedTx) (adv victim : SignedTx)
    → verify_tx_proof e.block.proof evidence.target_block_num evidence.adv_prf
      ≡ ok (unsigned_adv, adv)
    → verify_tx_proof e.block.proof evidence.target_block_num evidence.victim_prf
      ≡ ok (unsigned_victim, victim)
    → compute_pedersen_commitment e.field e.generators
        (signature_number c check e victim)
        evidence.r
      ≡ ok nonce
    → from_key c check e.account (key_value evidence.adv_private_key) ≡ ok account
    → sign_transaction c check e.account
        (e.tx_dict unsigned_adv)
        (key_value (bytes_value account.key_obj.raw_key))
        nonce
      ≡ ok signed_adv
    → adv.v ≡ signed_adv.v
    → adv.r ≡ signed_adv.r
    → adv.s ≡ signed_adv.s
    → transaction_of victim ≡ ok tx
    → encode_tx e.raw tx ≡ ok buff
    → verify_evidence c check e evidence buff secret_key
      ≡ signed_block c check e evidence.target_block_num secret_key
unfolding verify_evidence
accepted c check e evidence buff secret_key tx account signed_adv nonce unsigned_adv unsigned_victim
      adv victim adv_is victim_is nonce_is account_is signed_is v_is r_is s_is tx_is encoded_is =
    rw
      (
        adv_is,
        victim_is,
        nonce_is,
        account_is,
        signed_is,
        v_is,
        r_is,
        s_is,
        number_of_hex-hex_number signed_adv.s,
        ==_refl signed_adv.v,
        ==_refl signed_adv.r,
        ==_refl signed_adv.s,
        tx_is,
        encoded_is,
        bytes_eq_refl buff,
      )
      refl

-- Evidence that was made for a leaked file, of the bytes of a transaction, by the account whose key's text gives
-- back the key's bytes: where its proofs are accepted for its block, the first for the transaction that was
-- signed, as eth_account reads it, with its signature, and the second for the leaked transaction, the enclave
-- accepts it with that file, which ends as the signature of the block does.
pub verify_evidence-make_evidence :
    (c : Curve) (check : Validation) (e : EvidencePackage)
    → EvidenceLaws e
    → (web3 : Web3Package) (transfer_dict : TransferTx → e.account.Dict) → DictLaws e transfer_dict
    → (input : EvidenceInput) (flashbots : Flashbots) (store : ℕ → TxParams web3.Other)
      (evidence : VerifyData e.block.proof.Blob) (signed_adv : SignedTransaction) (buff : List ℕ)
      (tx : Transaction) (account : LocalAccount) (unsigned_adv unsigned_victim : UnsignedTx)
      (adv victim : SignedTx) (secret_key : Value)
    → make_evidence c check e web3 transfer_dict input flashbots store ≡ ok (evidence, signed_adv)
    → input.leaked_file input.stinger_data.stinger_tx_hash ≡ ok buff
    → All (λ b. b < 256) buff
    → e.raw.decode buff ≡ ok tx
    → encode_tx e.raw tx ≡ ok buff
    → from_key c check e.account (key_value input.stinger_key) ≡ ok account
    → e.account.hex_bytes (text_value (hex_prefix_text ++ bytes_hex account.key_obj.raw_key))
      ≡ ok account.key_obj.raw_key
    → verify_tx_proof e.block.proof evidence.target_block_num evidence.adv_prf
      ≡ ok (unsigned_adv, adv)
    → e.account.eth.serializable_unsigned_transaction_from_dict
        (e.account.dissoc_from (transfer_dict (adv_tx c check e web3 transfer_dict input account)))
      ≡ e.account.eth.serializable_unsigned_transaction_from_dict (e.tx_dict unsigned_adv)
    → adv.v ≡ signed_adv.v
    → adv.r ≡ signed_adv.r
    → adv.s ≡ signed_adv.s
    → verify_tx_proof e.block.proof evidence.target_block_num evidence.victim_prf
      ≡ ok (unsigned_victim, victim)
    → transaction_of victim ≡ ok tx
    → verify_evidence c check e evidence buff secret_key
      ≡ signed_block c check e evidence.target_block_num secret_key
unfolding sign_tx
verify_evidence-make_evidence c check e laws web3 transfer_dict dicts input flashbots store evidence
      signed_adv buff tx account unsigned_adv unsigned_victim adv victim secret_key made file small
      read encoded_is account_is key_read adv_is same v_is r_is s_is victim_is tx_is =
    let (buff', leaked, sender, nonce, file', decoded, sender_is, signed_is, nonce_is, key_is) =
      compute_pedersen_commitment-make_evidence c check e web3 transfer_dict input flashbots store
        evidence signed_adv made in
    let buff_eq : buff' ≡ buff = ok-injective (sym file' ∙ file) in
    let sender_eq : sender ≡ account = ok-injective (sym sender_is ∙ account_is) in
    let decoded' = rw buff_eq at decoded in
    let signed' = rw sender_eq at signed_is in
    let key_is' = rw sender_eq at key_is in
    let (lv, lr, ls) = decoded_leaked e.raw buff tx leaked small read decoded' in
    let (tv, tr, ts) = transaction_of-vrs victim tx tx_is in
    let number_is =
      leaked_number-signature_number c check e web3 transfer_dict leaked victim (lv ∙ tv)
        (lr ∙ ap hex_number tr) (ls ∙ ap hex_number ts) in
    let again =
      from_key_again c check e.account input.stinger_key account
        (text_value (hex_prefix_text ++ bytes_hex account.key_obj.raw_key)) account_is key_read in
    accepted c check e evidence buff secret_key tx account signed_adv nonce unsigned_adv
      unsigned_victim adv victim adv_is victim_is (rw (← number_is) nonce_is) (rw key_is' again)
      (sign_transaction_same c check e.account
        (transfer_dict (adv_tx c check e web3 transfer_dict input account)) (e.tx_dict unsigned_adv)
        (key_value (bytes_value account.key_obj.raw_key)) nonce
        (adv_tx c check e web3 transfer_dict input account).from signed_adv
        (dicts.from_field-transfer_dict _) (laws.from_field-tx_dict unsigned_adv)
        (dicts.is_mapping-tx_dict unsigned_adv) same signed')
      v_is r_is s_is tx_is encoded_is
