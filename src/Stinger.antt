-- ===== src/Stinger.antt =====
-- searcher/src/enclave/verify_evidence.py: the enclave checks the evidence of a leak and signs the block. The
-- files that it reads are arguments, those that it writes its result; the node, rlp and the forms of web3 are
-- parameters.
pub mod Soundness
pub mod Scripts
pub mod Commits
pub mod Complete
pub mod Samples
pub mod Launch
mod Sealed
pub mod Tests
use sting_flashbots.Base.{
  ℕ, ◌+◌, ◌==◌, List, [], ◌∷◌, ◌++◌, Option, none, some, bytes_eq, Result, ok, err, other_exception,
  assert, ◌>>=◌, ◌>>◌, drop,
}
use sting_flashbots.Rlp.{Item, Items, str, seq}
use sting_flashbots.Ecdsa.{Curve}
use sting_flashbots.Keys.{Validation}
use sting_flashbots.Account.{
  Value, bytes_value, AccountPackage, key_value, SignedTransaction, SignedMessage, from_key,
  sign_transaction, sign_message,
}
use sting_flashbots.Commitment.Points.{Field}
use sting_flashbots.Enclave.{
  Generators, Transaction, RawTxPackage, bytes_to_int, int_to_bytes, compute_pedersen_commitment,
  encode_tx,
}
use sting_flashbots.Flashbots.Requests.{hex_number}
use sting_flashbots.Flashbots.Hex.{number_of_hex}
use sting_flashbots.Mpt.Blocks.{BlockPackage}
use sting_flashbots.Mpt.Blob.{SignedTx, UnsignedTx, verify_tx_proof}

pub record EvidencePackage : Type 1 where
  pub Point : Type 0
  pub account : AccountPackage
  pub block : BlockPackage
  pub raw : RawTxPackage
  pub field : Field
  pub generators : Generators Point
  pub keccak : List ℕ → List ℕ
  pub tx_dict : UnsignedTx → account.Dict
  pub encode_block : ℕ → List ℕ → List ℕ
  pub encode_defunct : List ℕ → account.Message

-- verify_data.json
pub record VerifyData (Blob : Type 0) : Type 0 where
  pub r : ℕ
  pub adv_private_key : Value
  pub target_block_num : ℕ
  pub adv_prf : Blob
  pub victim_prf : Blob

-- Bytes where rlp wants bytes.
abbrev pub bytes_of : Item → Result (List ℕ)
bytes_of (str bs) = ok bs
bytes_of (seq xs) = err other_exception

-- The fields that `encode_tx` reads.
unfoldable pub transaction_of : SignedTx → Result Transaction
transaction_of tx = do
  to ← bytes_of tx.to
  data_bytes ← bytes_of tx.data_item
  ok (record {
    nonce = tx.nonce;
    gas_price = tx.gas_price;
    gas = tx.gas;
    to = to;
    value = tx.value;
    data_bytes = data_bytes;
    v = tx.v;
    r = tx.r;
    s = tx.s;
  })

module _ (c : Curve) (check : Validation) (e : EvidencePackage) where
  -- The number of the hash of a transaction's signature, which is committed to.
  unfoldable pub signature_number : SignedTx → ℕ
  signature_number tx =
      bytes_to_int (e.keccak (int_to_bytes tx.v ++ hex_number tx.r ++ hex_number tx.s))

  -- `hex_to_bytes` of the proofs is left to the type of a proof.
  unfoldable pub verify_evidence :
      VerifyData e.block.proof.Blob → List ℕ → Value → Result (List ℕ × List ℕ)
  verify_evidence verify_data raw_stinger_tx secret_key = do
    let sting_block_num = verify_data.target_block_num
    (unsigned_adv_tx, signed_adv_tx) ←
        verify_tx_proof e.block.proof sting_block_num verify_data.adv_prf
    (unsigned_victim_tx, signed_victim_tx) ←
        verify_tx_proof e.block.proof sting_block_num verify_data.victim_prf
    commitment ←
        compute_pedersen_commitment e.field e.generators (signature_number signed_victim_tx)
          verify_data.r
    adv_account ← from_key c check e.account (key_value verify_data.adv_private_key)
    adv_tx_computed ←
        sign_transaction c check e.account (e.tx_dict unsigned_adv_tx)
          (key_value (bytes_value adv_account.key_obj.raw_key)) commitment
    assert (signed_adv_tx.v == adv_tx_computed.v)
    assert (signed_adv_tx.r == adv_tx_computed.r)
    assert (signed_adv_tx.s == number_of_hex (hex_number adv_tx_computed.s))
    victim ← transaction_of signed_victim_tx
    encoded ← encode_tx e.raw victim
    assert (bytes_eq raw_stinger_tx encoded)
    block_hash ← e.block.proof.block_hash sting_block_num
    let proof_blob = e.encode_block sting_block_num block_hash
    sig ← sign_message c check e.account (e.encode_defunct proof_blob) (key_value secret_key)
    ok (proof_blob, sig.signature)
