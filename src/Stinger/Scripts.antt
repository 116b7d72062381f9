-- ===== src/Stinger/Scripts.antt =====
-- searcher/src/enclave/create_stinger.py and searcher/src/make_evidence.py. The files that a script reads are
-- arguments and those that it writes its result; what the texts in them stand for is written in their place.
-- The node's answers are parameters.
use sting_flashbots.Base.{
  ℕ, ◌+◌, ◌*◌, List, [], ◌∷◌, ◌++◌, some, ltb, Result, ok, assert, ◌>>=◌, ◌>>◌,
}
use sting_flashbots.Ecdsa.{Curve}
use sting_flashbots.Keys.{Validation}
use sting_flashbots.Account.{
  Value, bytes_value, text_value, key_value, LocalAccount, SignedTransaction, from_key,
  sign_transaction,
}
use sting_flashbots.Enclave.{
  TransferTx, Choice, DecodedRawTx, bytes_to_int, int_to_bytes, make_pedersen_commitment,
  generate_tx, make_bundle, send_bundle, decode_raw_tx,
}
use sting_flashbots.Commitment.Points.{to_hex}
use sting_flashbots.Flashbots.{Web3Package, TxParams}
use sting_flashbots.Flashbots.Requests.{Flashbots, BundleRequest, bytes_hex, hex_prefix_text}
use sting_flashbots.Mpt.Blocks.{generate_proof_blob}
use sting_flashbots.Stinger.{EvidencePackage, VerifyData}

-- stinger_data.json
pub record StingerData : Type 0 where
  pub target_block_num : ℕ
  pub stinger_tx_hash : List ℕ
  pub sting_bundle : List (List ℕ)

pub record Receipt : Type 0 where
  pub block_number : ℕ
  pub transaction_index : ℕ

-- What `make_evidence` reads, draws and asks for.
pub record EvidenceInput : Type 0 where
  pub stinger_data : StingerData
  pub leaked_file : List ℕ → Result (List ℕ)
  pub random_bytes : List ℕ
  pub stinger_key : Value
  pub admin_address : List ℕ
  pub searcher_address : List ℕ
  pub choice : Choice LocalAccount
  pub gas_price : ℕ
  pub gas_mul : ℕ
  pub block_number : ℕ
  pub receipt : List ℕ → Result Receipt
  pub fuel : ℕ

module _ (c : Curve) (check : Validation) (e : EvidencePackage) (web3 : Web3Package)
    (transfer_dict : TransferTx → e.account.Dict) where
  -- `sign_tx` of utils.py: the key of the account, as bytes.
  unfoldable pub sign_tx : e.account.Dict → LocalAccount → ℕ → Result SignedTransaction
  sign_tx tx account k =
      sign_transaction c check e.account tx (key_value (bytes_value account.key_obj.raw_key)) k

  -- The stinger's data and bytes, the module and the request that was sent. `k` is the random nonce.
  unfoldable pub make_bundle_stinger :
      ℕ
      → List (List ℕ)
      → e.account.Dict
      → Value
      → Flashbots
      → (ℕ → TxParams web3.Other)
      → List ℕ
      → ℕ
      → Result (StingerData × List ℕ × Flashbots × (ℕ → TxParams web3.Other) × BundleRequest)
  make_bundle_stinger k given_bundle unsigned_stinger_tx stinger_key flashbots store
        searcher_address block_number =
      do
        stinger_sender ← from_key c check e.account (key_value stinger_key)
        signed_stinger_tx ← sign_tx unsigned_stinger_tx stinger_sender k
        let bundle = given_bundle ++ (signed_stinger_tx.raw_transaction ∷ [])
        let target_block_num = block_number + 5
        (answered, written, request) ←
            send_bundle web3 flashbots store (make_bundle web3 bundle) searcher_address block_number
              (some target_block_num)
        ok (
          record {
            target_block_num = target_block_num;
            stinger_tx_hash = signed_stinger_tx.hash;
            sting_bundle = bundle;
          },
          signed_stinger_tx.raw_transaction,
          answered,
          written,
          request,
        )

  -- The number that is committed to, of a leaked transaction.
  unfoldable pub leaked_number : DecodedRawTx → ℕ
  leaked_number leaked_tx =
      bytes_to_int (e.keccak (int_to_bytes leaked_tx.v ++ leaked_tx.r ++ leaked_tx.s))

  -- `generate_tx` for the stinger's sender, at twice the price of the stinger and with the next nonce.
  abbrev pub adv_tx : EvidenceInput → LocalAccount → TransferTx
  adv_tx input sting_sender =
      (generate_tx {Signed = SignedTransaction} (λ (account : LocalAccount). account.address)
        (λ tx account. sign_tx (transfer_dict tx) account 0) input.choice input.admin_address
        (some sting_sender) (some (input.gas_price * input.gas_mul * 2)) 1).1

  unfoldable pub make_evidence :
      EvidenceInput
      → Flashbots
      → (ℕ → TxParams web3.Other)
      → Result (VerifyData e.block.proof.Blob × SignedTransaction)
  make_evidence input flashbots store = do
    buff ← input.leaked_file input.stinger_data.stinger_tx_hash
    leaked_tx ← decode_raw_tx e.raw (to_hex buff)
    (commitment, r) ←
        make_pedersen_commitment e.field e.generators (leaked_number leaked_tx) input.random_bytes
    sting_sender ← from_key c check e.account (key_value input.stinger_key)
    signed_adv_tx ← sign_tx (transfer_dict (adv_tx input sting_sender)) sting_sender commitment
    let new_bundle = input.stinger_data.sting_bundle ++ (signed_adv_tx.raw_transaction ∷ [])
    let target_block_num = input.stinger_data.target_block_num
    assert (ltb input.block_number target_block_num)
    sent ←
        send_bundle web3 flashbots store (make_bundle web3 new_bundle) input.searcher_address
          input.block_number (some target_block_num)
    victim_receipt ← input.receipt leaked_tx.hash
    victim_prf ←
        generate_proof_blob e.block input.fuel victim_receipt.block_number
          victim_receipt.transaction_index
    adv_receipt ← input.receipt signed_adv_tx.hash
    adv_prf ←
        generate_proof_blob e.block input.fuel adv_receipt.block_number
          adv_receipt.transaction_index
    ok (
      record {
        r = r;
        adv_private_key = text_value (hex_prefix_text ++ bytes_hex sting_sender.key_obj.raw_key);
        target_block_num = target_block_num;
        adv_prf = adv_prf;
        victim_prf = victim_prf;
      },
      signed_adv_tx,
    )
