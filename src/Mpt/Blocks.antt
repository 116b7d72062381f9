-- ===== src/Mpt/Blocks.antt =====
-- The block of a proof: `normalize_bytes`, `block_header`, `rlp_transaction` and `generate_proof_blob` of
-- searcher/src/enclave/lib/mkp/proveth.py. The classes of the py-evm package, the trie, and the node are
-- parameters.
use sting_flashbots.Base.{
  ℕ, ◌%◌, List, [], ◌∷◌, ◌++◌, Option, none, some, ◌==◌, ◌&&◌, bytes_eq, length, Result, ok, err,
  value_error, assertion_error, guard, ◌>>=◌, ◌>>◌, if◌then◌else◌,
}
use sting_flashbots.Rlp.{Items, str}
use sting_flashbots.Account.{Value, bytes_value, int_value, text_value}
use sting_flashbots.Enclave.{int_to_bytes}
use sting_flashbots.Mpt.Generate.{TriePackage}
use sting_flashbots.Mpt.Blob.{ProofPackage, construct_proof_from_mpt}

-- `hash[2:]` where the text starts with `0x`, whose codes are 48 and 120.
abbrev pub without_prefix : List ℕ → List ℕ
without_prefix [] = []
without_prefix (c ∷ []) = c ∷ []
without_prefix (c ∷ d ∷ text) = if (c == 48) && (d == 120) then text else c ∷ d ∷ text

-- A zero before an odd number of digits.
abbrev pub to_even : List ℕ → List ℕ
to_even text = if length text % 2 == 0 then text else 48 ∷ text

unfoldable pub normalize_bytes : (List ℕ → Result (List ℕ)) → Value → Result (List ℕ)
normalize_bytes decode_hex (text_value text) = decode_hex (to_even (without_prefix text))
normalize_bytes decode_hex (int_value n) = ok (int_to_bytes n)
normalize_bytes decode_hex (bytes_value bs) = ok bs

-- `... or ''`
abbrev pub or_empty : Option Value → Value
or_empty none = text_value []
or_empty (some value) = value

pub record BlockDict : Type 0 where
  pub difficulty : ℕ
  pub number : ℕ
  pub gas_limit : ℕ
  pub timestamp : ℕ
  pub miner : List ℕ
  pub parent_hash : List ℕ
  pub sha3_uncles : List ℕ
  pub state_root : List ℕ
  pub transactions_root : Value
  pub receipts_root : List ℕ
  pub logs_bloom : List ℕ
  pub gas_used : ℕ
  pub extra_data : Value
  pub mix_hash : List ℕ
  pub nonce : Value
  pub base_fee_per_gas : ℕ
  pub withdrawals_root : Option Value
  pub hash : Value
  pub transactions : List (List ℕ)

-- BlockHeader's fields, in the order in which they are passed.
pub record BlockHeader : Type 0 where
  pub difficulty : ℕ
  pub block_number : ℕ
  pub gas_limit : ℕ
  pub timestamp : ℕ
  pub coinbase : List ℕ
  pub parent_hash : List ℕ
  pub uncles_hash : List ℕ
  pub state_root : List ℕ
  pub transaction_root : Value
  pub receipt_root : List ℕ
  pub bloom : ℕ
  pub gas_used : ℕ
  pub extra_data : List ℕ
  pub mix_hash : List ℕ
  pub nonce : List ℕ
  pub base_fee_per_gas : ℕ
  pub withdrawals_root : List ℕ

pub record LegacyTx : Type 0 where
  pub nonce : ℕ
  pub gas_price : ℕ
  pub gas : ℕ
  pub to : List ℕ
  pub value : ℕ
  pub data_bytes : List ℕ
  pub v : ℕ
  pub r : ℕ
  pub s : ℕ

pub record DynamicFeeTx (Access : Type 0) : Type 0 where
  pub chain_id : ℕ
  pub nonce : ℕ
  pub max_priority_fee_per_gas : ℕ
  pub max_fee_per_gas : ℕ
  pub gas : ℕ
  pub to : List ℕ
  pub value : ℕ
  pub data_bytes : List ℕ
  pub access_list : Access
  pub v : ℕ
  pub r : ℕ
  pub s : ℕ

-- The text of a transaction's type.
pub data TxType : Type 0 where
  legacy_type dynamic_fee_type other_type : TxType

pub record NodeTx (Access : Type 0) : Type 0 where
  pub type : TxType
  pub chain_id : Value
  pub nonce : ℕ
  pub gas_price : ℕ
  pub max_priority_fee_per_gas : ℕ
  pub max_fee_per_gas : ℕ
  pub gas : ℕ
  pub to : Option Value
  pub value : ℕ
  pub input : Option Value
  pub access_list : Access
  pub v : ℕ
  pub r : List ℕ
  pub s : List ℕ
  pub hash : Value
  pub transaction_index : ℕ

pub record BlockPackage : Type 1 where
  pub Access : Type 0
  pub Mpt : Type 0
  pub proof : ProofPackage
  pub decode_hex : List ℕ → Result (List ℕ)
  pub to_canonical_address : List ℕ → Result (List ℕ)
  pub header_items : BlockHeader → Items
  pub header_hash : BlockHeader → List ℕ
  pub encode_legacy : LegacyTx → List ℕ
  pub legacy_hash : LegacyTx → List ℕ
  pub encode_dynamic_fee : DynamicFeeTx Access → List ℕ
  pub empty_trie : Mpt
  pub set : Mpt → List ℕ → List ℕ → Mpt
  pub root_hash : Mpt → List ℕ
  pub trie_package : Mpt → TriePackage
  pub get_block : ℕ → Result BlockDict
  pub get_transaction : List ℕ → Result (NodeTx Access)

module _ (e : BlockPackage) where
  unfoldable pub block_header : BlockDict → Result BlockHeader
  block_header block_dict = do
    coinbase ← e.to_canonical_address block_dict.miner
    extra_data ← normalize_bytes e.decode_hex block_dict.extra_data
    nonce ← normalize_bytes e.decode_hex block_dict.nonce
    withdrawals_root ← normalize_bytes e.decode_hex (or_empty block_dict.withdrawals_root)
    let b : BlockHeader = record {
      difficulty = block_dict.difficulty;
      block_number = block_dict.number;
      gas_limit = block_dict.gas_limit;
      timestamp = block_dict.timestamp;
      coinbase = coinbase;
      parent_hash = block_dict.parent_hash;
      uncles_hash = block_dict.sha3_uncles;
      state_root = block_dict.state_root;
      transaction_root = block_dict.transactions_root;
      receipt_root = block_dict.receipts_root;
      bloom = e.proof.big_endian_to_int block_dict.logs_bloom;
      gas_used = block_dict.gas_used;
      extra_data = extra_data;
      mix_hash = block_dict.mix_hash;
      nonce = nonce;
      base_fee_per_gas = block_dict.base_fee_per_gas;
      withdrawals_root = withdrawals_root;
    }
    hash ← normalize_bytes e.decode_hex block_dict.hash
    guard (bytes_eq hash (e.header_hash b)) value_error
    ok b

  -- The encoding and the hash of a transaction, by its type.
  unfoldable pub encode_by_type : NodeTx e.Access → TxType → Result (List ℕ × List ℕ)
  encode_by_type tx_dict legacy_type = do
    to ← normalize_bytes e.decode_hex (or_empty tx_dict.to)
    data_bytes ← normalize_bytes e.decode_hex (or_empty tx_dict.input)
    let t : LegacyTx = record {
      nonce = tx_dict.nonce;
      gas_price = tx_dict.gas_price;
      gas = tx_dict.gas;
      to = to;
      value = tx_dict.value;
      data_bytes = data_bytes;
      v = tx_dict.v;
      r = e.proof.big_endian_to_int tx_dict.r;
      s = e.proof.big_endian_to_int tx_dict.s;
    }
    ok (e.encode_legacy t, e.legacy_hash t)
  encode_by_type tx_dict dynamic_fee_type = do
    chain_id ← normalize_bytes e.decode_hex tx_dict.chain_id
    to ← normalize_bytes e.decode_hex (or_empty tx_dict.to)
    data_bytes ← normalize_bytes e.decode_hex (or_empty tx_dict.input)
    let t : DynamicFeeTx e.Access = record {
      chain_id = e.proof.big_endian_to_int chain_id;
      nonce = tx_dict.nonce;
      max_priority_fee_per_gas = tx_dict.max_priority_fee_per_gas;
      max_fee_per_gas = tx_dict.max_fee_per_gas;
      gas = tx_dict.gas;
      to = to;
      value = tx_dict.value;
      data_bytes = data_bytes;
      access_list = tx_dict.access_list;
      v = tx_dict.v;
      r = e.proof.big_endian_to_int tx_dict.r;
      s = e.proof.big_endian_to_int tx_dict.s;
    }
    prefix ← normalize_bytes e.decode_hex (text_value (48 ∷ 120 ∷ 50 ∷ []))
    let encoding = prefix ++ e.encode_dynamic_fee t
    ok (encoding, e.proof.codec.keccak encoding)
  encode_by_type tx_dict other_type = err assertion_error

  unfoldable pub rlp_transaction : NodeTx e.Access → Result (List ℕ)
  rlp_transaction tx_dict = do
    (encoding, tx_hash) ← encode_by_type tx_dict tx_dict.type
    hash ← normalize_bytes e.decode_hex tx_dict.hash
    guard (bytes_eq hash tx_hash) value_error
    ok encoding

  -- The trie of a block's transactions.
  unfoldable pub set_all : e.Mpt → List (List ℕ) → Result e.Mpt
  set_all mpt [] = ok mpt
  set_all mpt (tx_hash ∷ tx_hashes) = do
    tx_dict ← e.get_transaction tx_hash
    let key = e.proof.encode_int tx_dict.transaction_index
    value ← rlp_transaction tx_dict
    set_all (e.set mpt key value) tx_hashes

  unfoldable pub generate_proof_blob : ℕ → ℕ → ℕ → Result e.proof.Blob
  generate_proof_blob fuel block_num tx_index = do
    block_dict ← e.get_block block_num
    header ← block_header block_dict
    mpt ← set_all e.empty_trie block_dict.transactions
    transactions_root ← normalize_bytes e.decode_hex block_dict.transactions_root
    guard (bytes_eq (e.root_hash mpt) transactions_root) value_error
    construct_proof_from_mpt e.proof (e.trie_package mpt) fuel (str (e.root_hash mpt))
        (e.header_items header) tx_index
