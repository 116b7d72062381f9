-- ===== src/Mpt/Blob.antt =====
-- `verify_tx_proof` and `construct_proof_from_mpt` of searcher/src/enclave/lib/mkp/proveth.py. The node, the nibbles of
-- the trie package, and rlp over a proof, whose bytes are a type, are parameters; a proof decodes to a header
-- and nodes that are lists.
use sting_flashbots.Base.{
  ℕ, List, [], ◌∷◌, Option, none, some, bytes_eq, Result, ok, err, type_error, index_error, assert,
  or_raise, ◌>>=◌, ◌>>◌,
}
use sting_flashbots.Rlp.{Item, Items, nil, cons, str, seq, get_item, Codec}
use sting_flashbots.Mpt.{verify_mpt_proof}
use sting_flashbots.Mpt.Generate.{TriePackage, generate_proof}

pub record ProofPackage : Type 1 where
  pub Blob : Type 0
  pub codec : Codec
  pub encode_int : ℕ → List ℕ
  pub big_endian_to_int : List ℕ → ℕ
  pub bytes_to_nibbles : List ℕ → List ℕ
  pub encode_proof : Items → ℕ → List Items → Blob
  pub decode_proof : Blob → Result (Items × List ℕ × List Items)
  pub block_hash : ℕ → Result (List ℕ)
  pub chain_id : ℕ

-- `LondonLegacyTransaction`, with its fields as they are given.
pub record SignedTx : Type 0 where
  pub nonce : ℕ
  pub gas_price : ℕ
  pub gas : ℕ
  pub to : Item
  pub value : ℕ
  pub data_item : Item
  pub v : ℕ
  pub r : ℕ
  pub s : ℕ

-- `unsigned_tx`
pub record UnsignedTx : Type 0 where
  pub nonce : ℕ
  pub gas_price : ℕ
  pub gas : ℕ
  pub to : Item
  pub value : ℕ
  pub data_item : Item
  pub chain_id : ℕ

module _ (e : ProofPackage) where
  -- `tx[i]`
  abbrev pub field : Items → ℕ → Result Item
  field tx i = or_raise (get_item tx i) index_error

  -- `big_endian_to_int(item)`, where an empty list counts as no bytes, and a list with items has no numbers.
  abbrev item_int : Item → Result ℕ
  item_int (str bs) = ok (e.big_endian_to_int bs)
  item_int (seq nil) = ok (e.big_endian_to_int [])
  item_int (seq (cons x xs)) = err type_error

  -- `big_endian_to_int(tx[i])`
  unfoldable pub int_field : Items → ℕ → Result ℕ
  int_field tx i = do item ← field tx i; item_int item

  unfoldable pub signed_of : Items → Result SignedTx
  signed_of tx = do
    nonce ← int_field tx 0
    gas_price ← int_field tx 1
    gas ← int_field tx 2
    to ← field tx 3
    value ← int_field tx 4
    input ← field tx 5
    v ← int_field tx 6
    r ← int_field tx 7
    s ← int_field tx 8
    ok (record {
      nonce = nonce;
      gas_price = gas_price;
      gas = gas;
      to = to;
      value = value;
      data_item = input;
      v = v;
      r = r;
      s = s;
    })

  unfoldable pub unsigned_of : SignedTx → UnsignedTx
  unsigned_of tx = record {
    nonce = tx.nonce;
    gas_price = tx.gas_price;
    gas = tx.gas;
    to = tx.to;
    value = tx.value;
    data_item = tx.data_item;
    chain_id = e.chain_id;
  }

  -- What the proof gave: None has no fields, empty bytes have no first one, and other bytes have numbers, which
  -- `big_endian_to_int` does not take.
  abbrev pub fields_of : Option Item → Result Items
  fields_of none = err type_error
  fields_of (some (str [])) = err index_error
  fields_of (some (str (b ∷ bs))) = err type_error
  fields_of (some (seq xs)) = ok xs

  unfoldable pub verify_tx_proof : ℕ → e.Blob → Result (UnsignedTx × SignedTx)
  verify_tx_proof block_num prf = do
    (header, tx_index_bytes, stack) ← e.decode_proof prf
    block_hash ← e.block_hash block_num
    assert (bytes_eq block_hash (e.codec.keccak (e.codec.rlp_encode (seq header))))
    tx_root_hash ← field header 4
    let mpt_key_nibbles = e.bytes_to_nibbles (e.encode_int (e.big_endian_to_int tx_index_bytes))
    found ← verify_mpt_proof e.codec tx_root_hash mpt_key_nibbles stack
    tx ← fields_of found
    signed_tx ← signed_of tx
    ok (unsigned_of signed_tx, signed_tx)

  unfoldable pub construct_proof_from_mpt : TriePackage → ℕ → Item → Items → ℕ → Result e.Blob
  construct_proof_from_mpt mpt fuel root_hash header tx_index = do
    let mpt_key_nibbles = e.bytes_to_nibbles (e.encode_int tx_index)
    stack ← generate_proof mpt fuel root_hash mpt_key_nibbles
    ok (e.encode_proof header tx_index stack)
