-- ===== src/Stinger/Samples.antt =====
-- A small network with a block of two transactions, the stinger at index 1 and the other at index 0.
use sting_flashbots.Base.{
  Bool, false, some, Result, drop, ℕ, ◌*◌, ◌%◌, refl, sym, ap, List, [], ◌∷◌, none, ◌==◌, bytes_eq,
  ok, err, ok-injective, other_exception, if◌then◌else◌,
}
use sting_flashbots.Rlp.{Item, Items, str, seq, nil, cons, Codec}
use sting_flashbots.Ecdsa.{nonce}
use sting_flashbots.Keys.Tests.{key_bytes}
use sting_flashbots.Signing.{chain_aware_transaction}
use sting_flashbots.Account.{Value, int_value, text_value, AccountPackage, bytes_value}
use sting_flashbots.Account.Tests.{small_account}
use sting_flashbots.Commitment.Tests.{small_field}
use sting_flashbots.Enclave.{Transaction, Generators, RawTxPackage}
use sting_flashbots.Mpt.Trie.{Trie, leaf, node_of, ref}
use sting_flashbots.Mpt.Tests.{consume, codec, tx_trie, nibbles_of, first_byte}
use sting_flashbots.Flashbots.Hex.{bytes_of_hex}
use sting_flashbots.Mpt.Generate.{
  TriePackage, NodeType, blank_node, leaf_node, branch_node, other_node,
}
use sting_flashbots.Mpt.Blocks.{
  normalize_bytes, BlockHeader, legacy_type, NodeTx, BlockDict, BlockPackage,
}
use sting_flashbots.Mpt.Blob.{SignedTx, ProofPackage}
use sting_flashbots.Stinger.{EvidencePackage, VerifyData}
use sting_flashbots.Stinger.Soundness.{EvidenceLaws}

-- The nine fields of a transaction with a nonce and a signature.
abbrev pub items_with : ℕ → ℕ → ℕ → ℕ → Items
items_with nonce v r s = cons (str (nonce ∷ [])) (
    cons (str (2 ∷ [])) (
      cons (str (3 ∷ [])) (
        cons (str (4 ∷ 4 ∷ [])) (
          cons (str (5 ∷ [])) (
            cons (str []) (cons (str (v ∷ [])) (cons (str (r ∷ [])) (cons (str (s ∷ [])) nil))))))))

abbrev pub signed_with : ℕ → ℕ → ℕ → ℕ → SignedTx
signed_with nonce v r s = record {
  nonce = nonce;
  gas_price = 2;
  gas = 3;
  to = str (4 ∷ 4 ∷ []);
  value = 5;
  data_item = str [];
  v = v;
  r = r;
  s = s;
}

abbrev pub two_codec : Codec
two_codec = record codec {
  rlp_decode =
      λ bs. ok (seq (if bytes_eq bs (b'a' ∷ []) then items_with 6 54 2 0 else items_with 1 37 8 9));
}

abbrev pub two_header : Items
two_header =
    cons (str []) (cons (str []) (cons (str []) (cons (str []) (cons (ref two_codec tx_trie) nil))))

abbrev pub two_proofs : ProofPackage
two_proofs = record {
  Blob = Items × ℕ × List Items;
  codec = two_codec;
  encode_int = λ n. if n == 0 then 128 ∷ [] else n ∷ [];
  big_endian_to_int = first_byte;
  bytes_to_nibbles = nibbles_of;
  encode_proof = λ header tx_index stack. (header, tx_index, stack);
  decode_proof = λ blob. ok (blob.0, blob.1 ∷ [], blob.2);
  block_hash = λ n. ok (two_codec.keccak (two_codec.rlp_encode (seq two_header)));
  chain_id = 9;
}

-- A text is read as hexadecimal digits behind `0x`.
abbrev pub read_bytes : Value → Result (List ℕ)
read_bytes (bytes_value bs) = ok bs
read_bytes (int_value n) = ok (n ∷ [])
read_bytes (text_value cs) = ok (bytes_of_hex (drop 2 cs))

abbrev pub hex_account : AccountPackage
hex_account = record small_account { hex_bytes = read_bytes }

abbrev pub small_points : Generators (ℕ × ℕ)
small_points = record {
  g = (2, 6);
  h = (2, 1);
  scale = λ n point. if n % 2 == 0 then (2, 1) else point;
  plus = λ a b. (2, a.1 * b.1 % 7);
  coordinates = λ point. ok point;
}

abbrev pub stinger : List ℕ
stinger = 1 ∷ 37 ∷ 8 ∷ 9 ∷ []

abbrev pub victim_tx : Transaction
victim_tx = record {
  nonce = 1;
  gas_price = 2;
  gas = 3;
  to = 4 ∷ 4 ∷ [];
  value = 5;
  data_bytes = [];
  v = 37;
  r = 8;
  s = 9;
}

abbrev pub small_raw : RawTxPackage
small_raw = record {
  encode = λ tx. ok (tx.nonce ∷ tx.v ∷ tx.r ∷ tx.s ∷ []);
  decode = λ bs. if bytes_eq bs stinger then ok victim_tx else err other_exception;
  keccak = λ bs. bs;
  recover_transaction = λ bs. ok bs;
}

-- The trie's nodes by their references, and a leaf's one nibble.
abbrev pub leaf_at : ℕ → Trie
leaf_at i = leaf (i ∷ []) (if i == 0 then b'a' ∷ [] else b'b' ∷ [])

abbrev pub is_ref : Item → Trie → Bool
is_ref (str bs) t = elim (ref two_codec t) [ str ds ↦ bytes_eq bs ds | seq xs ↦ false ]
is_ref (seq xs) t = false

abbrev pub node_at : Item → Result Items
node_at h =
    if is_ref h tx_trie
    then ok (node_of two_codec tx_trie)
    else if is_ref h (leaf_at 0)
    then ok (node_of two_codec (leaf_at 0))
    else if is_ref h (leaf_at 1)
    then ok (node_of two_codec (leaf_at 1))
    else err other_exception

abbrev pub key_of : Item → List ℕ
key_of (str bs) = first_byte bs % 16 ∷ []
key_of (seq xs) = []

abbrev pub type_of : Items → NodeType
type_of nil = blank_node
type_of (cons a nil) = other_node
type_of (cons a (cons b nil)) = leaf_node
type_of (cons a (cons b (cons d rest))) = branch_node

abbrev pub leaf_key : Items → List ℕ
leaf_key nil = []
leaf_key (cons a nil) = []
leaf_key (cons a (cons b nil)) = key_of a
leaf_key (cons a (cons b (cons d rest))) = []

abbrev pub two_trie : TriePackage
two_trie = record {
  get_node = node_at;
  get_node_type = type_of;
  extract_key = leaf_key;
  consume_common_prefix = consume;
}

abbrev pub root_bytes : List ℕ
root_bytes = elim (ref two_codec tx_trie) [ str bs ↦ bs | seq xs ↦ [] ]

abbrev pub node_tx : ℕ → NodeTx (Unit {0})
node_tx i = record {
  type = legacy_type;
  chain_id = int_value 9;
  nonce = i;
  gas_price = 2;
  max_priority_fee_per_gas = 0;
  max_fee_per_gas = 0;
  gas = 3;
  to = some (bytes_value (4 ∷ 4 ∷ []));
  value = 5;
  input = none;
  access_list = tt;
  v = 37;
  r = 8 ∷ [];
  s = 9 ∷ [];
  hash = bytes_value (i ∷ []);
  transaction_index = i;
}

abbrev pub block_dict : BlockDict
block_dict = record {
  difficulty = 0;
  number = 7;
  gas_limit = 30;
  timestamp = 1;
  miner = [];
  parent_hash = [];
  sha3_uncles = [];
  state_root = [];
  transactions_root = bytes_value root_bytes;
  receipts_root = [];
  logs_bloom = [];
  gas_used = 6;
  extra_data = bytes_value [];
  mix_hash = [];
  nonce = bytes_value [];
  base_fee_per_gas = 0;
  withdrawals_root = none;
  hash = bytes_value (two_codec.keccak (two_codec.rlp_encode (seq two_header)));
  transactions = (0 ∷ []) ∷ (1 ∷ []) ∷ [];
}

abbrev pub root_of : Value → List ℕ
root_of root = elim (normalize_bytes (λ text. ok []) root) [ err exception ↦ [] | ok bs ↦ bs ]

abbrev pub items_of : BlockHeader → Items
items_of header = cons (str []) (
    cons (str [])
      (cons (str []) (cons (str []) (cons (str (root_of header.transaction_root)) nil))))

-- A trie under construction is the list of its keys.
abbrev pub two_blocks : BlockPackage
two_blocks = record {
  Access = Unit {0};
  Mpt = List ℕ;
  proof = two_proofs;
  decode_hex = λ text. ok [];
  to_canonical_address = λ text. ok text;
  header_items = items_of;
  header_hash = λ header. two_codec.keccak (two_codec.rlp_encode (seq (items_of header)));
  encode_legacy = λ tx. tx.nonce ∷ tx.v ∷ tx.r ∷ tx.s ∷ [];
  legacy_hash = λ tx. tx.nonce ∷ [];
  encode_dynamic_fee = λ tx. [];
  empty_trie = [];
  set = λ mpt key value. first_byte value ∷ mpt;
  root_hash = λ mpt. if bytes_eq mpt (1 ∷ 0 ∷ []) then root_bytes else [];
  trie_package = λ mpt. two_trie;
  get_block = λ n. ok block_dict;
  get_transaction = λ hash. ok (node_tx (first_byte hash));
}

abbrev pub small_evidence : EvidencePackage
small_evidence = record {
  Point = ℕ × ℕ;
  account = hex_account;
  block = two_blocks;
  raw = small_raw;
  field = small_field;
  generators = small_points;
  keccak = λ bs. bs;
  tx_dict = λ tx. (none, (chain_aware_transaction, tx.nonce ∷ tx.chain_id ∷ 0 ∷ 0 ∷ []));
  encode_block = λ n hash. n ∷ hash;
  encode_defunct = λ bs. 3;
}

pub small_evidence-laws : EvidenceLaws small_evidence
small_evidence-laws = record {
  from_field-tx_dict = λ tx. refl;
  class_of-tx_dict = λ tx t read. ap (λ u. hex_account.eth.class_of u) (ok-injective (sym read));
}

abbrev pub evidence : VerifyData two_proofs.Blob
evidence = record {
  r = 5;
  adv_private_key = bytes_value key_bytes;
  target_block_num = 7;
  adv_prf = (
    two_header,
    0,
    node_of two_codec tx_trie ∷ node_of two_codec (leaf (0 ∷ []) (b'a' ∷ [])) ∷ [],
  );
  victim_prf = (
    two_header,
    1,
    node_of two_codec tx_trie ∷ node_of two_codec (leaf (1 ∷ []) (b'b' ∷ [])) ∷ [],
  );
}
