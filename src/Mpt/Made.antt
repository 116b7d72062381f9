-- ===== src/Mpt/Made.antt =====
-- The proof that `generate_proof_blob` makes of a block's transaction is verified.
use sting_flashbots.Base.{
  ℕ, ◌≤◌, ◌≡◌, refl, sym, ap, ◌∙◌, subst, List, some, bytes_eq, bytes_eq→eq, length, ok,
  ok-injective, >>=-eq-ok, guard, guard-eq-ok, value_error,
}
use sting_flashbots.Rlp.{Item, Items, nil, cons, str, seq, get_item}
use sting_flashbots.Mpt.Trie.{Trie, Entry, ref, find, IsTrie}
use sting_flashbots.Mpt.Generate.{IsStored, ConsumesPrefix, path_of}
use sting_flashbots.Mpt.Route.{Along, nodes_on}
use sting_flashbots.Mpt.Sound.{Returned}
use sting_flashbots.Mpt.Blob.{
  ProofPackage, SignedTx, UnsignedTx, int_field, signed_of, unsigned_of, verify_tx_proof,
  construct_proof_from_mpt,
}
use sting_flashbots.Mpt.Blocks.{
  BlockPackage, BlockDict, BlockHeader, normalize_bytes, or_empty, block_header, set_all,
  generate_proof_blob,
}
use sting_flashbots.Mpt.Evidence.{ProofLaws, verify_tx_proof-construct_proof_from_mpt}

-- The fifth field of a header is the root of the transactions' trie, and a header's hash is that of its encoding.
pub record HeaderLaws (e : BlockPackage) : Type 0 where
  pub header_items_root :
      (header : BlockHeader) (root : List ℕ)
      → normalize_bytes e.decode_hex header.transaction_root ≡ ok root
      → get_item (e.header_items header) 4 ≡ some (str root)
  pub header_hash_lem :
      (header : BlockHeader)
      → e.header_hash header
        ≡ e.proof.codec.keccak (e.proof.codec.rlp_encode (seq (e.header_items header)))

-- A header that was made has the block's root, and the block's hash.
block_header_parts :
    (e : BlockPackage) (dict : BlockDict) (header : BlockHeader)
    → block_header e dict ≡ ok header
    → (header.transaction_root ≡ dict.transactions_root)
      × (normalize_bytes e.decode_hex dict.hash ≡ ok (e.header_hash header))
unfolding block_header
block_header_parts e dict header made =
    let (coinbase, _, h1) = >>=-eq-ok (e.to_canonical_address dict.miner) _ made in
    let (extra, _, h2) = >>=-eq-ok (normalize_bytes e.decode_hex dict.extra_data) _ h1 in
    let (nonce, _, h3) = >>=-eq-ok (normalize_bytes e.decode_hex dict.nonce) _ h2 in
    let (withdrawals, _, h4) =
      >>=-eq-ok (normalize_bytes e.decode_hex (or_empty dict.withdrawals_root)) _ h3 in
    let (hash, hash_is, h5) = >>=-eq-ok (normalize_bytes e.decode_hex dict.hash) _ h4 in
    let (_, same, h6) = >>=-eq-ok (guard (bytes_eq hash (e.header_hash _)) value_error) _ h5 in
    let header_is = ok-injective h6 in
    (
      sym (ap (λ (b : BlockHeader). b.transaction_root) header_is),
      hash_is
          ∙ ap ok (bytes_eq→eq hash _ (guard-eq-ok _ _ same))
          ∙ ap (λ (b : BlockHeader). ok (e.header_hash b)) header_is,
    )

-- A legacy transaction as the protocol encodes it: its nonce, gas price, gas, receiver, value, data, v, r and s.
abbrev pub legacy_items : (ℕ → List ℕ) → SignedTx → Items
legacy_items int_bytes tx = cons (str (int_bytes tx.nonce)) (
    cons (str (int_bytes tx.gas_price)) (
      cons (str (int_bytes tx.gas)) (
        cons tx.to (
          cons (str (int_bytes tx.value)) (
            cons tx.data_item (
              cons (str (int_bytes tx.v))
                (cons (str (int_bytes tx.r)) (cons (str (int_bytes tx.s)) nil))))))))

-- The transaction without its signature, for a chain.
abbrev pub without_signature : SignedTx → ℕ → UnsignedTx
without_signature tx chain_id = record {
  nonce = tx.nonce;
  gas_price = tx.gas_price;
  gas = tx.gas;
  to = tx.to;
  value = tx.value;
  data_item = tx.data_item;
  chain_id = chain_id;
}

signed_of-legacy_items :
    (e : ProofPackage) (int_bytes : ℕ → List ℕ)
    → ((n : ℕ) → e.big_endian_to_int (int_bytes n) ≡ n)
    → (tx : SignedTx) → signed_of e (legacy_items int_bytes tx) ≡ ok tx
unfolding signed_of int_field
signed_of-legacy_items e int_bytes law tx =
    rw (law tx.nonce, law tx.gas_price, law tx.gas, law tx.value, law tx.v, law tx.r, law tx.s) refl

-- A proof that was generated for a legacy transaction of a block, whose hash the node gives as the block's own,
-- from a trie that holds the transaction's encoding at the key of its index, along stored nodes with paths of at
-- most one nibble, with fuel for the nodes on the way, where the integers are encoded so that they are read back:
-- `verify_tx_proof` accepts it for that block and returns the transaction, and the one without its signature and
-- with the chain's id.
pub verify_tx_proof-generate_proof_blob :
    (e : BlockPackage)
    → ProofLaws e.proof
    → HeaderLaws e
    → (fuel block_num tx_index : ℕ) (prf : e.proof.Blob) (dict : BlockDict) (mpt : e.Mpt) (t : Trie)
      (entry : Entry) (int_bytes : ℕ → List ℕ) (tx : SignedTx)
    → ((n : ℕ) → e.proof.big_endian_to_int (int_bytes n) ≡ n)
    → generate_proof_blob e fuel block_num tx_index ≡ ok prf
    → e.get_block block_num ≡ ok dict
    → e.proof.block_hash block_num ≡ normalize_bytes e.decode_hex dict.hash
    → set_all e e.empty_trie dict.transactions ≡ ok mpt
    → ConsumesPrefix (e.trie_package mpt)
    → ref e.proof.codec t ≡ str (e.root_hash mpt)
    → IsTrie t
    → Along
        (λ s. IsStored e.proof.codec (e.trie_package mpt) s × (length (path_of s) ≤ 1))
        t
        (e.proof.bytes_to_nibbles (e.proof.encode_int tx_index))
    → find t (e.proof.bytes_to_nibbles (e.proof.encode_int tx_index)) ≡ some entry
    → Returned e.proof.codec entry (seq (legacy_items int_bytes tx))
    → nodes_on t (e.proof.bytes_to_nibbles (e.proof.encode_int tx_index)) ≤ fuel
    → verify_tx_proof e.proof block_num prf ≡ ok (without_signature tx e.proof.chain_id, tx)
unfolding generate_proof_blob unsigned_of
verify_tx_proof-generate_proof_blob e laws headers fuel block_num tx_index prf dict mpt t entry
      int_bytes tx ints made dict_is node_hash mpt_is consumes root_is it good found returned
      enough =
    let (dict', dict_is', h1) = >>=-eq-ok (e.get_block block_num) _ made in
    let dict_eq : dict' ≡ dict = ok-injective (sym dict_is' ∙ dict_is) in
    let h1' = rw dict_eq at h1 in
    let (header, header_is, h2) = >>=-eq-ok (block_header e dict) _ h1' in
    let (mpt', mpt_is', h3) = >>=-eq-ok (set_all e e.empty_trie dict.transactions) _ h2 in
    let mpt_eq : mpt' ≡ mpt = ok-injective (sym mpt_is' ∙ mpt_is) in
    let h3' = rw mpt_eq at h3 in
    let (root, root_read, h4) =
      >>=-eq-ok (normalize_bytes e.decode_hex dict.transactions_root) _ h3' in
    let (_, same, constructed) =
      >>=-eq-ok (guard (bytes_eq (e.root_hash mpt) root) value_error) _ h4 in
    let root_same : e.root_hash mpt ≡ root = bytes_eq→eq _ _ (guard-eq-ok _ _ same) in
    let (root_field, hash_read) = block_header_parts e dict header header_is in
    let fifth =
      headers.header_items_root header root
        (ap (normalize_bytes e.decode_hex) root_field ∙ root_read) in
    let hash_is = node_hash ∙ hash_read ∙ ap ok (headers.header_hash_lem header) in
    let (prf', made', verified) =
      verify_tx_proof-construct_proof_from_mpt e.proof (e.trie_package mpt) laws consumes t entry
        (legacy_items int_bytes tx) (e.header_items header) fuel block_num tx_index it good found
        returned enough (fifth ∙ ap (λ r. some (str r)) (sym root_same) ∙ ap some (sym root_is))
        hash_is in
    let same_root =
      ap
        (λ (r : Item).
          construct_proof_from_mpt e.proof (e.trie_package mpt) fuel r (e.header_items header)
            tx_index)
        root_is in
    let prf_eq : prf' ≡ prf = ok-injective (sym made' ∙ same_root ∙ constructed) in
    let accepted = rw (signed_of-legacy_items e.proof int_bytes ints tx) at verified in
    subst
      (λ (b : e.proof.Blob).
        verify_tx_proof e.proof block_num b ≡ ok (without_signature tx e.proof.chain_id, tx))
      prf_eq accepted
