-- ===== src/Mpt/Evidence.antt =====
-- A proof that is constructed for a transaction of a block is verified.
use sting_flashbots.Base.{ℕ, ◌≤◌, ◌≡◌, refl, List, some, bytes_eq_refl, length, All, ok, ◌>>=◌}
use sting_flashbots.Rlp.{Item, Items, seq, get_item, CodecLaws}
use sting_flashbots.Mpt.{verify_mpt_proof}
use sting_flashbots.Mpt.Compact.{IsNibble}
use sting_flashbots.Mpt.Trie.{Trie, Entry, ref, find, IsTrie}
use sting_flashbots.Mpt.Generate.{TriePackage, IsStored, ConsumesPrefix, path_of}
use sting_flashbots.Mpt.Route.{Along, nodes_on}
use sting_flashbots.Mpt.Sound.{Returned}
use sting_flashbots.Mpt.Complete.{verify_mpt_proof-generate_proof}
use sting_flashbots.Mpt.Blob.{
  ProofPackage, signed_of, unsigned_of, verify_tx_proof, construct_proof_from_mpt,
}

-- rlp gives back a proof's header, the bytes of its index, and its stack.
pub record ProofLaws (e : ProofPackage) : Type 0 where
  pub codec-laws : CodecLaws e.codec
  pub decode_proof-encode_proof :
      (header : Items) (tx_index : ℕ) (stack : List Items)
      → (bytes : List ℕ) × (e.decode_proof (e.encode_proof header tx_index stack)
          ≡ ok (header, bytes, stack))
        × (e.big_endian_to_int bytes ≡ tx_index)
  pub bytes_to_nibbles-IsNibble : (bs : List ℕ) → All IsNibble (e.bytes_to_nibbles bs)

verified :
    (e : ProofPackage) (block_num tx_index : ℕ) (prf : e.Blob) (bytes : List ℕ) (header tx : Items)
    (root : Item) (stack : List Items)
    → e.decode_proof prf ≡ ok (header, bytes, stack)
    → e.big_endian_to_int bytes ≡ tx_index
    → e.block_hash block_num ≡ ok (e.codec.keccak (e.codec.rlp_encode (seq header)))
    → get_item header 4 ≡ some root
    → verify_mpt_proof e.codec root (e.bytes_to_nibbles (e.encode_int tx_index)) stack
      ≡ ok (some (seq tx))
    → verify_tx_proof e block_num prf
      ≡ (signed_of e tx >>= (λ signed_tx. ok (unsigned_of e signed_tx, signed_tx)))
unfolding verify_tx_proof
verified e block_num tx_index prf bytes header tx root stack decoded index_is hash_is root_is
      accepted =
    rw
      (
        decoded,
        hash_is,
        bytes_eq_refl (e.codec.keccak (e.codec.rlp_encode (seq header))),
        root_is,
        index_is,
        accepted,
      )
      refl

-- A transaction that a block's trie holds at the key of its index, along stored nodes with paths of at most one
-- nibble, where the header that was hashed names the trie's root: the proof that `construct_proof_from_mpt`
-- makes, with fuel for the nodes on the way, is accepted by `verify_tx_proof` for that block, and gives the
-- fields of the transaction, the signed one and the unsigned one with the chain's id.
pub verify_tx_proof-construct_proof_from_mpt :
    (e : ProofPackage) (mpt : TriePackage)
    → ProofLaws e
    → ConsumesPrefix mpt
    → (t : Trie) (entry : Entry) (tx header : Items) (fuel block_num tx_index : ℕ) → IsTrie t
    → Along
        (λ s. IsStored e.codec mpt s × (length (path_of s) ≤ 1))
        t
        (e.bytes_to_nibbles (e.encode_int tx_index))
    → find t (e.bytes_to_nibbles (e.encode_int tx_index)) ≡ some entry
    → Returned e.codec entry (seq tx)
    → nodes_on t (e.bytes_to_nibbles (e.encode_int tx_index)) ≤ fuel
    → get_item header 4 ≡ some (ref e.codec t)
    → e.block_hash block_num ≡ ok (e.codec.keccak (e.codec.rlp_encode (seq header)))
    → (prf : e.Blob) × (construct_proof_from_mpt e mpt fuel (ref e.codec t) header tx_index
        ≡ ok prf)
      × (verify_tx_proof e block_num prf
          ≡ (signed_of e tx >>= (λ signed_tx. ok (unsigned_of e signed_tx, signed_tx))))
unfolding construct_proof_from_mpt
verify_tx_proof-construct_proof_from_mpt e mpt laws consumes t entry tx header fuel block_num
      tx_index it good found returned enough root_is hash_is =
    let (stack, made, accepted) =
      verify_mpt_proof-generate_proof e.codec mpt laws.codec-laws consumes t
        (e.bytes_to_nibbles (e.encode_int tx_index)) entry (seq tx) fuel it
        (laws.bytes_to_nibbles-IsNibble (e.encode_int tx_index)) good found returned enough in
    let (bytes, decoded, index_is) = laws.decode_proof-encode_proof header tx_index stack in
    (
      e.encode_proof header tx_index stack,
      rw made refl,
      verified e block_num tx_index (e.encode_proof header tx_index stack) bytes header tx
          (ref e.codec t) stack decoded index_is hash_is root_is accepted,
    )
