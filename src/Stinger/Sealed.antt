-- ===== src/Stinger/Sealed.antt =====
-- The proof of the stinger in the samples' block.
use sting_flashbots.Base.{
  ℕ, ◌≤◌, ◌≡◌, refl, ap, List, [], ◌∷◌, some, length, Result, ok, err, arith,
}
use sting_flashbots.Rlp.{str, CodecLaws}
use sting_flashbots.Mpt.Compact.{hex_prefix}
use sting_flashbots.Mpt.Trie.{find, at_leaf, node_of, ref}
use sting_flashbots.Mpt.Generate.{IsStored, ConsumesPrefix, path_of, generate_proof, aux}
use sting_flashbots.Mpt.Route.{Along, nodes_on}
use sting_flashbots.Mpt.Blob.{verify_tx_proof, construct_proof_from_mpt}
use sting_flashbots.Mpt.Blocks.{
  normalize_bytes, block_header, set_all, rlp_transaction, encode_by_type, generate_proof_blob,
}
use sting_flashbots.Mpt.Evidence.{ProofLaws}
use sting_flashbots.Mpt.Made.{HeaderLaws, without_signature, verify_tx_proof-generate_proof_blob}
use sting_flashbots.Mpt.Tests.{
  codec_laws, consume-prefix, nibbles_of-IsNibble, tx_trie, tx_trie-IsTrie,
}
use sting_flashbots.Stinger.Samples.{
  signed_with, two_codec, two_proofs, two_trie, two_blocks, block_dict, evidence,
}

two_codec-laws : CodecLaws two_codec
two_codec-laws = record {
  encode_byte = codec_laws.encode_byte;
  encode_empty = codec_laws.encode_empty;
  encode_high = codec_laws.encode_high;
  encode_long = codec_laws.encode_long;
  digest_length = codec_laws.digest_length;
}

two_proofs-laws : ProofLaws two_proofs
two_proofs-laws = record {
  codec-laws = two_codec-laws;
  decode_proof-encode_proof = λ header tx_index stack. (tx_index ∷ [], refl, refl);
  bytes_to_nibbles-IsNibble = nibbles_of-IsNibble;
}

two_blocks-laws : HeaderLaws two_blocks
two_blocks-laws = record {
  header_items_root = λ header root read.
      ap (λ (r : Result (List ℕ)). some (str (elim r [ err exception ↦ [] | ok bs ↦ bs ]))) read;
  header_hash_lem = λ header. refl;
}

proof_made : generate_proof_blob two_blocks 2 7 1 ≡ ok evidence.victim_prf
unfolding generate_proof_blob block_header normalize_bytes set_all rlp_transaction encode_by_type
    construct_proof_from_mpt generate_proof aux node_of ref hex_prefix
proof_made = refl

two_trie-ConsumesPrefix : ConsumesPrefix two_trie
two_trie-ConsumesPrefix = consume-prefix

IsStored-Along_two :
    Along (λ s. IsStored two_codec two_trie s × (length (path_of s) ≤ 1)) tx_trie (0 ∷ 1 ∷ [])
unfolding Along node_of hex_prefix
IsStored-Along_two = (
  (record { get_node_ref = refl; get_node_type_of = refl; extract_key_of = refl }, omega arith),
  (record { get_node_ref = refl; get_node_type_of = refl; extract_key_of = refl }, omega arith),
)

verify_tx_proof-generate_proof_blob_example :
    verify_tx_proof two_proofs 7 evidence.victim_prf
    ≡ ok (without_signature (signed_with 1 37 8 9) two_proofs.chain_id, signed_with 1 37 8 9)
unfolding find nodes_on set_all rlp_transaction encode_by_type normalize_bytes ref node_of
    hex_prefix
verify_tx_proof-generate_proof_blob_example =
    verify_tx_proof-generate_proof_blob two_blocks two_proofs-laws two_blocks-laws 2 7 1
      evidence.victim_prf block_dict (1 ∷ 0 ∷ []) tx_trie (at_leaf (b'b' ∷ [])) (λ n. n ∷ [])
      (signed_with 1 37 8 9) (λ n. refl) proof_made refl refl refl two_trie-ConsumesPrefix refl
      tx_trie-IsTrie IsStored-Along_two refl refl (omega arith)
