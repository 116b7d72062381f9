-- ===== src/Mpt/Limits.antt =====
-- Two places where the verifier departs from the Solidity one that it follows: a compact path of two
-- bytes or more, and a key that ends within a leaf's path.
use sting_flashbots.Base.{
  ℕ, ◌≡◌, refl, true, List, [], ◌∷◌, ok, err, assertion_error, arith, Bool-cases, inl, inr, none,
  some, bytes_eq_refl,
}
use sting_flashbots.Rlp.{Item, Items, str, seq, nil, cons, Codec, CodecLaws}
use sting_flashbots.Mpt.{
  node_round, short_round, verify_from, verify_mpt_proof, shared_prefix_length, digest_eq,
}
use sting_flashbots.Mpt.Compact.{IsNibble, hex_prefix}
use sting_flashbots.Mpt.Prefix.{mismatch}
use sting_flashbots.Mpt.Trie.{leaf, find, node_of, ref}
use sting_flashbots.Mpt.Paths.{decode_compact_long, decode_path_short}
use sting_flashbots.Mpt.Rounds.{prefix_passes}

-- A proof whose first node is a leaf or an extension with a compact path of two bytes or more (a path
-- of two nibbles or more) is rejected by an assertion, whatever the root, the key and the rest are:
-- the code decodes the RLP encoding of the path, whose first byte is no path flag.
pub verify_mpt_proof-long_path :
    (c : Codec)
    → CodecLaws c
    → (root_hash value : Item) (key : List ℕ) (a b : ℕ) (bs : List ℕ) (stack : List Items)
    → verify_mpt_proof c root_hash key (cons (str (a ∷ b ∷ bs)) (cons value nil) ∷ stack)
      ≡ err assertion_error
unfolding verify_mpt_proof verify_from node_round short_round
verify_mpt_proof-long_path c laws root_hash value key a b bs stack =
    elim (Bool-cases (
      digest_eq root_hash
        (c.keccak (c.rlp_encode (seq (cons (str (a ∷ b ∷ bs)) (cons value nil))))))) [
          | inl same ↦ rw (same, decode_compact_long c laws a b bs)
          | inr other ↦ rw other
        ]

-- The trie with one leaf, at a path of one nibble, holds nothing at the empty key. Yet the proof that
-- is its one node is accepted for the empty key, and gives the leaf's decoded value.
pub verify_mpt_proof_short_key :
    (c : Codec)
    → CodecLaws c
    → (a : ℕ) (v : List ℕ) (x : Item) → IsNibble a
    → c.rlp_decode v ≡ ok x
    → (find (leaf (a ∷ []) v) [] ≡ none)
      × (verify_mpt_proof c (ref c (leaf (a ∷ []) v)) [] (node_of c (leaf (a ∷ []) v) ∷ [])
          ≡ ok (some x))
unfolding verify_mpt_proof verify_from node_round short_round find node_of
verify_mpt_proof_short_key c laws a v x h dec =
    let same =
      bytes_eq_refl (
        c.keccak (c.rlp_encode (seq (cons (str (hex_prefix true (a ∷ []))) (cons (str v) nil))))) in
    let read = decode_path_short c laws true (a ∷ []) (h, tt) (omega arith) in
    let passes : shared_prefix_length 0 [] (a ∷ []) ≡ 1 =
      prefix_passes 0 [] (a ∷ []) (unfold mismatch in refl) in
    (refl, rw (same, read, passes) (rw dec))
