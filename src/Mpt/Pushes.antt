-- ===== src/Mpt/Pushes.antt =====
-- What `generate_proof` makes of stored nodes.
use sting_flashbots.Base.{ℕ, suc, ◌≡◌, refl, true, List, [], ◌∷◌, ◌++◌, All, ok, arith, some, ◌≢◌}
use sting_flashbots.Rlp.{Items, get_item, Codec}
use sting_flashbots.Mpt.Compact.{IsNibble}
use sting_flashbots.Mpt.Trie.{Trie, Tries, blank, leaf, extension, branch, node_of, ref}
use sting_flashbots.Mpt.Generate.{
  TriePackage, aux, generate_proof, IsStored, ConsumesPrefix, all_nibbles,
}

-- What `aux` pushes at each kind of stored node.
module _ (c : Codec) (mpt : TriePackage) (fuel : ℕ) where
  pub aux-leaf :
      (p v ks : List ℕ)
      → IsStored c mpt (leaf p v)
      → aux mpt (suc fuel) (ref c (leaf p v)) ks ≡ ok (node_of c (leaf p v) ∷ [])
  unfolding aux
  aux-leaf p v ks s = rw (s.get_node_ref, s.get_node_type_of)

  pub aux-extension :
      (p : List ℕ) (t : Trie) (ks : List ℕ) (stack : List Items)
      → ConsumesPrefix mpt
      → IsStored c mpt (extension p t)
      → aux mpt fuel (ref c t) ks ≡ ok stack
      → aux mpt (suc fuel) (ref c (extension p t)) (p ++ ks)
        ≡ ok (node_of c (extension p t) ∷ stack)
  unfolding aux
  aux-extension p t ks stack consumes s made =
      let child : get_item (node_of c (extension p t)) 1 ≡ some (ref c t) =
        unfold node_of in refl in
      ground
        (arith, s.get_node_ref, s.get_node_type_of, s.extract_key_of, consumes p ks, child, made)

  pub aux-branch_end :
      (ts : Tries) (v : List ℕ)
      → IsStored c mpt (branch ts v)
      → aux mpt (suc fuel) (ref c (branch ts v)) [] ≡ ok (node_of c (branch ts v) ∷ [])
  unfolding aux
  aux-branch_end ts v s = rw (s.get_node_ref, s.get_node_type_of)

  pub aux-branch_child :
      (ts : Tries) (v : List ℕ) (i : ℕ) (ks : List ℕ) (t : Trie) (stack : List Items)
      → IsStored c mpt (branch ts v)
      → get_item (node_of c (branch ts v)) i ≡ some (ref c t)
      → aux mpt fuel (ref c t) ks ≡ ok stack
      → aux mpt (suc fuel) (ref c (branch ts v)) (i ∷ ks) ≡ ok (node_of c (branch ts v) ∷ stack)
  unfolding aux
  aux-branch_child ts v i ks t stack s slot made =
      rw (s.get_node_ref, s.get_node_type_of, slot, made)

pub all_nibbles-true : (key : List ℕ) → All IsNibble key → all_nibbles key ≡ true
all_nibbles-true [] h = refl
all_nibbles-true (k ∷ key) (h, hs) = ground (arith, all_nibbles-true key hs)

pub generate_proof-aux :
    (c : Codec) (mpt : TriePackage) (fuel : ℕ) (t : Trie) (key : List ℕ)
    → IsStored c mpt t
    → t ≢ blank
    → all_nibbles key ≡ true
    → generate_proof mpt fuel (ref c t) key ≡ aux mpt fuel (ref c t) key
unfolding generate_proof
generate_proof-aux c mpt fuel blank key s nb ns = absurd (nb refl)
generate_proof-aux c mpt fuel (leaf p v) key s nb ns = rw (ns, s.get_node_ref, s.get_node_type_of)
generate_proof-aux c mpt fuel (extension p t) key s nb ns =
    rw (ns, s.get_node_ref, s.get_node_type_of)
generate_proof-aux c mpt fuel (branch ts v) key s nb ns =
    rw (ns, s.get_node_ref, s.get_node_type_of)
