-- ===== src/Mpt/Generate.antt =====
-- `generate_proof` of searcher/src/enclave/lib/mkp/proveth.py. The trie package's `HexaryTrie.get_node`,
-- `get_node_type`, `extract_key` and `consume_common_prefix` are parameters. The list
-- `stack_indexes`, which the code only prints, is left out. `aux` runs on fuel, as Python's recursion
-- does; where it runs out the model raises `recursion_error`.
use sting_flashbots.Base.{
  ℕ, zero, suc, ◌≡◌, Bool, true, List, [], ◌∷◌, ◌++◌, ltb, ◌&&◌, Result, ok, err, value_error,
  index_error, recursion_error, ◌>>=◌, ◌>>◌, guard, or_raise,
}
use sting_flashbots.Rlp.{Item, Items, get_item, Codec}
use sting_flashbots.Mpt.Trie.{Trie, blank, leaf, extension, branch, node_of, ref}

pub data NodeType : Type 0 where
  blank_node leaf_node extension_node branch_node other_node : NodeType

-- The trie package: the blank node `b''` is `nil`.
pub record TriePackage : Type 0 where
  pub get_node : Item → Result Items
  pub get_node_type : Items → NodeType
  pub extract_key : Items → List ℕ
  pub consume_common_prefix : List ℕ → List ℕ → List ℕ × List ℕ × List ℕ

abbrev pub all_nibbles : List ℕ → Bool
all_nibbles [] = true
all_nibbles (n ∷ ns) = ltb n 16 && all_nibbles ns

-- The nodes that `aux` pushes, from a node on. `stack.append` comes before the call, so what the call
-- pushes stands behind it.
unfoldable pub aux : TriePackage → ℕ → Item → List ℕ → Result (List Items)
aux mpt zero node_hash key = err recursion_error
aux mpt (suc fuel) node_hash key = do
  node ← mpt.get_node node_hash
  elim (mpt.get_node_type node) [
    | blank_node ↦ ok []
    | branch_node ↦ elim key [
      | [] ↦ ok (node ∷ [])
      | i ∷ rest ↦ do
        child ← or_raise (get_item node i) index_error
        pushed ← aux mpt fuel child rest
        ok (node ∷ pushed)
    ]
    | extension_node ↦ do
      let (prefix, key_remainder, key_rest) = mpt.consume_common_prefix (mpt.extract_key node) key
      elim key_remainder [
        | [] ↦ do
          child ← or_raise (get_item node 1) index_error
          pushed ← aux mpt fuel child key_rest
          ok (node ∷ pushed)
        | k ∷ ks ↦ ok (node ∷ [])
      ]
    | leaf_node ↦ ok (node ∷ [])
    | other_node ↦ err value_error
  ]

unfoldable pub generate_proof : TriePackage → ℕ → Item → List ℕ → Result (List Items)
generate_proof mpt fuel root_hash key = do
  guard (all_nibbles key) value_error
  root_node ← mpt.get_node root_hash
  elim (mpt.get_node_type root_node) [ blank_node ↦ ok [] | _ ↦ aux mpt fuel root_hash key ]

-- The type of the node that stores a trie.
abbrev pub kind : Trie → NodeType
kind blank = blank_node
kind (leaf p v) = leaf_node
kind (extension p t) = extension_node
kind (branch ts v) = branch_node

abbrev pub path_of : Trie → List ℕ
path_of (leaf p v) = p
path_of (extension p t) = p
path_of t = []

-- What the package documents of a stored trie: `get_node` finds its node by the hash, and the node's
-- type and path are read from it.
pub record IsStored (c : Codec) (mpt : TriePackage) (t : Trie) : Type 0 where
  pub get_node_ref : mpt.get_node (ref c t) ≡ ok (node_of c t)
  pub get_node_type_of : mpt.get_node_type (node_of c t) ≡ kind t
  pub extract_key_of : mpt.extract_key (node_of c t) ≡ path_of t

-- A path that is a prefix of the other is split off whole.
abbrev pub ConsumesPrefix : TriePackage → Type 0
ConsumesPrefix mpt = (p ks : List ℕ) → mpt.consume_common_prefix p (p ++ ks) ≡ (p, [], ks)
