-- ===== src/Mpt.antt =====
-- The Merkle Patricia proof verifier of searcher/src/enclave/lib/mkp/proveth.py: `decode_compact`,
-- `shared_prefix_length` and `verify_mpt_proof`. A byte string is a list of numbers; the proof stack
-- is a list of nodes, and a node a list of RLP items (a stack that holds a byte string in place of a
-- node is outside of the model).
pub mod Compact
mod Prefix
pub mod Trie
pub mod Paths
pub mod Rounds
pub mod Sound
pub mod Generate
pub mod Route
pub mod Accepts
pub mod Pushes
pub mod Complete
pub mod Limits
pub mod Blob
pub mod Blocks
pub mod Evidence
pub mod Made
pub mod Tests
use sting_flashbots.Base.{
  ℕ, zero, suc, ◌+◌, ◌-◌, ◌*◌, ◌/◌, ◌%◌, ◌≡◌, refl, Bool, true, false, not, Option, none, some,
  List, [], ◌∷◌, leb, ltb, ◌==◌, if◌then◌else◌, bytes_eq, length, get_elem?, Result, ok, err, Error,
  assertion_error, value_error, type_error, other_exception, index_error, ◌>>=◌, ◌>>◌, assert,
  or_raise,
}
use sting_flashbots.Rlp.{Item, Items, str, seq, len_items, len_item, get_item, Codec}

-- The first nibble of a compact path gives how many nibbles to skip, and whether it is a leaf's.
unfoldable pub compact_flags : ℕ → Result (ℕ × Bool)
compact_flags first_nibble =
    if first_nibble == 0
    then ok (2, false)
    else if first_nibble == 1
    then ok (1, false)
    else if first_nibble == 2
    then ok (2, true)
    else if first_nibble == 3
    then ok (1, true)
    else err assertion_error

-- `(int(compact[i // 2]) >> 4) & 0xF` at an even `i`, `>> 0` at an odd one.
unfoldable pub nibble_at : List ℕ → ℕ → Result ℕ
nibble_at compact i = do
  byte ← or_raise (get_elem? compact (i / 2)) index_error
  ok (if i % 2 == 0 then byte / 16 % 16 else byte % 16)

-- `for i in range(skip_nibbles, skip_nibbles + length)`, by the rounds left.
unfoldable pub collect_nibbles : List ℕ → ℕ → ℕ → Result (List ℕ)
collect_nibbles compact i zero = ok []
collect_nibbles compact i (suc rounds) = do
  nibble ← nibble_at compact i
  rest ← collect_nibbles compact (i + 1) rounds
  ok (nibble ∷ rest)

unfoldable pub decode_compact : List ℕ → Result (Bool × List ℕ)
decode_compact compact = do
  assert (ltb 0 (length compact))
  first ← or_raise (get_elem? compact 0) index_error
  (skip_nibbles, is_leaf) ← compact_flags (first / 16 % 16)
  let total = length compact * 2
  assert (leb skip_nibbles total)
  nibbles ← collect_nibbles compact skip_nibbles (total - skip_nibbles)
  ok (is_leaf, nibbles)

-- The loop of `shared_prefix_length`; `total` is `len(ys)`, and the list is `ys` from `i` on.
unfoldable pub prefix_loop : ℕ → List ℕ → ℕ → List ℕ → ℕ → ℕ
prefix_loop xs_offset xs total [] i = total
prefix_loop xs_offset xs total (y ∷ ys) i =
    let rest = prefix_loop xs_offset xs total ys (i + 1) in
    elim (get_elem? xs (i + xs_offset)) [ none ↦ total | some x ↦ if x == y then rest else i ]

unfoldable pub shared_prefix_length : ℕ → List ℕ → List ℕ → ℕ
shared_prefix_length xs_offset xs ys = prefix_loop xs_offset xs (length ys) ys 0

-- `target_hash == keccak(rlp_node)`: a list is never equal to a byte string.
abbrev pub digest_eq : Item → List ℕ → Bool
digest_eq (str bs) digest = bytes_eq bs digest
digest_eq (seq xs) digest = false

-- `rlp.decode(node[1])`, which takes bytes only, and raises DecodingError for a list.
abbrev pub decode_item : Codec → Item → Result Item
decode_item c (str bs) = c.rlp_decode bs
decode_item c (seq xs) = err other_exception

-- What one round of the loop does: return, or go on with a new offset and target.
pub data Round : Type 0 where
  done : Item → Round
  next : ℕ → Item → Round

-- A branch node: 17 items. `last` says that `i == len(stack) - 1`.
unfoldable pub branch_round : List ℕ → ℕ → Item → Items → Bool → Result Round
branch_round key offset target node last =
    if not (offset == length key)
    then (do
      nibble ← or_raise (get_elem? key offset) index_error
      assert (leb nibble 16)
      child ← or_raise (get_item node nibble) index_error
      if len_item child == 0
          then (assert last >> ok (next (offset + 1) target))
          else ok (next (offset + 1) child))
    else (do assert last; value ← or_raise (get_item node 16) index_error; ok (done value))

-- A leaf or an extension: two items. `assert i >= len(stack)` fails in each round.
unfoldable pub short_round : Codec → List ℕ → ℕ → Items → Bool → Result Round
short_round c key offset node last = do
  path ← or_raise (get_item node 0) index_error
  (is_leaf, node_key) ← decode_compact (c.rlp_encode path)
  let prefix_length = shared_prefix_length offset key node_key
  let offset' = offset + prefix_length
  assert (not (ltb prefix_length (length node_key)))
  value ← or_raise (get_item node 1) index_error
  if is_leaf
      then (do
        assert last
        assert (leb (length key) offset')
        tx ← decode_item c value
        ok (done tx))
      else (assert (not last) >> ok (next offset' value))

unfoldable pub node_round : Codec → List ℕ → ℕ → Item → Items → Bool → Result Round
node_round c key offset target node last =
    if len_items node == 17
    then branch_round key offset target node last
    else if len_items node == 2
    then short_round c key offset node last
    else err value_error

abbrev pub is_last : List Items → Bool
is_last [] = true
is_last (n ∷ ns) = false

-- The loop over the stack. Python returns `None` where the stack ends with no `return`.
unfoldable pub verify_from : Codec → List ℕ → ℕ → Item → List Items → Result (Option Item)
verify_from c key offset target [] = ok none
verify_from c key offset target (node ∷ stack) = do
  assert (digest_eq target (c.keccak (c.rlp_encode (seq node))))
  round ← node_round c key offset target node (is_last stack)
  elim round [
    | done value ↦ ok (some value)
    | next offset' target' ↦ verify_from c key offset' target' stack
  ]

unfoldable pub verify_mpt_proof : Codec → Item → List ℕ → List Items → Result (Option Item)
verify_mpt_proof c root_hash key stack = verify_from c key 0 root_hash stack
