-- ===== src/Mpt/Tests.antt =====
-- A trie of two transactions over a small codec: concrete runs, and the theorems at concrete inputs.
use sting_flashbots.Base.{
  ℕ, ◌+◌, ◌*◌, ◌/◌, ◌%◌, All, ◌^◌, ◌≤◌, ◌≡◌, refl, Bool, true, false, List, [], ◌∷◌, ◌++◌,
  if◌then◌else◌, ltb, length, ◌⊎◌, ok, err, value_error, assertion_error, arith, ◌==◌, none, some,
  replicate, bytes_eq,
}
use sting_flashbots.Rlp.{Item, Items, str, seq, nil, cons, Codec, CodecLaws}
use sting_flashbots.Mpt.{
  verify_mpt_proof, verify_from, node_round, short_round, branch_round, decode_compact,
  compact_flags, collect_nibbles, nibble_at, shared_prefix_length, prefix_loop,
}
use sting_flashbots.Mpt.Compact.{hex_prefix, decode_compact-hex_prefix}
use sting_flashbots.Mpt.Prefix.{mismatch, or_length, shared_prefix_length-mismatch}
use sting_flashbots.Mpt.Trie.{
  Trie, blank, leaf, branch, more, no_tries, node_of, ref, find, IsTrie, at_leaf, Collision,
}
use sting_flashbots.Mpt.Generate.{
  TriePackage, blank_node, leaf_node, branch_node, other_node, generate_proof, IsStored,
  ConsumesPrefix, path_of,
}
use sting_flashbots.Mpt.Route.{Along, nodes_on}
use sting_flashbots.Mpt.Sound.{Extends, verify_mpt_proof_sound}
use sting_flashbots.Mpt.Complete.{verify_mpt_proof-generate_proof}
use sting_flashbots.Mpt.Compact.{IsNibble}
use sting_flashbots.Mpt.Limits.{verify_mpt_proof-long_path, verify_mpt_proof_short_key}

abbrev encode_str : List ℕ → List ℕ
encode_str [] = 128 ∷ []
encode_str (b ∷ []) = if ltb b 128 then b ∷ [] else 129 ∷ b ∷ []
encode_str (a ∷ b ∷ bs) = (128 + length (a ∷ b ∷ bs) % 64) ∷ a ∷ b ∷ bs

abbrev mutual
  encode : Item → List ℕ
  encode (str bs) = encode_str bs
  encode (seq xs) = 192 ∷ encode_all xs

  encode_all : Items → List ℕ
  encode_all nil = []
  encode_all (cons x xs) = encode x ++ encode_all xs

abbrev mix : ℕ → List ℕ → ℕ
mix h [] = h
mix h (b ∷ bs) = mix ((h * 257 + b + 1) % 2 ^ 64) bs

abbrev pub codec : Codec
codec = record {
  rlp_encode = encode;
  rlp_decode = λ bs. ok (str bs);
  keccak = λ bs. mix 7 bs ∷ replicate 31 0;
}

pub codec_laws : CodecLaws codec
codec_laws = record {
  encode_byte = λ b h. ground arith;
  encode_empty = (128, [], refl, omega arith, omega arith);
  encode_high = λ b h. (129, b ∷ [], ground arith, omega arith, omega arith);
  encode_long =
      λ a b bs. (128 + length (a ∷ b ∷ bs) % 64, a ∷ b ∷ bs, refl, omega arith, omega arith);
  digest_length = λ bs. refl;
}

-- The keys are the RLP encodings of 0 and 1: the nibbles 8 0 and 0 1.
abbrev pub tx_trie : Trie
tx_trie =
    branch
      (more (leaf (1 ∷ []) (b'b' ∷ [])) (
        more blank (
          more blank (
            more blank (
              more blank (
                more blank (
                  more blank (
                    more blank (
                      more (leaf (0 ∷ []) (b'a' ∷ [])) (
                        more blank (
                          more blank (
                            more blank (
                              more blank
                                (more blank (more blank (more blank no_tries))))))))))))))))
      []

pub tx_trie-IsTrie : IsTrie tx_trie
unfolding IsTrie
tx_trie-IsTrie = omega arith

abbrev tx_key : List ℕ
tx_key = 0 ∷ 1 ∷ []

abbrev tx_stack : List Items
tx_stack = node_of codec tx_trie ∷ node_of codec (leaf (1 ∷ []) (b'b' ∷ [])) ∷ []

tx_verifies :
    verify_mpt_proof codec (ref codec tx_trie) tx_key tx_stack ≡ ok (some (str (b'b' ∷ [])))
unfolding verify_mpt_proof verify_from node_round short_round branch_round decode_compact
    compact_flags collect_nibbles nibble_at shared_prefix_length prefix_loop node_of hex_prefix
tx_verifies = refl

verify_mpt_proof_sound_example :
    Extends codec tx_trie tx_key (str (b'b' ∷ [])) ⊎ Collision codec tx_trie tx_stack
verify_mpt_proof_sound_example =
    verify_mpt_proof_sound codec codec_laws tx_trie tx_key tx_stack (str (b'b' ∷ [])) tx_trie-IsTrie
      (λ q. cc) (omega arith) tx_verifies

verify_mpt_proof-long_path_example :
    verify_mpt_proof codec
      (ref codec tx_trie)
      tx_key
      (cons (str (32 ∷ 128 ∷ [])) (cons (str []) nil) ∷ [])
    ≡ err assertion_error
verify_mpt_proof-long_path_example =
    verify_mpt_proof-long_path codec codec_laws (ref codec tx_trie) (str []) tx_key 32 128 [] []

verify_mpt_proof_short_key_example :
    (find (leaf (5 ∷ []) (b'v' ∷ [])) [] ≡ none)
    × (verify_mpt_proof codec
          (ref codec (leaf (5 ∷ []) (b'v' ∷ [])))
          []
          (node_of codec (leaf (5 ∷ []) (b'v' ∷ [])) ∷ [])
        ≡ ok (some (str (b'v' ∷ []))))
verify_mpt_proof_short_key_example =
    verify_mpt_proof_short_key codec codec_laws 5 (b'v' ∷ []) (str (b'v' ∷ [])) (omega arith) refl

decode_compact-hex_prefix_example :
    decode_compact (hex_prefix true (8 ∷ 0 ∷ 3 ∷ [])) ≡ ok (true, 8 ∷ 0 ∷ 3 ∷ [])
decode_compact-hex_prefix_example = decode_compact-hex_prefix true (8 ∷ 0 ∷ 3 ∷ []) (omega arith)

shared_prefix_length-mismatch_example :
    shared_prefix_length 1 (9 ∷ 4 ∷ 5 ∷ []) (4 ∷ 7 ∷ [])
    ≡ or_length (mismatch (4 ∷ 5 ∷ []) (4 ∷ 7 ∷ [])) 2
shared_prefix_length-mismatch_example =
    shared_prefix_length-mismatch 1 (9 ∷ 4 ∷ 5 ∷ []) (4 ∷ 7 ∷ [])

-- A package that stores this trie.
abbrev is_node : Item → Trie → Bool
is_node (str bs) t = elim (ref codec t) [ str ds ↦ bytes_eq bs ds | seq xs ↦ false ]
is_node (seq xs) t = false

abbrev pub consume : List ℕ → List ℕ → List ℕ × List ℕ × List ℕ
consume [] ks = ([], [], ks)
consume (p ∷ ps) [] = ([], p ∷ ps, [])
consume (p ∷ ps) (k ∷ ks) =
    if p == k then (let r = consume ps ks in (p ∷ r.0, r.1, r.2)) else ([], p ∷ ps, k ∷ ks)

abbrev package_of : TriePackage
package_of = record {
  get_node = λ h.
      if is_node h tx_trie
      then ok (node_of codec tx_trie)
      else if is_node h (leaf (1 ∷ []) (b'b' ∷ []))
      then ok (node_of codec (leaf (1 ∷ []) (b'b' ∷ [])))
      else err value_error;
  get_node_type = λ n. elim n [
    | nil ↦ blank_node
    | cons a r ↦ elim r [
      | nil ↦ other_node
      | cons b r' ↦ elim r' [ nil ↦ leaf_node | cons d r'' ↦ branch_node ]
    ]
  ];
  extract_key = λ n. elim n [
    | nil ↦ []
    | cons a r ↦ elim r [ nil ↦ [] | cons b r' ↦ elim r' [ nil ↦ 1 ∷ [] | cons d r'' ↦ [] ] ]
  ];
  consume_common_prefix = consume;
}

pub consume-prefix : ConsumesPrefix package_of
consume-prefix [] ks = refl
consume-prefix (p ∷ ps) ks = ground (arith, consume-prefix ps ks)

IsStored-Along : Along (λ s. IsStored codec package_of s × (length (path_of s) ≤ 1)) tx_trie tx_key
unfolding Along node_of hex_prefix
IsStored-Along = (
  (record { get_node_ref = refl; get_node_type_of = refl; extract_key_of = refl }, omega arith),
  (record { get_node_ref = refl; get_node_type_of = refl; extract_key_of = refl }, omega arith),
)

verify_mpt_proof-generate_proof_example :
    (stack : List Items) × (generate_proof package_of 2 (ref codec tx_trie) tx_key ≡ ok stack)
    × (verify_mpt_proof codec (ref codec tx_trie) tx_key stack ≡ ok (some (str (b'b' ∷ []))))
unfolding find nodes_on
verify_mpt_proof-generate_proof_example =
    verify_mpt_proof-generate_proof codec package_of codec_laws consume-prefix tx_trie tx_key
      (at_leaf (b'b' ∷ [])) (str (b'b' ∷ [])) 2 tx_trie-IsTrie (omega arith) IsStored-Along refl
      refl (omega arith)

abbrev pub nibbles_of : List ℕ → List ℕ
nibbles_of [] = []
nibbles_of (b ∷ bs) = b / 16 % 16 ∷ b % 16 ∷ nibbles_of bs

pub nibbles_of-IsNibble : (bs : List ℕ) → All IsNibble (nibbles_of bs)
nibbles_of-IsNibble [] = tt
nibbles_of-IsNibble (b ∷ bs) = (omega arith, (omega arith, nibbles_of-IsNibble bs))

abbrev pub first_byte : List ℕ → ℕ
first_byte [] = 0
first_byte (b ∷ bs) = b
