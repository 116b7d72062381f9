-- ===== src/Mpt/Complete.antt =====
-- `verify_mpt_proof` accepts what `generate_proof` makes, along paths of at most one nibble.
use sting_flashbots.Base.{
  ℕ, zero, suc, ◌+◌, ◌≤◌, ◌<◌, ◌≡◌, refl, ap, ◌∙◌, false, List, [], ◌∷◌, ◌++◌, length, drop,
  length-drop, All, ok, arith, Bool-cases, inl, inr, sym, some, ◌≢◌, bytes_eq→eq, bytes_eq, subst,
  drop-append, length-append, All-append_right,
}
use sting_flashbots.Rlp.{Item, Items, str, len_items, get_item, Codec, CodecLaws}
use sting_flashbots.Mpt.{node_round, verify_from, verify_mpt_proof}
use sting_flashbots.Mpt.Compact.{IsNibble}
use sting_flashbots.Mpt.Prefix.{drop-add, drop-drop_cons}
use sting_flashbots.Mpt.Trie.{
  Trie, Tries, blank, leaf, extension, branch, count, node_of, ref, refs, find, find-extension,
  find-extension_some, find-ne-blank, IsTrie, Entry, at_leaf, at_branch,
}
use sting_flashbots.Mpt.Rounds.{len_refs}
use sting_flashbots.Mpt.Route.{
  Along, AlongChild, nodes_on, route_child, Along_here, Along-extension, nodes_on-extension,
}
use sting_flashbots.Mpt.Generate.{
  TriePackage, aux, generate_proof, IsStored, ConsumesPrefix, path_of,
}
use sting_flashbots.Mpt.Sound.{Returned}
use sting_flashbots.Mpt.Accepts.{
  leaf_accepts, extension_accepts, branch_ends, branch_descends, verify_done, verify_next,
}
use sting_flashbots.Mpt.Pushes.{
  aux-leaf, aux-extension, aux-branch_end, aux-branch_child, all_nibbles-true, generate_proof-aux,
}

module _ (c : Codec) (laws : CodecLaws c) (mpt : TriePackage) (consumes : ConsumesPrefix mpt)
    (key : List ℕ) (x : Item) where
  -- What is asked of each node on the way: it is stored, and its path has at most one nibble.
  abbrev pub IsGood : Trie → Type 0
  IsGood t = IsStored c mpt t × (length (path_of t) ≤ 1)

  abbrev Produces : ℕ → ℕ → Trie → List ℕ → Type 0
  Produces fuel off t ks =
      (stack : List Items) × (aux mpt fuel (ref c t) ks ≡ ok (node_of c t ∷ stack))
      × (verify_from c key off (ref c t) (node_of c t ∷ stack) ≡ ok (some x))

  produce_leaf :
      (fuel off : ℕ) (p v ks : List ℕ) (entry : Entry)
      → All IsNibble p
      → drop off key ≡ ks
      → IsGood (leaf p v)
      → find (leaf p v) ks ≡ some entry
      → Returned c entry x
      → Produces (suc fuel) off (leaf p v) ks
  unfolding find node_round node_of
  produce_leaf fuel off p v ks entry ps e good found ret = elim (Bool-cases (bytes_eq p ks)) [
    | inr differ ↦ absurd (ground arith)
    | inl same ↦
        let entry_is : entry ≡ at_leaf v = ground arith in
        let dec = subst (λ (u : Entry). Returned c u x) entry_is ret in
        (
          [],
          aux-leaf c mpt fuel p v ks good.0,
          verify_done c key off (leaf p v) (λ q. cc) [] x
              (leaf_accepts c laws key off p v x ps good.1 (e ∙ sym (bytes_eq→eq p ks same)) dec),
        )
  ]

  produce_extension :
      (fuel off : ℕ) (p r : List ℕ) (t : Trie)
      → All IsNibble p
      → drop off key ≡ p ++ r
      → IsGood (extension p t)
      → Produces fuel (off + length p) t r
      → Produces (suc fuel) off (extension p t) (p ++ r)
  unfolding node_round node_of
  produce_extension fuel off p r t ps e good (stack, made, accepted) = (
    node_of c t ∷ stack,
    aux-extension c mpt fuel p t r (node_of c t ∷ stack) consumes good.0 made,
    verify_next c key off (extension p t) (λ q. cc) (node_of c t ∷ stack) (off + length p) (ref c t)
          (extension_accepts c laws key off p r (ref c t) ps good.1 e)
        ∙ accepted,
  )

  branch_size : (ts : Tries) (v : List ℕ) → count ts ≡ 16 → len_items (refs c ts v) ≡ 17
  branch_size ts v sixteen = len_refs c ts v ∙ ap suc sixteen

  produce_branch_end :
      (fuel off : ℕ) (ts : Tries) (v : List ℕ)
      → count ts ≡ 16
      → drop off key ≡ []
      → off ≤ length key
      → IsGood (branch ts v)
      → x ≡ str v
      → Produces (suc fuel) off (branch ts v) []
  unfolding node_round node_of
  produce_branch_end fuel off ts v sixteen e le good xv = (
    [],
    aux-branch_end c mpt fuel ts v good.0,
    verify_done c key off (branch ts v) (λ q. cc) [] x
        (rw (branch_size ts v sixteen, xv)
          (branch_ends c laws key off ts v (ref c (branch ts v)) sixteen e le)),
  )

  produce_branch_child :
      (fuel off : ℕ) (ts : Tries) (v : List ℕ) (i : ℕ) (ks : List ℕ) (t : Trie)
      → count ts ≡ 16
      → i < 16
      → drop off key ≡ i ∷ ks
      → IsGood (branch ts v)
      → get_item (refs c ts v) i ≡ some (ref c t)
      → t ≢ blank
      → Produces fuel (off + 1) t ks
      → Produces (suc fuel) off (branch ts v) (i ∷ ks)
  unfolding node_round node_of
  produce_branch_child fuel off ts v i ks t sixteen lt e good slot nb (stack, made, accepted) = (
    node_of c t ∷ stack,
    aux-branch_child c mpt fuel ts v i ks t (node_of c t ∷ stack) good.0 slot made,
    verify_next c key off (branch ts v) (λ q. cc) (node_of c t ∷ stack) (off + 1) (ref c t)
          (rw (branch_size ts v sixteen)
            (branch_descends c laws key off ts v (ref c (branch ts v)) i ks t false lt e slot nb))
        ∙ accepted,
  )

  produce :
      (fuel off : ℕ) (t : Trie) (ks : List ℕ) (entry : Entry)
      → IsTrie t
      → All IsNibble ks
      → drop off key ≡ ks
      → off ≤ length key
      → Along IsGood t ks
      → find t ks ≡ some entry
      → Returned c entry x
      → nodes_on t ks ≤ fuel
      → Produces fuel off t ks
  unfolding IsTrie nodes_on
  produce zero off blank ks entry it ns e le good found ret enough = absurd (omega arith)
  produce zero off (leaf p v) ks entry it ns e le good found ret enough = absurd (omega arith)
  produce zero off (extension p t) ks entry it ns e le good found ret enough = absurd (omega arith)
  produce zero off (branch ts v) [] entry it ns e le good found ret enough = absurd (omega arith)
  produce zero off (branch ts v) (i ∷ ks) entry it ns e le good found ret enough =
      absurd (omega arith)
  produce (suc fuel) off blank ks entry it ns e le good found ret enough =
      absurd (unfold find in cc)
  produce (suc fuel) off (leaf p v) ks entry it ns e le good found ret enough =
      produce_leaf fuel off p v ks entry it e (unfold Along in good) found ret
  produce (suc fuel) off (extension p t) ks entry (ps, nb, it) ns e le good found ret enough =
      let (r, q) = find-extension_some p t ks entry found in
      let (here, rest) =
        Along-extension IsGood p t r (subst (λ k. Along IsGood (extension p t) k) q good) in
      let e' : drop off key ≡ p ++ r = e ∙ q in
      let led : find t r ≡ some entry =
        sym (find-extension p t r) ∙ subst (λ k. find (extension p t) k ≡ some entry) q found in
      let fewer : nodes_on t r ≤ fuel =
        omega (arith, nodes_on-extension p t r, ap (nodes_on (extension p t)) q) in
      let within : off + length p ≤ length key =
        omega (arith, length-drop off key, ap length e', length-append p r) in
      subst (λ k. Produces (suc fuel) off (extension p t) k) (sym q)
        (produce_extension fuel off p r t ps e' here (
          produce fuel (off + length p) t r entry it
            (All-append_right IsNibble p r (subst (All IsNibble) q ns))
            (drop-add off (length p) key ∙ ap (drop (length p)) e' ∙ drop-append p r) within rest
            led ret fewer))
  produce (suc fuel) off (branch ts v) [] entry (sixteen, valid) ns e le good found ret enough =
      let entry_is : entry ≡ at_branch v = unfold find in cc in
      produce_branch_end fuel off ts v sixteen e le (unfold Along in good)
        (subst (λ (u : Entry). Returned c u x) entry_is ret)
  produce (suc fuel) off (branch ts v) (i ∷ ks) entry (sixteen, valid) (lt, ns) e le good found ret
        enough =
      let here : IsGood (branch ts v) = unfold Along in good.0 in
      let rest : AlongChild IsGood ts i ks = unfold Along in good.1 in
      let (t, r) = route_child IsGood c ts v i ks valid rest (omega (arith, sixteen)) in
      let led : find t ks ≡ some entry = sym r.leads ∙ (unfold find in found) in
      let nb : t ≢ blank = find-ne-blank t ks entry led in
      produce_branch_child fuel off ts v i ks t sixteen lt e here r.slot nb (
        produce fuel (off + 1) t ks entry r.valid ns
          (let e1 : off + 1 ≡ suc off = omega arith in
            ap (λ n. drop n key) e1 ∙ drop-drop_cons off key i ks e)
          (omega (arith, length-drop off key, ap length e)) r.holds led ret
          (omega (arith, r.counts, enough)))

-- For a key that the trie holds, along stored nodes with paths of at most one nibble, fuel for the
-- nodes on the way is enough: `generate_proof` returns a stack, and `verify_mpt_proof` accepts it
-- against the root and returns the value (a leaf's decoded, a branch's as it stands).
pub verify_mpt_proof-generate_proof :
    (c : Codec) (mpt : TriePackage)
    → CodecLaws c
    → ConsumesPrefix mpt
    → (t : Trie) (key : List ℕ) (entry : Entry) (x : Item) (fuel : ℕ) → IsTrie t
    → All IsNibble key
    → Along (λ s. IsStored c mpt s × (length (path_of s) ≤ 1)) t key
    → find t key ≡ some entry
    → Returned c entry x
    → nodes_on t key ≤ fuel
    → (stack : List Items) × (generate_proof mpt fuel (ref c t) key ≡ ok stack)
      × (verify_mpt_proof c (ref c t) key stack ≡ ok (some x))
unfolding verify_mpt_proof
verify_mpt_proof-generate_proof c mpt laws consumes t key entry x fuel it ns good found ret enough =
    let (stack, made, accepted) =
      produce c laws mpt consumes key x fuel 0 t key entry it ns refl (omega arith) good found ret
        enough in
    (
      node_of c t ∷ stack,
      generate_proof-aux c mpt fuel t key (Along_here _ t key good).0
            (find-ne-blank t key entry found) (all_nibbles-true key ns)
          ∙ made,
      accepted,
    )
