-- ===== src/Mpt/Sound.antt =====
-- What an accepted proof shows: the value that is returned stands in the committed trie at a key that
-- begins with the key of the proof, or the hash has a collision.
use sting_flashbots.Base.{
  ℕ, suc, ◌+◌, ◌≡◌, refl, ap, ◌∙◌, true, List, [], ◌∷◌, ◌++◌, length, drop, drop_all, All, ◌⊎◌,
  Result, ok, arith, inl, inr, sym, Option, some, ◌≢◌, assert, assert-eq-ok, bytes_eq→eq,
  append-nil, append_assoc, >>=-eq-ok, bytes_eq_refl, subst,
}
use sting_flashbots.Rlp.{Item, Items, str, seq, len_items, Codec, CodecLaws, Items-discrete}
use sting_flashbots.Mpt.{
  node_round, is_last, verify_from, verify_mpt_proof, digest_eq, Round, done, next,
}
use sting_flashbots.Mpt.Compact.{IsNibble}
use sting_flashbots.Mpt.Prefix.{mismatch-none, drop-add, drop-drop_cons}
use sting_flashbots.Mpt.Trie.{
  Trie, Tries, blank, leaf, extension, branch, count, node_of, ref, ref-digest, refs, find, IsTrie,
  AreTries, digest, Entry, at_leaf, at_branch, Collision, IsPart-refl, find-extension,
}
use sting_flashbots.Mpt.Rounds.{
  leaf_round, extension_round, BranchRound-cases, ended, descended, fell_off, len_refs,
}

-- What the code makes of an entry: a leaf's value is decoded, a branch's is returned as it is.
abbrev pub Returned : Codec → Entry → Item → Type 0
Returned c (at_leaf v) x = c.rlp_decode v ≡ ok x
Returned c (at_branch v) x = x ≡ str v

-- An entry of the trie at a key that begins with `ks`.
abbrev pub Extends : Codec → Trie → List ℕ → Item → Type 0
Extends c t ks x =
    (more_key : List ℕ) × (entry : Entry) × (find t (ks ++ more_key) ≡ some entry)
    × Returned c entry x

module _ (c : Codec) (laws : CodecLaws c) (key : List ℕ) (nibbles : All IsNibble key)
    (x : Item) where
  abbrev Claim : ℕ → Trie → List Items → Type 0
  Claim off t stack = Extends c t (drop off key) x ⊎ Collision c t stack

  -- The loop behind a round, on the rest of the stack.
  abbrev after : List Items → Round → Result (Option Item)
  after stack (done value) = ok (some value)
  after stack (next o r) = verify_from c key o r stack

  verify_from_step :
      (off : ℕ) (target : Item) (node : Items) (stack : List Items) (r : Option Item)
      → verify_from c key off target (node ∷ stack) ≡ ok r
      → (round : Round) × (digest_eq target (c.keccak (c.rlp_encode (seq node))) ≡ true)
        × (node_round c key off target node (is_last stack) ≡ ok round)
        × (after stack round ≡ ok r)
  unfolding verify_from
  verify_from_step off target node stack r e =
      let (u, h, e1) =
        >>=-eq-ok (assert (digest_eq target (c.keccak (c.rlp_encode (seq node))))) _ e in
      let (round, g, e2) = >>=-eq-ok (node_round c key off target node (is_last stack)) _ e1 in
      (round, assert-eq-ok _ h, g, e2)

  -- What the rest of the stack shows, for the induction.
  abbrev Rest : List Items → Type 0
  Rest stack =
      (off : ℕ) (t : Trie)
      → IsTrie t
      → t ≢ blank
      → verify_from c key off (ref c t) stack ≡ ok (some x)
      → Claim off t stack

  sound_leaf :
      (stack : List Items) (node : Items) (off : ℕ) (p v : List ℕ)
      → All IsNibble p
      → (round : Round)
      → node_round c key off (ref c (leaf p v)) (node_of c (leaf p v)) (is_last stack) ≡ ok round
      → after stack round ≡ ok (some x)
      → Claim off (leaf p v) (node ∷ stack)
  unfolding node_round node_of find
  sound_leaf stack node off p v ps round g a =
      let (y, rd, dec, mm, le, last) = leaf_round c laws key off p ps (is_last stack) round v g in
      let same : y ≡ x = cc in
      let rest : List ℕ = drop off key in
      let past : drop (length p) rest ≡ [] =
        sym (drop-add off (length p) key) ∙ drop_all (off + length p) key le in
      let whole : rest ++ drop (length rest) p ≡ p =
        mismatch-none rest p mm ∙ ap (λ r. p ++ r) past ∙ append-nil p in
      inl (drop (length rest) p, at_leaf v, rw (whole, bytes_eq_refl p), dec ∙ ap ok same)

  sound_extension :
      (stack : List Items) (node : Items)
      → Rest stack
      → (off : ℕ) (p : List ℕ) (t : Trie) → All IsNibble p
      → t ≢ blank
      → IsTrie t
      → (round : Round)
      → node_round c key off (ref c (extension p t)) (node_of c (extension p t)) (is_last stack)
        ≡ ok round
      → after stack round ≡ ok (some x)
      → Claim off (extension p t) (node ∷ stack)
  unfolding node_round node_of find
  sound_extension stack node ih off p t ps nb it round g a =
      let (rd, mm, last) = extension_round c laws key off p ps (is_last stack) round (ref c t) g in
      elim (ih (off + length p) t it nb (subst (λ r. after stack r ≡ ok (some x)) rd a)) [
        | inl (mk, entry, found, ret) ↦
            let rest : List ℕ = drop off key in
            let whole : rest ++ (drop (length rest) p ++ mk)
                ≡ p ++ (drop (off + length p) key ++ mk) =
              sym (append_assoc rest (drop (length rest) p) mk)
              ∙ ap (λ r. r ++ mk) (mismatch-none rest p mm)
              ∙ append_assoc p (drop (length p) rest) mk
              ∙ ap (λ r. p ++ (r ++ mk)) (sym (drop-add off (length p) key)) in
            inl (
              drop (length rest) p ++ mk,
              entry,
              ap (find (extension p t)) whole
                  ∙ find-extension p t (drop (off + length p) key ++ mk)
                  ∙ found,
              ret,
            )
        | inr (s, n, part, among, ne, same) ↦ inr (s, n, inr part, inr among, ne, same)
      ]

  -- A stack that ends with no `return` gives `None`.
  past_end :
      (stack : List Items) (o : ℕ) (r : Item)
      → is_last stack ≡ true
      → after stack (next o r) ≡ ok (some x)
      → ⊥
  unfolding verify_from
  past_end [] o r last e = cc
  past_end (n ∷ ns) o r last e = cc

  sound_branch :
      (stack : List Items) (node : Items)
      → Rest stack
      → (off : ℕ) (ts : Tries) (v : List ℕ) → count ts ≡ 16
      → AreTries ts
      → (round : Round)
      → node_round c key off (ref c (branch ts v)) (node_of c (branch ts v)) (is_last stack)
        ≡ ok round
      → after stack round ≡ ok (some x)
      → Claim off (branch ts v) (node ∷ stack)
  unfolding node_round node_of find
  sound_branch stack node ih off ts v sixteen valid round g a =
      let size : len_items (refs c ts v) ≡ 17 = len_refs c ts v ∙ ap suc sixteen in
      let g' = rw size at g in
      elim (BranchRound-cases c laws key nibbles off (ref c (branch ts v)) ts v sixteen valid
        (is_last stack) round g') [
          | ended e e2 last rd ↦ inl (
            [],
            at_branch v,
            rw e refl,
            (let back = subst (λ r. after stack r ≡ ok (some x)) rd a in cc),
          )
          | descended i ks t e at nb rd ↦
              elim (ih (off + 1) t at.valid nb (subst (λ r. after stack r ≡ ok (some x)) rd a)) [
                | inl (mk, entry, found, ret) ↦
                    let tail : drop (off + 1) key ≡ ks =
                      (let e1 : off + 1 ≡ suc off = omega arith in ap (λ n. drop n key) e1)
                      ∙ drop-drop_cons off key i ks e in
                    let found' : find t (ks ++ mk) ≡ some entry =
                      subst (λ r. find t (r ++ mk) ≡ some entry) tail found in
                    inl (mk, entry, rw e (at.leads (ks ++ mk) ∙ found'), ret)
                | inr (s, n, part, among, ne, same) ↦
                    inr (s, n, inr (at.part s part), inr among, ne, same)
              ]
          | fell_off o r last rd ↦
              absurd (past_end stack o r last (subst (λ r. after stack r ≡ ok (some x)) rd a))
        ]

  sound_node :
      (stack : List Items) (node : Items)
      → Rest stack
      → (off : ℕ) (t : Trie) → IsTrie t
      → t ≢ blank
      → (round : Round) → node_round c key off (ref c t) (node_of c t) (is_last stack) ≡ ok round
      → after stack round ≡ ok (some x)
      → Claim off t (node ∷ stack)
  unfolding IsTrie
  sound_node stack node ih off blank it nb round g a = absurd (nb refl)
  sound_node stack node ih off (leaf p v) it nb round g a =
      sound_leaf stack node off p v it round g a
  sound_node stack node ih off (extension p t) (ps, ne, it) nb round g a =
      sound_extension stack node ih off p t ps ne it round g a
  sound_node stack node ih off (branch ts v) (sixteen, valid) nb round g a =
      sound_branch stack node ih off ts v sixteen valid round g a

  verify_from_sound :
      (stack : List Items) (off : ℕ) (t : Trie)
      → IsTrie t
      → t ≢ blank
      → verify_from c key off (ref c t) stack ≡ ok (some x)
      → Claim off t stack
  verify_from_sound [] off t it nb e = absurd (unfold verify_from in cc)
  verify_from_sound (node ∷ stack) off t it nb e =
      let (round, d, g, a) = verify_from_step off (ref c t) node stack (some x) e in
      let one_hash : digest c (node_of c t) ≡ digest c node =
        bytes_eq→eq _ _ (subst (λ r. digest_eq r (digest c node) ≡ true) (ref-digest c t nb) d) in
      elim (Items-discrete (node_of c t) node) [
        | yes q ↦ sound_node stack node (verify_from_sound stack) off t it nb round (rw q g) a
        | no ne ↦ inr (t, node, IsPart-refl t, inl refl, ne, one_hash)
      ]

-- A proof that is accepted against the root of a trie returns the value of an entry of that trie
-- whose key begins with the key of the proof (a leaf's value decoded, a branch's as it stands),
-- or its stack holds a node that differs from a node of the trie and has the same hash.
pub verify_mpt_proof_sound :
    (c : Codec)
    → CodecLaws c
    → (t : Trie) (key : List ℕ) (stack : List Items) (x : Item) → IsTrie t
    → t ≢ blank
    → All IsNibble key
    → verify_mpt_proof c (ref c t) key stack ≡ ok (some x)
    → Extends c t key x ⊎ Collision c t stack
unfolding verify_mpt_proof
verify_mpt_proof_sound c laws t key stack x it nb nibbles e =
    verify_from_sound c laws key nibbles x stack 0 t it nb e
