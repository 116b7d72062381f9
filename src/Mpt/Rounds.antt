-- ===== src/Mpt/Rounds.antt =====
-- One round of `verify_mpt_proof` on the node of a trie.
use sting_flashbots.Base.{
  ℕ, zero, suc, ◌+◌, ◌≤◌, ◌<◌, ◌≡◌, refl, ap, ◌∙◌, Bool, true, false, not, List, [], ◌∷◌, ltb,
  length, drop, drop_all, subst, get_elem?, All, ◌⊎◌, ok, arith, inl, inr, Result-cases, none, some,
  Option-cases, ◌≢◌,
}
use sting_flashbots.Rlp.{Item, str, nil, cons, len_item, len_items, get_item, Codec, CodecLaws}
use sting_flashbots.Mpt.{
  decode_compact, shared_prefix_length, short_round, branch_round, Round, done, next,
}
use sting_flashbots.Mpt.Compact.{IsNibble, hex_prefix}
use sting_flashbots.Mpt.Prefix.{
  mismatch, or_length, shared_prefix_length-mismatch, mismatch-lt, get_elem?-drop_nil,
  get_elem?-drop_cons,
}
use sting_flashbots.Mpt.Trie.{
  IsPart, IsPartOfSome, Trie, Tries, blank, leaf, extension, branch, more, no_tries, count, ref,
  ref-digest, refs, find, find_child, IsTrie, AreTries,
}
use sting_flashbots.Mpt.Paths.{decode_path}

-- The prefix test passes exactly where there is no mismatch, and then the whole path is taken.
prefix_test :
    (off : ℕ) (key p : List ℕ)
    → not (ltb (shared_prefix_length off key p) (length p)) ≡ true
    → (mismatch (drop off key) p ≡ none) × (shared_prefix_length off key p ≡ length p)
prefix_test off key p h = elim (Option-cases (mismatch (drop off key) p)) [
  | inl e ↦ (e, shared_prefix_length-mismatch off key p ∙ ap (λ m. or_length m (length p)) e)
  | inr (i, e) ↦ absurd (
      ground (
        arith,
        mismatch-lt (drop off key) p i e,
        shared_prefix_length-mismatch off key p ∙ ap (λ m. or_length m (length p)) e,
      ))
]

pub prefix_passes :
    (off : ℕ) (key p : List ℕ)
    → mismatch (drop off key) p ≡ none
    → shared_prefix_length off key p ≡ length p
prefix_passes off key p e =
    shared_prefix_length-mismatch off key p ∙ ap (λ m. or_length m (length p)) e

-- A short node behind its decoded path.
module _ (c : Codec) (key : List ℕ) (off : ℕ) (path : List ℕ) (value : List ℕ) (last : Bool) where
  leaf_rest :
      (p : List ℕ) (round : Round)
      → decode_compact (c.rlp_encode (str path)) ≡ ok (true, p)
      → short_round c key off (cons (str path) (cons (str value) nil)) last ≡ ok round
      → (x : Item) × (round ≡ done x)
        × (c.rlp_decode value ≡ ok x)
        × (mismatch (drop off key) p ≡ none)
        × (length key ≤ off + length p)
        × (last ≡ true)
  unfolding short_round
  leaf_rest p round d e = elim (Result-cases (c.rlp_decode value)) [
    | inl (x, v) ↦ (
      x,
      ground (arith, prefix_test off key p),
      v,
      ground (arith, prefix_test off key p),
      ground (arith, prefix_test off key p),
      ground (arith, prefix_test off key p),
    )
    | inr (f, v) ↦ absurd (ground (arith))
  ]

  extension_rest :
      (p : List ℕ) (round : Round)
      → decode_compact (c.rlp_encode (str path)) ≡ ok (false, p)
      → (child : Item) → short_round c key off (cons (str path) (cons child nil)) last ≡ ok round
      → (round ≡ next (off + length p) child) × (mismatch (drop off key) p ≡ none) × (last ≡ false)
  unfolding short_round
  extension_rest p round d child e = (
    ground (arith, prefix_test off key p),
    ground (arith, prefix_test off key p),
    ground (arith, prefix_test off key p),
  )

module _ (c : Codec) (laws : CodecLaws c) (key : List ℕ) (off : ℕ) (p : List ℕ)
    (ps : All IsNibble p) (last : Bool) (round : Round) where
  -- A round that is passed on a leaf returns its decoded value, and the key ends within its path.
  pub leaf_round :
      (v : List ℕ)
      → short_round c key off (cons (str (hex_prefix true p)) (cons (str v) nil)) last ≡ ok round
      → (x : Item) × (round ≡ done x)
        × (c.rlp_decode v ≡ ok x)
        × (mismatch (drop off key) p ≡ none)
        × (length key ≤ off + length p)
        × (last ≡ true)
  leaf_round v e = elim (Result-cases (decode_compact (c.rlp_encode (str (hex_prefix true p))))) [
    | inl (r, d) ↦
        leaf_rest c key off (hex_prefix true p) v last p round
          (d ∙ ap ok (decode_path c laws true p r ps d)) e
    | inr (f, d) ↦ absurd (unfold short_round in ground arith)
  ]

  -- A round that is passed on an extension goes on behind its whole path.
  pub extension_round :
      (child : Item)
      → short_round c key off (cons (str (hex_prefix false p)) (cons child nil)) last ≡ ok round
      → (round ≡ next (off + length p) child) × (mismatch (drop off key) p ≡ none) × (last ≡ false)
  extension_round child e =
      elim (Result-cases (decode_compact (c.rlp_encode (str (hex_prefix false p))))) [
        | inl (r, d) ↦
            extension_rest c key off (hex_prefix false p) [] last p round
              (d ∙ ap ok (decode_path c laws false p r ps d)) child e
        | inr (f, d) ↦ absurd (unfold short_round in ground arith)
      ]

-- A child of a branch: the reference in its slot, and where a key goes from it.
pub record ChildAt (c : Codec) (ts : Tries) (v : List ℕ) (i : ℕ) (t : Trie) : Type 0 where
  pub slot : get_item (refs c ts v) i ≡ some (ref c t)
  pub leads : (ks : List ℕ) → find_child ts i ks ≡ find t ks
  pub valid : IsTrie t
  pub part : (s : Trie) → IsPart s t → IsPartOfSome s ts

pub child_at :
    (c : Codec) (ts : Tries) (v : List ℕ) (i : ℕ)
    → AreTries ts
    → i < count ts
    → (t : Trie) × ChildAt c ts v i t
unfolding refs find_child AreTries
child_at c no_tries v i h lt = absurd (omega arith)
child_at c (more t ts) v zero (ht, hs) lt =
    (t, record { slot = refl; leads = λ ks. refl; valid = ht; part = λ s q. inl q })
child_at c (more t ts) v (suc i) (ht, hs) lt =
    let (u, a) = child_at c ts v i hs (omega arith) in
    (u, record { slot = a.slot; leads = a.leads; valid = a.valid; part = λ s q. inr (a.part s q) })

pub len_refs : (c : Codec) (ts : Tries) (v : List ℕ) → len_items (refs c ts v) ≡ suc (count ts)
unfolding refs
len_refs c no_tries v = refl
len_refs c (more t ts) v = ap suc (len_refs c ts v)

pub get_value :
    (c : Codec) (ts : Tries) (v : List ℕ) → get_item (refs c ts v) (count ts) ≡ some (str v)
unfolding refs
get_value c no_tries v = refl
get_value c (more t ts) v = get_value c ts v

blank_cases : (t : Trie) → (t ≡ blank) ⊎ (t ≢ blank)
blank_cases blank = inl refl
blank_cases (leaf p v) = inr (λ e. cc)
blank_cases (extension p t) = inr (λ e. cc)
blank_cases (branch ts v) = inr (λ e. cc)

pub len-ref : (c : Codec) → CodecLaws c → (t : Trie) → t ≢ blank → len_item (ref c t) ≡ 32
len-ref c laws t h = ap len_item (ref-digest c t h) ∙ laws.digest_length _

len-ref_blank : (c : Codec) → len_item (ref c blank) ≡ 0
unfolding ref
len-ref_blank c = refl

-- What a round on a branch tells: the key has ended and the value is returned, or the key goes on
-- into a child; where that is blank, the stack ends here.
pub data BranchRound (c : Codec) (key : List ℕ) (off : ℕ) (ts : Tries) (v : List ℕ) (last : Bool)
    (round : Round) : Type 0 where
  ended :
      drop off key ≡ []
      → off ≡ length key
      → last ≡ true
      → round ≡ done (str v)
      → BranchRound c key off ts v last round
  descended :
      (i : ℕ) (ks : List ℕ) (t : Trie)
      → drop off key ≡ i ∷ ks
      → ChildAt c ts v i t
      → t ≢ blank
      → round ≡ next (off + 1) (ref c t)
      → BranchRound c key off ts v last round
  fell_off :
      (o : ℕ) (r : Item) → last ≡ true → round ≡ next o r → BranchRound c key off ts v last round

head_nibble :
    (off : ℕ) (key : List ℕ) (i : ℕ) (ks : List ℕ)
    → All IsNibble key
    → drop off key ≡ i ∷ ks
    → i < 16
head_nibble off [] i ks h e = cc (drop_all {A = ℕ} off [] (omega arith))
head_nibble zero (k ∷ key) i ks h e = ground arith
head_nibble (suc off) (k ∷ key) i ks h e = head_nibble off key i ks h.1 e

pub drop_cases : (xs : List ℕ) → (xs ≡ []) ⊎ ((i : ℕ) × (ks : List ℕ) × (xs ≡ i ∷ ks))
drop_cases [] = inl refl
drop_cases (i ∷ ks) = inr (i, ks, refl)

module _ (c : Codec) (laws : CodecLaws c) (key : List ℕ) (nibbles : All IsNibble key) (off : ℕ)
    (target : Item) (ts : Tries) (v : List ℕ) (sixteen : count ts ≡ 16) (valid : AreTries ts)
    (last : Bool) (round : Round)
    (runs : branch_round key off target (refs c ts v) last ≡ ok round) where
  branch_ends : drop off key ≡ [] → BranchRound c key off ts v last round
  unfolding branch_round
  branch_ends e =
      let value : get_item (refs c ts v) 16 ≡ some (str v) =
        subst (λ k. get_item (refs c ts v) k ≡ some (str v)) sixteen (get_value c ts v) in
      let past : get_elem? key off ≡ none = get_elem?-drop_nil off key e in
      ended e (ground arith) (ground arith) (ground arith)

  branch_descends :
      (i : ℕ) (ks : List ℕ) → drop off key ≡ i ∷ ks → BranchRound c key off ts v last round
  unfolding branch_round
  branch_descends i ks e =
      let here : get_elem? key off ≡ some i = get_elem?-drop_cons off key i ks e in
      let inside : off ≢ length key = λ q. cc (drop_all off key (omega (arith, q))) in
      let (t, a) =
        child_at c ts v i valid (omega (arith, head_nibble off key i ks nibbles e, sixteen)) in
      let slot : get_item (refs c ts v) i ≡ some (ref c t) = a.slot in
      elim (blank_cases t) [
        | inl b ↦
            (let z : len_item (ref c t) ≡ 0 = ap (λ u. len_item (ref c u)) b ∙ len-ref_blank c in
              fell_off (off + 1) target (ground arith) (ground arith))
        | inr nb ↦ descended i ks t e a nb (ground (arith, len-ref c laws t nb))
      ]

  pub BranchRound-cases : BranchRound c key off ts v last round
  BranchRound-cases = elim (drop_cases (drop off key)) [
    | inl e ↦ branch_ends e
    | inr (i, ks, e) ↦ branch_descends i ks e
  ]
