-- ===== src/Mpt/Trie.antt =====
-- The abstract trie that a transaction root commits to, the nodes that store it and the hash that
-- refers to a node. A node below 32 bytes, which the trie package stores inline, does not occur in a
-- transaction trie, and the reference to a node is here always its hash.
use sting_flashbots.Base.{
  ℕ, zero, ◌⊎◌, suc, ◌≡◌, ◌≢◌, true, false, Option, none, some, List, [], ◌∷◌, ◌==◌, ◌++◌,
  if◌then◌else◌, Option-cases, inl, inr, bytes_eq, All, refl, arith, ==_refl,
}
use sting_flashbots.Rlp.{Item, Items, str, seq, nil, cons, Codec}
use sting_flashbots.Mpt.Compact.{IsNibble, hex_prefix}

mutual
  pub data Trie : Type 0 where
    blank : Trie
    leaf : List ℕ → List ℕ → Trie
    extension : List ℕ → Trie → Trie
    branch : Tries → List ℕ → Trie

  pub data Tries : Type 0 where
    no_tries : Tries
    more : Trie → Tries → Tries

abbrev pub count : Tries → ℕ
count no_tries = 0
count (more t ts) = suc (count ts)

-- Where a key leads: to a leaf's value, or to the value slot of a branch.
pub data Entry : Type 0 where
  at_leaf at_branch : List ℕ → Entry

-- What is left of a key behind a path.
unfoldable pub strip : List ℕ → List ℕ → Option (List ℕ)
strip [] ks = some ks
strip (p ∷ ps) [] = none
strip (p ∷ ps) (k ∷ ks) = if p == k then strip ps ks else none

pub strip-append : (p ks : List ℕ) → strip p (p ++ ks) ≡ some ks
unfolding strip
strip-append [] ks = refl
strip-append (x ∷ p) ks = rw (==_refl x) (strip-append p ks)

pub strip-some : (p ks r : List ℕ) → strip p ks ≡ some r → ks ≡ p ++ r
unfolding strip
strip-some [] ks r e = cc
strip-some (x ∷ p) [] r e = cc
strip-some (x ∷ p) (k ∷ ks) r e = ground (arith, strip-some p ks r)

-- The reading of a trie.
unfoldable mutual
  pub find : Trie → List ℕ → Option Entry
  find blank ks = none
  find (leaf p v) ks = if bytes_eq p ks then some (at_leaf v) else none
  find (extension p t) ks = elim (strip p ks) [ none ↦ none | some r ↦ find t r ]
  find (branch ts v) [] = some (at_branch v)
  find (branch ts v) (k ∷ ks) = find_child ts k ks

  pub find_child : Tries → ℕ → List ℕ → Option Entry
  find_child no_tries i ks = none
  find_child (more t ts) zero ks = find t ks
  find_child (more t ts) (suc i) ks = find_child ts i ks

pub find-extension :
    (p : List ℕ) (t : Trie) (ks : List ℕ) → find (extension p t) (p ++ ks) ≡ find t ks
unfolding find
find-extension p t ks = ground (arith, strip-append p ks)

pub find-extension_some :
    (p : List ℕ) (t : Trie) (ks : List ℕ) (entry : Entry)
    → find (extension p t) ks ≡ some entry
    → (r : List ℕ) × (ks ≡ p ++ r)
unfolding find
find-extension_some p t ks entry e = elim (Option-cases (strip p ks)) [
  | inl missed ↦ absurd (ground arith)
  | inr (r, passed) ↦ (r, strip-some p ks r passed)
]

pub find-ne-blank : (t : Trie) (ks : List ℕ) (entry : Entry) → find t ks ≡ some entry → t ≢ blank
unfolding find
find-ne-blank blank ks entry e = λ q. cc
find-ne-blank (leaf p v) ks entry e = λ q. cc
find-ne-blank (extension p t) ks entry e = λ q. cc
find-ne-blank (branch ts v) ks entry e = λ q. cc

-- Paths hold nibbles, a branch has sixteen children, and an extension leads to a node.
unfoldable mutual
  pub IsTrie : Trie → Type 0
  IsTrie blank = Unit
  IsTrie (leaf p v) = All IsNibble p
  IsTrie (extension p t) = All IsNibble p × (t ≢ blank) × IsTrie t
  IsTrie (branch ts v) = (count ts ≡ 16) × AreTries ts

  pub AreTries : Tries → Type 0
  AreTries no_tries = Unit
  AreTries (more t ts) = IsTrie t × AreTries ts

-- The parts of a trie: the trie itself, and what its extensions and branches lead to.
abbrev mutual
  pub IsPart : Trie → Trie → Type 0
  IsPart s blank = s ≡ blank
  IsPart s (leaf p v) = s ≡ leaf p v
  IsPart s (extension p t) = (s ≡ extension p t) ⊎ IsPart s t
  IsPart s (branch ts v) = (s ≡ branch ts v) ⊎ IsPartOfSome s ts

  pub IsPartOfSome : Trie → Tries → Type 0
  IsPartOfSome s no_tries = ⊥
  IsPartOfSome s (more t ts) = IsPart s t ⊎ IsPartOfSome s ts

pub IsPart-refl : (t : Trie) → IsPart t t
IsPart-refl blank = refl
IsPart-refl (leaf p v) = refl
IsPart-refl (extension p t) = inl refl
IsPart-refl (branch ts v) = inl refl

module _ (c : Codec) where
  abbrev pub digest : Items → List ℕ
  digest node = c.keccak (c.rlp_encode (seq node))

  -- The node that stores the top of a trie, and the reference to it.
  unfoldable mutual
    pub node_of : Trie → Items
    node_of blank = nil
    node_of (leaf p v) = cons (str (hex_prefix true p)) (cons (str v) nil)
    node_of (extension p t) = cons (str (hex_prefix false p)) (cons (ref t) nil)
    node_of (branch ts v) = refs ts v

    pub ref : Trie → Item
    ref blank = str []
    ref (leaf p v) =
        str (c.keccak (c.rlp_encode (seq (cons (str (hex_prefix true p)) (cons (str v) nil)))))
    ref (extension p t) =
        str (c.keccak (c.rlp_encode (seq (cons (str (hex_prefix false p)) (cons (ref t) nil)))))
    ref (branch ts v) = str (c.keccak (c.rlp_encode (seq (refs ts v))))

    pub refs : Tries → List ℕ → Items
    refs no_tries v = cons (str v) nil
    refs (more t ts) v = cons (ref t) (refs ts v)

  abbrev pub IsAmong : Items → List Items → Type 0
  IsAmong node [] = ⊥
  IsAmong node (n ∷ ns) = (node ≡ n) ⊎ IsAmong node ns

  -- A node of the trie and a node of the stack that differ and have one hash.
  abbrev pub Collision : Trie → List Items → Type 0
  Collision t stack =
      (s : Trie) × (node : Items) × IsPart s t
      × IsAmong node stack
      × (node_of s ≢ node)
      × (digest (node_of s) ≡ digest node)

  pub ref-digest : (t : Trie) → t ≢ blank → ref t ≡ str (digest (node_of t))
  unfolding ref node_of
  ref-digest blank h = absurd (h refl)
  ref-digest (leaf p v) h = refl
  ref-digest (extension p t) h = refl
  ref-digest (branch ts v) h = refl
