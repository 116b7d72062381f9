-- ===== src/Mpt/Route.antt =====
-- The nodes that a key leads through in a trie: a predicate on each of them, and their number.
use sting_flashbots.Base.{
  ℕ, zero, suc, ◌<◌, ◌≡◌, refl, subst, List, [], ◌∷◌, ◌++◌, Option, none, some, arith,
}
use sting_flashbots.Rlp.{get_item, Codec}
use sting_flashbots.Mpt.Trie.{
  Trie, Tries, blank, leaf, extension, branch, more, no_tries, count, ref, refs, find, find_child,
  IsTrie, AreTries, strip, strip-append,
}

unfoldable mutual
  pub Along : (Trie → Type 0) → Trie → List ℕ → Type 0
  Along P blank ks = P blank
  Along P (leaf p v) ks = P (leaf p v)
  Along P (extension p t) ks =
      P (extension p t) × elim (strip p ks) [ none ↦ Unit {0} | some r ↦ Along P t r ]
  Along P (branch ts v) [] = P (branch ts v)
  Along P (branch ts v) (k ∷ ks) = P (branch ts v) × AlongChild P ts k ks

  pub AlongChild : (Trie → Type 0) → Tries → ℕ → List ℕ → Type 0
  AlongChild P no_tries i ks = Unit
  AlongChild P (more t ts) zero ks = Along P t ks
  AlongChild P (more t ts) (suc i) ks = AlongChild P ts i ks

unfoldable mutual
  pub nodes_on : Trie → List ℕ → ℕ
  nodes_on blank ks = 1
  nodes_on (leaf p v) ks = 1
  nodes_on (extension p t) ks = suc (elim (strip p ks) [ none ↦ 0 | some r ↦ nodes_on t r ])
  nodes_on (branch ts v) [] = 1
  nodes_on (branch ts v) (k ∷ ks) = suc (nodes_on_child ts k ks)

  pub nodes_on_child : Tries → ℕ → List ℕ → ℕ
  nodes_on_child no_tries i ks = 0
  nodes_on_child (more t ts) zero ks = nodes_on t ks
  nodes_on_child (more t ts) (suc i) ks = nodes_on_child ts i ks

-- The child of a branch that a key goes into.
pub record RouteChild (P : Trie → Type 0) (c : Codec) (ts : Tries) (v : List ℕ) (i : ℕ)
    (ks : List ℕ) (t : Trie) : Type 0 where
  pub slot : get_item (refs c ts v) i ≡ some (ref c t)
  pub leads : find_child ts i ks ≡ find t ks
  pub counts : nodes_on_child ts i ks ≡ nodes_on t ks
  pub holds : Along P t ks
  pub valid : IsTrie t

pub route_child :
    (P : Trie → Type 0) (c : Codec) (ts : Tries) (v : List ℕ) (i : ℕ) (ks : List ℕ)
    → AreTries ts
    → AlongChild P ts i ks
    → i < count ts
    → (t : Trie) × RouteChild P c ts v i ks t
unfolding refs find find_child AreTries IsTrie Along nodes_on
route_child P c no_tries v i ks h a lt = absurd (omega arith)
route_child P c (more t ts) v zero ks (ht, hs) a lt =
    (t, record { slot = refl; leads = refl; counts = refl; holds = a; valid = ht })
route_child P c (more t ts) v (suc i) ks (ht, hs) a lt =
    let (u, r) = route_child P c ts v i ks hs a (omega arith) in
    (
      u,
      record {
        slot = r.slot;
        leads = r.leads;
        counts = r.counts;
        holds = r.holds;
        valid = r.valid;
      },
    )

pub Along-extension :
    (P : Trie → Type 0) (p : List ℕ) (t : Trie) (ks : List ℕ)
    → Along P (extension p t) (p ++ ks)
    → P (extension p t) × Along P t ks
unfolding Along
Along-extension P p t ks a = (
  a.0,
  subst
      (λ (m : Option (List ℕ)). elim m as (λ _. Type 0) [ none ↦ Unit {0} | some r ↦ Along P t r ])
      (strip-append p ks) a.1,
)

pub nodes_on-extension :
    (p : List ℕ) (t : Trie) (ks : List ℕ) → nodes_on (extension p t) (p ++ ks) ≡ suc (nodes_on t ks)
unfolding nodes_on
nodes_on-extension p t ks = ground (arith, strip-append p ks)

pub Along_here : (P : Trie → Type 0) (t : Trie) (ks : List ℕ) → Along P t ks → P t
unfolding Along
Along_here P blank ks a = a
Along_here P (leaf p v) ks a = a
Along_here P (extension p t) ks a = a.0
Along_here P (branch ts v) [] a = a
Along_here P (branch ts v) (k ∷ ks) a = a.0
