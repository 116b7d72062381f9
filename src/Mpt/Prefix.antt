-- ===== src/Mpt/Prefix.antt =====
-- `shared_prefix_length` on the part of the key that is not yet read.
use sting_flashbots.Base.{
  ℕ, zero, suc, ◌+◌, ◌<◌, ◌≡◌, refl, ap, ◌∙◌, List, [], ◌∷◌, ◌++◌, if◌then◌else◌, length, drop,
  get_elem?, arith, ◌==◌, Option, none, some, sym, drop_all, append-nil,
}
use sting_flashbots.Mpt.{prefix_loop, shared_prefix_length}

-- The first place at which two paths both have a nibble and the nibbles differ.
unfoldable pub mismatch : List ℕ → List ℕ → Option ℕ
mismatch [] ys = none
mismatch (x ∷ xs) [] = none
mismatch (x ∷ xs) (y ∷ ys) =
    if x == y then elim (mismatch xs ys) [ none ↦ none | some i ↦ some (suc i) ] else some 0

abbrev pub or_length : Option ℕ → ℕ → ℕ
or_length none n = n
or_length (some i) n = i

get_elem?-head :
    {A : Type 0} (n : ℕ) (xs : List A) (i : ℕ) → get_elem? xs n ≡ get_elem? (drop n xs) 0
get_elem?-head zero xs i = refl
get_elem?-head (suc n) [] i = refl
get_elem?-head (suc n) (x ∷ xs) i = get_elem?-head n xs i

-- Reading at `n`, from what is left behind `n`.
pub get_elem?-drop_nil : {A : Type 0} (n : ℕ) (xs : List A) → drop n xs ≡ [] → get_elem? xs n ≡ none
get_elem?-drop_nil n xs e = get_elem?-head n xs 0 ∙ ap (λ r. get_elem? r 0) e

pub get_elem?-drop_cons :
    {A : Type 0} (n : ℕ) (xs : List A) (x : A) (r : List A)
    → drop n xs ≡ x ∷ r
    → get_elem? xs n ≡ some x
get_elem?-drop_cons n xs x r e = get_elem?-head n xs 0 ∙ ap (λ r. get_elem? r 0) e

-- One step of `drop`.
drop-suc : {A : Type 0} (n : ℕ) (xs : List A) → drop (suc n) xs ≡ drop 1 (drop n xs)
drop-suc zero xs = refl
drop-suc (suc n) [] = refl
drop-suc (suc n) (x ∷ xs) = drop-suc n xs

pub drop-drop_cons :
    {A : Type 0} (n : ℕ) (xs : List A) (x : A) (r : List A)
    → drop n xs ≡ x ∷ r
    → drop (suc n) xs ≡ r
drop-drop_cons n xs x r e = drop-suc n xs ∙ ap (drop 1) e

pub drop-add : {A : Type 0} (n m : ℕ) (xs : List A) → drop (n + m) xs ≡ drop m (drop n xs)
drop-add zero m xs = ap (λ k. drop k xs) (omega arith)
drop-add (suc n) m [] =
    let e : suc n + m ≡ suc (n + m) = omega arith in rw e (sym (drop_all m [] (omega arith)))
drop-add (suc n) m (x ∷ xs) =
    let e : suc n + m ≡ suc (n + m) = omega arith in rw e (drop-add n m xs)

add_some : ℕ → Option ℕ → Option ℕ
add_some i none = none
add_some i (some j) = some (i + j)

zero_some : (m : Option ℕ) (n : ℕ) → or_length (add_some 0 m) n ≡ or_length m n
unfolding add_some
zero_some none n = refl
zero_some (some j) n = omega arith

prefix_loop-mismatch :
    (off : ℕ) (xs rest : List ℕ) (total : ℕ) (ys : List ℕ) (i : ℕ)
    → drop (i + off) xs ≡ rest
    → prefix_loop off xs total ys i ≡ or_length (add_some i (mismatch rest ys)) total
unfolding prefix_loop mismatch add_some
prefix_loop-mismatch off xs [] total [] i e = refl
prefix_loop-mismatch off xs (x ∷ rest) total [] i e = refl
prefix_loop-mismatch off xs [] total (y ∷ ys) i e =
    ground (arith, get_elem?-drop_nil (i + off) xs e)
prefix_loop-mismatch off xs (x ∷ rest) total (y ∷ ys) i e =
    (ground (
      arith,
      get_elem?-drop_cons (i + off) xs x rest e,
      prefix_loop-mismatch off xs rest total ys (i + 1) (
          let h : i + 1 + off ≡ suc (i + off) = omega arith in
          rw h (drop-drop_cons (i + off) xs x rest e)),
    ))

-- It is the first mismatch with the unread part of the key, or the whole length of `ys` where there
-- is none, also where the key ends before `ys` does.
pub shared_prefix_length-mismatch :
    (off : ℕ) (xs ys : List ℕ)
    → shared_prefix_length off xs ys ≡ or_length (mismatch (drop off xs) ys) (length ys)
unfolding shared_prefix_length
shared_prefix_length-mismatch off xs ys =
    prefix_loop-mismatch off xs (drop off xs) (length ys) ys 0 (ap (λ k. drop k xs) (omega arith))
    ∙ zero_some (mismatch (drop off xs) ys) (length ys)

pub mismatch-lt : (xs ys : List ℕ) (i : ℕ) → mismatch xs ys ≡ some i → i < length ys
unfolding mismatch
mismatch-lt [] ys i e = cc
mismatch-lt (x ∷ xs) [] i e = cc
mismatch-lt (x ∷ xs) (y ∷ ys) i e =
    elim (mismatch xs ys) as (λ m. mismatch xs ys ≡ m → i < suc (length ys)) [
      | none ↦ λ q. ground (arith)
      | some j ↦ λ q. ground (arith, mismatch-lt xs ys j)
    ]
      refl

-- With no mismatch one of the two paths is a prefix of the other.
pub mismatch-none :
    (xs ys : List ℕ) → mismatch xs ys ≡ none → xs ++ drop (length xs) ys ≡ ys ++ drop (length ys) xs
unfolding mismatch
mismatch-none [] ys e = rw (drop_all {A = ℕ} (length ys) [] (omega arith), append-nil)
mismatch-none (x ∷ xs) [] e = append-nil (x ∷ xs)
mismatch-none (x ∷ xs) (y ∷ ys) e = ground (arith, mismatch-none xs ys)

pub mismatch-append : (xs ys : List ℕ) → mismatch (xs ++ ys) xs ≡ none
unfolding mismatch
mismatch-append [] [] = refl
mismatch-append [] (y ∷ ys) = refl
mismatch-append (x ∷ xs) ys = ground (arith, mismatch-append xs ys)
