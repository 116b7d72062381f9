-- ===== src/Commitment/Multiples.antt =====
-- Multiplication by doubling is repeated addition.
use sting_flashbots.Base.{
  ℕ, zero, suc, ◌+◌, ◌/◌, ◌%◌, ◌≤◌, ◌<◌, ◌≡◌, refl, sym, ap, ◌∙◌, arith, Option, none, some, ◌==◌,
  if◌then◌else◌, false, Bool-cases, inl, inr,
}
use sting_flashbots.Commitment.{Group, GroupLaws, mult_loop, mult}

module _ {Point : Type 0} (group : Group Point) where
  -- `a` added to the identity `m` times.
  abbrev pub times : ℕ → Point → Point
  times zero a = group.identity
  times (suc m) a = group.plus (times m a) a

  -- What the code returns for a factor: the multiple, or nothing for 0.
  abbrev pub multiple : ℕ → Point → Option Point
  multiple zero a = none
  multiple (suc m) a = some (times (suc m) a)

  module _ (laws : GroupLaws group) where
    times_front : (m : ℕ) (a : Point) → group.plus a (times m a) ≡ times (suc m) a
    times_front zero a = laws.plus-identity a ∙ sym (laws.identity-plus a)
    times_front (suc m) a =
        sym (laws.plus_assoc a (times m a) a) ∙ ap (λ p. group.plus p a) (times_front m a)

    times-plus : (m : ℕ) (a : Point) → times m (group.plus a a) ≡ times (m + m) a
    times-plus zero a = refl
    times-plus (suc m) a =
        let twice : suc m + suc m ≡ suc (suc (m + m)) = omega arith in
        ap (λ p. group.plus p (group.plus a a)) (times-plus m a)
        ∙ sym (laws.plus_assoc (times (m + m) a) a a)
        ∙ sym (ap (λ n. times n a) twice)

    even_step :
        (m : ℕ) (a y : Point)
        → m % 2 ≡ 0
        → group.plus y (times (m / 2) (group.plus a a)) ≡ group.plus y (times m a)
    even_step m a y e =
        let whole : m / 2 + m / 2 ≡ m = omega arith in
        ap (group.plus y) (times-plus (m / 2) a ∙ ap (λ n. times n a) whole)

    odd_step :
        (m : ℕ) (a y : Point)
        → m % 2 ≡ 1
        → group.plus (group.plus y a) (times (m / 2) (group.plus a a)) ≡ group.plus y (times m a)
    odd_step m a y e =
        let whole : suc (m / 2 + m / 2) ≡ m = omega arith in
        laws.plus_assoc y a _
        ∙ ap (λ p. group.plus y (group.plus a p)) (times-plus (m / 2) a)
        ∙ ap (group.plus y) (times_front (m / 2 + m / 2) a ∙ ap (λ n. times n a) whole)

    half_step :
        (m : ℕ) (a y : Point)
        → group.plus (if m % 2 == 1 then group.plus y a else y) (times (m / 2) (group.plus a a))
          ≡ group.plus y (times m a)
    half_step m a y = elim (Bool-cases (m % 2 == 1)) [
      | inl odd ↦ rw odd (odd_step m a y (ground arith))
      | inr even ↦ rw even (even_step m a y (ground arith))
    ]

    mult_loop_lem :
        (rounds m : ℕ) (a y : Point)
        → 0 < m
        → m ≤ rounds
        → mult_loop group rounds m a y ≡ some (group.plus y (times m a))
    unfolding mult_loop
    mult_loop_lem zero m a y pos enough = absurd (omega arith)
    mult_loop_lem (suc rounds) m a y pos enough =
        let not_zero : (m == 0) ≡ false = ground arith in
        elim (Bool-cases (m / 2 == 0)) [
          | inl last ↦
              (let none_left : m / 2 ≡ 0 = ground arith in
                let sum =
                  sym (laws.plus-identity _)
                  ∙ ap (group.plus _) (ap (λ n. times n (group.plus a a)) (sym none_left))
                  ∙ half_step m a y in
                rw (not_zero, last) (ap some sum))
          | inr more ↦
              rw (not_zero, more)
                (mult_loop_lem rounds (m / 2) (group.plus a a) _ (ground arith) (omega arith)
                  ∙ ap some (half_step m a y))
        ]

-- `mult` returns the sum of `m` copies of the point for each positive `m`, and None for 0.
pub mult-times :
    {Point : Type 0} (group : Group Point)
    → GroupLaws group
    → (m : ℕ) (a : Point) → mult group m a ≡ multiple group m a
unfolding mult
mult-times group laws zero a = unfold mult_loop in refl
mult-times group laws (suc m) a =
    mult_loop_lem group laws (suc m) (suc m) a group.identity (omega arith) (omega arith)
    ∙ ap some (laws.identity-plus _)
