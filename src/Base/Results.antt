-- ===== src/Base/Results.antt =====
-- Python's exceptions as values, one constructor for each kind that the program raises, a contract's reverts, and an exit.
use Prim.Native.Nat.{ℕ}
use mathlib.Core.Path.{◌≡◌, refl}
use mathlib.Core.Bool.{Bool, true, false}
use mathlib.Core.Option.{Option, none, some}
use mathlib.Core.Logic.{◌⊎◌, inl, inr}

-- Why a contract's call was reverted: the message of its `require`, or the place where it has none.
pub data Reason : Type 0 where
  only_owner already_requested already_approved empty_report empty_signature not_requested : Reason
  already_claimed not_approved incorrect_signature invalid_length invalid_s invalid_signature :
      Reason
  no_such_index hash_mismatch transfer_failed : Reason

pub data Error : Type 0 where
  assertion_error value_error type_error index_error overflow_error : Error
  struct_error recursion_error bad_signature zero_division no_such_key validation_error
        other_exception attribute_error not_found not_implemented :
      Error
  reverted : Reason → Error
  exited : ℕ → Error

-- What a call ends with: a value, or the exception that it raised.
pub data Result {ℓ} (T : Type ℓ) : Type ℓ where
  err : Error → Result T
  ok : T → Result T

module _ {ℓ} {T : Type ℓ} where
  -- A lookup that raises where nothing is found.
  abbrev pub or_raise : Option T → Error → Result T
  or_raise (some t) _ = ok t
  or_raise none exception = err exception

  pub Option-cases : (found : Option T) → (found ≡ none) ⊎ ((t : T) × (found ≡ some t))
  Option-cases (some t) = inr (t, refl)
  Option-cases none = inl refl

  pub Result-cases : (r : Result T) → ((t : T) × (r ≡ ok t)) ⊎ ((e : Error) × (r ≡ err e))
  Result-cases (err exception) = inr (exception, refl)
  Result-cases (ok t) = inl (t, refl)

infixl 5 ◌>>=◌ ◌>>◌
abbrev pub ◌>>=◌ {ℓ κ} : {T : Type ℓ} {S : Type κ} → Result T → (T → Result S) → Result S
err exception >>= continue = err exception
ok t >>= continue = continue t

-- A statement before the rest of a block.
abbrev pub ◌>>◌ {κ} : {S : Type κ} → Result (Unit {0}) → Result S → Result S
first >> rest = first >>= (λ done. rest)

-- `if not b: raise e`
abbrev pub guard : Bool → Error → Result (Unit {0})
guard holds exception = elim holds [ false ↦ err exception | true ↦ ok tt ]

-- `assert b`
abbrev pub assert : Bool → Result (Unit {0})
assert holds = guard holds assertion_error

pub guard-eq-ok :
    (holds : Bool) (exception : Error) {u : Unit {0}} → guard holds exception ≡ ok u → holds ≡ true
guard-eq-ok false exception h = cc
guard-eq-ok true exception h = refl

pub assert-eq-ok : (holds : Bool) → assert holds ≡ ok tt → holds ≡ true
assert-eq-ok false h = cc
assert-eq-ok true h = refl

-- The value that a block went on with, where the block returned.
pub >>=-eq-ok {ℓ κ} :
    {T : Type ℓ} {S : Type κ} (first : Result T) (continue : T → Result S) {s : S}
    → (first >>= continue) ≡ ok s
    → (t : T) × (first ≡ ok t) × (continue t ≡ ok s)
>>=-eq-ok (err exception) continue h = cc
>>=-eq-ok (ok t) continue h = (t, refl, h)

pub ok-injective {ℓ} : {T : Type ℓ} {x y : T} → ok x ≡ ok y → x ≡ y
ok-injective h = cc
