-- ===== src/Honeypot/History.antt =====
-- The states that the contract reaches by calls that are not reverted.
use sting_flashbots.Base.{
  ℕ, ◌<◌, ◌≡◌, ◌⊎◌, inl, inr, refl, ap, subst, true, false, Bool-cases, List, [], ◌∷◌, bytes_eq,
  bytes_eq→eq, length, ok, arith,
}
use sting_flashbots.Honeypot.{
  Evm, Honeypot, Context, Call, submit_call, approve_call, collect_call, constructor_call, run,
}
use sting_flashbots.Honeypot.Calls.{
  submitted, approved, collected, submit_enclave_passed, approve_enclave_passed,
  collect_bounty_passed,
}

-- A state behind a sequence of calls, each by some sender at some time.
pub data Reaches (e : Evm) (start : Honeypot) : Honeypot → Type 0 where
  here : Reaches e start start
  next :
      {t u : Honeypot}
      → Reaches e start t
      → (msg : Context) (call : Call e) → run e t msg call ≡ ok u
      → Reaches e start u

abbrev HasData : Honeypot → List ℕ → Type 0
HasData self address =
    (0 < length (self.enclave_data address).sgx_report)
    × (0 < length (self.enclave_data address).ias_sig)

-- An address is new, requested or approved; the last two have data.
abbrev pub Status : Honeypot → List ℕ → Type 0
Status self address =
    ((self.enclave_requested address ≡ false) × (self.enclave_approved address ≡ false))
    ⊎ (((self.enclave_requested address ≡ true)
          × (self.enclave_approved address ≡ false)
          × HasData self address)
        ⊎ ((self.enclave_requested address ≡ false)
            × (self.enclave_approved address ≡ true)
            × HasData self address))

-- The contract holds the bounty and has no winner, or it holds nothing and has one.
abbrev pub Payment : Honeypot → ℕ → Type 0
Payment self value =
    ((self.claimed ≡ false) × (self.balance ≡ value) × (self.winners ≡ []))
    ⊎ ((self.claimed ≡ true)
        × (self.balance ≡ 0)
        × ((winner : List ℕ) × (self.winners ≡ winner ∷ [])))

abbrev Holds : Honeypot → List ℕ → ℕ → List ℕ → Type 0
Holds self owner value address =
    Status self address × Payment self value × (self.owner ≡ owner) × (self.bounty ≡ value)

Status-submitted :
    (self : Honeypot) (address report sig asked : List ℕ)
    → self.enclave_approved address ≡ false
    → 0 < length report
    → 0 < length sig
    → Status self asked
    → Status (submitted self address report sig) asked
Status-submitted self address report sig asked gone hr hs before =
    elim (Bool-cases (bytes_eq asked address)) [
      | inl same ↦
          let asked_is : asked ≡ address = bytes_eq→eq asked address same in
          rw same (inr (inl (refl, rw asked_is gone, (hr, hs))))
      | inr differ ↦ rw differ before
    ]

requested-HasData :
    (self : Honeypot) (asked : List ℕ)
    → self.enclave_requested asked ≡ true
    → Status self asked
    → HasData self asked
requested-HasData self asked wanted (inl (other, _)) = absurd cc
requested-HasData self asked wanted (inr (inl (_, _, stored))) = stored
requested-HasData self asked wanted (inr (inr (_, _, stored))) = stored

Status-approved :
    (self : Honeypot) (address asked : List ℕ)
    → self.enclave_requested address ≡ true
    → Status self asked
    → Status (approved self address) asked
Status-approved self address asked wanted before = elim (Bool-cases (bytes_eq asked address)) [
  | inl same ↦
      let asked_is : asked ≡ address = bytes_eq→eq asked address same in
      rw same (inr (inr (refl, refl, requested-HasData self asked (rw asked_is wanted) before)))
  | inr differ ↦ rw differ before
]

Payment-collected :
    (self : Honeypot) (sender : List ℕ) (value : ℕ)
    → self.claimed ≡ false
    → self.bounty ≡ value
    → Payment self value
    → Payment (collected self sender) value
Payment-collected self sender value unclaimed bounty_is (inl (_, full, nobody)) =
    inr (refl, omega (arith, full, bounty_is), (sender, ap (λ ws. sender ∷ ws) nobody))
Payment-collected self sender value unclaimed bounty_is (inr (taken, _, _)) = absurd cc

step-Holds :
    (e : Evm) (t u : Honeypot) (msg : Context) (call : Call e) (owner : List ℕ) (value : ℕ)
    (asked : List ℕ)
    → run e t msg call ≡ ok u
    → Holds t owner value asked
    → Holds u owner value asked
unfolding run
step-Holds e t u msg (submit_call address report sig) owner value asked h
      (status, payment, owner_is, bounty_is) =
    let (_, gone, hr, hs, after) = submit_enclave_passed t u address report sig h in
    subst (λ s. Holds s owner value asked) after
      (Status-submitted t address report sig asked gone hr hs status, payment, owner_is, bounty_is)
step-Holds e t u msg (approve_call address) owner value asked h
      (status, payment, owner_is, bounty_is) =
    let (_, wanted, _, after) = approve_enclave_passed t u msg address h in
    subst (λ s. Holds s owner value asked) after
      (Status-approved t address asked wanted status, payment, owner_is, bounty_is)
step-Holds e t u msg (collect_call address blob sig) owner value asked h
      (status, payment, owner_is, bounty_is) =
    let (_, unclaimed, _, _, _, _, after) = collect_bounty_passed e t u msg address blob sig h in
    subst (λ s. Holds s owner value asked) after
      (
        status,
        Payment-collected t msg.sender value unclaimed bounty_is payment,
        owner_is,
        bounty_is,
      )

-- A state that the contract reaches: its owner and its bounty are those of its creation; the contract holds the
-- bounty and nobody has won it, or it holds nothing and one has; and each address is new, or requested with a
-- report and a signature stored, or approved with them, never two of these.
pub Reaches-Status :
    (e : Evm) (owner : List ℕ) (value : ℕ) (self : Honeypot) (address : List ℕ)
    → Reaches e (constructor_call owner value) self
    → Status self address × Payment self value × (self.owner ≡ owner) × (self.bounty ≡ value)
unfolding constructor_call
Reaches-Status e owner value self address here =
    (inl (refl, refl), inl (refl, refl, refl), refl, refl)
Reaches-Status e owner value self address (next {t = t} before msg call h) =
    step-Holds e t self msg call owner value address h
      (Reaches-Status e owner value t address before)
