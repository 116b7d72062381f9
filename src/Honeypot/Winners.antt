-- ===== src/Honeypot/Winners.antt =====
-- What happened before the bounty was paid.
use sting_flashbots.Base.{
  ℕ, ◌≡◌, sym, ap, ◌∙◌, subst, true, false, Bool-cases, inl, inr, List, [], ◌∷◌, bytes_eq,
  bytes_eq→eq, ok,
}
use sting_flashbots.Honeypot.{
  Evm, Honeypot, Context, submit_call, approve_call, collect_call, constructor_call,
  approve_enclave, hash_data, recover, block_of, collect_bounty, run,
}
use sting_flashbots.Honeypot.Calls.{
  submit_enclave_passed, approve_enclave_passed, collect_bounty_passed,
}
use sting_flashbots.Honeypot.History.{Reaches, here, next, Payment, Reaches-Status}

-- An earlier call that approved an address, by the owner.
abbrev pub WasApproved : (e : Evm) → Honeypot → List ℕ → List ℕ → Type 0
WasApproved e start owner address =
    (t u : Honeypot) × (msg : Context) × Reaches e start t
    × (msg.sender ≡ owner)
    × (t.enclave_requested address ≡ true)
    × (approve_enclave t msg address ≡ ok u)

approved_before :
    (e : Evm) (owner : List ℕ) (value : ℕ) (self : Honeypot) (address : List ℕ)
    → Reaches e (constructor_call owner value) self
    → self.enclave_approved address ≡ true
    → WasApproved e (constructor_call owner value) owner address
unfolding constructor_call run
approved_before e owner value self address here granted = absurd cc
approved_before e owner value self address (next {t = t} before msg (submit_call a report sig) h)
      granted =
    let (_, _, _, _, after) = submit_enclave_passed t self a report sig h in
    approved_before e owner value t address before
      (ap (λ (s : Honeypot). s.enclave_approved address) after ∙ granted)
approved_before e owner value self address (next {t = t} before msg (collect_call a blob sig) h)
      granted =
    let (_, _, _, _, _, _, after) = collect_bounty_passed e t self msg a blob sig h in
    approved_before e owner value t address before
      (ap (λ (s : Honeypot). s.enclave_approved address) after ∙ granted)
approved_before e owner value self address (next {t = t} before msg (approve_call a) h) granted =
    let (by_owner, wanted, _, after) = approve_enclave_passed t self msg a h in
    let granted' = ap (λ (s : Honeypot). s.enclave_approved address) after ∙ granted in
    let (_, _, owner_is, _) = Reaches-Status e owner value t address before in
    let earlier = approved_before e owner value t address before in
    elim (Bool-cases (bytes_eq address a)) [
      | inl same ↦
          let address_is : address ≡ a = bytes_eq→eq address a same in
          (t, self, msg, before, by_owner ∙ owner_is, rw address_is wanted, rw address_is h)
      | inr differ ↦ earlier (rw differ at granted')
    ]

nobody_before :
    (self : Honeypot) (value : ℕ) → self.claimed ≡ false → Payment self value → self.winners ≡ []
nobody_before self value unclaimed (inl (_, _, nobody)) = nobody
nobody_before self value unclaimed (inr (taken, _, _)) = absurd cc

-- An earlier call that collected the bounty, whose sender is the only winner, for an address that was approved,
-- with a signature of a block's encoding that recovers to it and the hash that the chain had for that block.
abbrev pub WasCollected : (e : Evm) → Honeypot → List ℕ → List (List ℕ) → Type 0
WasCollected e start owner winners =
    (t u : Honeypot) × (msg : Context) × (address blob sig : List ℕ) × (block_num : ℕ) × Reaches e
      start t
    × (collect_bounty e t msg address blob sig ≡ ok u)
    × (winners ≡ msg.sender ∷ [])
    × (recover e (hash_data e blob) sig ≡ ok address)
    × (block_of e blob ≡ ok (block_num, msg.blockhash block_num))
    × WasApproved e start owner address

-- A state that the contract reaches in which the bounty is claimed: an earlier call collected it, by the only
-- winner, for an address that the owner had approved when it was requested, with a signature of the block's
-- encoding that recovers to that address, where the encoding names a block with the hash that the chain had
-- for it.
pub claimed-WasCollected :
    (e : Evm) (owner : List ℕ) (value : ℕ) (self : Honeypot)
    → Reaches e (constructor_call owner value) self
    → self.claimed ≡ true
    → WasCollected e (constructor_call owner value) owner self.winners
unfolding constructor_call run
claimed-WasCollected e owner value self here taken = absurd cc
claimed-WasCollected e owner value self (next {t = t} before msg (submit_call a report sig) h)
      taken =
    let (_, _, _, _, after) = submit_enclave_passed t self a report sig h in
    subst (WasCollected e (constructor_call owner value) owner)
      (ap (λ (s : Honeypot). s.winners) after)
      (claimed-WasCollected e owner value t before (ap (λ (s : Honeypot). s.claimed) after ∙ taken))
claimed-WasCollected e owner value self (next {t = t} before msg (approve_call a) h) taken =
    let (_, _, _, after) = approve_enclave_passed t self msg a h in
    subst (WasCollected e (constructor_call owner value) owner)
      (ap (λ (s : Honeypot). s.winners) after)
      (claimed-WasCollected e owner value t before (ap (λ (s : Honeypot). s.claimed) after ∙ taken))
claimed-WasCollected e owner value self (next {t = t} before msg (collect_call a blob sig) h)
      taken =
    let (block_num, unclaimed, granted, found, block_is, _, after) =
      collect_bounty_passed e t self msg a blob sig h in
    let (_, payment, _, _) = Reaches-Status e owner value t a before in
    let nobody = nobody_before t value unclaimed payment in
    (
      t,
      self,
      msg,
      a,
      blob,
      sig,
      block_num,
      before,
      h,
      sym (ap (λ (s : Honeypot). s.winners) after) ∙ ap (λ ws. msg.sender ∷ ws) nobody,
      found,
      block_is,
      approved_before e owner value t a before granted,
    )
