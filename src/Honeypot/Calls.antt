-- ===== src/Honeypot/Calls.antt =====
-- What a call of the contract that was not reverted satisfied, and the state that it left.
use sting_flashbots.Base.{
  ℕ, ◌-◌, ◌<◌, ◌≤◌, ◌≡◌, refl, sym, subst, Bool, true, false, not, List, ◌∷◌, leb, leb→le, ltb,
  ltb→lt, bytes_eq, bytes_eq→eq, length, ok, guard-eq-ok, Reason, reverted, >>=-eq-ok, ok-injective,
  only_owner, already_requested, already_approved, empty_report, empty_signature, not_requested,
  already_claimed, not_approved, incorrect_signature, hash_mismatch, transfer_failed,
}
use sting_flashbots.Honeypot.{
  Evm, Honeypot, Context, set_entry, require, submit_enclave, approve_enclave, hash_data, recover,
  block_of, collect_bounty,
}

abbrev pub submitted : Honeypot → List ℕ → List ℕ → List ℕ → Honeypot
submitted self address report sig = record self {
  enclave_data =
      set_entry self.enclave_data address (record { sgx_report = report; ias_sig = sig });
  enclave_requested = set_entry self.enclave_requested address true;
}

abbrev pub approved : Honeypot → List ℕ → Honeypot
approved self address = record self {
  enclave_requested = set_entry self.enclave_requested address false;
  enclave_approved = set_entry self.enclave_approved address true;
}

abbrev pub collected : Honeypot → List ℕ → Honeypot
collected self sender = record self {
  claimed = true;
  balance = self.balance - self.bounty;
  winners = sender ∷ self.winners;
}

not-true : (b : Bool) → not b ≡ true → b ≡ false
not-true false h = refl
not-true true h = cc

require_passed : (b : Bool) (reason : Reason) {u : Unit {0}} → require b reason ≡ ok u → b ≡ true
require_passed b reason h = guard-eq-ok b (reverted reason) h

pub submit_enclave_passed :
    (self next : Honeypot) (address report sig : List ℕ)
    → submit_enclave self address report sig ≡ ok next
    → (self.enclave_requested address ≡ false)
      × (self.enclave_approved address ≡ false)
      × (0 < length report)
      × (0 < length sig)
      × (submitted self address report sig ≡ next)
unfolding submit_enclave
submit_enclave_passed self next address report sig h =
    let (_, p1, h1) =
      >>=-eq-ok (require (not (self.enclave_requested address)) already_requested) _ h in
    let (_, p2, h2) =
      >>=-eq-ok (require (not (self.enclave_approved address)) already_approved) _ h1 in
    let (_, p3, h3) = >>=-eq-ok (require (ltb 0 (length report)) empty_report) _ h2 in
    let (_, p4, h4) = >>=-eq-ok (require (ltb 0 (length sig)) empty_signature) _ h3 in
    (
      not-true _ (require_passed _ _ p1),
      not-true _ (require_passed _ _ p2),
      ltb→lt 0 (length report) (require_passed _ _ p3),
      ltb→lt 0 (length sig) (require_passed _ _ p4),
      ok-injective h4,
    )

pub approve_enclave_passed :
    (self next : Honeypot) (msg : Context) (address : List ℕ)
    → approve_enclave self msg address ≡ ok next
    → (msg.sender ≡ self.owner)
      × (self.enclave_requested address ≡ true)
      × (self.enclave_approved address ≡ false)
      × (approved self address ≡ next)
unfolding approve_enclave
approve_enclave_passed self next msg address h =
    let (_, p1, h1) = >>=-eq-ok (require (bytes_eq msg.sender self.owner) only_owner) _ h in
    let (_, p2, h2) = >>=-eq-ok (require (self.enclave_requested address) not_requested) _ h1 in
    let (_, p3, h3) =
      >>=-eq-ok (require (not (self.enclave_approved address)) already_approved) _ h2 in
    (
      bytes_eq→eq _ _ (require_passed _ _ p1),
      require_passed _ _ p2,
      not-true _ (require_passed _ _ p3),
      ok-injective h3,
    )

pub collect_bounty_passed :
    (e : Evm) (self next : Honeypot) (msg : Context) (address blob sig : List ℕ)
    → collect_bounty e self msg address blob sig ≡ ok next
    → (block_num : ℕ) × (self.claimed ≡ false)
      × (self.enclave_approved address ≡ true)
      × (recover e (hash_data e blob) sig ≡ ok address)
      × (block_of e blob ≡ ok (block_num, msg.blockhash block_num))
      × (self.bounty ≤ self.balance)
      × (collected self msg.sender ≡ next)
unfolding collect_bounty
collect_bounty_passed e self next msg address blob sig h =
    let (_, p1, h1) = >>=-eq-ok (require (not self.claimed) already_claimed) _ h in
    let (_, p2, h2) = >>=-eq-ok (require (self.enclave_approved address) not_approved) _ h1 in
    let (signer, found, h3) = >>=-eq-ok (recover e (hash_data e blob) sig) _ h2 in
    let (_, p3, h4) = >>=-eq-ok (require (bytes_eq signer address) incorrect_signature) _ h3 in
    let (block, block_is, h5) = >>=-eq-ok (block_of e blob) _ h4 in
    let (_, p4, h6) =
      >>=-eq-ok (require (bytes_eq (msg.blockhash block.0) block.1) hash_mismatch) _ h5 in
    let (_, p5, h7) = >>=-eq-ok (require (leb self.bounty self.balance) transfer_failed) _ h6 in
    let (_, _, h8) = >>=-eq-ok (require (e.accepts msg.sender) transfer_failed) _ h7 in
    let hash_is : msg.blockhash block.0 ≡ block.1 = bytes_eq→eq _ _ (require_passed _ _ p4) in
    (
      block.0,
      not-true _ (require_passed _ _ p1),
      require_passed _ _ p2,
      subst (λ a. recover e (hash_data e blob) sig ≡ ok a)
          (bytes_eq→eq signer address (require_passed _ _ p3)) found,
      subst (λ b. block_of e blob ≡ ok (block.0, b)) (sym hash_is) block_is,
      leb→le self.bounty self.balance (require_passed _ _ p5),
      ok-injective h8,
    )
