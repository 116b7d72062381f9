-- ===== src/Bounty/Payments.antt =====
-- What a script of the bounty shows that ends without an error.
use sting_flashbots.Base.{
  ℕ, ◌<◌, ◌≡◌, ◌⊎◌, inl, inr, sym, ap, ◌∙◌, Bool, true, false, List, ok, err, exited, ltb, ltb→lt,
  ◌==◌, ==_iff, bytes_eq, bytes_eq→eq, take, assert, guard-eq-ok, >>=-eq-ok, ok-injective,
  if◌then◌else◌,
}
use sting_flashbots.Honeypot.{
  Evm, Honeypot, Context, Call, approve_call, collect_call, hash_data, recover, block_of, run,
}
use sting_flashbots.Honeypot
use sting_flashbots.Honeypot.Calls.{
  collected, collect_bounty_passed, approved, approve_enclave_passed,
}
use sting_flashbots.Bounty.{
  BountyPackage, slice, send_tx, check_report, approve_enclave, collect_bounty,
}

-- A transaction that was mined took effect, or was reverted and left the contract as it was.
pub record BountyLaws (e : BountyPackage) : Type 0 where
  pub transact_lem :
      (contract next : Honeypot) (msg : Context) (foo : Call e.evm) (gas : ℕ)
      → e.transact contract msg foo ≡ ok (next, gas)
      → (run e.evm contract msg foo ≡ ok next) ⊎ (contract ≡ next)

-- What was sent was transacted.
send_tx_transacted :
    (e : BountyPackage) (contract : Honeypot) (msg : Context) (foo : Call e.evm)
    (sent : Honeypot × ℕ)
    → send_tx e contract msg foo ≡ ok sent
    → e.transact contract msg foo ≡ ok sent
unfolding send_tx
send_tx_transacted e contract msg foo sent h =
    when (ltb (elim (e.estimate_gas contract foo) [ err exception ↦ 0 | ok gas ↦ gas ]) 10000000) h
  where
    when :
        (small : Bool)
        → (if small then e.transact contract msg foo else err (exited 1)) ≡ ok sent
        → e.transact contract msg foo ≡ ok sent
    when true h' = h'
    when false h' = absurd cc

-- The informant's script ends without an error on a contract whose bounty was not claimed: the contract paid the
-- informant, for an address that it had approved and that the signature of the proof recovers to, and the
-- informant's balance grew.
pub collect_bounty_paid :
    (e : BountyPackage)
    → BountyLaws e
    → (contract next : Honeypot) (informant : Context) (enclave_address proof sig : List ℕ)
      (balance_before balance_after : ℕ)
    → contract.claimed ≡ false
    → collect_bounty e contract informant enclave_address proof sig balance_before balance_after
      ≡ ok next
    → (collected contract informant.sender ≡ next)
      × (contract.enclave_approved enclave_address ≡ true)
      × (recover e.evm (hash_data e.evm proof) sig ≡ ok enclave_address)
      × (balance_before < balance_after)
unfolding collect_bounty Honeypot.run
collect_bounty_paid e laws contract next informant address proof sig b0 b1 unclaimed ended =
    let (sent, sent_is, h1) =
      >>=-eq-ok (send_tx e contract informant (collect_call address proof sig)) _ ended in
    let (_, p1, h2) = >>=-eq-ok (assert sent.0.claimed) _ h1 in
    let (_, p2, h3) = >>=-eq-ok (assert (ltb b0 b1)) _ h2 in
    let next_is : sent.0 ≡ next = ok-injective h3 in
    let taken : sent.0.claimed ≡ true = guard-eq-ok _ _ p1 in
    let mined =
      laws.transact_lem contract sent.0 informant (collect_call address proof sig) sent.1
        (send_tx_transacted e contract informant (collect_call address proof sig) sent sent_is) in
    elim mined [
      | inl ran ↦
          let (_, _, granted, found, _, _, after) =
            collect_bounty_passed e.evm contract sent.0 informant address proof sig ran in
          (after ∙ next_is, granted, found, ltb→lt b0 b1 (guard-eq-ok _ _ p2))
      | inr same ↦
          let still : sent.0.claimed ≡ false =
            ap (λ (s : Honeypot). s.claimed) (sym same) ∙ unclaimed in
          absurd cc
    ]

-- The owner's script ends without an error, with SGX: the report that the contract stores for the address has a
-- quote that names the address, and the command accepted it, for the measurement that is the quote's own; and the
-- contract approved the address, by the owner's call, or is as it was.
pub approve_enclave_checked :
    (e : BountyPackage)
    → BountyLaws e
    → (contract next : Honeypot) (bounty_admin : Context) (address : List ℕ)
    → approve_enclave e contract bounty_admin true address ≡ ok next
    → (report quote : List ℕ) × (e.utf8_decode (contract.enclave_data address).sgx_report
        ≡ ok report)
      × (e.quote_of report ≡ ok quote)
      × (address ≡ e.to_checksum_address (take 20 (slice 368 64 quote)))
      × (e.verify_report
            (slice 112 32 quote)
            (slice 368 64 quote)
            report
            (contract.enclave_data address).ias_sig
          ≡ 0)
      × (((bounty_admin.sender ≡ contract.owner) × (approved contract address ≡ next))
          ⊎ (contract ≡ next))
unfolding approve_enclave check_report Honeypot.run
approve_enclave_checked e laws contract next admin address ended =
    let stored = contract.enclave_data address in
    let (report, report_is, h1) = >>=-eq-ok (e.utf8_decode stored.sgx_report) _ ended in
    let (_, checked, h2) = >>=-eq-ok (check_report e report stored.ias_sig address) _ h1 in
    let (quote, quote_is, c1) = >>=-eq-ok (e.quote_of report) _ checked in
    let named = e.to_checksum_address (take 20 (slice 368 64 quote)) in
    let (_, p1, c2) = >>=-eq-ok (assert (bytes_eq address named)) _ c1 in
    let returncode =
      e.verify_report (slice 112 32 quote) (slice 368 64 quote) report stored.ias_sig in
    let (sent, sent_is, h3) = >>=-eq-ok (send_tx e contract admin (approve_call address)) _ h2 in
    let next_is : sent.0 ≡ next = ok-injective h3 in
    let mined =
      laws.transact_lem contract sent.0 admin (approve_call address) sent.1
        (send_tx_transacted e contract admin (approve_call address) sent sent_is) in
    (
      report,
      quote,
      report_is,
      quote_is,
      bytes_eq→eq address named (guard-eq-ok _ _ p1),
      (==_iff returncode 0).0 (guard-eq-ok (returncode == 0) (exited returncode) c2),
      elim mined [
        | inl ran ↦
            let (by_owner, _, _, after) =
              approve_enclave_passed contract sent.0 admin address ran in
            inl (by_owner, after ∙ next_is)
        | inr same ↦ inr (same ∙ next_is)
      ],
    )
