-- ===== src/Bounty/Tests.antt =====
-- The scripts on a small contract: the owner approves a report, the informant collects the bounty.
use sting_flashbots.Base.{
  ℕ, ◌≡◌, ◌<◌, ◌⊎◌, inl, inr, refl, ap, List, [], ◌∷◌, true, bytes_eq, take, replicate, Result, ok,
  err, ok-injective, if◌then◌else◌,
}
use sting_flashbots.Ecdsa.{encode_raw_public_key}
use sting_flashbots.Stinger.Tests.{evidence_result}
use sting_flashbots.Honeypot.{Honeypot, Context, Call, constructor_call, hash_data, recover, run}
use sting_flashbots.Honeypot
use sting_flashbots.Honeypot.Calls.{submitted, approved, collected}
use sting_flashbots.Honeypot.Tests.{
  small_evm, small_msg, ready, enclave_address, owner, bounty_paid,
}
use sting_flashbots.Bounty.{
  BountyPackage, slice, send_tx, check_report, approve_enclave, collect_bounty,
}
use sting_flashbots.Bounty.Payments.{BountyLaws, collect_bounty_paid, approve_enclave_checked}

-- What a block makes of a call, and the gas.
abbrev mined : Honeypot → Result Honeypot → Honeypot × ℕ
mined contract (err exception) = (contract, 21000)
mined contract (ok next) = (next, 21000)

abbrev quote : List ℕ
quote = replicate 432 9

abbrev small_bounty : BountyPackage
small_bounty = record {
  evm = small_evm;
  transact = λ contract msg foo. ok (mined contract (run small_evm contract msg foo));
  estimate_gas = λ contract foo. ok 50000;
  quote_of = λ report. ok report;
  b64decode = λ text. ok text;
  utf8_bytes = λ text. text;
  utf8_decode = λ bytes. ok bytes;
  to_checksum_address = λ bytes. if bytes_eq bytes (replicate 20 9) then enclave_address else [];
  verify_report =
      λ measurement data_bytes report sig. if bytes_eq measurement (replicate 32 9) then 0 else 1;
}

mined_cases :
    (contract next : Honeypot) (result : Result Honeypot) (gas : ℕ)
    → mined contract result ≡ (next, gas)
    → (result ≡ ok next) ⊎ (contract ≡ next)
mined_cases contract next (err exception) gas h = inr (ap (λ (q : Honeypot × ℕ). q.0) h)
mined_cases contract next (ok after) gas h = inl (ap (λ (q : Honeypot × ℕ). ok q.0) h)

small_bounty-laws : BountyLaws small_bounty
small_bounty-laws = record {
  transact_lem = λ contract next msg foo gas h.
      mined_cases contract next (run small_evm contract msg foo) gas (ok-injective h);
}

collected_ended :
    collect_bounty small_bounty ready small_msg enclave_address evidence_result.0 evidence_result.1
      5 7
    ≡ ok (collected ready owner)
unfolding collect_bounty send_tx run
collected_ended = rw bounty_paid refl

collect_bounty_paid_example :
    (collected ready owner ≡ collected ready owner)
    × (ready.enclave_approved enclave_address ≡ true)
    × (recover small_evm (hash_data small_evm evidence_result.0) evidence_result.1
        ≡ ok enclave_address)
    × (5 < 7)
unfolding constructor_call
collect_bounty_paid_example =
    collect_bounty_paid small_bounty small_bounty-laws ready (collected ready owner) small_msg
      enclave_address evidence_result.0 evidence_result.1 5 7 refl collected_ended

abbrev stored : Honeypot
stored = submitted (constructor_call owner 10) enclave_address quote (6 ∷ [])

approved_ended :
    approve_enclave small_bounty stored small_msg true enclave_address
    ≡ ok (approved stored enclave_address)
unfolding approve_enclave check_report send_tx run Honeypot.approve_enclave constructor_call
    encode_raw_public_key
approved_ended = refl

approve_enclave_checked_example :
    (report quote' : List ℕ) × (ok (stored.enclave_data enclave_address).sgx_report ≡ ok report)
    × (ok report ≡ ok quote')
    × (enclave_address ≡ small_bounty.to_checksum_address (take 20 (slice 368 64 quote')))
    × (small_bounty.verify_report
          (slice 112 32 quote')
          (slice 368 64 quote')
          report
          (stored.enclave_data enclave_address).ias_sig
        ≡ 0)
    × (((owner ≡ stored.owner)
          × (approved stored enclave_address ≡ approved stored enclave_address))
        ⊎ (stored ≡ approved stored enclave_address))
approve_enclave_checked_example =
    approve_enclave_checked small_bounty small_bounty-laws stored (approved stored enclave_address)
      small_msg enclave_address approved_ended
