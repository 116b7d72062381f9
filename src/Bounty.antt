-- ===== src/Bounty.antt =====
-- searcher/src/setup_bounty.py: the scripts of the bounty's owner and of the informant, over the contract of
-- Honeypot. The files that a script reads are arguments and those that it writes its result. web3's `transact`,
-- json, base64 and the command that verifies a report are parameters.
pub mod Payments
mod Tests
use sting_flashbots.Base.{
  ℕ, ◌+◌, ◌*◌, Bool, true, false, List, [], ◌∷◌, ◌++◌, map, Option, none, some, ltb, ◌==◌, bytes_eq,
  take, drop, Result, ok, err, exited, assert, guard, ◌>>=◌, ◌>>◌, if◌then◌else◌,
}
use sting_flashbots.Honeypot.{
  Evm, Honeypot, Context, Call, submit_call, approve_call, collect_call, constructor_call,
}
use sting_flashbots.Enclave.{TransferTx, Choice, generate_tx, generate_signed_txs}

pub record BountyPackage : Type 1 where
  pub evm : Evm
  pub transact : Honeypot → Context → Call evm → Result (Honeypot × ℕ)
  pub estimate_gas : Honeypot → Call evm → Result ℕ
  pub quote_of : List ℕ → Result (List ℕ)
  pub b64decode : List ℕ → Result (List ℕ)
  pub utf8_bytes : List ℕ → List ℕ
  pub utf8_decode : List ℕ → Result (List ℕ)
  pub to_checksum_address : List ℕ → List ℕ
  pub verify_report : List ℕ → List ℕ → List ℕ → List ℕ → ℕ

-- ias.report and ias.sig, or the texts in their place where there is no SGX.
pub record Report : Type 0 where
  pub report : List ℕ
  pub ias_sig_b64 : List ℕ

-- The texts `ias report` and `ias sig`.
abbrev pub no_report : List ℕ
no_report = 105 ∷ 97 ∷ 115 ∷ 32 ∷ 114 ∷ 101 ∷ 112 ∷ 111 ∷ 114 ∷ 116 ∷ []

abbrev pub no_sig : List ℕ
no_sig = 105 ∷ 97 ∷ 115 ∷ 32 ∷ 115 ∷ 105 ∷ 103 ∷ []

-- Bytes `first` to `last` of a quote.
abbrev pub slice : ℕ → ℕ → List ℕ → List ℕ
slice first size quote = take size (drop first quote)

module _ (e : BountyPackage) where
  -- `send_tx`, which sends also where the estimate of the gas raised, and returns the gas that was used.
  unfoldable pub send_tx : Honeypot → Context → Call e.evm → Result (Honeypot × ℕ)
  send_tx contract msg foo =
      let gas_estimate : ℕ = elim (e.estimate_gas contract foo) [
        | err exception ↦ 0
        | ok gas ↦ gas
      ] in
      if ltb gas_estimate 10000000 then e.transact contract msg foo else err (exited 1)

  -- The report and the signature that are submitted.
  unfoldable pub read_report : Bool → Report → List ℕ → Result (List ℕ × List ℕ)
  read_report false files enclave_address = ok (no_report, no_sig)
  read_report true files enclave_address = do
    quote ← e.quote_of files.report
    ias_sig ← e.b64decode files.ias_sig_b64
    assert (bytes_eq enclave_address (e.to_checksum_address (slice 368 20 quote)))
    ok (files.report, ias_sig)

  unfoldable pub submit_enclave : Honeypot → Context → Bool → Report → List ℕ → Result Honeypot
  submit_enclave contract informant sgx files enclave_address = do
    (report, ias_sig) ← read_report sgx files enclave_address
    (submitted, gas) ←
        send_tx contract informant (submit_call enclave_address (e.utf8_bytes report) ias_sig)
    ok submitted

  -- The checks of a report that the contract stores; the measurement that is approved is the report's own.
  unfoldable pub check_report : List ℕ → List ℕ → List ℕ → Result (Unit {0})
  check_report report ias_sig contract_enclave_addr = do
    quote ← e.quote_of report
    let mrenclave = slice 112 32 quote
    let report_data = slice 368 64 quote
    let enclave_address = e.to_checksum_address (take 20 report_data)
    assert (bytes_eq contract_enclave_addr enclave_address)
    let returncode = e.verify_report mrenclave report_data report ias_sig
    guard (returncode == 0) (exited returncode)

  unfoldable pub approve_enclave : Honeypot → Context → Bool → List ℕ → Result Honeypot
  approve_enclave contract bounty_admin sgx contract_enclave_addr = do
    let sgx_data = contract.enclave_data contract_enclave_addr
    report ← e.utf8_decode sgx_data.sgx_report
    if sgx then check_report report sgx_data.ias_sig contract_enclave_addr else ok tt
    (approved, gas) ← send_tx contract bounty_admin (approve_call contract_enclave_addr)
    ok approved

  -- With the informant's balances before and after.
  unfoldable pub collect_bounty :
      Honeypot → Context → List ℕ → List ℕ → List ℕ → ℕ → ℕ → Result Honeypot
  collect_bounty contract informant enclave_address proof sig balance_before balance_after = do
    (collected, gas) ← send_tx contract informant (collect_call enclave_address proof sig)
    assert collected.claimed
    assert (ltb balance_before balance_after)
    ok collected

  -- The contract's state and the address that is written for the other scripts.
  unfoldable pub deploy_contract : List ℕ → ℕ → List ℕ → Honeypot × List ℕ
  deploy_contract admin_addr bounty_amt contract_address =
      (constructor_call admin_addr bounty_amt, contract_address)

-- The network's constants: those of Sepolia, or of the test network.
pub record Constants : Type 0 where
  pub chain_id : ℕ
  pub localnet : Bool
  pub pof_txs : ℕ
  pub bounty_amt : ℕ
  pub gas_mul : ℕ

abbrev pub constants_of : Bool → Constants
constants_of true = record {
  chain_id = 11155111;
  localnet = false;
  pof_txs = 25;
  bounty_amt = 6000000000;
  gas_mul = 100000;
}
constants_of false = record {
  chain_id = 32382;
  localnet = true;
  pof_txs = 5;
  bounty_amt = 150000000000000;
  gas_mul = 10;
}

module _ {Account Signed : Type 0} (address : Account → List ℕ)
    (sign_tx : TransferTx → Account → Result Signed) (raw : Signed → List ℕ)
    (get_account : List ℕ → Result Account) where
  -- The accounts of the keys in order.
  unfoldable pub get_accounts : List (List ℕ) → Result (List Account)
  get_accounts [] = ok []
  get_accounts (key ∷ keys) = do
    account ← get_account key
    accounts ← get_accounts keys
    ok (account ∷ accounts)

  abbrev pub senders_of : Option (List (List ℕ)) → Result (Option (List Account))
  senders_of none = ok none
  senders_of (some keys) = do accounts ← get_accounts keys; ok (some accounts)

  -- With the keys of POF_KEYS, which an empty text has not.
  unfoldable pub private_order_flow :
      (ℕ → Choice Account)
      → List ℕ
      → ℕ
      → Option (List (List ℕ))
      → ℕ
      → ℕ
      → Result (List (Option TransferTx) × List Signed)
  private_order_flow choices admin_address num_txs keys gas_price gas_mul = do
    senders ← senders_of keys
    generate_signed_txs address sign_tx choices admin_address num_txs senders
        (some (gas_price * gas_mul))

  -- The signed transactions of the bundle and the unsigned stinger.
  unfoldable pub generate_bundle :
      Constants
      → Choice Account
      → (ℕ → Choice Account)
      → List ℕ
      → Option (List (List ℕ))
      → List ℕ
      → ℕ
      → Result (List (List ℕ) × TransferTx)
  generate_bundle constants choice choices admin_address keys stinger_key gas_price = do
    stinger_sender ← get_account stinger_key
    let (refill, sting_tx, sender) =
        generate_tx address sign_tx choice admin_address (some stinger_sender)
          (some (gas_price * constants.gas_mul)) 0
    (refills, bundle_txs) ←
        private_order_flow choices admin_address constants.pof_txs keys gas_price constants.gas_mul
    ok (map raw bundle_txs, sting_tx)
