-- ===== src/Enclave/Setup.antt =====
-- searcher/src/enclave/utils.py: the connection to the builder, and the transactions that call a contract. web3 is a
-- parameter: its answers are functions of the number of calls made before.
use sting_flashbots.Base.{
  ℕ, zero, suc, ◌+◌, ◌≤◌, ◌≡◌, ◌⊎◌, refl, inl, inr, ltb, ◌==◌, false, Bool-cases, List, ap, subst,
  Result-cases, Option, none, some, Error, Result, ok, err, ◌>>=◌, if◌then◌else◌, arith,
}

-- The loop of `get_web3` until block 26, from the reading `i` on.
unfoldable pub wait_block : ℕ → (ℕ → ℕ) → ℕ → ℕ → Option ℕ
wait_block zero readings i block = none
wait_block (suc fuel) readings i block =
    let rest = wait_block fuel readings (suc i) (readings i) in
    if ltb block 26 then rest else some block

-- A first attempt that raises is not repeated: the handler raises its exception again.
unfoldable pub get_web3 : ℕ → (ℕ → Result ℕ) → (ℕ → ℕ) → Result (Option ℕ)
get_web3 fuel attempts readings = do block ← attempts 0; ok (wait_block fuel readings 0 block)

-- The parameters of a call that `build_tx` fills in.
pub record CallParams : Type 0 where
  pub from : List ℕ
  pub gas : ℕ
  pub gas_price : ℕ
  pub value : ℕ
  pub nonce : ℕ

-- What the node answers, and the functions of web3.
pub record CallPackage (Tx Signed Receipt : Type 0) : Type 0 where
  pub gas_limit : ℕ
  pub gas_price : ℕ
  pub get_transaction_count : List ℕ → ℕ
  pub build_transaction : CallParams → Result Tx
  pub sign_tx : Tx → Result Signed
  pub send_raw_transaction : Signed → Result (Unit {0})
  pub wait_for_transaction_receipt : Signed → Result Receipt

module _ {Tx Signed Receipt : Type 0} (e : CallPackage Tx Signed Receipt) where
  -- A nonce of 0 is taken for none.
  unfoldable pub build_tx : List ℕ → ℕ → ℕ → Result Tx
  build_tx account_addr value nonce = e.build_transaction (record {
    from = account_addr;
    gas = e.gas_limit;
    gas_price = e.gas_price;
    value = value;
    nonce = if nonce == 0 then e.get_transaction_count account_addr else nonce;
  })

  unfoldable pub send_signed : Signed → Result Receipt
  send_signed signed_tx = do
    sent ← e.send_raw_transaction signed_tx
    e.wait_for_transaction_receipt signed_tx

  unfoldable pub transact : List ℕ → ℕ → Result Receipt
  transact account_addr value = do
    tx ← build_tx account_addr value 0
    signed_tx ← e.sign_tx tx
    send_signed signed_tx

wait_block_done :
    (fuel : ℕ) (readings : ℕ → ℕ) (i block : ℕ)
    → ltb block 26 ≡ false
    → (last : ℕ) × (wait_block (suc fuel) readings i block ≡ some last) × (26 ≤ last)
unfolding wait_block
wait_block_done fuel readings i block late = (block, rw late refl, ground arith)

-- A reading of at least 26 after `more` others.
wait_block_returns :
    (more : ℕ) (readings : ℕ → ℕ) (i block : ℕ)
    → 26 ≤ readings (i + more)
    → (last : ℕ) × (wait_block (suc (suc more)) readings i block ≡ some last) × (26 ≤ last)
unfolding wait_block
wait_block_returns zero readings i block high = elim (Bool-cases (ltb block 26)) [
  | inr late ↦ wait_block_done 1 readings i block late
  | inl early ↦
      let same : readings (i + 0) ≡ readings i = ap readings (omega arith) in
      let late : ltb (readings i) 26 ≡ false = ground (arith, same, high) in
      rw early (wait_block_done 0 readings (suc i) (readings i) late)
]
wait_block_returns (suc more) readings i block high = elim (Bool-cases (ltb block 26)) [
  | inr late ↦ wait_block_done (suc (suc more)) readings i block late
  | inl early ↦
      let same : readings (i + suc more) ≡ readings (suc i + more) = ap readings (omega arith) in
      rw early
        (wait_block_returns more readings (suc i) (readings i) (subst (λ n. 26 ≤ n) same high))
]

-- Where the first attempt gives a block and the node's reading number `more` is at least 26, the connection is
-- returned, with fuel for the readings, behind a block that is at least 26; where the first attempt raises, its
-- exception is raised, whatever later attempts would give.
pub get_web3_returns :
    (more : ℕ) (attempts : ℕ → Result ℕ) (readings : ℕ → ℕ)
    → 26 ≤ readings more
    → ((last : ℕ) × (get_web3 (suc (suc more)) attempts readings ≡ ok (some last)) × (26 ≤ last))
      ⊎ ((exception : Error) × (attempts 0 ≡ err exception)
          × (get_web3 (suc (suc more)) attempts readings ≡ err exception))
unfolding get_web3
get_web3_returns more attempts readings high = elim (Result-cases (attempts 0)) [
  | inl (block, found) ↦
      let (last, returned, late) =
        wait_block_returns more readings 0 block
          (subst (λ n. 26 ≤ readings n) (omega arith) high) in
      inl (last, rw (found, returned) refl, late)
  | inr (exception, raised) ↦ inr (exception, raised, rw raised refl)
]
