-- ===== src/Flashbots/Waits.antt =====
-- The loops that wait for blocks.
use sting_flashbots.Base.{
  ℕ, zero, suc, ◌+◌, ◌≤◌, ◌<◌, ◌≡◌, ◌⊎◌, inl, inr, refl, subst, some, Bool, Bool-cases, true, false,
  ltb, ltb→lt, Result, ok, err, not_found, arith,
}
use sting_flashbots.Flashbots.Responses.{
  BundleResponse, PrivateTransactionResponse, wait, private_wait,
}

ltb-false : (a b : ℕ) → ltb a b ≡ false → b ≤ a
ltb-false a b h = ground arith

-- The reading is the first from `start` on that shows the target block.
abbrev IsFirst : (ℕ → ℕ) → ℕ → ℕ → ℕ → Type 0
IsFirst blocks target start reading =
    (start ≤ reading)
    × (target ≤ blocks reading)
    × ((i : ℕ) → (i < start) ⊎ (reading ≤ i) ⊎ (blocks i < target))

le-not_ltb : (a b : ℕ) → b ≤ a → ltb a b ≡ false
le-not_ltb a b h = ground arith

-- At the first reading nothing is before it.
before_or_on : (start : ℕ) (P : ℕ → Type 0) (i : ℕ) → (i < start) ⊎ (start ≤ i) ⊎ P i
before_or_on start P i = elim (Bool-cases (ltb i start)) [
  | inl less ↦ inl (ltb→lt i start less)
  | inr more ↦ inr (inl (ltb-false i start more))
]

-- What holds at `start` and after it up to the reading.
from_before :
    (start reading : ℕ) (P : ℕ → Type 0)
    → P start
    → ((i : ℕ) → (i < suc start) ⊎ (reading ≤ i) ⊎ P i)
    → (i : ℕ) → (i < start) ⊎ (reading ≤ i) ⊎ P i
from_before start reading P here before i = elim (before i) [
  | inr h ↦ inr h
  | inl h ↦ elim (Bool-cases (ltb i start)) [
    | inl less ↦ inl (ltb→lt i start less)
    | inr more ↦
        let le = ltb-false i start more in
        let same : start ≡ i = omega arith in inr (inr (subst P same here))
  ]
]

IsFirst-later :
    (blocks : ℕ → ℕ) (target start reading : ℕ)
    → blocks start < target
    → IsFirst blocks target (suc start) reading
    → IsFirst blocks target start reading
IsFirst-later blocks target start reading below (after, reached, before) =
    (omega arith, reached, from_before start reading (λ i. blocks i < target) below before)

-- A chain that shows the target block, or a later one, at a reading within the fuel: `wait` returns, at the
-- first such reading.
pub wait-IsFirst :
    (blocks : ℕ → ℕ) (response : BundleResponse) (fuel start n : ℕ)
    → n < fuel
    → response.target_block_number ≤ blocks (start + n)
    → (reading : ℕ) × (wait fuel blocks start response ≡ some reading)
      × IsFirst blocks response.target_block_number start reading
unfolding wait
wait-IsFirst blocks response zero start n h reached = absurd (omega arith)
wait-IsFirst blocks response (suc fuel) start zero h reached =
    let here : response.target_block_number ≤ blocks start =
      subst (λ i. response.target_block_number ≤ blocks i) (omega arith) reached in
    (
      start,
      rw (le-not_ltb _ _ here) refl,
      (omega arith, here, before_or_on start (λ i. blocks i < response.target_block_number)),
    )
wait-IsFirst blocks response (suc fuel) start (suc m) h reached =
    elim (Bool-cases (ltb (blocks start) response.target_block_number)) [
      | inr now ↦ (
        start,
        rw now refl,
        (
          omega arith,
          ltb-false _ _ now,
          before_or_on start (λ i. blocks i < response.target_block_number),
        ),
      )
      | inl more ↦
          let there : response.target_block_number ≤ blocks (suc start + m) =
            subst (λ i. response.target_block_number ≤ blocks i) (omega arith) reached in
          let (reading, returned, first) =
            wait-IsFirst blocks response fuel (suc start) m (omega arith) there in
          (reading, rw more returned, IsFirst-later blocks _ start reading (ltb→lt _ _ more) first)
    ]

-- What an answer to a search for the transaction may be.
abbrev IsAnswer : Result (Unit {0}) → Type 0
IsAnswer found = (found ≡ ok tt) ⊎ (found ≡ err not_found)

-- The loop goes on after a reading.
abbrev GoesOn : (ℕ → ℕ) → (ℕ → Result (Unit {0})) → ℕ → ℕ → Type 0
GoesOn blocks lookup last i = (lookup i ≡ err not_found) × (blocks i ≤ last)

-- The result of `private_wait` at a reading: the transaction is there, or the chain has passed the last block.
abbrev IsOutcome : (ℕ → ℕ) → (ℕ → Result (Unit {0})) → ℕ → ℕ → Bool → Type 0
IsOutcome blocks lookup last reading mined =
    ((mined ≡ true) × (lookup reading ≡ ok tt))
    ⊎ ((mined ≡ false) × (lookup reading ≡ err not_found) × (last < blocks reading))

-- A chain that passes the last block at a reading within the fuel, and searches that find the transaction or do
-- not: `private_wait` returns, true at a reading that finds the transaction or false at one that does not
-- and shows a block after the last, and at no reading before did it find it or see such a block.
pub private_wait_returns :
    (blocks : ℕ → ℕ) (lookup : ℕ → Result (Unit {0})) (response : PrivateTransactionResponse)
    (fuel start n : ℕ)
    → ((i : ℕ) → IsAnswer (lookup i))
    → n < fuel
    → response.max_block_number < blocks (start + n)
    → (mined : Bool) × (reading : ℕ) × (private_wait fuel blocks lookup start response
        ≡ some (ok mined))
      × (start ≤ reading)
      × IsOutcome blocks lookup response.max_block_number reading mined
      × ((i : ℕ) → (i < start) ⊎ (reading ≤ i) ⊎ GoesOn blocks lookup response.max_block_number i)
unfolding private_wait
private_wait_returns blocks lookup response zero start n answers h passed = absurd (omega arith)
private_wait_returns blocks lookup response (suc fuel) start n answers h passed =
    elim (answers start) [
      | inl found ↦ (
        true,
        start,
        rw found refl,
        omega arith,
        inl (refl, found),
        before_or_on start (GoesOn blocks lookup response.max_block_number),
      )
      | inr missing ↦ elim (Bool-cases (ltb response.max_block_number (blocks start))) [
        | inl over ↦ (
          false,
          start,
          rw (missing, over) refl,
          omega arith,
          inr (refl, missing, ltb→lt _ _ over),
          before_or_on start (GoesOn blocks lookup response.max_block_number),
        )
        | inr more ↦
            let (m, n_is) = positive n more passed in
            let there : response.max_block_number < blocks (suc start + m) =
              subst (λ i. response.max_block_number < blocks i) (omega arith) passed in
            let (mined, reading, returned, after, outcome, before) =
              private_wait_returns blocks lookup response fuel (suc start) m answers (omega arith)
                there in
            (
              mined,
              reading,
              rw (missing, more) returned,
              omega arith,
              outcome,
              from_before start reading (GoesOn blocks lookup response.max_block_number)
                  (missing, ltb-false _ _ more) before,
            )
      ]
    ]
  where
    positive :
        (n : ℕ)
        → ltb response.max_block_number (blocks start) ≡ false
        → response.max_block_number < blocks (start + n)
        → (m : ℕ) × (n ≡ suc m)
    positive zero more passed =
        let here : response.max_block_number < blocks start =
          subst (λ i. response.max_block_number < blocks i) (omega arith) passed in
        let le = ltb-false _ _ more in absurd (omega arith)
    positive (suc m) more passed = (m, refl)
