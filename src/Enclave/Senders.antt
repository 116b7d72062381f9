-- ===== src/Enclave/Senders.antt =====
-- The senders that take turns in `generate_signed_txs`.
use sting_flashbots.Base.{
  ℕ, zero, suc, ◌+◌, ◌/◌, ◌%◌, ◌<◌, ◌≡◌, refl, sym, ap, ◌∙◌, subst, List, [], ◌∷◌, Option, none,
  some, not, ◌==◌, length, get_elem?, arith, Result, ok, index_error, zero_division, guard,
  or_raise, >>=-eq-ok, ok-injective,
}
use sting_flashbots.Enclave.Turns.{turn_count, AreDistinct, turn_count_lem}
use sting_flashbots.Enclave.{
  TransferTx, Choice, generate_tx, transfer_tx, generate_round, generate_from, generate_signed_txs,
}

module _ {Account Signed : Type 0} (address : Account → List ℕ)
    (sign_tx : TransferTx → Account → Result Signed) where
  -- What a round with senders signs: a transaction of the sender whose turn it is.
  abbrev pub IsCounted : (List ℕ → ℕ) → List Account → ℕ → TransferTx → Account → Type 0
  IsCounted counts senders i tx sender =
      (get_elem? senders (i % length senders) ≡ some sender)
      × (tx.from ≡ address sender)
      × (tx.nonce ≡ counts (address sender) + i / length senders)

  raised :
      (found : Option Account) (sender : Account)
      → or_raise found index_error ≡ ok sender
      → found ≡ some sender
  raised none sender h = cc
  raised (some s) sender h = cc

  round-IsCounted :
      (choice : Choice Account) (admin : List ℕ) (i : ℕ) (senders : List Account)
      (gas_price : Option ℕ) (counts : List ℕ → ℕ) (made : Option TransferTx × TransferTx × Account)
      → ((a : List ℕ) → choice.w3.get_transaction_count a ≡ counts a)
      → generate_round address sign_tx choice admin i (some senders) gas_price ≡ ok made
      → IsCounted counts senders i made.1 made.2
  unfolding generate_round generate_tx transfer_tx
  round-IsCounted choice admin i senders gas_price counts made steady h =
      let (_, _, h1) = >>=-eq-ok (guard (not (length senders == 0)) zero_division) _ h in
      let (sender, found, h2) =
        >>=-eq-ok (or_raise (get_elem? senders (i % length senders)) index_error) _ h1 in
      subst (λ (q : Option TransferTx × TransferTx × Account). IsCounted counts senders i q.1 q.2)
        (ok-injective h2)
        (raised _ sender found, refl, ap (λ n. n + i / length senders) (steady (address sender)))

  loop-IsCounted :
      (choices : ℕ → Choice Account) (admin : List ℕ) (rounds start k : ℕ) (senders : List Account)
      (gas_price : Option ℕ) (counts : List ℕ → ℕ) (refills : List (Option TransferTx))
      (signed : List Signed)
      → ((i : ℕ) (a : List ℕ) → (choices i).w3.get_transaction_count a ≡ counts a)
      → k < rounds
      → generate_from address sign_tx choices admin rounds start (some senders) gas_price
        ≡ ok (refills, signed)
      → (tx : TransferTx) × (sender : Account) × (s : Signed) × (get_elem? signed k ≡ some s)
        × (sign_tx tx sender ≡ ok s)
        × IsCounted counts senders (start + k) tx sender
  unfolding generate_from
  loop-IsCounted choices admin zero start k senders gas_price counts refills signed steady h made =
      absurd (omega arith)
  loop-IsCounted choices admin (suc rounds) start zero senders gas_price counts refills signed
        steady h made =
      let (round, round_is, h1) =
        >>=-eq-ok
          (generate_round address sign_tx (choices start) admin start (some senders) gas_price) _
          made in
      let (s, s_is, h2) = >>=-eq-ok (sign_tx round.1 round.2) _ h1 in
      let (rest, _, h3) =
        >>=-eq-ok
          (generate_from address sign_tx choices admin rounds (suc start) (some senders) gas_price)
          _ h2 in
      let list_is : s ∷ rest.1 ≡ signed =
        ap (λ (q : List (Option TransferTx) × List Signed). q.1) (ok-injective h3) in
      let turn =
        round-IsCounted (choices start) admin start senders gas_price counts round (steady start)
          round_is in
      (
        round.1,
        round.2,
        s,
        sym (ap (λ (l : List Signed). get_elem? l 0) list_is),
        s_is,
        subst (λ i. IsCounted counts senders i round.1 round.2) (omega arith) turn,
      )
  loop-IsCounted choices admin (suc rounds) start (suc k) senders gas_price counts refills signed
        steady h made =
      let (round, round_is, h1) =
        >>=-eq-ok
          (generate_round address sign_tx (choices start) admin start (some senders) gas_price) _
          made in
      let (s, s_is, h2) = >>=-eq-ok (sign_tx round.1 round.2) _ h1 in
      let (rest, rest_is, h3) =
        >>=-eq-ok
          (generate_from address sign_tx choices admin rounds (suc start) (some senders) gas_price)
          _ h2 in
      let list_is : s ∷ rest.1 ≡ signed =
        ap (λ (q : List (Option TransferTx) × List Signed). q.1) (ok-injective h3) in
      let (tx, sender, t, t_at, t_is, turn) =
        loop-IsCounted choices admin rounds (suc start) k senders gas_price counts rest.0 rest.1
          steady (omega arith) rest_is in
      (
        tx,
        sender,
        t,
        sym (ap (λ (l : List Signed). get_elem? l (suc k)) list_is) ∙ t_at,
        t_is,
        subst (λ i. IsCounted counts senders i tx sender) (omega arith) turn,
      )

-- The transaction of round `i`: of the sender whose turn it is, with a nonce that counts the sender's turns.
abbrev pub IsTurn :
    {Account : Type 0}
    → (Account → List ℕ)
    → (List ℕ → ℕ)
    → List Account
    → ℕ
    → TransferTx
    → Account
    → Type 0
IsTurn address counts senders i tx sender =
    (get_elem? senders (i % length senders) ≡ some sender)
    × (tx.from ≡ address sender)
    × (tx.nonce ≡ counts (address sender) + turn_count address senders (address sender) i)

-- Transactions that are generated for senders with different addresses, whose numbers of transactions on the chain
-- do not change meanwhile: the `i`-th is signed by the sender whose turn it is, from that sender's address, with
-- the nonce that is the sender's number on the chain and the sender's turns before it.
pub generate_signed_txs-IsTurn :
    {Account Signed : Type 0} (address : Account → List ℕ)
    (sign_tx : TransferTx → Account → Result Signed) (choices : ℕ → Choice Account) (admin : List ℕ)
    (num i : ℕ) (senders : List Account) (gas_price : Option ℕ) (counts : List ℕ → ℕ)
    (refills : List (Option TransferTx)) (signed : List Signed)
    → AreDistinct address senders
    → ((j : ℕ) (a : List ℕ) → (choices j).w3.get_transaction_count a ≡ counts a)
    → i < num
    → generate_signed_txs address sign_tx choices admin num (some senders) gas_price
      ≡ ok (refills, signed)
    → (tx : TransferTx) × (sender : Account) × (s : Signed) × (get_elem? signed i ≡ some s)
      × (sign_tx tx sender ≡ ok s)
      × IsTurn address counts senders i tx sender
unfolding generate_signed_txs
generate_signed_txs-IsTurn address sign_tx choices admin num i senders gas_price counts refills
      signed distinct steady h made =
    let (tx, sender, s, at, is, turn) =
      loop-IsCounted address sign_tx choices admin num 0 i senders gas_price counts refills signed
        steady h made in
    let (found, from, nonce) =
      subst (λ j. IsCounted address sign_tx counts senders j tx sender) (omega arith) turn in
    (
      tx,
      sender,
      s,
      at,
      is,
      (
        found,
        from,
        nonce
            ∙ ap (λ n. counts (address sender) + n)
                (sym (
                  turn_count_lem address senders distinct
                    (some_sender senders (i % length senders) sender found) i sender found)),
      ),
    )
  where
    some_sender :
        {A : Type 0} (xs : List A) (i : ℕ) (x : A) → get_elem? xs i ≡ some x → 0 < length xs
    some_sender [] i x found = cc
    some_sender (y ∷ ys) i x found = omega arith
