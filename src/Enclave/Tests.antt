-- ===== src/Enclave/Tests.antt =====
-- The theorems on commitments, bytes and senders at concrete inputs. The points are (2, 6) and its negative (2, 1).
use sting_flashbots.Enclave.Setup.{get_web3, get_web3_returns}
use sting_flashbots.Base.{
  zero, suc, ◌⊎◌, Error, err, Result, ◌≤◌, ◌+◌, ℕ, ◌+◌, ◌*◌, ◌%◌, ◌≡◌, refl, List, [], ◌∷◌, Option,
  none, some, true, ◌==◌, length, get_elem?, arith, Result, ok, err, if◌then◌else◌,
}
use sting_flashbots.Commitment.{uint256_to_str, pack_words}
use sting_flashbots.Commitment.Points.{ser, fromhex, to_hex}
use sting_flashbots.Commitment.Tests.{small_field, small_field-laws}
use sting_flashbots.Enclave.{
  Generators, TransferTx, Network, Choice, point_number, compute_pedersen_commitment, transfer_tx,
  refill_ether, generate_tx, generate_round, generate_from, generate_signed_txs,
}
use sting_flashbots.Enclave.Commitments.{compute_pedersen_commitment-coordinates}
use sting_flashbots.Enclave.Turns.{turn_count, AreDistinct}
use sting_flashbots.Enclave.Senders.{generate_signed_txs-IsTurn}

abbrev small_points : Generators (ℕ × ℕ)
small_points = record {
  g = (2, 6);
  h = (2, 1);
  scale = λ n point. if n % 2 == 0 then (2, 1) else point;
  plus = λ a b. (2, a.1 * b.1 % 7);
  coordinates = λ point. ok point;
}

abbrev small_number : ℕ
small_number = elim (compute_pedersen_commitment small_field small_points 3 5) [
  | err exception ↦ 0
  | ok n ↦ n
]

number_made : compute_pedersen_commitment small_field small_points 3 5 ≡ ok small_number
unfolding compute_pedersen_commitment point_number ser fromhex to_hex uint256_to_str pack_words
number_made = refl

other_number_made : compute_pedersen_commitment small_field small_points 7 4 ≡ ok small_number
unfolding compute_pedersen_commitment point_number ser fromhex to_hex uint256_to_str pack_words
other_number_made = refl

compute_pedersen_commitment-coordinates_example : ◌≡◌ {A = ℕ × ℕ} (2, 6) (2, 6)
compute_pedersen_commitment-coordinates_example =
    compute_pedersen_commitment-coordinates small_field small_field-laws small_points 3 5 7 4
      small_number (2, 6) (2, 6) refl (omega arith) (omega arith) refl refl (omega arith)
      (omega arith) refl number_made other_number_made

abbrev small_network : Network
small_network = record {
  gas_price = 7;
  get_transaction_count = λ a. 10 * length a;
  get_balance = λ a. 0;
  gas_limit = 25000;
  chain_id = 32382;
  localnet = true;
}

abbrev small_choices : ℕ → Choice (List ℕ)
small_choices i = record {
  before = small_network;
  w3 = small_network;
  new_account = [];
  receiver = i ∷ [];
  amt = i;
}

abbrev small_sign : TransferTx → List ℕ → Result (List ℕ)
small_sign tx sender = ok (tx.nonce ∷ sender)

abbrev two_senders : List (List ℕ)
two_senders = (1 ∷ []) ∷ (2 ∷ 2 ∷ []) ∷ []

abbrev small_txs : List (List ℕ)
small_txs = (10 ∷ 1 ∷ []) ∷ (20 ∷ 2 ∷ 2 ∷ []) ∷ (11 ∷ 1 ∷ []) ∷ (21 ∷ 2 ∷ 2 ∷ []) ∷ []

abbrev small_refills : List (Option TransferTx)
small_refills =
    elim (generate_signed_txs (λ a. a) small_sign small_choices (9 ∷ []) 4 (some two_senders)
      none) [ err exception ↦ [] | ok result ↦ result.0 ]

txs_generated :
    generate_signed_txs (λ a. a) small_sign small_choices (9 ∷ []) 4 (some two_senders) none
    ≡ ok (small_refills, small_txs)
unfolding generate_signed_txs generate_from generate_round generate_tx refill_ether transfer_tx
txs_generated = refl

senders_distinct : AreDistinct (λ a. a) two_senders
senders_distinct zero zero a b at_j at_k same = refl
senders_distinct zero (suc zero) a b at_j at_k same = cc
senders_distinct (suc zero) zero a b at_j at_k same = cc
senders_distinct (suc zero) (suc zero) a b at_j at_k same = refl
senders_distinct (suc (suc j)) k a b at_j at_k same = cc
senders_distinct j (suc (suc k)) a b at_j at_k same = cc

generate_signed_txs-IsTurn_example :
    (tx : TransferTx) × (sender : List ℕ) × (s : List ℕ) × (get_elem? small_txs 3 ≡ some s)
    × (small_sign tx sender ≡ ok s)
    × ((get_elem? two_senders (3 % 2) ≡ some sender)
        × (tx.from ≡ sender)
        × (tx.nonce ≡ 10 * length sender + turn_count (λ a. a) two_senders sender 3))
generate_signed_txs-IsTurn_example =
    generate_signed_txs-IsTurn (λ a. a) small_sign small_choices (9 ∷ []) 4 3 two_senders none
      (λ a. 10 * length a) small_refills small_txs senders_distinct (λ j a. refl) (omega arith)
      txs_generated

abbrev first_attempt : ℕ → Result ℕ
first_attempt i = ok 22

-- The block number grows from 22 to 26.
get_web3_returns_example :
    ((last : ℕ) × (get_web3 5 first_attempt (λ i. i + 23) ≡ ok (some last)) × (26 ≤ last))
    ⊎ ((exception : Error) × (first_attempt 0 ≡ err exception)
        × (get_web3 5 first_attempt (λ i. i + 23) ≡ err exception))
get_web3_returns_example = get_web3_returns 3 first_attempt (λ i. i + 23) (omega arith)
