-- ===== src/Enclave.antt =====
-- searcher/src/enclave/utils.py: commitments, the bytes of numbers, and the transactions that the scripts make.
-- web3, the random choices and the vendored curve are parameters.
pub mod Commitments
pub mod Senders
pub mod Turns
pub mod Words
pub mod Setup
mod Tests
use sting_flashbots.Base.{
  ℕ, zero, suc, ◌+◌, ◌-◌, ◌*◌, ◌/◌, ◌%◌, List, [], ◌∷◌, ◌++◌, map, Option, none, some, Bool, true,
  false, ltb, ◌==◌, length, get_elem?, Result, ok, err, index_error, zero_division, guard, not,
  or_raise, ◌>>=◌, ◌>>◌, if◌then◌else◌,
}
use sting_flashbots.Commitment.{uint256_from_str}
use sting_flashbots.Commitment.Points.{Field, ser, fromhex}
use sting_flashbots.Flashbots.{
  ByteObject, hex_bytes_object, big_endian, Web3Package, TxParams, Entry, raw_entry,
}
use sting_flashbots.Flashbots.Requests.{
  hex_number, value_or, FlashbotsOpts, Flashbots, BundleRequest, send_bundle_munger,
}

-- `bytes_to_int` and `int_to_bytes`; a number is enough fuel for its own bytes.
abbrev pub bytes_to_int : List ℕ → ℕ
bytes_to_int x = big_endian 0 x

abbrev pub low_bytes : ℕ → ℕ → List ℕ → List ℕ
low_bytes zero n bytes = bytes
low_bytes (suc fuel) n bytes =
    let longer = low_bytes fuel (n / 256) (n % 256 ∷ bytes) in if n == 0 then bytes else longer

unfoldable pub int_to_bytes : ℕ → List ℕ
int_to_bytes x = low_bytes x x []

-- The points of the vendored curve: the commitment's two generators, and the coordinates of a point, which the
-- point at infinity has not.
pub record Generators (Point : Type 0) : Type 0 where
  pub g : Point
  pub h : Point
  pub scale : ℕ → Point → Point
  pub plus : Point → Point → Point
  pub coordinates : Point → Result (ℕ × ℕ)

module _ {Point : Type 0} (f : Field) (p : Generators Point) where
  abbrev pub commitment_point : ℕ → ℕ → Point
  commitment_point x r = p.plus (p.scale x p.g) (p.scale r p.h)

  -- `bytes_to_int(hex_to_bytes(ser(C)))`
  unfoldable pub point_number : Point → Result ℕ
  point_number point = do
    xy ← p.coordinates point
    text ← ser f xy
    bytes ← fromhex text
    ok (bytes_to_int bytes)

  -- With the 32 random bytes.
  unfoldable pub make_pedersen_commitment : ℕ → List ℕ → Result (ℕ × ℕ)
  make_pedersen_commitment x random_bytes = do
    r ← uint256_from_str random_bytes
    number ← point_number (commitment_point x r)
    ok (number, r)

  unfoldable pub compute_pedersen_commitment : ℕ → ℕ → Result ℕ
  compute_pedersen_commitment x r = point_number (commitment_point x r)

pub record TransferTx : Type 0 where
  pub to : List ℕ
  pub from : List ℕ
  pub value : ℕ
  pub gas_price : ℕ
  pub gas : ℕ
  pub nonce : ℕ
  pub chain_id : ℕ

-- What the node answers, and the constants of the network; `localnet` tells the test network.
pub record Network : Type 0 where
  pub gas_price : ℕ
  pub get_transaction_count : List ℕ → ℕ
  pub get_balance : List ℕ → ℕ
  pub gas_limit : ℕ
  pub chain_id : ℕ
  pub localnet : Bool

module _ (w3 : Network) where
  unfoldable pub transfer_tx : List ℕ → List ℕ → ℕ → Option ℕ → ℕ → TransferTx
  transfer_tx sender_addr receiver_addr amt gas_price nonce_add = record {
    to = receiver_addr;
    from = sender_addr;
    value = amt;
    gas_price = value_or gas_price w3.gas_price;
    gas = w3.gas_limit;
    nonce = w3.get_transaction_count sender_addr + nonce_add;
    chain_id = w3.chain_id;
  }

  -- The transaction that the admin account signs and sends, where the balance is below the amount.
  unfoldable pub refill_ether : List ℕ → List ℕ → ℕ → Option TransferTx
  refill_ether admin_address receiver_addr amt =
      let balance = w3.get_balance receiver_addr in
      if ltb balance amt
      then some (transfer_tx admin_address receiver_addr (amt - balance) none 0)
      else none

-- One transaction, with its sender: the node before and after the refill, a receiver and an amount, and a
-- new account for a sender that is not given.
pub record Choice (Account : Type 0) : Type 0 where
  pub before : Network
  pub w3 : Network
  pub new_account : Account
  pub receiver : List ℕ
  pub amt : ℕ

module _ {Account Signed : Type 0} (address : Account → List ℕ)
    (sign_tx : TransferTx → Account → Result Signed) where
  unfoldable pub generate_tx :
      Choice Account
      → List ℕ
      → Option Account
      → Option ℕ
      → ℕ
      → Option TransferTx × TransferTx × Account
  generate_tx choice admin_address sender_argument gas_price nonce_add =
      let sender = value_or sender_argument choice.new_account in
      (
        if choice.before.localnet
            then refill_ether choice.before admin_address (address sender)
                (choice.amt + 30000000000000)
            else none,
        transfer_tx choice.w3 (address sender) choice.receiver choice.amt
            (some (value_or gas_price choice.w3.gas_price)) nonce_add,
        sender,
      )

  -- One round of `generate_signed_txs`: with senders they take turns, without them the gas price is not passed on.
  unfoldable pub generate_round :
      Choice Account
      → List ℕ
      → ℕ
      → Option (List Account)
      → Option ℕ
      → Result (Option TransferTx × TransferTx × Account)
  generate_round choice admin_address i none gas_price =
      ok (generate_tx choice admin_address none none 0)
  generate_round choice admin_address i (some senders) gas_price = do
    guard (not (length senders == 0)) zero_division
    sender ← or_raise (get_elem? senders (i % length senders)) index_error
    ok (generate_tx choice admin_address (some sender) gas_price (i / length senders))

  -- The rounds from `i` on: the refills that are sent, and the signed transactions.
  unfoldable pub generate_from :
      (ℕ → Choice Account)
      → List ℕ
      → ℕ
      → ℕ
      → Option (List Account)
      → Option ℕ
      → Result (List (Option TransferTx) × List Signed)
  generate_from choices admin_address zero i senders gas_price = ok ([], [])
  generate_from choices admin_address (suc rounds) i senders gas_price = do
    (refill, tx, sender) ← generate_round (choices i) admin_address i senders gas_price
    signed_tx ← sign_tx tx sender
    (refills, txs) ← generate_from choices admin_address rounds (suc i) senders gas_price
    ok (refill ∷ refills, signed_tx ∷ txs)

  unfoldable pub generate_signed_txs :
      (ℕ → Choice Account)
      → List ℕ
      → ℕ
      → Option (List Account)
      → Option ℕ
      → Result (List (Option TransferTx) × List Signed)
  generate_signed_txs choices admin_address num senders gas_price =
      generate_from choices admin_address num 0 senders gas_price

module _ (e : Web3Package) where
  unfoldable pub make_bundle : List (List ℕ) → List (Entry e)
  make_bundle raw_transactions = map (λ raw. raw_entry (hex_bytes_object raw)) raw_transactions

  -- With the block five after the current one where none is given. The wait that may follow is `wait` of
  -- Flashbots/Responses on the response.
  unfoldable pub send_bundle :
      Flashbots
      → (ℕ → TxParams e.Other)
      → List (Entry e)
      → List ℕ
      → ℕ
      → Option ℕ
      → Result (Flashbots × (ℕ → TxParams e.Other) × BundleRequest)
  send_bundle flashbots store bundle sender_addr block_number block =
      send_bundle_munger e flashbots store bundle (value_or block (block_number + 5)) (
        some (record {
          min_timestamp = none;
          max_timestamp = none;
          reverting_tx_hashes = none;
          replacement_uuid = none;
          signing_address = some (some sender_addr);
        }))

-- The class Transaction, a legacy transaction with its signature.
pub record Transaction : Type 0 where
  pub nonce : ℕ
  pub gas_price : ℕ
  pub gas : ℕ
  pub to : List ℕ
  pub value : ℕ
  pub data_bytes : List ℕ
  pub v : ℕ
  pub r : ℕ
  pub s : ℕ

pub record DecodedRawTx : Type 0 where
  pub raw_transaction : List ℕ
  pub hash : List ℕ
  pub r : List ℕ
  pub s : List ℕ
  pub v : ℕ

-- rlp over the fields of Transaction, keccak, and the recovery of the sender, which may raise.
pub record RawTxPackage : Type 0 where
  pub encode : Transaction → Result (List ℕ)
  pub decode : List ℕ → Result Transaction
  pub keccak : List ℕ → List ℕ
  pub recover_transaction : List ℕ → Result (List ℕ)

module _ (e : RawTxPackage) where
  unfoldable pub encode_tx : Transaction → Result (List ℕ)
  encode_tx tx = e.encode tx

  -- `raw_tx` is the list of its digits' values.
  unfoldable pub decode_raw_tx : List ℕ → Result DecodedRawTx
  decode_raw_tx raw_tx = do
    bytes ← fromhex raw_tx
    tx ← e.decode bytes
    from ← e.recover_transaction bytes
    ok (record {
      raw_transaction = bytes;
      hash = e.keccak bytes;
      r = hex_number tx.r;
      s = hex_number tx.s;
      v = tx.v;
    })
