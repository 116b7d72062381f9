-- ===== src/Honeypot.antt =====
-- chain/solidity/Honeypot.sol: the contract that holds the bounty. An address is a byte string, a mapping a
-- function. The EVM's `keccak256`, `ecrecover` and `blockhash`, the library RLPReader and whether a receiver takes
-- the ether are parameters.
pub mod Texts
pub mod Calls
pub mod History
pub mod Winners
pub mod Payout
pub mod Tests
use sting_flashbots.Base.{
  ℕ, zero, suc, ◌+◌, ◌-◌, ◌/◌, ◌%◌, Bool, true, false, not, List, [], ◌∷◌, ◌++◌, leb, ltb, ◌==◌,
  bytes_eq, length, get_elem?, take, drop, replicate, Result, ok, err, reverted, Reason, only_owner,
  already_requested, already_approved, empty_report, empty_signature, not_requested,
  already_claimed, not_approved, incorrect_signature, invalid_length, invalid_s, invalid_signature,
  no_such_index, hash_mismatch, transfer_failed, guard, or_raise, ◌>>=◌, ◌>>◌, if◌then◌else◌,
}
use sting_flashbots.Flashbots.{big_endian}

pub record Evm : Type 1 where
  pub RLPItem : Type 0
  pub keccak256 : List ℕ → List ℕ
  pub ecrecover : List ℕ → ℕ → ℕ → ℕ → List ℕ
  pub zero_address : List ℕ
  pub to_list : List ℕ → Result (List RLPItem)
  pub to_uint : RLPItem → Result ℕ
  pub to_bytes : RLPItem → Result (List ℕ)
  pub accepts : List ℕ → Bool

pub record EnclaveData : Type 0 where
  pub sgx_report : List ℕ
  pub ias_sig : List ℕ

-- The storage, the contract's ether, and the winners of the events `BountyClaimed`, the last one first.
pub record Honeypot : Type 0 where
  pub owner : List ℕ
  pub bounty : ℕ
  pub claimed : Bool
  pub enclave_requested : List ℕ → Bool
  pub enclave_approved : List ℕ → Bool
  pub enclave_data : List ℕ → EnclaveData
  pub balance : ℕ
  pub winners : List (List ℕ)

-- `msg.sender`, and the block hashes at the time of a call.
pub record Context : Type 0 where
  pub sender : List ℕ
  pub blockhash : ℕ → List ℕ

abbrev pub set_entry {ℓ} : {A : Type ℓ} → (List ℕ → A) → List ℕ → A → List ℕ → A
set_entry mapping key value asked = if bytes_eq asked key then value else mapping asked

abbrev pub require : Bool → Reason → Result (Unit {0})
require holds reason = guard holds (reverted reason)

unfoldable pub constructor_call : List ℕ → ℕ → Honeypot
constructor_call sender value = record {
  owner = sender;
  bounty = value;
  claimed = false;
  enclave_requested = λ address. false;
  enclave_approved = λ address. false;
  enclave_data = λ address. record { sgx_report = []; ias_sig = [] };
  balance = value;
  winners = [];
}

unfoldable pub submit_enclave : Honeypot → List ℕ → List ℕ → List ℕ → Result Honeypot
submit_enclave self enclave_addr sgx_report ias_sig = do
  require (not (self.enclave_requested enclave_addr)) already_requested
  require (not (self.enclave_approved enclave_addr)) already_approved
  require (ltb 0 (length sgx_report)) empty_report
  require (ltb 0 (length ias_sig)) empty_signature
  ok (record self {
    enclave_data =
        set_entry self.enclave_data enclave_addr
          (record { sgx_report = sgx_report; ias_sig = ias_sig });
    enclave_requested = set_entry self.enclave_requested enclave_addr true;
  })

unfoldable pub approve_enclave : Honeypot → Context → List ℕ → Result Honeypot
approve_enclave self msg enclave_addr = do
  require (bytes_eq msg.sender self.owner) only_owner
  require (self.enclave_requested enclave_addr) not_requested
  require (not (self.enclave_approved enclave_addr)) already_approved
  ok (record self {
    enclave_requested = set_entry self.enclave_requested enclave_addr false;
    enclave_approved = set_entry self.enclave_approved enclave_addr true;
  })

-- The two loops of `uint2str`: the number of digits, and the digits from the last place down.
abbrev pub count_digits : ℕ → ℕ → ℕ
count_digits zero j = 0
count_digits (suc fuel) j = let rest = count_digits fuel (j / 10) in if j == 0 then 0 else suc rest

abbrev pub set_at : List ℕ → ℕ → ℕ → List ℕ
set_at [] i x = []
set_at (b ∷ bs) zero x = x ∷ bs
set_at (b ∷ bs) (suc i) x = b ∷ set_at bs i x

abbrev pub fill_digits : ℕ → ℕ → ℕ → List ℕ → List ℕ
fill_digits zero k j bstr = bstr
fill_digits (suc fuel) k j bstr =
    let rest = fill_digits fuel (k - 1) (j / 10) (set_at bstr (k - 1) (48 + j % 10)) in
    if j == 0 then bstr else rest

-- A number is fuel enough for its own digits.
unfoldable pub uint2str : ℕ → List ℕ
uint2str i =
    let length = count_digits i i in
    if i == 0 then 48 ∷ [] else fill_digits i length i (replicate length 0)

-- The 32 bytes of `toBytes32`, one by one.
unfoldable pub to_bytes32_from : ℕ → ℕ → List ℕ → Result (List ℕ)
to_bytes32_from zero i b = ok []
to_bytes32_from (suc left) i b = do
  byte ← or_raise (get_elem? b i) (reverted no_such_index)
  rest ← to_bytes32_from left (suc i) b
  ok (byte ∷ rest)

abbrev pub to_bytes32 : List ℕ → Result (List ℕ)
to_bytes32 b = to_bytes32_from 32 0 b

-- The bytes of `\x19Ethereum Signed Message:\n`.
abbrev pub eth_prefix : List ℕ
eth_prefix =
    25 ∷ 69 ∷ 116 ∷ 104 ∷ 101 ∷ 114 ∷ 101 ∷ 117 ∷ 109 ∷ 32 ∷ 83 ∷ 105 ∷ 103 ∷ 110 ∷ 101 ∷ 100 ∷ 32
    ∷ 77 ∷ 101 ∷ 115 ∷ 115 ∷ 97 ∷ 103 ∷ 101 ∷ 58 ∷ 10 ∷ []

-- Half the order of secp256k1, the highest `s` that is taken.
abbrev pub highest_s : ℕ
highest_s = 57896044618658097711785492504343953926418782139537452191302581570759080747168

module _ (e : Evm) where
  unfoldable pub hash_data : List ℕ → List ℕ
  hash_data data_bytes = e.keccak256 ((eth_prefix ++ uint2str (length data_bytes)) ++ data_bytes)

  unfoldable pub recover : List ℕ → List ℕ → Result (List ℕ)
  recover hash signature = do
    require (length signature == 65) invalid_length
    let r = big_endian 0 (take 32 signature)
    let s = big_endian 0 (take 32 (drop 32 signature))
    let v = big_endian 0 (take 1 (drop 64 signature))
    require (leb s highest_s) invalid_s
    let signer = e.ecrecover hash v r s
    require (not (bytes_eq signer e.zero_address)) invalid_signature
    ok signer

  -- `items[i]`
  abbrev pub item : List e.RLPItem → ℕ → Result e.RLPItem
  item items i = or_raise (get_elem? items i) (reverted no_such_index)

  -- The first two items of a block's encoding.
  unfoldable pub block_of : List ℕ → Result (ℕ × List ℕ)
  block_of proof_blob = do
    items ← e.to_list proof_blob
    first ← item items 0
    block_num ← e.to_uint first
    second ← item items 1
    bytes ← e.to_bytes second
    block_hash ← to_bytes32 bytes
    ok (block_num, block_hash)

  unfoldable pub collect_bounty : Honeypot → Context → List ℕ → List ℕ → List ℕ → Result Honeypot
  collect_bounty self msg enclave_addr proof_blob sig = do
    require (not self.claimed) already_claimed
    require (self.enclave_approved enclave_addr) not_approved
    signer ← recover (hash_data proof_blob) sig
    require (bytes_eq signer enclave_addr) incorrect_signature
    (block_num, block_hash) ← block_of proof_blob
    require (bytes_eq (msg.blockhash block_num) block_hash) hash_mismatch
    require (leb self.bounty self.balance) transfer_failed
    require (e.accepts msg.sender) transfer_failed
    ok (record self {
      claimed = true;
      balance = self.balance - self.bounty;
      winners = msg.sender ∷ self.winners;
    })

  -- A call of one of the contract's functions, by a sender.
  pub data Call : Type 0 where
    submit_call : List ℕ → List ℕ → List ℕ → Call
    approve_call : List ℕ → Call
    collect_call : List ℕ → List ℕ → List ℕ → Call

  unfoldable pub run : Honeypot → Context → Call → Result Honeypot
  run self msg (submit_call enclave_addr sgx_report ias_sig) =
      submit_enclave self enclave_addr sgx_report ias_sig
  run self msg (approve_call enclave_addr) = approve_enclave self msg enclave_addr
  run self msg (collect_call enclave_addr proof_blob sig) =
      collect_bounty self msg enclave_addr proof_blob sig
