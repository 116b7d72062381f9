-- ===== src/Flashbots/Simulate.antt =====
-- `simulate` and `extrapolate_timestamp` of searcher/src/enclave/lib/flashbots/flashbots.py. The node that runs
-- the bundle, and `toHex` of web3, are parameters.
use sting_flashbots.Base.{
  ℤ, pos, negsuc, ℕ, zero, suc, ◌+◌, ◌-◌, ◌*◌, List, [], ◌∷◌, Option, none, some, ltb, Result, ok,
  err, type_error, other_exception, guard, not, ◌>>=◌, ◌>>◌,
}
use sting_flashbots.Flashbots.{ByteObject, Web3Package, TxParams, Entry, sign_bundle}
use sting_flashbots.Flashbots.Requests.{CallRequest, call_bundle_munger}

-- A block tag: none, `latest`, a number, or another text.
pub data BlockTag : Type 0 where
  no_tag : BlockTag
  latest : BlockTag
  number : ℕ → BlockTag
  other_text : List ℕ → BlockTag

-- A block as `simulate` goes on with it.
pub data BlockName : Type 0 where
  numbered : ℕ → BlockName
  named : List ℕ → BlockName

pub record CallResult : Type 0 where
  pub bundle_hash : List ℕ
  pub coinbase_diff : ℕ
  pub results : List ℕ

pub record Simulation : Type 0 where
  pub bundle_hash : List ℕ
  pub coinbase_diff : ℕ
  pub results : List ℕ
  pub signed_bundled_transactions : List ByteObject
  pub total_gas_used : ℕ

-- The node: its latest block, the timestamps of its blocks, and the run of a bundle, whose results are the gas
-- that each transaction used.
pub record Node : Type 0 where
  pub block_number : ℕ
  pub timestamp : ℕ → Result ℕ
  pub to_hex_number : ℤ → List ℕ
  pub to_hex_text : List ℕ → Result (List ℕ)
  pub call_bundle : CallRequest → Result CallResult

abbrev pub seconds_per_block : ℕ
seconds_per_block = 12

abbrev pub total_gas : ℕ → List ℕ → ℕ
total_gas total [] = total
total_gas total (gas ∷ rest) = total_gas (total + gas) rest

-- `block_number - 1`
abbrev pub before_block : BlockName → Result ℤ
before_block (numbered zero) = ok (negsuc 0)
before_block (numbered (suc n)) = ok (pos n)
before_block (named tag) = err type_error

module _ (node : Node) where
  unfoldable pub block_of : BlockTag → BlockName
  block_of no_tag = numbered node.block_number
  block_of latest = numbered node.block_number
  block_of (number n) = numbered n
  block_of (other_text tag) = named tag

  abbrev pub to_hex_block : BlockName → Result (List ℕ)
  to_hex_block (numbered n) = ok (node.to_hex_number (pos n))
  to_hex_block (named tag) = node.to_hex_text tag

  -- The state block that is given, or the one before.
  abbrev pub state_block : Option ℕ → BlockName → Result (List ℕ)
  state_block (some state_block_tag) block = ok (node.to_hex_number (pos state_block_tag))
  state_block none block = do parent ← before_block block; ok (node.to_hex_number parent)

  unfoldable pub extrapolate_timestamp : ℕ → ℕ → Result ℕ
  extrapolate_timestamp block_tag latest_block_number = do
    guard (not (ltb block_tag latest_block_number)) other_exception
    timestamp ← node.timestamp latest_block_number
    ok (timestamp + (block_tag - latest_block_number) * seconds_per_block)

  abbrev pub evm_timestamp_of : Option ℕ → BlockName → Result ℕ
  evm_timestamp_of (some block_timestamp) block = ok block_timestamp
  evm_timestamp_of none (numbered n) = extrapolate_timestamp n node.block_number
  evm_timestamp_of none (named tag) = err type_error

  unfoldable pub simulate :
      (e : Web3Package)
      → (ℕ → TxParams e.Other)
      → List (Entry e)
      → BlockTag
      → Option ℕ
      → Option ℕ
      → Result Simulation
  simulate e store bundled_transactions block_tag state_block_tag block_timestamp = do
    let block = block_of block_tag
    evm_block_number ← to_hex_block block
    evm_block_state_number ← state_block state_block_tag block
    evm_timestamp ← evm_timestamp_of block_timestamp block
    (written, signed) ← sign_bundle e store bundled_transactions
    call_result ←
        node.call_bundle
          (call_bundle_munger signed evm_block_number evm_block_state_number evm_timestamp)
    ok (record {
      bundle_hash = call_result.bundle_hash;
      coinbase_diff = call_result.coinbase_diff;
      results = call_result.results;
      signed_bundled_transactions = signed;
      total_gas_used = total_gas 0 call_result.results;
    })
