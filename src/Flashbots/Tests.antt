-- ===== src/Flashbots/Tests.antt =====
-- The theorems on the Flashbots module at concrete inputs: an account is its address of one byte, a transaction's
-- bytes are its type, its nonce and its sender.
use sting_flashbots.Base.{
  All, pos, negsuc, ℕ, ◌+◌, ◌<◌, ◌≤◌, ◌≡◌, ◌≢◌, ◌⊎◌, inr, refl, List, [], ◌∷◌, ◌++◌, map, drop,
  get_elem?, none, some, Bool, true, false, Result, ok, err, not_found, type_error, attribute_error,
  arith,
}
use sting_flashbots.Account.{bytes_value}
use sting_flashbots.Flashbots.{
  ByteObject, bytes_object, hex_bytes_object, DictTx, Web3Package, TxParams, Entry, raw_entry,
  signer_entry, dict_entry, unknown_entry, int_of_hex, fees_of, decode_signed, parse_signed_tx,
  nonce_for, gas_for, sign_dict, tx_dict_of, sign_entry, sign_entries, sign_bundle,
}
use sting_flashbots.Flashbots.Responses.{
  BundleResponse, PrivateTransactionResponse, wait, private_wait,
}
use sting_flashbots.Flashbots.Requests.{
  bundle_request, signing_address_of, BundleRequest, no_opts, Flashbots, send_raw_bundle_munger,
  call_bundle_munger, BundleRequest,
}
use sting_flashbots.Flashbots.Simulate.{Simulation, Node}
use sting_flashbots.Flashbots.Nonces.{next_nonce, sign_bundle_nonces}
use sting_flashbots.Flashbots.Bundles.{AreSigned, sign_bundle-AreSigned}
use sting_flashbots.Flashbots.Waits.{wait-IsFirst, private_wait_returns}
use sting_flashbots.Flashbots.Hex.{
  given_address, send_raw_bundle_munger_address, call_bundle_munger_texts, is_hex_bytes,
}

abbrev byte_at : List ℕ → ℕ → ℕ
byte_at bs i = elim (get_elem? bs i) [ none ↦ 0 | some b ↦ b ]

abbrev nonce_or_zero : TxParams (Unit {0}) → ℕ
nonce_or_zero tx = elim tx.nonce [ none ↦ 0 | some n ↦ n ]

abbrev small_web3 : Web3Package
small_web3 = record {
  Other = Unit {0};
  Signer = List ℕ;
  Access = ℕ;
  Unsigned = ℕ;
  address = λ signer. signer;
  sign_transaction = λ signer tx. ok (200 ∷ nonce_or_zero tx ∷ signer);
  get_transaction_count = λ address. ok 5;
  estimate_gas = λ tx. ok 21;
  keccak = λ bs. bs;
  decode_legacy = λ bs. ok (record { nonce = byte_at bs 1; other = tt; vrs = (27, 1, 1) });
  decode_access_list = λ bs. err type_error;
  decode_dynamic_fee = λ bs. ok (record { nonce = byte_at bs 0; other = tt; vrs = (0, 1, 1) });
  recover_transaction = λ bs. ok (drop 2 bs);
  hex_bytes = λ value. ok [];
  serializable_unsigned_transaction_from_dict = λ tx. ok tx.nonce;
  encode_transaction = λ nonce vrs. ok (200 ∷ nonce ∷ vrs.1 ∷ []);
}

abbrev small_store : ℕ → TxParams (Unit {0})
small_store place = record { from = none; nonce = none; gas = none; other = tt }

abbrev block_tx : DictTx ℕ
block_tx = record {
  nonce = some 3;
  input = some (bytes_value []);
  value = some 1;
  gas = some 21;
  max_fee_per_gas = none;
  max_priority_fee_per_gas = none;
  gas_price = some 2;
  access_list = none;
  chain_id = none;
  to = none;
  hash = some (200 ∷ 3 ∷ 4 ∷ []);
}

abbrev first_entries : List (Entry small_web3)
first_entries =
    raw_entry (hex_bytes_object (200 ∷ 7 ∷ 1 ∷ []))
    ∷ signer_entry (1 ∷ []) 0
    ∷ signer_entry (2 ∷ []) 1
    ∷ []

abbrev last_entries : List (Entry small_web3)
last_entries = unknown_entry ∷ dict_entry 27 (4 ∷ []) (1 ∷ []) block_tx ∷ []

abbrev small_bundle : List (Entry small_web3)
small_bundle = first_entries ++ (signer_entry (1 ∷ []) 2 ∷ last_entries)

abbrev small_signed : List ByteObject
small_signed =
    hex_bytes_object (200 ∷ 7 ∷ 1 ∷ [])
    ∷ hex_bytes_object (200 ∷ 8 ∷ 1 ∷ [])
    ∷ hex_bytes_object (200 ∷ 5 ∷ 2 ∷ [])
    ∷ hex_bytes_object (200 ∷ 9 ∷ 1 ∷ [])
    ∷ bytes_object (200 ∷ 3 ∷ 4 ∷ [])
    ∷ []

abbrev small_written : ℕ → TxParams (Unit {0})
small_written = elim (sign_bundle small_web3 small_store small_bundle) [
  | err exception ↦ small_store
  | ok result ↦ result.0
]

bundle_signed : sign_bundle small_web3 small_store small_bundle ≡ ok (small_written, small_signed)
unfolding sign_bundle sign_entries sign_entry parse_signed_tx decode_signed nonce_for gas_for
    sign_dict tx_dict_of int_of_hex fees_of
bundle_signed = refl

sign_bundle_nonces_example :
    (small_written 2).nonce ≡ some (next_nonce small_web3 (1 ∷ []) 5 first_entries)
sign_bundle_nonces_example =
    sign_bundle_nonces small_web3 small_store small_written first_entries last_entries (1 ∷ []) 2 5
      small_signed refl ((refl, (refl, tt)), ((refl, tt), (tt, tt))) (refl, (refl, (refl, tt)))
      bundle_signed

nonces_at : next_nonce small_web3 (1 ∷ []) 5 first_entries ≡ 9
unfolding parse_signed_tx decode_signed
nonces_at = refl

sign_bundle-AreSigned_example : AreSigned small_web3 small_bundle small_signed
sign_bundle-AreSigned_example =
    sign_bundle-AreSigned small_web3 small_store small_written small_bundle small_signed
      bundle_signed

-- A chain that grows by one block between two readings.
abbrev growing : ℕ → ℕ
growing reading = 7 + reading

abbrev small_response : BundleResponse
small_response = record { bundle = []; target_block_number = 9 }

wait-IsFirst_example :
    (reading : ℕ) × (wait 4 growing 0 small_response ≡ some reading)
    × ((0 ≤ reading)
        × (9 ≤ growing reading)
        × ((i : ℕ) → (i < 0) ⊎ (reading ≤ i) ⊎ (growing i < 9)))
wait-IsFirst_example = wait-IsFirst growing small_response 4 0 3 (omega arith) (omega arith)

abbrev private_response_at : PrivateTransactionResponse
private_response_at = record {
  tx = record { signed_transaction = bytes_object []; hash = [] };
  max_block_number = 8;
}

abbrev never_found : ℕ → Result (Unit {0})
never_found reading = err not_found

private_wait_returns_example :
    (mined : Bool) × (reading : ℕ) × (private_wait 4 growing never_found 0 private_response_at
      ≡ some (ok mined))
    × (0 ≤ reading)
    × (((mined ≡ true) × (never_found reading ≡ ok tt))
        ⊎ ((mined ≡ false) × (never_found reading ≡ err not_found) × (8 < growing reading)))
    × ((i : ℕ) → (i < 0) ⊎ (reading ≤ i) ⊎ ((never_found i ≡ err not_found) × (growing i ≤ 8)))
private_wait_returns_example =
    private_wait_returns growing never_found private_response_at 4 0 3 (λ i. inr refl) (omega arith)
      (omega arith)

abbrev bare_module : Flashbots
bare_module = record { signature_account_address = none; response = none }

abbrev with_account : Flashbots
with_account = record { signature_account_address = some (1 ∷ []); response = none }

abbrev two_txs : List ByteObject
two_txs = hex_bytes_object (200 ∷ 7 ∷ []) ∷ bytes_object (1 ∷ []) ∷ []

send_raw_bundle_munger_address_example :
    ((request : BundleRequest) × (send_raw_bundle_munger bare_module two_txs 300 none ≡ ok request)
      × ((given_address none ≡ some request.signing_address)
          ⊎ ((given_address none ≡ none)
              × (request.signing_address ≢ none)
              × (bare_module.signature_account_address ≡ request.signing_address))))
    ⊎ ((given_address none ≡ none)
        × (bare_module.signature_account_address ≡ none)
        × (send_raw_bundle_munger bare_module two_txs 300 none ≡ err attribute_error))
send_raw_bundle_munger_address_example = send_raw_bundle_munger_address bare_module two_txs 300 none

abbrev mixed_request : BundleRequest
mixed_request = bundle_request two_txs 300 no_opts (some (1 ∷ []))

mixed_sent : send_raw_bundle_munger with_account two_txs 300 none ≡ ok mixed_request
unfolding send_raw_bundle_munger signing_address_of
mixed_sent = refl

call_bundle_munger_texts_example :
    (All (λ tx. is_hex_bytes tx ≡ true) two_txs
      → (call_bundle_munger two_txs [] [] 12).txs ≡ mixed_request.txs)
    × ((call_bundle_munger two_txs [] [] 12).txs ≡ mixed_request.txs
        → All (λ tx. is_hex_bytes tx ≡ true) two_txs)
call_bundle_munger_texts_example =
    call_bundle_munger_texts with_account two_txs 300 none mixed_request [] [] 12 mixed_sent

abbrev small_node : Node
small_node = record {
  block_number = 10;
  timestamp = λ n. ok 1000;
  to_hex_number = λ z. elim z [ pos n ↦ n ∷ [] | negsuc n ↦ [] ];
  to_hex_text = λ t. ok t;
  call_bundle = λ request. ok (record {
    bundle_hash = [];
    coinbase_diff = request.timestamp;
    results = map (λ t. 21) request.txs;
  });
}

abbrev small_simulation : Simulation
small_simulation = record {
  bundle_hash = [];
  coinbase_diff = 1024;
  results = 21 ∷ 21 ∷ 21 ∷ 21 ∷ 21 ∷ [];
  signed_bundled_transactions = small_signed;
  total_gas_used = 105;
}
