-- ===== src/Honeypot/Tests.antt =====
-- The contract on a small chain, with the evidence of Stinger's samples.
use sting_flashbots.Base.{
  ◌++◌, replicate, ℕ, ◌+◌, ◌-◌, ◌*◌, ◌≡◌, ◌≢◌, refl, ap, ◌∙◌, List, [], ◌∷◌, true, Result, ok, err,
  arith,
}
use sting_flashbots.Ecdsa.{
  encode_raw_public_key, private_key_to_public_key, nonce, deterministic_generate_k, ecdsa_raw_sign,
}
use sting_flashbots.Ecdsa.Tests.{value_of, small_curve, small_curve-laws, small_jacobian-laws}
use sting_flashbots.Keys.{
  make_private_key, make_public_key, Signature, PublicKey, ecdsa_recover, ecdsa_sign,
  make_signature, signature_vrs,
}
use sting_flashbots.Keys.Tests.{small_check, small_check-laws, key_bytes, small_key, small_key_made}
use sting_flashbots.Signing.{sign_message_hash, to_eth_v}
use sting_flashbots.Account.{
  bytes_value, key_value, SignedMessage, parse_private_key, check_hash, sign_hash, sign_message,
}
use sting_flashbots.Account.Recovery.{AccountLaws}
use sting_flashbots.Account.Tests.{small_account-laws, digest}
use sting_flashbots.Flashbots.{big_endian}
use sting_flashbots.Stinger.Samples.{small_evidence, hex_account, evidence, stinger, two_proofs}
use sting_flashbots.Stinger.Tests.{evidence_result, evidence_accepted}
use sting_flashbots.Stinger.Launch.{KeyFiles}
use sting_flashbots.Honeypot.{
  Evm, Honeypot, Context, submit_call, approve_call, collect_call, constructor_call, submit_enclave,
  approve_enclave, collect_bounty, hash_data, run,
}
use sting_flashbots.Honeypot.Calls.{submitted, approved, collected}
use sting_flashbots.Honeypot.History.{Reaches, here, next, Status, Payment, Reaches-Status}
use sting_flashbots.Honeypot.Winners.{WasCollected, claimed-WasCollected}
use sting_flashbots.Honeypot.Payout.{PayoutLaws, collect_bounty-verify_evidence}

abbrev pub address_or_zero : Result PublicKey → List ℕ
address_or_zero (err exception) = []
address_or_zero (ok key) = key.raw_key

abbrev pub recovered_address : List ℕ → ℕ → ℕ → ℕ → List ℕ
recovered_address h v r s =
    address_or_zero (ecdsa_recover small_curve small_check h (record { v = v - 27; r = r; s = s }))

abbrev pub two_items : List ℕ → Result (List (List ℕ))
two_items [] = ok []
two_items (n ∷ hash) = ok ((n ∷ []) ∷ hash ∷ [])

abbrev pub small_evm : Evm
small_evm = record {
  RLPItem = List ℕ;
  keccak256 = λ bs. digest 3;
  ecrecover = recovered_address;
  zero_address = [];
  to_list = two_items;
  to_uint = λ bs. ok (big_endian 0 bs);
  to_bytes = λ bs. ok bs;
  accepts = λ address. true;
}

value_of-big_endian : (n : ℕ) (bs : List ℕ) → value_of n bs ≡ big_endian n bs
value_of-big_endian n [] = refl
value_of-big_endian n (b ∷ bs) = value_of-big_endian (n * 256 + b) bs

ecrecover-recovered :
    (h : List ℕ) (g : Signature) (key : PublicKey)
    → ecdsa_recover small_curve small_check h g ≡ ok key
    → recovered_address h (g.v + 27) g.r g.s ≡ key.raw_key
ecrecover-recovered h g key found =
    let v_is : g.v + 27 - 27 ≡ g.v = omega arith in
    ap
      (λ v.
        address_or_zero
          (ecdsa_recover small_curve small_check h (record { v = v; r = g.r; s = g.s })))
      v_is
    ∙ ap address_or_zero found

small_payout-laws : PayoutLaws small_curve small_check small_evidence small_evm
unfolding hash_data
small_payout-laws = record {
  ecrecover_lem = λ h g key size hv r_pos hr s_pos hs found. ecrecover-recovered h g key found;
  hash_eip191-encode_defunct = λ data_bytes. refl;
  big_endian_lem = λ bs. value_of-big_endian 0 bs;
  to_list-encode_block =
      λ n hash word size. (n ∷ [], hash, refl, ap (λ (m : ℕ). ok m) (omega arith), refl);
}

hex_account-laws : AccountLaws small_curve hex_account
hex_account-laws = record {
  hex_bytes_lem = λ bs. refl;
  to_int_lem = small_account-laws.to_int_lem;
  to_bytes-laws = small_account-laws.to_bytes-laws;
  local_address_lem = small_account-laws.local_address_lem;
  length-hash_eip191_message = small_account-laws.length-hash_eip191_message;
  length-hash = small_account-laws.length-hash;
}

abbrev pub enclave_address : List ℕ
enclave_address = small_key.public_key.raw_key

abbrev pub owner : List ℕ
owner = 1 ∷ []

abbrev pub small_msg : Context
small_msg = record {
  sender = owner;
  blockhash = λ n. elim (two_proofs.block_hash n) [ err exception ↦ [] | ok hash ↦ hash ];
}

abbrev pub requested_state : Honeypot
requested_state = submitted (constructor_call owner 10) enclave_address (5 ∷ []) (6 ∷ [])

abbrev pub ready : Honeypot
ready = approved requested_state enclave_address

abbrev signed : SignedMessage
signed = record {
  message_hash = digest 3;
  r = 1;
  s = 1;
  v = 27;
  signature = replicate 31 0 ++ (1 ∷ (replicate 31 0 ++ (1 ∷ 27 ∷ [])));
}

message_signed :
    sign_message small_curve small_check hex_account 3 (key_value (bytes_value key_bytes))
    ≡ ok signed
unfolding sign_message sign_hash check_hash parse_private_key sign_message_hash ecdsa_sign
    make_signature signature_vrs ecdsa_raw_sign nonce deterministic_generate_k to_eth_v
    make_private_key private_key_to_public_key make_public_key encode_raw_public_key
message_signed = refl

address_nonzero : enclave_address ≢ []
unfolding encode_raw_public_key
address_nonzero = λ q. cc

key_parsed :
    parse_private_key small_curve small_check hex_account (key_value (bytes_value key_bytes))
    ≡ ok small_key
unfolding parse_private_key make_private_key private_key_to_public_key make_public_key
    encode_raw_public_key
key_parsed = refl

pub bounty_paid :
    collect_bounty small_evm ready small_msg enclave_address evidence_result.0 evidence_result.1
    ≡ ok (collected ready owner)
unfolding nonce deterministic_generate_k constructor_call hash_data encode_raw_public_key
bounty_paid =
    collect_bounty-verify_evidence small_curve small_curve-laws small_jacobian-laws small_check
      small_check-laws small_evidence hex_account-laws small_evm small_payout-laws (omega arith)
      evidence stinger (bytes_value key_bytes) key_bytes evidence_result.0 evidence_result.1
      (small_msg.blockhash 7) small_key signed ready small_msg evidence_accepted small_key_made
      key_parsed message_signed (omega arith) (omega arith) (omega arith) (omega arith)
      address_nonzero (omega arith) refl refl refl refl refl (omega arith) refl

abbrev key_files : KeyFiles
key_files = record { secret_key = key_bytes; enclave_address = enclave_address }

-- The enclave is submitted and approved, and then the bounty is collected.
reached : Reaches small_evm (constructor_call owner 10) ready
unfolding run submit_enclave approve_enclave constructor_call encode_raw_public_key
reached =
    next (next here small_msg (submit_call enclave_address (5 ∷ []) (6 ∷ [])) refl) small_msg
      (approve_call enclave_address) refl

all_reached : Reaches small_evm (constructor_call owner 10) (collected ready owner)
unfolding run
all_reached =
    next reached small_msg (collect_call enclave_address evidence_result.0 evidence_result.1)
      bounty_paid

Reaches-Status_example :
    Status ready enclave_address × Payment ready 10 × (ready.owner ≡ owner) × (ready.bounty ≡ 10)
Reaches-Status_example = Reaches-Status small_evm owner 10 ready enclave_address reached

claimed-WasCollected_example : WasCollected small_evm (constructor_call owner 10) owner (owner ∷ [])
unfolding constructor_call
claimed-WasCollected_example =
    claimed-WasCollected small_evm owner 10 (collected ready owner) all_reached refl
