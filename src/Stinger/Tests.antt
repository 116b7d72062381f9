-- ===== src/Stinger/Tests.antt =====
-- The theorem on evidence at a concrete block of two transactions, the stinger at index 1 and the other at index 0.
use sting_flashbots.Base.{
  Result, some, replicate, false, arith, ℕ, ◌≡◌, ◌⊎◌, refl, List, [], ◌∷◌, none, bytes_eq, ok, err,
  other_exception, if◌then◌else◌, ◌>>=◌,
}
use sting_flashbots.Ecdsa.Tests.{small_curve}
use sting_flashbots.Ecdsa.{
  private_key_to_public_key, deterministic_generate_k, ecdsa_raw_sign, encode_raw_public_key, nonce,
}
use sting_flashbots.Keys.{
  make_private_key, make_public_key, ecdsa_sign, make_signature, signature_vrs,
}
use sting_flashbots.Keys.Tests.{small_check, small_check-laws, key_bytes}
use sting_flashbots.Signing.{
  chain_aware_transaction, sign_by_class, sign_message_hash, sign_transaction_dict,
  sign_transaction_hash, to_eth_v,
}
use sting_flashbots.Account.{
  bytes_value, sign_transaction, from_key, parse_private_key, check_hash, sanitize, sign_hash,
  sign_message,
}
use sting_flashbots.Flashbots.Requests.{hex_number}
use sting_flashbots.Commitment.{uint256_from_str, unpack_words, uint256_to_str, pack_words}
use sting_flashbots.Commitment.Points.{ser, to_hex, fromhex}
use sting_flashbots.Commitment.Tests.{small_field}
use sting_flashbots.Enclave.{point_number, int_to_bytes, compute_pedersen_commitment, encode_tx}
use sting_flashbots.Mpt.{
  verify_mpt_proof, verify_from, node_round, short_round, branch_round, decode_compact,
  compact_flags, collect_nibbles, nibble_at, shared_prefix_length, prefix_loop,
}
use sting_flashbots.Mpt.Compact.{hex_prefix}
use sting_flashbots.Mpt.Trie.{node_of, ref}
use sting_flashbots.Mpt.Blob.{
  signed_of, int_field, unsigned_of, SignedTx, UnsignedTx, verify_tx_proof,
}
use sting_flashbots.Stinger.{VerifyData, transaction_of, signature_number, verify_evidence}
use sting_flashbots.Flashbots.{
  Web3Package, TxParams, DecodedTx, sign_bundle, sign_entries, sign_entry, parse_signed_tx,
  decode_signed,
}
use sting_flashbots.Flashbots.Requests.{
  Flashbots, send_bundle_munger, send_raw_bundle_munger, signing_address_of,
}
use sting_flashbots.Account.{LocalAccount, SignedTransaction}
use sting_flashbots.Keys.Tests.{small_key}
use sting_flashbots.Stinger.Scripts.{EvidenceInput, sign_tx, leaked_number, make_evidence}
use sting_flashbots.Stinger.Complete.{DictLaws, verify_evidence-make_evidence}
use sting_flashbots.Enclave.{
  TransferTx, Network, transfer_tx, generate_tx, decode_raw_tx, make_pedersen_commitment,
  send_bundle, make_bundle,
}
use sting_flashbots.Mpt.Blocks.{
  generate_proof_blob, block_header, normalize_bytes, set_all, rlp_transaction, encode_by_type,
}
use sting_flashbots.Mpt.Generate.{generate_proof, aux}
use sting_flashbots.Mpt.Blob.{construct_proof_from_mpt}
use sting_flashbots.Stinger.Soundness.{signed_block, verify_evidence_sound}
use sting_flashbots.Account.{text_value}
use sting_flashbots.Flashbots.Requests.{hex_prefix_text, bytes_hex}
use sting_flashbots.Base.{◌++◌}
use sting_flashbots.Stinger.Samples.{
  signed_with, two_proofs, read_bytes, hex_account, small_points, stinger, victim_tx, small_raw,
  small_evidence, evidence, small_evidence-laws,
}

abbrev pub evidence_result : List ℕ × List ℕ
evidence_result =
    elim (verify_evidence small_curve small_check small_evidence evidence stinger
      (bytes_value key_bytes)) [ err exception ↦ ([], []) | ok result ↦ result ]

pub evidence_accepted :
    verify_evidence small_curve small_check small_evidence evidence stinger (bytes_value key_bytes)
    ≡ ok (evidence_result.0, evidence_result.1)
unfolding verify_evidence verify_tx_proof ref node_of hex_prefix verify_mpt_proof verify_from
    node_round short_round branch_round decode_compact compact_flags collect_nibbles nibble_at
    shared_prefix_length prefix_loop signed_of int_field unsigned_of compute_pedersen_commitment
    point_number ser signature_number int_to_bytes hex_number uint256_to_str to_hex pack_words
    fromhex from_key parse_private_key make_private_key private_key_to_public_key make_public_key
    check_hash sanitize sign_hash sign_message sign_transaction deterministic_generate_k
    ecdsa_raw_sign encode_raw_public_key nonce encode_tx ecdsa_sign make_signature signature_vrs
    sign_by_class sign_message_hash sign_transaction_dict sign_transaction_hash to_eth_v
    transaction_of
evidence_accepted = refl

verify_evidence_sound_example :
    (unsigned_adv unsigned_victim : UnsignedTx) × (adv victim : SignedTx) × (commitment : ℕ)
    × (verify_tx_proof two_proofs 7 evidence.adv_prf ≡ ok (unsigned_adv, adv))
    × (verify_tx_proof two_proofs 7 evidence.victim_prf ≡ ok (unsigned_victim, victim))
    × ((transaction_of victim >>= encode_tx small_raw) ≡ ok stinger)
    × (compute_pedersen_commitment small_field small_points
          (signature_number small_curve small_check small_evidence victim)
          5
        ≡ ok commitment)
    × ((commitment ≡ 0) ⊎ (adv.r ≡ (small_curve.fast_multiply small_curve.g commitment).0))
verify_evidence_sound_example =
    verify_evidence_sound small_curve small_check small_check-laws small_evidence
      small_evidence-laws evidence stinger (bytes_value key_bytes) evidence_result.0
      evidence_result.1 evidence_accepted

-- The transfer's sender, its nonce and the chain's id.
abbrev transfer_fields : TransferTx → hex_account.Dict
transfer_fields tx = (some tx.from, (chain_aware_transaction, tx.nonce ∷ tx.chain_id ∷ 0 ∷ 0 ∷ []))

small_dicts : DictLaws small_evidence transfer_fields
small_dicts = record { is_mapping-tx_dict = λ tx. refl; from_field-transfer_dict = λ tx. refl }

abbrev decode_first : List ℕ → Result (DecodedTx (Unit {0}))
decode_first bs = ok (record { nonce = 1; other = tt; vrs = (0, 0, 0) })

abbrev small_web3 : Web3Package
small_web3 = record {
  Other = Unit {0};
  Signer = List ℕ;
  Access = ℕ;
  Unsigned = ℕ;
  address = λ signer. signer;
  sign_transaction = λ signer tx. ok [];
  get_transaction_count = λ address. ok 5;
  estimate_gas = λ tx. ok 3;
  keccak = λ bs. bs;
  decode_legacy = decode_first;
  decode_access_list = decode_first;
  decode_dynamic_fee = decode_first;
  recover_transaction = λ bs. ok (1 ∷ []);
  hex_bytes = read_bytes;
  serializable_unsigned_transaction_from_dict = λ tx. ok 0;
  encode_transaction = λ tx vrs. ok [];
}

abbrev small_store : ℕ → TxParams (Unit {0})
small_store place = record { from = none; nonce = none; gas = none; other = tt }

abbrev small_network : Network
small_network = record {
  gas_price = 1;
  get_transaction_count = λ address. 5;
  get_balance = λ address. 100;
  gas_limit = 3;
  chain_id = 9;
  localnet = false;
}

abbrev small_sender : LocalAccount
small_sender = record { address = small_key.public_key.raw_key; key_obj = small_key }

abbrev small_input : EvidenceInput
small_input = record {
  stinger_data = record {
    target_block_num = 7;
    stinger_tx_hash = stinger;
    sting_bundle = stinger ∷ [];
  };
  leaked_file = λ name. if bytes_eq name stinger then ok stinger else err other_exception;
  random_bytes = 5 ∷ replicate 31 0;
  stinger_key = bytes_value key_bytes;
  admin_address = [];
  searcher_address = 2 ∷ [];
  choice = record {
    before = small_network;
    w3 = small_network;
    new_account = small_sender;
    receiver = 4 ∷ 4 ∷ [];
    amt = 5;
  };
  gas_price = 1;
  gas_mul = 1;
  block_number = 5;
  receipt = λ hash.
      ok (record { block_number = 7; transaction_index = if bytes_eq hash stinger then 1 else 0 });
  fuel = 2;
}

abbrev quiet_module : Flashbots
quiet_module = record { signature_account_address = none; response = none }

abbrev made_evidence : VerifyData two_proofs.Blob
made_evidence = record evidence {
  adv_private_key = text_value (hex_prefix_text ++ bytes_hex key_bytes);
}

abbrev made_signed : SignedTransaction
made_signed = record {
  raw_transaction = 248 ∷ 6 ∷ 54 ∷ 2 ∷ 0 ∷ [];
  hash = 248 ∷ 6 ∷ 54 ∷ 2 ∷ 0 ∷ [];
  r = 2;
  s = 0;
  v = 54;
}

evidence_made :
    make_evidence small_curve small_check small_evidence small_web3 transfer_fields small_input
      quiet_module small_store
    ≡ ok (made_evidence, made_signed)
unfolding make_evidence decode_raw_tx fromhex to_hex make_pedersen_commitment uint256_from_str
    unpack_words point_number ser leaked_number int_to_bytes hex_number uint256_to_str pack_words
    from_key parse_private_key make_private_key private_key_to_public_key make_public_key
    encode_raw_public_key sign_tx transfer_tx generate_tx sign_transaction sanitize
    sign_transaction_dict sign_by_class sign_transaction_hash ecdsa_sign ecdsa_raw_sign nonce
    make_signature signature_vrs to_eth_v send_bundle send_bundle_munger make_bundle sign_bundle
    sign_entries sign_entry parse_signed_tx decode_signed send_raw_bundle_munger signing_address_of
    generate_proof_blob block_header normalize_bytes set_all rlp_transaction encode_by_type
    construct_proof_from_mpt generate_proof aux node_of ref hex_prefix
evidence_made = refl

verify_evidence-make_evidence_example :
    verify_evidence small_curve small_check small_evidence made_evidence stinger
      (bytes_value key_bytes)
    ≡ signed_block small_curve small_check small_evidence 7 (bytes_value key_bytes)
unfolding verify_tx_proof ref node_of hex_prefix verify_mpt_proof verify_from node_round short_round
    branch_round decode_compact compact_flags collect_nibbles nibble_at shared_prefix_length
    prefix_loop signed_of int_field unsigned_of transaction_of encode_tx generate_tx transfer_tx
    from_key parse_private_key make_private_key private_key_to_public_key make_public_key
    encode_raw_public_key
verify_evidence-make_evidence_example =
    verify_evidence-make_evidence small_curve small_check small_evidence small_evidence-laws
      small_web3 transfer_fields small_dicts small_input quiet_module small_store made_evidence
      made_signed stinger victim_tx small_sender (unsigned_of two_proofs (signed_with 6 54 2 0))
      (unsigned_of two_proofs (signed_with 1 37 8 9)) (signed_with 6 54 2 0) (signed_with 1 37 8 9)
      (bytes_value key_bytes) evidence_made refl (omega arith) refl refl refl refl refl refl refl
      refl refl refl refl
