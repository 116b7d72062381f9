-- ===== src/Keys/Tests.antt =====
-- The theorems on keys at concrete inputs.
use sting_flashbots.Base.{
  ℕ, ◌≡◌, refl, List, [], ◌∷◌, ◌++◌, leb, ltb, ◌==◌, length, replicate, true, some, none, ok, arith,
}
use sting_flashbots.Ecdsa.{
  private_key_to_public_key, ecdsa_raw_sign, nonce, encode_raw_public_key, deterministic_generate_k,
}
use sting_flashbots.Ecdsa.Tests.{small_curve, small_curve-laws, small_jacobian-laws}
use sting_flashbots.Keys.{
  Validation, ValidationLaws, Signature, PrivateKey, signature_vrs, make_signature, to_bytes,
  make_non_recoverable_signature, non_recoverable_to_bytes, make_public_key, make_private_key,
  ecdsa_sign, sign_msg_hash,
}
use sting_flashbots.Keys.Objects.{
  ObjectPackage, set_v, set_r, set_s, from_private, recover_from_msg, verify_msg, sign_msg,
}
use sting_flashbots.Keys.Setters.{Agrees, set_v-make_signature, recover_from_msg-sign_msg}
use sting_flashbots.Keys.Signatures.{make_signature-to_bytes}

abbrev pub small_check : Validation
small_check = record {
  valid_v = λ v. leb v 1;
  valid_r_or_s = λ x. ltb x 7;
  valid_private_key_bytes = λ bs. length bs == 32;
  valid_uncompressed_public_key_bytes = λ bs. length bs == 64;
  valid_compressed_public_key_bytes = λ bs. length bs == 33;
  valid_recoverable_signature_bytes = λ bs. length bs == 65;
  valid_non_recoverable_signature_bytes = λ bs. length bs == 64;
  int_to_byte = λ v. v ∷ [];
}

pub small_check-laws : ValidationLaws 7 small_check
small_check-laws = record {
  valid_v_lem = λ v. refl;
  valid_r_or_s_lem = λ x. refl;
  valid_recoverable_lem = λ bs. refl;
  valid_non_recoverable_lem = λ bs. refl;
  int_to_byte_lem = λ v h. refl;
}

abbrev pub key_bytes : List ℕ
key_bytes = replicate 31 0 ++ (3 ∷ [])

abbrev pub small_key : PrivateKey
small_key = record {
  raw_key = key_bytes;
  public_key = record { raw_key = encode_raw_public_key small_curve (2, 3) };
}

abbrev message : List ℕ
message = 5 ∷ []

abbrev small_signature : Signature
small_signature = record { v = 1; r = 4; s = 2 }

pub small_key_made : make_private_key small_curve small_check key_bytes ≡ ok small_key
unfolding make_private_key make_public_key private_key_to_public_key encode_raw_public_key
small_key_made = refl

small_signed : sign_msg_hash small_curve small_check small_key message 2 ≡ ok small_signature
unfolding ecdsa_sign make_signature signature_vrs ecdsa_raw_sign nonce
small_signed = refl

make_signature-to_bytes_example :
    (make_signature small_curve small_check
        (some (to_bytes small_curve small_check small_signature))
        none
      ≡ ok small_signature)
    × (make_non_recoverable_signature small_curve small_check
          (some (non_recoverable_to_bytes small_curve small_check (record { r = 4; s = 2 })))
          none
        ≡ ok (record { r = 4; s = 2 }))
make_signature-to_bytes_example =
    make_signature-to_bytes small_curve small_curve-laws small_check small_check-laws (omega arith)
      small_signature (omega arith, omega arith, omega arith)

set_v-make_signature_example :
    Agrees 7
      (set_v small_curve small_check small_signature 9)
      (make_signature small_curve small_check none (some (9, 4, 2)))
    × Agrees 7
        (set_r small_curve small_check small_signature 9)
        (make_signature small_curve small_check none (some (1, 9, 2)))
    × Agrees 7
        (set_s small_curve small_check small_signature 9)
        (make_signature small_curve small_check none (some (1, 4, 9)))
set_v-make_signature_example =
    set_v-make_signature small_curve small_check small_check-laws small_signature 9
      (omega arith, omega arith, omega arith)

abbrev small_objects : ObjectPackage
small_objects = record {
  keccak = λ bs. bs;
  encode_hex = λ bs. bs;
  public_key_bytes_to_address = λ bs. bs;
  to_checksum_address = λ bs. bs;
  to_normalized_address = λ bs. bs;
}

abbrev other_signature : Signature
other_signature = record { v = 1; r = 2; s = 3 }

message_signed :
    sign_msg small_curve small_check small_objects small_key (3 ∷ []) ≡ ok other_signature
unfolding ecdsa_sign make_signature signature_vrs ecdsa_raw_sign nonce deterministic_generate_k
message_signed = refl

recover_from_msg-sign_msg_example :
    (from_private small_curve small_check small_key ≡ ok small_key.public_key)
    × (verify_msg small_curve small_check small_objects small_key.public_key (3 ∷ []) (2, 3) ≡ true)
    × (recover_from_msg small_curve small_check small_objects (3 ∷ []) other_signature
        ≡ ok small_key.public_key)
unfolding nonce deterministic_generate_k
recover_from_msg-sign_msg_example =
    recover_from_msg-sign_msg small_curve small_curve-laws small_jacobian-laws small_check
      small_check-laws small_objects key_bytes (3 ∷ []) small_key other_signature small_key_made
      message_signed (omega arith) (omega arith) (omega arith) (omega arith)
