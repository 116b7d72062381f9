-- ===== src/Keys.antt =====
-- Keys and signatures of searcher/src/enclave/lib/ecdsa/datatypes.py, with the backend of
-- searcher/src/enclave/lib/ecdsa/main.py that their methods call. eth_keys' `validate_...` functions and
-- `int_to_byte` are parameters, a validator as the test that it makes. Its `ValidationError` is
-- `validation_error`.
pub mod Signatures
pub mod Signers
pub mod Recovery
pub mod Objects
pub mod Equality
pub mod Setters
pub mod Tests
use sting_flashbots.Base.{
  ℕ, zero, suc, ◌<◌, ◌≤◌, ◌≡◌, Bool, true, false, List, [], ◌∷◌, ◌++◌, Option, none, some, leb, ltb,
  ◌==◌, length, take, drop, Result, ok, err, Error, type_error, bad_signature, validation_error,
  other_exception, ◌>>=◌, ◌>>◌, guard,
}
use sting_flashbots.Ecdsa.{
  Curve, ecdsa_raw_sign, ecdsa_raw_verify, ecdsa_raw_recover, private_key_to_public_key,
  compress_public_key, decompress_public_key,
}

pub record Validation : Type 0 where
  pub valid_v : ℕ → Bool
  pub valid_r_or_s : ℕ → Bool
  pub valid_private_key_bytes : List ℕ → Bool
  pub valid_uncompressed_public_key_bytes : List ℕ → Bool
  pub valid_compressed_public_key_bytes : List ℕ → Bool
  pub valid_recoverable_signature_bytes : List ℕ → Bool
  pub valid_non_recoverable_signature_bytes : List ℕ → Bool
  pub int_to_byte : ℕ → List ℕ

-- What eth_keys documents of them, for the order `n`.
pub record ValidationLaws (n : ℕ) (check : Validation) : Type 0 where
  pub valid_v_lem : (v : ℕ) → check.valid_v v ≡ leb v 1
  pub valid_r_or_s_lem : (x : ℕ) → check.valid_r_or_s x ≡ ltb x n
  pub valid_recoverable_lem :
      (bs : List ℕ) → check.valid_recoverable_signature_bytes bs ≡ (length bs == 65)
  pub valid_non_recoverable_lem :
      (bs : List ℕ) → check.valid_non_recoverable_signature_bytes bs ≡ (length bs == 64)
  pub int_to_byte_lem : (v : ℕ) → v < 256 → check.int_to_byte v ≡ v ∷ []

pub record Signature : Type 0 where
  pub v : ℕ
  pub r : ℕ
  pub s : ℕ

pub record NonRecoverableSignature : Type 0 where
  pub r : ℕ
  pub s : ℕ

pub record PublicKey : Type 0 where
  pub raw_key : List ℕ

pub record PrivateKey : Type 0 where
  pub raw_key : List ℕ
  pub public_key : PublicKey

module _ (c : Curve) (check : Validation) where
  -- `BaseSignature.__init__`: a value that is not valid raises BadSignature.
  abbrev pub check_rs : ℕ → ℕ → Result (Unit {0})
  check_rs r s =
      guard (check.valid_r_or_s r) bad_signature >> guard (check.valid_r_or_s s) bad_signature

  -- The first two numbers of 32 bytes of a byte string.
  abbrev pub read_rs : List ℕ → ℕ × ℕ
  read_rs bs = (c.big_endian_to_int (take 32 bs), c.big_endian_to_int (take 32 (drop 32 bs)))

  -- `ord(signature_bytes[64:65])`
  abbrev pub read_v : List ℕ → Result ℕ
  read_v bs = elim (drop 64 bs) [ [] ↦ err type_error | v ∷ rest ↦ ok v ]

  abbrev pub read_recoverable : List ℕ → Result (ℕ × ℕ × ℕ)
  read_recoverable bs = do
    guard (check.valid_recoverable_signature_bytes bs) validation_error
    v ← read_v bs
    ok (v, (read_rs bs).0, (read_rs bs).1)

  -- The first part of `Signature.__init__`: one of the two arguments is given, and no empty bytes.
  unfoldable pub signature_vrs : Option (List ℕ) → Option (ℕ × ℕ × ℕ) → Result (ℕ × ℕ × ℕ)
  signature_vrs none none = err type_error
  signature_vrs none (some vrs) = ok vrs
  signature_vrs (some []) none = err type_error
  signature_vrs (some []) (some vrs) = ok vrs
  signature_vrs (some (b ∷ bs)) none = read_recoverable (b ∷ bs)
  signature_vrs (some (b ∷ bs)) (some vrs) = err type_error

  unfoldable pub make_signature : Option (List ℕ) → Option (ℕ × ℕ × ℕ) → Result Signature
  make_signature signature_bytes vrs = do
    (v, r, s) ← signature_vrs signature_bytes vrs
    check_rs r s
    guard (check.valid_v v) bad_signature
    ok (record { v = v; r = r; s = s })

  unfoldable pub to_bytes : Signature → List ℕ
  to_bytes signature =
      (c.pad32 (c.int_to_big_endian signature.r) ++ c.pad32 (c.int_to_big_endian signature.s))
      ++ check.int_to_byte signature.v

  -- The first part of `NonRecoverableSignature.__init__`; here the bytes win over the pair.
  unfoldable pub non_recoverable_rs : Option (List ℕ) → Option (ℕ × ℕ) → Result (ℕ × ℕ)
  non_recoverable_rs none none = err type_error
  non_recoverable_rs none (some rs) = ok rs
  non_recoverable_rs (some []) none = err other_exception
  non_recoverable_rs (some []) (some rs) = ok rs
  non_recoverable_rs (some (b ∷ bs)) rs = do
    guard (check.valid_non_recoverable_signature_bytes (b ∷ bs)) validation_error
    ok (read_rs (b ∷ bs))

  unfoldable pub make_non_recoverable_signature :
      Option (List ℕ) → Option (ℕ × ℕ) → Result NonRecoverableSignature
  make_non_recoverable_signature signature_bytes rs_argument = do
    (r, s) ← non_recoverable_rs signature_bytes rs_argument
    check_rs r s
    ok (record { r = r; s = s })

  unfoldable pub non_recoverable_to_bytes : NonRecoverableSignature → List ℕ
  non_recoverable_to_bytes signature =
      c.pad32 (c.int_to_big_endian signature.r) ++ c.pad32 (c.int_to_big_endian signature.s)

  abbrev pub to_non_recoverable_signature : Signature → Result NonRecoverableSignature
  to_non_recoverable_signature signature =
      make_non_recoverable_signature none (some (signature.r, signature.s))

  unfoldable pub make_public_key : List ℕ → Result PublicKey
  make_public_key public_key_bytes = do
    guard (check.valid_uncompressed_public_key_bytes public_key_bytes) validation_error
    ok (record { raw_key = public_key_bytes })

  -- `PublicKey.from_compressed_bytes`
  unfoldable pub from_compressed_bytes : List ℕ → Result PublicKey
  from_compressed_bytes compressed = do
    guard (check.valid_compressed_public_key_bytes compressed) validation_error
    uncompressed ← decompress_public_key c compressed
    make_public_key uncompressed

  abbrev pub to_compressed_bytes : PublicKey → List ℕ
  to_compressed_bytes key = compress_public_key c key.raw_key

  -- `PrivateKey.__init__`, with the backend's `private_key_to_public_key`.
  unfoldable pub make_private_key : List ℕ → Result PrivateKey
  make_private_key private_key_bytes = do
    guard (check.valid_private_key_bytes private_key_bytes) validation_error
    public_key_bytes ← private_key_to_public_key c private_key_bytes
    public_key ← make_public_key public_key_bytes
    ok (record { raw_key = private_key_bytes; public_key = public_key })

  -- `NativeECCBackend.ecdsa_sign`, which `PrivateKey.sign_msg_hash` calls with its nonce.
  unfoldable pub ecdsa_sign : List ℕ → PrivateKey → ℕ → Result Signature
  ecdsa_sign msg_hash key k = make_signature none (some (ecdsa_raw_sign c msg_hash key.raw_key k))

  abbrev pub sign_msg_hash : PrivateKey → List ℕ → ℕ → Result Signature
  sign_msg_hash key message_hash k = ecdsa_sign message_hash key k

  unfoldable pub ecdsa_sign_non_recoverable : List ℕ → PrivateKey → Result NonRecoverableSignature
  ecdsa_sign_non_recoverable msg_hash key =
      let (_, r, s) = ecdsa_raw_sign c msg_hash key.raw_key 0 in
      make_non_recoverable_signature none (some (r, s))

  -- `NativeECCBackend.ecdsa_verify`, which `PublicKey.verify_msg_hash` and the signatures' call.
  unfoldable pub ecdsa_verify : List ℕ → ℕ × ℕ → PublicKey → Bool
  ecdsa_verify msg_hash rs key = ecdsa_raw_verify c msg_hash rs key.raw_key

  abbrev pub verify_msg_hash : PublicKey → List ℕ → Signature → Bool
  verify_msg_hash key message_hash signature =
      ecdsa_verify message_hash (signature.r, signature.s) key

  -- `NativeECCBackend.ecdsa_recover`
  unfoldable pub ecdsa_recover : List ℕ → Signature → Result PublicKey
  ecdsa_recover msg_hash signature = do
    public_key_bytes ← ecdsa_raw_recover c msg_hash (signature.v, signature.r, signature.s)
    make_public_key public_key_bytes
