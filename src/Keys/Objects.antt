-- ===== src/Keys/Objects.antt =====
-- The rest of searcher/src/enclave/lib/ecdsa/datatypes.py: keys and signatures as Python objects (equality, hash,
-- length, indexing), the setters, the methods that take a message, and the choice of a backend. eth_utils' and
-- eth_keys' functions are parameters.
use sting_flashbots.Base.{
  ℕ, suc, ◌-◌, ℤ, pos, negsuc, Bool, false, List, ◌++◌, Option, none, some, ltb, bytes_eq, length,
  get_elem?, Result, ok, err, index_error, value_error, validation_error, guard, or_raise, ◌>>=◌,
  ◌>>◌,
}
use sting_flashbots.Ecdsa.{Curve, private_key_to_public_key}
use sting_flashbots.Flashbots.Requests.{hex_prefix_text, bytes_hex}
use sting_flashbots.Keys.{
  Validation, Signature, NonRecoverableSignature, PublicKey, PrivateKey, to_bytes, make_public_key,
  sign_msg_hash, ecdsa_sign_non_recoverable, ecdsa_verify, ecdsa_recover,
}

pub record ObjectPackage : Type 0 where
  pub keccak : List ℕ → List ℕ
  pub encode_hex : List ℕ → List ℕ
  pub public_key_bytes_to_address : List ℕ → List ℕ
  pub to_checksum_address : List ℕ → List ℕ
  pub to_normalized_address : List ℕ → List ℕ

-- What an object is compared with: one with a method `to_bytes`, which may raise, bytes, or anything else.
pub data Other : Type 0 where
  with_to_bytes : Result (List ℕ) → Other
  plain_bytes : List ℕ → Other
  neither : Other

-- `bytes[index]`, from the end for a negative index.
unfoldable pub item_at : List ℕ → ℤ → Result ℕ
item_at bs (pos i) = or_raise (get_elem? bs i) index_error
item_at bs (negsuc i) = do
  guard (ltb i (length bs)) index_error
  or_raise (get_elem? bs (length bs - suc i)) index_error

-- The two classes' `__eq__`.
unfoldable pub eq_bytes : List ℕ → Other → Result Bool
eq_bytes bs (with_to_bytes other) = do other_bytes ← other; ok (bytes_eq bs other_bytes)
eq_bytes bs (plain_bytes other) = ok (bytes_eq bs other)
eq_bytes bs neither = ok false

-- `BaseKey`, over the key's bytes.
abbrev pub key_to_hex : List ℕ → List ℕ
key_to_hex raw_key = hex_prefix_text ++ bytes_hex raw_key

-- Sixty-four for every key.
unfoldable pub key_len : List ℕ → ℕ
key_len raw_key = 64

-- A backend's argument: an object, a class of backends, the path of one, or another value.
pub data BackendArgument (B : Type 0) : Type 0 where
  no_backend : BackendArgument B
  backend_object : B → BackendArgument B
  backend_class : Result B → BackendArgument B
  backend_path : List ℕ → BackendArgument B
  other_backend : BackendArgument B

-- `LazyBackend.__init__` and its property `backend`; `get_backend` is eth_keys'.
module _ {B : Type 0} (get_backend : Option (List ℕ) → Result B) where
  unfoldable pub set_backend : BackendArgument B → Result (Option B)
  set_backend no_backend = ok none
  set_backend (backend_object backend) = ok (some backend)
  set_backend (backend_class call) = do backend ← call; ok (some backend)
  set_backend (backend_path path) = do backend ← get_backend (some path); ok (some backend)
  set_backend other_backend = err value_error

  unfoldable pub backend_of : Option B → Result B
  backend_of none = get_backend none
  backend_of (some backend) = ok backend

module _ (c : Curve) (check : Validation) where
  abbrev pub key_int : List ℕ → ℕ
  key_int raw_key = c.big_endian_to_int raw_key

  -- `PublicKey.from_private`, with the backend's `private_key_to_public_key`.
  unfoldable pub from_private : PrivateKey → Result PublicKey
  from_private private_key = do
    public_key_bytes ← private_key_to_public_key c private_key.raw_key
    make_public_key c check public_key_bytes

  -- The setters of Signature, which raise the validators' own exception.
  unfoldable pub set_v : Signature → ℕ → Result Signature
  set_v signature value = do
    guard (check.valid_v value) validation_error
    ok (record signature { v = value })

  unfoldable pub set_r : Signature → ℕ → Result Signature
  set_r signature value = do
    guard (check.valid_r_or_s value) validation_error
    ok (record signature { r = value })

  unfoldable pub set_s : Signature → ℕ → Result Signature
  set_s signature value = do
    guard (check.valid_r_or_s value) validation_error
    ok (record signature { s = value })

  abbrev pub signature_len : Signature → ℕ
  signature_len signature = length (to_bytes c check signature)

  abbrev pub signature_eq : Signature → Other → Result Bool
  signature_eq signature other = eq_bytes (to_bytes c check signature) other

  abbrev pub signature_item : Signature → ℤ → Result ℕ
  signature_item signature index = item_at (to_bytes c check signature) index

  abbrev pub signature_int : Signature → ℕ
  signature_int signature = c.big_endian_to_int (to_bytes c check signature)

module _ (c : Curve) (check : Validation) (e : ObjectPackage) where
  abbrev pub key_hash : List ℕ → ℕ
  key_hash raw_key = c.big_endian_to_int (e.keccak raw_key)

  abbrev pub checksum_address : PublicKey → List ℕ
  checksum_address key = e.to_checksum_address (e.public_key_bytes_to_address key.raw_key)

  abbrev pub to_address : PublicKey → List ℕ
  to_address key = e.to_normalized_address (e.public_key_bytes_to_address key.raw_key)

  abbrev pub to_canonical_address : PublicKey → List ℕ
  to_canonical_address key = e.public_key_bytes_to_address key.raw_key

  abbrev pub recover_from_msg : List ℕ → Signature → Result PublicKey
  recover_from_msg message signature = ecdsa_recover c check (e.keccak message) signature

  abbrev pub verify_msg : PublicKey → List ℕ → ℕ × ℕ → Bool
  verify_msg key message rs = ecdsa_verify c check (e.keccak message) rs key

  abbrev pub sign_msg : PrivateKey → List ℕ → Result Signature
  sign_msg key message = sign_msg_hash c check key (e.keccak message) 0

  abbrev pub sign_msg_non_recoverable : PrivateKey → List ℕ → Result NonRecoverableSignature
  sign_msg_non_recoverable key message = ecdsa_sign_non_recoverable c check (e.keccak message) key

  abbrev pub signature_to_hex : Signature → List ℕ
  signature_to_hex signature = e.encode_hex (to_bytes c check signature)

  abbrev pub signature_hash : Signature → ℕ
  signature_hash signature = c.big_endian_to_int (e.keccak (to_bytes c check signature))
