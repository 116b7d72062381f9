-- ===== src/Ecdsa.antt =====
-- The signer of searcher/src/enclave/lib/ecdsa/ecdsa.py, which the images install over eth_keys'
-- native backend, with the nonce `k` as an argument. The curve (eth_keys' `jacobian` module and
-- constants), the byte conversions of eth_utils and HMAC are parameters.
pub mod Arith
pub mod Keys
pub mod Verify
pub mod Ranges
pub mod Compress
mod Residues
pub mod Recover
pub mod Tests
use sting_flashbots.Base.{
  ℕ, zero, suc, ◌+◌, ◌-◌, ◌*◌, ◌/◌, ◌%◌, ◌^◌, ◌≤◌, ◌<◌, ◌≡◌, ◌≢◌, refl, Bool, true, false, not,
  List, [], ◌∷◌, ◌++◌, ◌&&◌, ◌||◌, leb, ltb, ◌==◌, if◌then◌else◌, length, take, drop, replicate,
  get_elem?, Result, ok, err, Error, value_error, other_exception, bad_signature, index_error,
  ◌>>=◌, ◌>>◌, guard, or_raise,
}

abbrev pub PointXy : Type 0
PointXy = ℕ × ℕ

abbrev pub Jacobian : Type 0
Jacobian = ℕ × ℕ × ℕ

-- eth_keys: the constants of the curve y² = x³ + a x + b over the integers mod `p`, with a base point
-- of order `n`, and the operations of `jacobian.py`; eth_utils: the conversions of byte strings.
pub record Curve : Type 0 where
  pub n : ℕ
  pub p : ℕ
  pub a : ℕ
  pub b : ℕ
  pub g : PointXy
  pub inv : ℕ → ℕ → ℕ
  pub fast_multiply : PointXy → ℕ → PointXy
  pub fast_add : PointXy → PointXy → PointXy
  pub jacobian_multiply : Jacobian → ℕ → Jacobian
  pub jacobian_add : Jacobian → Jacobian → Jacobian
  pub is_identity : Jacobian → Bool
  pub from_jacobian : Jacobian → PointXy
  pub big_endian_to_int : List ℕ → ℕ
  pub int_to_big_endian : ℕ → List ℕ
  pub pad32 : List ℕ → List ℕ
  pub hmac_digest : List ℕ → List ℕ → List ℕ

-- What is documented of them: `n` is prime, so `inv` inverts; multiples of the base point add up and
-- depend on the factor mod `n` only; opposite points have one x coordinate; coordinates fit 32 bytes,
-- and padding them to 32 bytes keeps their value.
pub record CurveLaws (c : Curve) : Type 0 where
  pub order_pos : 1 < c.n
  pub inv_lem : (x : ℕ) → x % c.n ≢ 0 → x * c.inv x c.n % c.n ≡ 1
  pub multiply-mod : (x : ℕ) → c.fast_multiply c.g (x % c.n) ≡ c.fast_multiply c.g x
  pub multiply-multiply :
      (x y : ℕ) → c.fast_multiply (c.fast_multiply c.g x) y ≡ c.fast_multiply c.g (x * y)
  pub add-multiply :
      (x y : ℕ)
      → c.fast_add (c.fast_multiply c.g x) (c.fast_multiply c.g y) ≡ c.fast_multiply c.g (x + y)
  pub multiply_opposite :
      (x y : ℕ) → (x + y) % c.n ≡ 0 → (c.fast_multiply c.g x).0 ≡ (c.fast_multiply c.g y).0
  pub multiply_bounds :
      (x : ℕ) → ((c.fast_multiply c.g x).0 < 2 ^ 256) × ((c.fast_multiply c.g x).1 < 2 ^ 256)
  pub length-pad32 : (x : ℕ) → x < 2 ^ 256 → length (c.pad32 (c.int_to_big_endian x)) ≡ 32
  pub to_int-pad32 :
      (x : ℕ) → x < 2 ^ 256 → c.big_endian_to_int (c.pad32 (c.int_to_big_endian x)) ≡ x

-- `^` on two bits.
abbrev pub xor_bit : ℕ → ℕ → ℕ
xor_bit x y = (x + y) % 2

-- `pow(base, exponent, modulus)`, by squaring. Halving an exponent below 2 ^ 256 takes 256 rounds.
unfoldable pub pow_loop : ℕ → ℕ → ℕ → ℕ → ℕ → ℕ
pow_loop zero base exponent modulus acc = acc
pow_loop (suc rounds) base exponent modulus acc =
    pow_loop rounds (base * base % modulus) (exponent / 2) modulus
      (if exponent % 2 == 1 then acc * base % modulus else acc)

unfoldable pub pow : ℕ → ℕ → ℕ → ℕ
pow base exponent modulus = pow_loop 256 (base % modulus) exponent modulus (1 % modulus)

module _ (c : Curve) where
  unfoldable pub decode_public_key : List ℕ → PointXy
  decode_public_key public_key_bytes = (
    c.big_endian_to_int (take 32 public_key_bytes),
    c.big_endian_to_int (take 32 (drop 32 public_key_bytes)),
  )

  unfoldable pub encode_raw_public_key : PointXy → List ℕ
  encode_raw_public_key (left, right) =
      c.pad32 (c.int_to_big_endian left) ++ c.pad32 (c.int_to_big_endian right)

  unfoldable pub private_key_to_public_key : List ℕ → Result (List ℕ)
  private_key_to_public_key private_key_bytes = do
    let private_key_as_num = c.big_endian_to_int private_key_bytes
    guard (ltb private_key_as_num c.n) other_exception
    ok (encode_raw_public_key (c.fast_multiply c.g private_key_as_num))

  unfoldable pub compress_public_key : List ℕ → List ℕ
  compress_public_key uncompressed =
      let (x, y) = decode_public_key uncompressed in
      (if y % 2 == 0 then 2 else 3) ∷ c.pad32 (c.int_to_big_endian x)

  -- `pow(y_squared, (P + 1) // 4, P)`
  unfoldable pub square_root : ℕ → ℕ
  square_root y_squared = pow y_squared ((c.p + 1) / 4) c.p

  unfoldable pub decompress_public_key : List ℕ → Result (List ℕ)
  decompress_public_key compressed = do
    guard (length compressed == 33) value_error
    prefix ← or_raise (get_elem? compressed 0) index_error
    guard (prefix == 2 || prefix == 3) value_error
    let x = c.big_endian_to_int (drop 1 compressed)
    let y_abs = square_root ((x ^ 3 + c.a * x + c.b) % c.p)
    let flip = (prefix == 2 && y_abs % 2 == 1) || (prefix == 3 && y_abs % 2 == 0)
    ok (encode_raw_public_key (x, if flip then (c.p - y_abs % c.p) % c.p else y_abs))

  unfoldable pub deterministic_generate_k : List ℕ → List ℕ → ℕ
  deterministic_generate_k msg_hash private_key_bytes =
      let v_0 : List ℕ = replicate 32 1 in
      let k_0 : List ℕ = replicate 32 0 in
      let k_1 = c.hmac_digest k_0 (v_0 ++ (0 ∷ (private_key_bytes ++ msg_hash))) in
      let v_1 = c.hmac_digest k_1 v_0 in
      let k_2 = c.hmac_digest k_1 (v_1 ++ (1 ∷ (private_key_bytes ++ msg_hash))) in
      let v_2 = c.hmac_digest k_2 v_1 in c.big_endian_to_int (c.hmac_digest k_2 v_2)

  -- The nonce of a signature: the argument, unless it is 0.
  unfoldable pub nonce : List ℕ → List ℕ → ℕ → ℕ
  nonce msg_hash private_key_bytes k =
      if k == 0 then deterministic_generate_k msg_hash private_key_bytes else k

  abbrev pub s_raw_of : ℕ → ℕ → ℕ → ℕ → ℕ
  s_raw_of k z r d = c.inv k c.n * (z + r * d) % c.n

  -- Returns (v - 27, r, s).
  unfoldable pub ecdsa_raw_sign : List ℕ → List ℕ → ℕ → ℕ × ℕ × ℕ
  ecdsa_raw_sign msg_hash private_key_bytes k_argument =
      let z = c.big_endian_to_int msg_hash in
      let k = nonce msg_hash private_key_bytes k_argument in
      let (r, y) = c.fast_multiply c.g k in
      let s_raw = s_raw_of k z r (c.big_endian_to_int private_key_bytes) in
      let v = 27 + xor_bit (y % 2) (if ltb (s_raw * 2) c.n then 0 else 1) in
      let s = if ltb (s_raw * 2) c.n then s_raw else c.n - s_raw in (v - 27, r, s)

  unfoldable pub ecdsa_raw_verify : List ℕ → ℕ × ℕ → List ℕ → Bool
  ecdsa_raw_verify msg_hash (r, s) public_key_bytes =
      let raw_public_key = decode_public_key public_key_bytes in
      let w = c.inv s c.n in
      let z = c.big_endian_to_int msg_hash in
      let u1 = z * w % c.n in
      let u2 = r * w % c.n in
      let (x, y) = c.fast_add (c.fast_multiply c.g u1) (c.fast_multiply raw_public_key u2) in
      (r == x) && (not (r % c.n == 0) && not (s % c.n == 0))

  -- `v` counts from 0 here. The integer `(xcubedaxb - y * y) % P != 0` compares two residues.
  unfoldable pub ecdsa_raw_recover : List ℕ → ℕ × ℕ × ℕ → Result (List ℕ)
  ecdsa_raw_recover msg_hash (v0, r, s) = do
    let v = v0 + 27
    guard (leb 27 v && leb v 34) bad_signature
    let x = r
    let xcubedaxb = (x * x * x + c.a * x + c.b) % c.p
    let beta = square_root xcubedaxb
    let y = if xor_bit (v % 2) (beta % 2) == 0 then c.p - beta else beta
    guard ((xcubedaxb % c.p == y * y % c.p) && (not (r % c.n == 0) && not (s % c.n == 0)))
        bad_signature
    let z = c.big_endian_to_int msg_hash
    let gz = c.jacobian_multiply (c.g.0, c.g.1, 1) ((c.n - z % c.n) % c.n)
    let xy = c.jacobian_multiply (x, y, 1) s
    let qr = c.jacobian_add gz xy
    let q = c.jacobian_multiply qr (c.inv r c.n)
    guard (not (c.is_identity q)) bad_signature
    ok (encode_raw_public_key (c.from_jacobian q))
