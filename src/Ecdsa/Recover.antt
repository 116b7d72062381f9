-- ===== src/Ecdsa/Recover.antt =====
-- The public key is recovered from a signature.
use sting_flashbots.Base.{
  ℕ, ◌+◌, ◌-◌, ◌*◌, ◌%◌, ◌≤◌, ◌<◌, ◌≡◌, ◌≢◌, ◌⊎◌, inl, inr, refl, sym, ap, subst, ◌∙◌, List, arith,
  Bool, true, false, not, leb, ltb, ◌==◌, ◌&&◌, ok, if◌then◌else◌, ==_refl,
}
use sting_flashbots.Ecdsa.{
  Curve, CurveLaws, PointXy, Jacobian, xor_bit, nonce, s_raw_of, square_root, ecdsa_raw_sign,
  ecdsa_raw_recover, encode_raw_public_key, private_key_to_public_key,
}
use sting_flashbots.Ecdsa.Arith.{add-mod_congr}
use sting_flashbots.Ecdsa.Residues.{times_same, times_opposite, recovered_index}
use native.Mathlib.Nat.{mod-lt, mod-mod, mod_self, mod-eq_of_lt}

-- What eth_keys documents of its Jacobian coordinates: a triple represents the multiple of the base point with
-- an index, which multiplication and addition carry along. A multiple with an index that is not 0 mod
-- the order is a point with coordinates below the odd modulus on the curve, the opposite index has the
-- opposite `y`, and the power that stands for a square root gives one of the two roots.
pub record JacobianLaws (c : Curve) : Type 1 where
  pub Represents : Jacobian → ℕ → Type 0
  pub represents_affine :
      (k : ℕ) → k % c.n ≢ 0 → Represents ((c.fast_multiply c.g k).0, (c.fast_multiply c.g k).1, 1) k
  pub represents_multiply :
      (q : Jacobian) (k m : ℕ) → Represents q k → Represents (c.jacobian_multiply q m) (k * m)
  pub represents_add :
      (q r : Jacobian) (k m : ℕ)
      → Represents q k
      → Represents r m
      → Represents (c.jacobian_add q r) (k + m)
  pub represents_point :
      (q : Jacobian) (k : ℕ)
      → Represents q k
      → k % c.n ≢ 0
      → (c.is_identity q ≡ false) × (c.from_jacobian q ≡ c.fast_multiply c.g k)
  pub base_lem : c.fast_multiply c.g 1 ≡ c.g
  pub odd_modulus : c.p % 2 ≡ 1
  pub y_bounds :
      (k : ℕ) → k % c.n ≢ 0 → (0 < (c.fast_multiply c.g k).1) × ((c.fast_multiply c.g k).1 < c.p)
  pub on_curve :
      (k : ℕ)
      → k % c.n ≢ 0
      → let (x, y) = c.fast_multiply c.g k in (x * x * x + c.a * x + c.b) % c.p ≡ y * y % c.p
  pub opposite_y :
      (k m : ℕ)
      → k % c.n ≢ 0
      → (k + m) % c.n ≡ 0
      → (c.fast_multiply c.g m).1 ≡ c.p - (c.fast_multiply c.g k).1
  pub root_lem :
      (y : ℕ)
      → y < c.p
      → (square_root c (y * y % c.p) ≡ y) ⊎ (square_root c (y * y % c.p) ≡ c.p - y)

-- The `y` that is taken has the parity that the signature says: that of the nonce's multiple, or of its
-- opposite where `s` was flipped.
chosen_y :
    (p y beta : ℕ) (small : Bool)
    → 0 < y
    → y < p
    → p % 2 ≡ 1
    → (beta ≡ y) ⊎ (beta ≡ p - y)
    → (if xor_bit ((27 + xor_bit (y % 2) (if small then 0 else 1) - 27 + 27) % 2) (beta % 2) == 0
        then p - beta
        else beta)
      ≡ (if small then y else p - y)
chosen_y p y beta true pos lt odd (inl e) = ground arith
chosen_y p y beta true pos lt odd (inr e) = ground arith
chosen_y p y beta false pos lt odd (inl e) = ground arith
chosen_y p y beta false pos lt odd (inr e) = ground arith

v_range : (v : ℕ) → v ≤ 1 → (leb 27 (v + 27) && leb (v + 27) 34) ≡ true
v_range v h = ground arith

nonzero_tests : (r s n : ℕ) → r % n ≢ 0 → s % n ≢ 0 → (not (r % n == 0) && not (s % n == 0)) ≡ true
nonzero_tests r s n hr hs = ground arith

module _ (c : Curve) (laws : CurveLaws c) (jac : JacobianLaws c) where
  -- The `y` that `ecdsa_raw_recover` takes for a recovery bit and the first coordinate of a point.
  abbrev taken : ℕ → ℕ → ℕ
  taken v x =
      let beta = square_root c ((x * x * x + c.a * x + c.b) % c.p) in
      if xor_bit ((v + 27) % 2) (beta % 2) == 0 then c.p - beta else beta

  module _ (m : List ℕ) (v s d j : ℕ) (bit : v ≤ 1) (jnz : j % c.n ≢ 0) where
    abbrev point : PointXy
    point = c.fast_multiply c.g j

    abbrev z : ℕ
    z = c.big_endian_to_int m

    -- The recovered triple represents the private key.
    abbrev recovered : Jacobian
    recovered =
        c.jacobian_multiply
          (c.jacobian_add (c.jacobian_multiply (c.g.0, c.g.1, 1) ((c.n - z % c.n) % c.n))
            (c.jacobian_multiply (point.0, point.1, 1) s))
          (c.inv point.0 c.n)

    recovered_represents :
        jac.Represents recovered ((1 * ((c.n - z % c.n) % c.n) + j * s) * c.inv point.0 c.n)
    recovered_represents =
        let base : jac.Represents (c.g.0, c.g.1, 1) 1 =
          subst (λ (q : PointXy). jac.Represents (q.0, q.1, 1) 1) jac.base_lem
            (jac.represents_affine 1
              (omega (arith, laws.order_pos, mod-eq_of_lt laws.order_pos))) in
        jac.represents_multiply _ _ (c.inv point.0 c.n) (
          jac.represents_add _ _ _ _ (jac.represents_multiply _ 1 _ base)
            (jac.represents_multiply _ j s (jac.represents_affine j jnz)))

    recover_at :
        taken v point.0 ≡ point.1
        → point.0 % c.n ≢ 0
        → s % c.n ≢ 0
        → d % c.n ≢ 0
        → j * s % c.n ≡ (z + point.0 * d) % c.n
        → ecdsa_raw_recover c m (v, point.0, s)
          ≡ ok (encode_raw_public_key c (c.fast_multiply c.g d))
    unfolding ecdsa_raw_recover
    recover_at y_is rnz snz dnz sum =
        let order = laws.order_pos in
        let index : (1 * ((c.n - z % c.n) % c.n) + j * s) * c.inv point.0 c.n % c.n ≡ d % c.n =
          (let front : 1 * ((c.n - z % c.n) % c.n) ≡ (c.n - z % c.n) % c.n = omega arith in
            ap (λ (o : ℕ). (o + j * s) * c.inv point.0 c.n % c.n) front
            ∙ recovered_index c.n order z point.0 d (j * s) (z + point.0 * d) (c.inv point.0 c.n)
                refl sum (laws.inv_lem point.0 rnz ∙ sym (mod-eq_of_lt order))) in
        let (proper, is_point) =
          jac.represents_point recovered _ recovered_represents (λ q. dnz (sym index ∙ q)) in
        let same_point =
          sym (laws.multiply-mod _) ∙ ap (c.fast_multiply c.g) index ∙ laws.multiply-mod d in
        let on : (point.0 * point.0 * point.0 + c.a * point.0 + c.b) % c.p % c.p
            ≡ point.1 * point.1 % c.p =
          mod-mod (point.0 * point.0 * point.0 + c.a * point.0 + c.b) c.p ∙ jac.on_curve j jnz in
        rw
          (
            v_range v bit,
            y_is,
            on,
            ==_refl (point.1 * point.1 % c.p),
            nonzero_tests point.0 s c.n rnz snz,
            proper,
            is_point,
            same_point,
          )
          refl

  -- Both forms of a signature with a nonce `k`, by whether `s` was small.
  module _ (m : List ℕ) (k d : ℕ) (knz : k % c.n ≢ 0) (dnz : d % c.n ≢ 0) where
    abbrev r : ℕ
    r = (c.fast_multiply c.g k).0

    abbrev y : ℕ
    y = (c.fast_multiply c.g k).1

    abbrev s_raw : ℕ
    s_raw = s_raw_of c k (c.big_endian_to_int m) r d

    abbrev sent : Bool → ℕ × ℕ × ℕ
    sent small = (
      27 + xor_bit (y % 2) (if small then 0 else 1) - 27,
      r,
      if small then s_raw else c.n - s_raw,
    )

    inverse : k * c.inv k c.n % c.n ≡ 1 % c.n
    inverse = laws.inv_lem k knz ∙ sym (mod-eq_of_lt laws.order_pos)

    beta_lem :
        let beta = square_root c ((r * r * r + c.a * r + c.b) % c.p) in
        (beta ≡ y) ⊎ (beta ≡ c.p - y)
    beta_lem = rw (jac.on_curve k knz) (jac.root_lem y (jac.y_bounds k knz).1)

    taken-y : (small : Bool) → taken (sent small).0 r ≡ (if small then y else c.p - y)
    taken-y small =
        let (pos, below) = jac.y_bounds k knz in
        chosen_y c.p y _ small pos below jac.odd_modulus beta_lem

    bit_of : (small : Bool) → (sent small).0 ≤ 1
    bit_of true = omega arith
    bit_of false = omega arith

    recover_small :
        r % c.n ≢ 0
        → s_raw % c.n ≢ 0
        → ecdsa_raw_recover c m (sent true) ≡ ok (encode_raw_public_key c (c.fast_multiply c.g d))
    recover_small rnz snz =
        recover_at m (sent true).0 s_raw d k (bit_of true) knz (taken-y true) rnz snz dnz (
          times_same c.n laws.order_pos k (c.inv k c.n) s_raw (c.big_endian_to_int m + r * d)
            inverse (mod-mod _ c.n))

    recover_large :
        r % c.n ≢ 0
        → (c.n - s_raw) % c.n ≢ 0
        → ecdsa_raw_recover c m (sent false) ≡ ok (encode_raw_public_key c (c.fast_multiply c.g d))
    recover_large rnz snz =
        let order = laws.order_pos in
        let t : ℕ = c.big_endian_to_int m + r * d in
        let j : ℕ = c.n - k % c.n in
        let below : k % c.n < c.n = mod-lt k {m = c.n} (omega arith) in
        let pair : (k + j) % c.n ≡ 0 =
          (let whole : k % c.n + j ≡ c.n = omega arith in
            add-mod_congr c.n k j (k % c.n) j (sym (mod-mod k c.n)) refl
            ∙ ap (λ (w : ℕ). w % c.n) whole
            ∙ mod_self c.n) in
        let jnz : j % c.n ≢ 0 =
          (let e : j % c.n ≡ j = mod-eq_of_lt (omega (arith, knz)) in
            λ q. omega (arith, e, q, below)) in
        let same_x : r ≡ (c.fast_multiply c.g j).0 = laws.multiply_opposite k j pair in
        let other_y : (c.fast_multiply c.g j).1 ≡ c.p - y = jac.opposite_y k j knz pair in
        let s_below : s_raw < c.n = mod-lt _ {m = c.n} (omega arith) in
        let sum_s : (c.n - s_raw + c.inv k c.n * t) % c.n ≡ 0 =
          (let whole : c.n - s_raw + s_raw ≡ c.n = omega arith in
            add-mod_congr c.n (c.n - s_raw) (c.inv k c.n * t) (c.n - s_raw) s_raw refl
              (sym (mod-mod _ c.n))
            ∙ ap (λ (w : ℕ). w % c.n) whole
            ∙ mod_self c.n) in
        let sum = times_opposite c.n order k j (c.inv k c.n) (c.n - s_raw) t inverse pair sum_s in
        let at_j =
          recover_at m (sent false).0 (c.n - s_raw) d j (bit_of false) jnz
            (subst (λ x. taken (sent false).0 x ≡ (c.fast_multiply c.g j).1) same_x
              (taken-y false ∙ sym other_y))
            (subst (λ x. x % c.n ≢ 0) same_x rnz) snz dnz
            (subst (λ x. j * (c.n - s_raw) % c.n ≡ (c.big_endian_to_int m + x * d) % c.n) same_x
              sum) in
        subst
          (λ x.
            ecdsa_raw_recover c m ((sent false).0, x, c.n - s_raw)
            ≡ ok (encode_raw_public_key c (c.fast_multiply c.g d)))
          (sym same_x) at_j

    recover_sent :
        (small : Bool)
        → r % c.n ≢ 0
        → (sent small).2 % c.n ≢ 0
        → ecdsa_raw_recover c m (sent small) ≡ ok (encode_raw_public_key c (c.fast_multiply c.g d))
    recover_sent true rnz snz = recover_small rnz snz
    recover_sent false rnz snz = recover_large rnz snz

-- From what `ecdsa_raw_sign` makes of a message, `ecdsa_raw_recover` finds the public key of the private
-- key, where the private key, the nonce and the two parts of the signature are not 0 mod the order.
pub ecdsa_raw_recover-ecdsa_raw_sign :
    (c : Curve)
    → CurveLaws c
    → JacobianLaws c
    → (msg_hash private_key_bytes public_key_bytes : List ℕ) (k : ℕ)
    → private_key_to_public_key c private_key_bytes ≡ ok public_key_bytes
    → c.big_endian_to_int private_key_bytes % c.n ≢ 0
    → nonce c msg_hash private_key_bytes k % c.n ≢ 0
    → (ecdsa_raw_sign c msg_hash private_key_bytes k).1 % c.n ≢ 0
    → (ecdsa_raw_sign c msg_hash private_key_bytes k).2 % c.n ≢ 0
    → ecdsa_raw_recover c msg_hash (ecdsa_raw_sign c msg_hash private_key_bytes k)
      ≡ ok public_key_bytes
unfolding ecdsa_raw_sign private_key_to_public_key
ecdsa_raw_recover-ecdsa_raw_sign c laws jac m key pub_bytes k_arg pk dnz knz rnz snz =
    let d = c.big_endian_to_int key in
    let k = nonce c m key k_arg in
    let is_key : ok (encode_raw_public_key c (c.fast_multiply c.g d)) ≡ ok pub_bytes =
      ground arith in
    recover_sent c laws jac m k d knz dnz
      (ltb (s_raw_of c k (c.big_endian_to_int m) (c.fast_multiply c.g k).0 d * 2) c.n) rnz snz
    ∙ is_key
