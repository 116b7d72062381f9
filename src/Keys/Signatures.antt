-- ===== src/Keys/Signatures.antt =====
-- The byte form of signatures.
use sting_flashbots.Base.{
  ℕ, ◌+◌, ◌^◌, ◌<◌, ◌≤◌, ◌≡◌, refl, sym, ap, ◌∙◌, List, [], ◌∷◌, ◌++◌, none, some, lt→ltb, leb-true,
  length, length-append, take, drop, append_assoc, append-nil, arith, ok,
}
use sting_flashbots.Ecdsa.{Curve, CurveLaws}
use sting_flashbots.Ecdsa.Keys.{take-length, drop-length}
use sting_flashbots.Keys.{
  Validation, ValidationLaws, Signature, signature_vrs, read_recoverable, read_v, make_signature,
  to_bytes, make_non_recoverable_signature, non_recoverable_rs, non_recoverable_to_bytes,
}

-- What a signature that was made satisfies.
abbrev pub IsValid : ℕ → Signature → Type 0
IsValid n signature = (signature.v ≤ 1) × (signature.r < n) × (signature.s < n)

module _ (left right tail : List ℕ) (nl : length left ≡ 32) (nr : length right ≡ 32) where
  pub first_part : take 32 ((left ++ right) ++ tail) ≡ left
  first_part = ap (take 32) (append_assoc left right tail) ∙ take-length 32 left (right ++ tail) nl

  pub second_part : take 32 (drop 32 ((left ++ right) ++ tail)) ≡ right
  second_part =
      ap (λ bs. take 32 (drop 32 bs)) (append_assoc left right tail)
      ∙ ap (take 32) (drop-length 32 left (right ++ tail) nl)
      ∙ take-length 32 right tail nr

  pub third_part : drop 64 ((left ++ right) ++ tail) ≡ tail
  third_part = drop-length 64 (left ++ right) tail (omega (arith, length-append left right, nl, nr))

  pub total_length : length ((left ++ right) ++ tail) ≡ 64 + length tail
  total_length = omega (arith, length-append (left ++ right) tail, length-append left right, nl, nr)

module _ (c : Curve) (laws : CurveLaws c) (check : Validation) (valid : ValidationLaws c.n check)
    (small : c.n ≤ 2 ^ 256) where
  read_recoverable-to_bytes :
      (g : Signature)
      → IsValid c.n g
      → read_recoverable c check (to_bytes c check g) ≡ ok (g.v, g.r, g.s)
  unfolding to_bytes
  read_recoverable-to_bytes g (hv, hr, hs) =
      let left : List ℕ = c.pad32 (c.int_to_big_endian g.r) in
      let right : List ℕ = c.pad32 (c.int_to_big_endian g.s) in
      let nl : length left ≡ 32 = laws.length-pad32 g.r (omega arith) in
      let nr : length right ≡ 32 = laws.length-pad32 g.s (omega arith) in
      let byte : check.int_to_byte g.v ≡ g.v ∷ [] = valid.int_to_byte_lem g.v (omega arith) in
      let size : length ((left ++ right) ++ (g.v ∷ [])) ≡ 65 =
        total_length left right (g.v ∷ []) nl nr in
      rw (
        byte,
        valid.valid_recoverable_lem ((left ++ right) ++ (g.v ∷ [])),
        size,
        read_v,
        third_part left right (g.v ∷ []) nl nr,
        first_part left right (g.v ∷ []) nl nr,
        second_part left right (g.v ∷ []) nl nr,
        laws.to_int-pad32 g.r (omega arith),
        laws.to_int-pad32 g.s (omega arith),
      )

  signature_vrs_bytes :
      (bs : List ℕ)
      → 0 < length bs
      → signature_vrs c check (some bs) none ≡ read_recoverable c check bs
  unfolding signature_vrs
  signature_vrs_bytes [] h = absurd (omega arith)
  signature_vrs_bytes (b ∷ bs) h = refl

  non_recoverable_rs_bytes :
      (bs : List ℕ)
      → 0 < length bs
      → length bs ≡ 64
      → non_recoverable_rs c check (some bs) none
        ≡ ok (c.big_endian_to_int (take 32 bs), c.big_endian_to_int (take 32 (drop 32 bs)))
  unfolding non_recoverable_rs
  non_recoverable_rs_bytes [] h e = absurd (omega arith)
  non_recoverable_rs_bytes (b ∷ bs) h e = rw (valid.valid_non_recoverable_lem (b ∷ bs), e)

  pub length-to_bytes : (g : Signature) → IsValid c.n g → length (to_bytes c check g) ≡ 65
  unfolding to_bytes
  length-to_bytes g (hv, hr, hs) = rw (valid.int_to_byte_lem g.v (omega arith)) (
      total_length (c.pad32 (c.int_to_big_endian g.r)) (c.pad32 (c.int_to_big_endian g.s))
        (g.v ∷ []) (laws.length-pad32 g.r (omega arith)) (laws.length-pad32 g.s (omega arith)))

  pub make_signature-to_bytes_lem :
      (g : Signature)
      → IsValid c.n g
      → make_signature c check (some (to_bytes c check g)) none ≡ ok g
  unfolding make_signature
  make_signature-to_bytes_lem g h =
      let (hv, hr, hs) = h in
      rw (
        signature_vrs_bytes (to_bytes c check g) (omega (arith, length-to_bytes g h)),
        read_recoverable-to_bytes g h,
        valid.valid_r_or_s_lem g.r,
        valid.valid_r_or_s_lem g.s,
        valid.valid_v_lem g.v,
        lt→ltb g.r c.n hr,
        lt→ltb g.s c.n hs,
        leb-true g.v 1 hv,
      )

  non_recoverable_read :
      (r s : ℕ)
      → r < c.n
      → s < c.n
      → make_non_recoverable_signature c check
          (some (c.pad32 (c.int_to_big_endian r) ++ c.pad32 (c.int_to_big_endian s)))
          none
        ≡ ok (record { r = r; s = s })
  unfolding make_non_recoverable_signature
  non_recoverable_read r s hr hs =
      let left : List ℕ = c.pad32 (c.int_to_big_endian r) in
      let right : List ℕ = c.pad32 (c.int_to_big_endian s) in
      let nl : length left ≡ 32 = laws.length-pad32 r (omega arith) in
      let nr : length right ≡ 32 = laws.length-pad32 s (omega arith) in
      let size : length (left ++ right) ≡ 64 = omega (arith, length-append left right) in
      let second : take 32 (drop 32 (left ++ right)) ≡ right =
        ap (take 32) (drop-length 32 left right nl)
        ∙ ap (take 32) (sym (append-nil right))
        ∙ take-length 32 right [] nr in
      rw (
        non_recoverable_rs_bytes (left ++ right) (omega arith) size,
        take-length 32 left right nl,
        second,
        laws.to_int-pad32 r (omega arith),
        laws.to_int-pad32 s (omega arith),
        valid.valid_r_or_s_lem r,
        valid.valid_r_or_s_lem s,
        lt→ltb r c.n hr,
        lt→ltb s c.n hs,
      )

-- A signature with valid parts is read back from its 65 bytes, and its pair `r`, `s` from the 64 bytes of
-- the signature without `v`.
pub make_signature-to_bytes :
    (c : Curve)
    → CurveLaws c
    → (check : Validation) → ValidationLaws c.n check
    → c.n ≤ 2 ^ 256
    → (signature : Signature) → IsValid c.n signature
    → (make_signature c check (some (to_bytes c check signature)) none ≡ ok signature)
      × (make_non_recoverable_signature c check
            (some (non_recoverable_to_bytes c check (record { r = signature.r; s = signature.s })))
            none
          ≡ ok (record { r = signature.r; s = signature.s }))
unfolding non_recoverable_to_bytes
make_signature-to_bytes c laws check valid small g h = (
  make_signature-to_bytes_lem c laws check valid small g h,
  non_recoverable_read c laws check valid small g.r g.s h.1 h.2,
)
