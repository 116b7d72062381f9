-- ===== src/Mpt/Compact.antt =====
-- `decode_compact` against the hex-prefix encoding that it undoes.
use sting_flashbots.Base.{
  ℕ, zero, suc, ◌+◌, ◌-◌, ◌*◌, ◌/◌, ◌%◌, ◌≤◌, ◌<◌, ◌≡◌, refl, ◌∙◌, Bool, true, false, List, [], ◌∷◌,
  if◌then◌else◌, length, All, ok, arith, ◌==◌, leb, ltb, Bool-cases, inl, inr,
}
use sting_flashbots.Mpt.{compact_flags, nibble_at, collect_nibbles, decode_compact}

abbrev pub IsNibble : ℕ → Type 0
IsNibble n = n < 16

-- Nibbles two to a byte.
abbrev pub pack : List ℕ → List ℕ
pack [] = []
pack (a ∷ []) = []
pack (a ∷ b ∷ rest) = (a * 16 + b) ∷ pack rest

abbrev pub flag : Bool → ℕ
flag true = 2
flag false = 0

-- The hex-prefix encoding of a path: the flag and a zero nibble before a path of even length, the
-- flag plus one before a path of odd length.
unfoldable pub hex_prefix : Bool → List ℕ → List ℕ
hex_prefix leaf [] = (flag leaf * 16) ∷ []
hex_prefix leaf (a ∷ rest) =
    if length rest % 2 == 0
    then ((flag leaf + 1) * 16 + a) ∷ pack rest
    else (flag leaf * 16) ∷ pack (a ∷ rest)

nibble_at_shift : (b : ℕ) (bs : List ℕ) (i : ℕ) → nibble_at (b ∷ bs) (i + 1 + 1) ≡ nibble_at bs i
unfolding nibble_at
nibble_at_shift b bs i =
    let e : (i + 1 + 1) / 2 ≡ suc (i / 2) = omega arith in
    let e2 : (i + 1 + 1) % 2 ≡ i % 2 = omega arith in rw (e, e2)

collect_nibbles_shift :
    (b : ℕ) (bs : List ℕ) (i n : ℕ)
    → collect_nibbles (b ∷ bs) (i + 1 + 1) n ≡ collect_nibbles bs i n
unfolding collect_nibbles
collect_nibbles_shift b bs i zero = refl
collect_nibbles_shift b bs i (suc n) =
    rw (nibble_at_shift b bs i, collect_nibbles_shift b bs (i + 1) n)

-- From an even place on, the packed nibbles are read back.
collect-pack :
    (xs : List ℕ)
    → All IsNibble xs
    → length xs % 2 ≡ 0
    → collect_nibbles (pack xs) 0 (length xs) ≡ ok xs
unfolding collect_nibbles
collect-pack [] h e = refl
collect-pack (a ∷ []) h e = absurd (omega arith)
collect-pack (a ∷ b ∷ rest) (ha, (hb, hr)) e =
    let high : (a * 16 + b) / 16 % 16 ≡ a = omega arith in
    let low : (a * 16 + b) % 16 ≡ b = omega arith in
    rw
      (
        collect_nibbles_shift (a * 16 + b) (pack rest) 0 (length rest),
        collect-pack rest hr (omega arith),
      )
      (unfold nibble_at in rw (high, low))

-- The same behind a byte that holds the odd nibble, which is read first.
collect-pack_odd :
    (b a : ℕ) (xs : List ℕ)
    → All IsNibble xs
    → length xs % 2 ≡ 0
    → b % 16 ≡ a
    → collect_nibbles (b ∷ pack xs) 1 (suc (length xs)) ≡ ok (a ∷ xs)
unfolding collect_nibbles
collect-pack_odd b a xs h e low =
    rw (collect_nibbles_shift b (pack xs) 0 (length xs), collect-pack xs h e)
      (unfold nibble_at in rw low)

length-pack : (xs : List ℕ) → length xs % 2 ≡ 0 → length (pack xs) * 2 ≡ length xs
length-pack [] h = refl
length-pack (a ∷ []) h = absurd (omega arith)
length-pack (a ∷ b ∷ rest) h = omega (arith, length-pack rest (omega arith))

-- A run of `decode_compact` from the results of its parts.
decode_compact_run :
    (first : ℕ) (rest : List ℕ) (skip n : ℕ) (leaf : Bool) (nibbles : List ℕ)
    → compact_flags (first / 16 % 16) ≡ ok (skip, leaf)
    → skip ≤ suc (length rest) * 2
    → suc (length rest) * 2 - skip ≡ n
    → collect_nibbles (first ∷ rest) skip n ≡ ok nibbles
    → decode_compact (first ∷ rest) ≡ ok (leaf, nibbles)
unfolding decode_compact
decode_compact_run first rest skip n leaf nibbles flags fits size run =
    let within : leb skip (suc (length rest) * 2) ≡ true = ground arith in
    let some_bytes : ltb 0 (suc (length rest)) ≡ true = ground arith in
    rw (some_bytes, flags, within, size, run)

even_flags : (leaf : Bool) → compact_flags (flag leaf * 16 / 16 % 16) ≡ ok (2, leaf)
unfolding compact_flags
even_flags true = refl
even_flags false = refl

odd_flags :
    (leaf : Bool) (a : ℕ)
    → IsNibble a
    → compact_flags (((flag leaf + 1) * 16 + a) / 16 % 16) ≡ ok (1, leaf)
unfolding compact_flags
odd_flags true a h = let e : (48 + a) / 16 % 16 ≡ 3 = omega arith in rw e
odd_flags false a h = let e : (16 + a) / 16 % 16 ≡ 1 = omega arith in rw e

decode_even :
    (leaf : Bool) (xs : List ℕ)
    → All IsNibble xs
    → length xs % 2 ≡ 0
    → decode_compact ((flag leaf * 16) ∷ pack xs) ≡ ok (leaf, xs)
decode_even leaf xs h e =
    decode_compact_run (flag leaf * 16) (pack xs) 2 (length xs) leaf xs (even_flags leaf)
      (omega arith) (omega (arith, length-pack xs e))
      (collect_nibbles_shift (flag leaf * 16) (pack xs) 0 (length xs) ∙ collect-pack xs h e)

decode_odd :
    (leaf : Bool) (a : ℕ) (xs : List ℕ)
    → IsNibble a
    → All IsNibble xs
    → length xs % 2 ≡ 0
    → decode_compact (((flag leaf + 1) * 16 + a) ∷ pack xs) ≡ ok (leaf, a ∷ xs)
decode_odd leaf a xs ha h e =
    let first : ℕ = (flag leaf + 1) * 16 + a in
    decode_compact_run first (pack xs) 1 (suc (length xs)) leaf (a ∷ xs) (odd_flags leaf a ha)
      (omega arith) (omega (arith, length-pack xs e))
      (collect-pack_odd first a xs h e (omega arith))

-- Decoding the hex-prefix encoding of a path of nibbles gives back the path and whether it is a leaf's.
pub decode_compact-hex_prefix :
    (leaf : Bool) (path : List ℕ)
    → All IsNibble path
    → decode_compact (hex_prefix leaf path) ≡ ok (leaf, path)
unfolding hex_prefix
decode_compact-hex_prefix leaf [] h = decode_even leaf [] h refl
decode_compact-hex_prefix leaf (a ∷ rest) (ha, h) = elim (Bool-cases (length rest % 2 == 0)) [
  | inl even ↦ rw even (decode_odd leaf a rest ha h (ground arith))
  | inr odd ↦ rw odd (decode_even leaf (a ∷ rest) (ha, h) (ground arith))
]
