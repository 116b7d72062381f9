-- ===== src/Enclave/Commitments.antt =====
-- Pedersen commitments.
use sting_flashbots.Base.{
  ℕ, suc, ◌*◌, ◌<◌, ◌≡◌, refl, sym, ap, ◌∙◌, subst, List, [], ◌∷◌, true, ltb, ltb→lt, ◌&&◌, length,
  arith, ok, value_error, guard, guard-eq-ok, >>=-eq-ok, ok-injective, Bool, false,
}
use sting_flashbots.Commitment.{uint256_from_str}
use sting_flashbots.Commitment.Points.{Field, FieldLaws, deser, fromhex}
use sting_flashbots.Commitment.Points.Text.{deser-ser}
use sting_flashbots.Enclave.{
  Generators, bytes_to_int, commitment_point, point_number, make_pedersen_commitment,
  compute_pedersen_commitment,
}
use sting_flashbots.Enclave.Words.{AreBytes, bytes_to_int-injective}

and_left : (a b : Bool) → (a && b) ≡ true → a ≡ true
and_left true b h = refl
and_left false b h = cc

and_right : (a b : Bool) → (a && b) ≡ true → b ≡ true
and_right true b h = h
and_right false b h = cc

fromhex-AreBytes :
    (digits bytes : List ℕ)
    → fromhex digits ≡ ok bytes
    → AreBytes bytes × (length digits ≡ 2 * length bytes)
unfolding fromhex
fromhex-AreBytes [] bytes h =
    let none_is : [] ≡ bytes = ok-injective h in
    subst (λ (bs : List ℕ). AreBytes bs × (0 ≡ 2 * length bs)) none_is (tt, refl)
fromhex-AreBytes (d ∷ []) bytes h = cc
fromhex-AreBytes (d ∷ e ∷ ds) bytes h =
    let (_, small, h1) = >>=-eq-ok (guard (ltb d 16 && ltb e 16) value_error) _ h in
    let both = guard-eq-ok (ltb d 16 && ltb e 16) value_error small in
    let d_small = ltb→lt d 16 (and_left (ltb d 16) (ltb e 16) both) in
    let e_small = ltb→lt e 16 (and_right (ltb d 16) (ltb e 16) both) in
    let (rest, rest_is, h2) = >>=-eq-ok (fromhex ds) _ h1 in
    let (rest_bytes, rest_size) = fromhex-AreBytes ds rest rest_is in
    subst (λ (bs : List ℕ). AreBytes bs × (suc (suc (length ds)) ≡ 2 * length bs)) (ok-injective h2)
      ((omega arith, rest_bytes), omega arith)

-- Texts of as many digits for which `fromhex` gives bytes of one number give the same bytes.
same_bytes :
    (text text' bytes bytes' : List ℕ)
    → length text ≡ length text'
    → fromhex text ≡ ok bytes
    → fromhex text' ≡ ok bytes'
    → bytes_to_int bytes ≡ bytes_to_int bytes'
    → bytes ≡ bytes'
same_bytes text text' bytes bytes' size read read' same =
    let (hb, size_b) = fromhex-AreBytes text bytes read in
    let (hb', size_b') = fromhex-AreBytes text' bytes' read' in
    bytes_to_int-injective bytes bytes' (omega arith) hb hb' same

deser_same :
    (f : Field) (text text' : List ℕ) → fromhex text ≡ fromhex text' → deser f text ≡ deser f text'
unfolding deser
deser_same f text text' same = rw same refl

-- A commitment that is made of a value opens to it: computed from the value and the blinding number that
-- was returned, it is the same number.
pub compute-make :
    {Point : Type 0} (f : Field) (p : Generators Point) (x number r : ℕ) (random_bytes : List ℕ)
    → make_pedersen_commitment f p x random_bytes ≡ ok (number, r)
    → compute_pedersen_commitment f p x r ≡ ok number
unfolding make_pedersen_commitment compute_pedersen_commitment
compute-make f p x number r random_bytes made =
    let (drawn, _, h1) = >>=-eq-ok (uint256_from_str random_bytes) _ made in
    let (c, c_is, h2) = >>=-eq-ok (point_number f p (commitment_point f p x drawn)) _ h1 in
    let pair = ok-injective h2 in
    let drawn_is : drawn ≡ r = ap (λ (q : ℕ × ℕ). q.1) pair in
    let c_eq : c ≡ number = ap (λ (q : ℕ × ℕ). q.0) pair in rw (← drawn_is, ← c_eq) c_is

-- Two commitments with the same number, to points of the curve with coordinates in the field, are commitments to
-- the same point: whatever opens one of them opens the other.
pub compute_pedersen_commitment-coordinates :
    {Point : Type 0} (f : Field)
    → FieldLaws f
    → (p : Generators Point) (x r x' r' number : ℕ) (a a' : ℕ × ℕ)
    → p.coordinates (commitment_point f p x r) ≡ ok a
    → a.0 < f.q
    → a.1 < f.q
    → f.test_point a.0 a.1 ≡ true
    → p.coordinates (commitment_point f p x' r') ≡ ok a'
    → a'.0 < f.q
    → a'.1 < f.q
    → f.test_point a'.0 a'.1 ≡ true
    → compute_pedersen_commitment f p x r ≡ ok number
    → compute_pedersen_commitment f p x' r' ≡ ok number
    → a ≡ a'
unfolding compute_pedersen_commitment point_number
compute_pedersen_commitment-coordinates f laws p x r x' r' number a a' at hx hy on at' hx' hy' on'
      made made' =
    let (text, written, size, back) = deser-ser f laws a.0 a.1 hx hy on in
    let (text', written', size', back') = deser-ser f laws a'.0 a'.1 hx' hy' on' in
    let h1 = rw (at, written) at made in
    let h1' = rw (at', written') at made' in
    let (bytes, read, number_is) = >>=-eq-ok (fromhex text) _ h1 in
    let (bytes', read', number_is') = >>=-eq-ok (fromhex text') _ h1' in
    let same : bytes_to_int bytes ≡ bytes_to_int bytes' =
      ok-injective (number_is ∙ sym number_is') in
    let bytes_are = same_bytes text text' bytes bytes' (size ∙ sym size') read read' same in
    ok-injective (sym back ∙ deser_same f text text' (read ∙ ap ok bytes_are ∙ sym read') ∙ back')
