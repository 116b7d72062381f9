-- ===== src/Keys/Equality.antt =====
-- Signatures as objects: equality, items and length.
use sting_flashbots.Base.{
  ℕ, suc, ◌-◌, ◌^◌, ◌≤◌, ◌≡◌, ◌↔◌, refl, sym, ap, ◌∙◌, negsuc, List, [], ◌∷◌, ◌++◌, none, some,
  true, lt→ltb, bytes_eq, bytes_eq→eq, bytes_eq_refl, length, length-append, get_elem?, arith, ok,
  ok-injective,
}
use sting_flashbots.Ecdsa.{Curve, CurveLaws}
use sting_flashbots.Keys.{Validation, ValidationLaws, Signature, to_bytes, make_signature}
use sting_flashbots.Keys.Signatures.{IsValid, length-to_bytes, make_signature-to_bytes_lem}
use sting_flashbots.Keys.Objects.{
  with_to_bytes, eq_bytes, item_at, signature_eq, signature_item, signature_len,
}

get_elem?-last : (bs : List ℕ) (v : ℕ) → get_elem? (bs ++ (v ∷ [])) (length bs) ≡ some v
get_elem?-last [] v = refl
get_elem?-last (b ∷ bs) v = get_elem?-last bs v

-- The last of the bytes.
item_at-last : (bs : List ℕ) (v : ℕ) → item_at (bs ++ (v ∷ [])) (negsuc 0) ≡ ok v
unfolding item_at
item_at-last bs v =
    let size : length (bs ++ (v ∷ [])) ≡ suc (length bs) =
      omega (arith, length-append bs (v ∷ [])) in
    let place : length (bs ++ (v ∷ [])) - 1 ≡ length bs = omega arith in
    rw (place, lt→ltb 0 (length (bs ++ (v ∷ []))) (omega arith), get_elem?-last bs v) refl

eq_bytes_iff : (bs bs' : List ℕ) → (eq_bytes bs (with_to_bytes (ok bs')) ≡ ok true) ↔ (bs ≡ bs')
unfolding eq_bytes
eq_bytes_iff bs bs' = (
  (λ h. bytes_eq→eq bs bs' (ok-injective h)),
  (λ q. ap (λ x. ok (bytes_eq bs x)) (sym q) ∙ ap ok (bytes_eq_refl bs)),
)

-- Two signatures with valid parts: they compare as equal just where they have the same parts; the first has 65
-- items, the last of which is its `v`.
pub signature_eq_iff :
    (c : Curve)
    → CurveLaws c
    → (check : Validation) → ValidationLaws c.n check
    → c.n ≤ 2 ^ 256
    → (a b : Signature) → IsValid c.n a
    → IsValid c.n b
    → ((signature_eq c check a (with_to_bytes (ok (to_bytes c check b))) ≡ ok true) ↔ (a ≡ b))
      × (signature_len c check a ≡ 65)
      × (signature_item c check a (negsuc 0) ≡ ok a.v)
unfolding to_bytes
signature_eq_iff c laws check valid small a b ha hb = (
  (
    (λ h. ok-injective (
        sym (make_signature-to_bytes_lem c laws check valid small a ha)
        ∙ ap (λ bs. make_signature c check (some bs) none)
            ((eq_bytes_iff (to_bytes c check a) (to_bytes c check b)).0 h)
        ∙ make_signature-to_bytes_lem c laws check valid small b hb)),
    (λ q. (eq_bytes_iff (to_bytes c check a) (to_bytes c check b)).1 (ap (to_bytes c check) q)),
  ),
  length-to_bytes c laws check valid small a ha,
  rw (valid.int_to_byte_lem a.v (omega arith)) (item_at-last _ a.v),
)
