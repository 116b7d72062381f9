-- ===== src/Ecdsa/Arith.antt =====
-- Residues modulo a number, for the equations of the signature scheme.
use sting_flashbots.Base.{ℕ, ◌+◌, ◌*◌, ◌/◌, ◌%◌, ◌≡◌, refl, sym, ap, ◌∙◌, arith}
use native.Mathlib.Nat.{add-mul-mod_self_left, div-add-mod, add-mod, zero-mod}

module _ (n : ℕ) where
  pub mul-mod_left : (a b : ℕ) → a % n * b % n ≡ a * b % n
  mul-mod_left a b =
      let split : a * b ≡ a % n * b + n * (a / n * b) =
        omega (arith, ap (λ (t : ℕ). t * b) (div-add-mod a n)) in
      sym (ap (λ (t : ℕ). t % n) split ∙ add-mul-mod_self_left (a % n * b) n (a / n * b))

  pub mul-mod_right : (a b : ℕ) → a * (b % n) % n ≡ a * b % n
  mul-mod_right a b =
      let swap1 : a * (b % n) ≡ b % n * a = omega arith in
      let swap2 : b * a ≡ a * b = omega arith in
      ap (λ (t : ℕ). t % n) swap1 ∙ mul-mod_left b a ∙ ap (λ (t : ℕ). t % n) swap2

  -- Equal residues may be multiplied.
  pub mul-mod_congr : (a b x y : ℕ) → a % n ≡ x % n → b % n ≡ y % n → a * b % n ≡ x * y % n
  mul-mod_congr a b x y p q =
      sym (mul-mod_left a b)
      ∙ ap (λ (t : ℕ). t * b % n) p
      ∙ mul-mod_left x b
      ∙ sym (mul-mod_right x b)
      ∙ ap (λ (t : ℕ). x * t % n) q
      ∙ mul-mod_right x y

  pub add-mod_congr : (a b x y : ℕ) → a % n ≡ x % n → b % n ≡ y % n → (a + b) % n ≡ (x + y) % n
  add-mod_congr a b x y p q =
      add-mod a b n
      ∙ ap (λ (t : ℕ). (t + b % n) % n) p
      ∙ ap (λ (t : ℕ). (x % n + t) % n) q
      ∙ sym (add-mod x y n)

  -- With `k` and `w` the inverses of `i` and `s`, and `s` the residue of `i * t`, the residue of
  -- `t * w` is that of `k`.
  module _ (k i w s t : ℕ) (ki : k * i % n ≡ 1 % n) (sw : s * w % n ≡ 1 % n) where
    pub signed_same : s % n ≡ i * t % n → t * w % n ≡ k % n
    signed_same st =
        let one_left : t * w % n ≡ k * i * (t * w) % n =
          ap (λ (m : ℕ). m % n) (omega arith)
          ∙ sym (mul-mod_congr (k * i) (t * w) 1 (t * w) ki refl) in
        let regroup : k * i * (t * w) ≡ k * (i * t * w) = omega arith in
        let to_s : k * (i * t * w) % n ≡ k * (s * w) % n =
          mul-mod_congr k (i * t * w) k (s * w) refl (mul-mod_congr (i * t) w s w (sym st) refl) in
        let cancel : k * (s * w) % n ≡ k * 1 % n = mul-mod_congr k (s * w) k 1 refl sw in
        one_left
        ∙ ap (λ (m : ℕ). m % n) regroup
        ∙ to_s
        ∙ cancel
        ∙ ap (λ (m : ℕ). m % n) (omega arith)

    -- The same where `s` is the opposite of `i * t`: the residues of `t * w` and `k` are opposite.
    pub signed_opposite : (s + i * t) % n ≡ 0 → (t * w + k) % n ≡ 0
    signed_opposite st =
        let first : t * w % n ≡ k * i * (t * w) % n =
          ap (λ (m : ℕ). m % n) (omega arith)
          ∙ sym (mul-mod_congr (k * i) (t * w) 1 (t * w) ki refl) in
        let second : k % n ≡ k * (s * w) % n =
          ap (λ (m : ℕ). m % n) (omega arith) ∙ sym (mul-mod_congr k (s * w) k 1 refl sw) in
        let regroup : k * i * (t * w) + k * (s * w) ≡ k * w * (s + i * t) = omega arith in
        let vanish : k * w * (s + i * t) % n ≡ k * w * 0 % n =
          mul-mod_congr (k * w) (s + i * t) (k * w) 0 refl (st ∙ sym (zero-mod n)) in
        add-mod_congr (t * w) k (k * i * (t * w)) (k * (s * w)) first second
        ∙ ap (λ (m : ℕ). m % n) regroup
        ∙ vanish
        ∙ ap (λ (m : ℕ). m % n) (omega arith)
        ∙ zero-mod n
