-- ===== src/Ecdsa/Residues.antt =====
-- Residues modulo the order, for the recovery of the public key.
use sting_flashbots.Base.{ℕ, zero, suc, ◌+◌, ◌-◌, ◌*◌, ◌%◌, ◌<◌, ◌≡◌, refl, sym, ap, ◌∙◌, arith}
use sting_flashbots.Ecdsa.Arith.{mul-mod_congr, add-mod_congr}
use native.Mathlib.Nat.{add-mul-mod_self_left, mod-lt, mod-mod, mod_self, mod-eq_of_lt}

-- A residue is found again when the same is added to both sides.
drop_multiple : (m a x : ℕ) → (a + x + x * m) % suc m ≡ a % suc m
drop_multiple m a x =
    let whole : a + x + x * m ≡ a + suc m * x = omega arith in
    ap (λ (t : ℕ). t % suc m) whole ∙ add-mul-mod_self_left a (suc m) x

cancel-mod : (n a b x : ℕ) → 0 < n → (a + x) % n ≡ (b + x) % n → a % n ≡ b % n
cancel-mod zero a b x pos e = absurd (omega arith)
cancel-mod (suc m) a b x pos e =
    sym (drop_multiple m a x)
    ∙ add-mod_congr (suc m) (a + x) (x * m) (b + x) (x * m) e refl
    ∙ drop_multiple m b x

module _ (n : ℕ) (order : 1 < n) where
  opposite_residue : (z : ℕ) → ((n - z % n) % n + z) % n ≡ 0
  opposite_residue z =
      let below : z % n < n = mod-lt z {m = n} (omega arith) in
      let whole : n - z % n + z % n ≡ n = omega arith in
      add-mod_congr n ((n - z % n) % n) z (n - z % n) (z % n) (mod-mod (n - z % n) n)
        (sym (mod-mod z n))
      ∙ ap (λ (t : ℕ). t % n) whole
      ∙ mod_self n

  one_left : (k i t : ℕ) → k * i % n ≡ 1 % n → k * i * t % n ≡ t % n
  one_left k i t ki = mul-mod_congr n (k * i) t 1 t ki refl ∙ ap (λ (m : ℕ). m % n) (omega arith)

  -- With `i` the inverse of `k`: `k` times `s` is `t`, where `s` is `i * t`.
  pub times_same : (k i s t : ℕ) → k * i % n ≡ 1 % n → s % n ≡ i * t % n → k * s % n ≡ t % n
  times_same k i s t ki st =
      let regroup : k * (i * t) ≡ k * i * t = omega arith in
      mul-mod_congr n k s k (i * t) refl st ∙ ap (λ (m : ℕ). m % n) regroup ∙ one_left k i t ki

  -- The same for the opposites of `k` and of `i * t`.
  pub times_opposite :
      (k j i s t : ℕ)
      → k * i % n ≡ 1 % n
      → (k + j) % n ≡ 0
      → (s + i * t) % n ≡ 0
      → j * s % n ≡ t % n
  times_opposite k j i s t ki kj st =
      let first : (j * s + j * (i * t)) % n ≡ 0 =
        (let e : j * s + j * (i * t) ≡ j * (s + i * t) = omega arith in
          ap (λ (m : ℕ). m % n) e
          ∙ mul-mod_congr n j (s + i * t) j 0 refl (st ∙ sym (mod-eq_of_lt (omega arith)))
          ∙ zero_times j) in
      let second : (t + j * (i * t)) % n ≡ 0 =
        (let e : (k * i * t) + j * (i * t) ≡ (k + j) * (i * t) = omega arith in
          add-mod_congr n t (j * (i * t)) (k * i * t) (j * (i * t)) (sym (one_left k i t ki)) refl
          ∙ ap (λ (m : ℕ). m % n) e
          ∙ mul-mod_congr n (k + j) (i * t) 0 (i * t) (kj ∙ sym (mod-eq_of_lt (omega arith))) refl
          ∙ zero_front (i * t)) in
      cancel-mod n (j * s) t (j * (i * t)) (omega arith) (first ∙ sym second)
    where
      zero_times : (j : ℕ) → j * 0 % n ≡ 0
      zero_times j =
          (let e : j * 0 ≡ 0 = omega arith in ap (λ (m : ℕ). m % n) e) ∙ mod-eq_of_lt (omega arith)

      zero_front : (j : ℕ) → 0 * j % n ≡ 0
      zero_front j =
          (let e : 0 * j ≡ 0 = omega arith in ap (λ (m : ℕ). m % n) e) ∙ mod-eq_of_lt (omega arith)

  -- The index of the recovered point is the private key.
  pub recovered_index :
      (z r d q t ri : ℕ)
      → t ≡ z + r * d
      → q % n ≡ t % n
      → r * ri % n ≡ 1 % n
      → (((n - z % n) % n + q) * ri) % n ≡ d % n
  recovered_index z r d q t ri t_is q_is inverse =
      let o : ℕ = (n - z % n) % n in
      let sum : (o + q) % n ≡ r * d % n =
        add-mod_congr n o q o (z + r * d) refl (q_is ∙ ap (λ (m : ℕ). m % n) t_is)
        ∙ (let e : o + (z + r * d) ≡ (o + z) + r * d = omega arith in ap (λ (m : ℕ). m % n) e)
        ∙ add-mod_congr n (o + z) (r * d) 0 (r * d)
            (opposite_residue z ∙ sym (mod-eq_of_lt (omega arith))) refl
        ∙ (let e : 0 + r * d ≡ r * d = omega arith in ap (λ (m : ℕ). m % n) e) in
      let regroup : r * d * ri ≡ r * ri * d = omega arith in
      mul-mod_congr n (o + q) ri (r * d) ri sum refl
      ∙ ap (λ (m : ℕ). m % n) regroup
      ∙ one_left r ri d inverse
