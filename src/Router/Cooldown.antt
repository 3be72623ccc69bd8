-- ===== src/Router/Cooldown.antt =====
-- The cooldown of a rate-limited model.
use headcount.Prelude.{
  ℕ, suc, zero, ◌+◌, ◌-◌, ◌*◌, ◌^◌, ◌%◌, ◌≡◌, ◌≤◌, ◌<◌, refl, ap, sym, ◌∙◌, Bool, true, ◌&&◌, leb,
  ◌==◌, ==_iff, if◌then◌else◌, arith, ◌⊎◌, inl, inr,
}
use native.Mathlib.Nat.{pow-suc, one-le-pow, mul-mod_left}
use headcount.Router.{shifted, cooldown}

-- Five minutes, doubled with each further rate limit, up to an hour.
abbrev pub doubled : ℕ → ℕ
doubled streak =
    let d = 300000000000 * 2 ^ (streak - 1) in if leb d 3600000000000 then d else 3600000000000

below : ℕ → Bool
below zero = true
below (suc n) = let rest = below n in (cooldown n == doubled n) && rest

small : below 65 ≡ true
unfolding below cooldown shifted
small = refl

below_holds : (n k : ℕ) → below n ≡ true → k < n → cooldown k ≡ doubled k
unfolding below
below_holds zero k h lt = absurd (omega arith)
below_holds (suc n) k h lt =
    let rest = below_holds n k in ground (arith, ==_iff (cooldown n) (doubled n))

ltb-cases : (m n : ℕ) → (m < n) ⊎ (n ≤ m)
ltb-cases m n = ground arith

-- From the sixty-fifth rate limit on, no bit of the base is left.
far_shift : (n : ℕ) → 2 ^ (n + 64) ≡ 2 ^ n * 2 ^ 64
far_shift zero = refl
far_shift (suc n) =
    let rest = far_shift n in
    let next : suc n + 64 ≡ suc (n + 64) = omega arith in
    let more = pow-suc 2 (n + 64) in let less = pow-suc 2 n in ap (λ k. 2 ^ k) next ∙ omega arith

far : (n : ℕ) → shifted (n + 65) ≡ 0
unfolding shifted
far n =
    let exponent : n + 65 - 1 ≡ n + 64 = omega arith in
    let whole : 300000000000 * (2 ^ n * 18446744073709551616)
        ≡ 300000000000 * 2 ^ n * 18446744073709551616 =
      omega arith in
    ap (λ k. 300000000000 * 2 ^ k % 18446744073709551616) exponent
    ∙ ap (λ k. 300000000000 * k % 18446744073709551616) (far_shift n)
    ∙ ap (λ k. k % 18446744073709551616) whole
    ∙ mul-mod_left (300000000000 * 2 ^ n) 18446744073709551616

-- For every streak of rate limits, however long, the cooldown that the 64-bit shift computes is five
-- minutes, doubled once for each rate limit of the streak after the first, and at most an hour.
pub cooldown-eq-doubled : (streak : ℕ) → cooldown streak ≡ doubled streak
unfolding cooldown
cooldown-eq-doubled streak = elim (ltb-cases streak 65) [
  | inl few ↦ below_holds 65 streak small few
  | inr many ↦
      let split : streak - 65 + 65 ≡ streak = omega arith in
      let gone : shifted streak ≡ 0 = ap shifted (sym split) ∙ far (streak - 65) in
      let exponent : streak - 1 ≡ (streak - 65) + 64 = omega arith in
      let power : 2 ^ (streak - 1) ≡ 2 ^ (streak - 65) * 2 ^ 64 =
        ap (λ k. 2 ^ k) exponent ∙ far_shift (streak - 65) in
      let one : 1 ≤ 2 ^ (streak - 65) = one-le-pow (streak - 65) 2 (omega arith) in ground arith
]
