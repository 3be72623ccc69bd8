-- ===== src/Prelude/Counts.antt =====
-- Rows that a condition counts: a row with a unique key, and the tables that a loop of updates leaves.
use Prim.Native.Nat.{◌≤◌}
use mathlib.Core.Path.{◌≡◌, refl}
use mathlib.Core.Logic.{inl, inr}
use mathlib.Core.Bool.{Bool, true, false}
use mathlib.Core.Option.{some}
use mathlib.Core.List.{List, [], ◌∷◌}
use native.Mathlib.Omega.{arith}
use headcount.Prelude.Lists.{All}
use headcount.Prelude.Tables.{count, first, update}
use headcount.Prelude.Tests.{if◌then◌else◌, if_elim, Bool-cases}

module _ {ℓ} {A : Type ℓ} where
  -- No row is counted, and the converse.
  pub count-All : (p : A → Bool) (xs : List A) → count p xs ≡ 0 → All (λ x. p x ≡ false) xs
  count-All p [] h = tt
  count-All p (x ∷ xs) h =
      if_elim (λ n. n ≡ 0 → (p x ≡ false) × All (λ y. p y ≡ false) xs) (p x) (λ _ e. ground arith)
        (λ miss e. (miss, count-All p xs e)) h

  pub All-count : (p : A → Bool) (xs : List A) → All (λ x. p x ≡ false) xs → count p xs ≡ 0
  All-count p [] h = refl
  All-count p (x ∷ xs) h = rw h.0 (All-count p xs h.1)

  pub count_mono :
      (p q : A → Bool) (xs : List A) → ((x : A) → p x ≡ true → q x ≡ true) → count p xs ≤ count q xs
  count_mono p q [] imp = omega arith
  count_mono p q (x ∷ xs) imp = let rest = count_mono p q xs imp in ground (arith, imp x)

  pub count-ext : (p q : A → Bool) (xs : List A) → All (λ x. p x ≡ q x) xs → count p xs ≡ count q xs
  count-ext p q [] h = refl
  count-ext p q (x ∷ xs) h = let rest = count-ext p q xs h.1 in rw (h.0, rest) refl

  pub count-update :
      (p q : A → Bool) (f : A → A) (xs : List A)
      → ((x : A) → q (f x) ≡ q x)
      → count q (update p f xs) ≡ count q xs
  count-update p q f [] keep = refl
  count-update p q f (x ∷ xs) keep =
      let rest = count-update p q f xs keep in
      let kept : q (if p x then f x else x) ≡ q x =
        if_elim (λ y. q y ≡ q x) (p x) (λ _. keep x) (λ _. refl) in
      rw (kept, rest) refl

  pub count-first : (p : A → Bool) (xs : List A) → 1 ≤ count p xs → (x : A) × (first p xs ≡ some x)
  count-first p [] h = absurd (omega arith)
  count-first p (x ∷ xs) h =
      if_elim (λ o. (y : A) × (o ≡ some y)) (p x) (λ _. (x, refl))
        (λ f. count-first p xs (ground arith))

  module _ {κ} (P : A → Type κ) (p q : A → Bool) (f : A → A)
      (imp : (x : A) → p x ≡ true → q x ≡ true) where
    untouched :
        (xs : List A) → All (λ x. q x ≡ false) xs → All (λ y. q y ≡ true → P y) (update p f xs)
    untouched [] h = tt
    untouched (x ∷ xs) h = (
      if_elim (λ y. q y ≡ true → P y) (p x) (λ t e. absurd (cc (imp x t, h.0)))
          (λ _ e. absurd (cc (e, h.0))),
      untouched xs h.1,
    )

    -- If `q` holds of at most one row, and an update reaches one row within `q`, then every row of
    -- `q` is an updated one.
    pub update_unique :
        (xs : List A)
        → ((x : A) → P (f x))
        → count q xs ≤ 1
        → count p xs ≡ 1
        → All (λ y. q y ≡ true → P y) (update p f xs)
    update_unique [] done few one = tt
    update_unique (x ∷ xs) done few one =
        let mono = count_mono p q xs imp in
        elim (Bool-cases (p x)) [
          | inl t ↦
              let nil : count q xs ≡ 0 = ground (arith, imp x t) in
              rw t (λ e. done x, untouched xs (count-All q xs nil))
          | inr miss ↦
              let few' : count q xs ≤ 1 = ground arith in
              let one' : count p xs ≡ 1 = ground arith in
              let other : q x ≡ true → P x = λ e. absurd (ground arith) in
              rw miss (other, update_unique xs done few' one')
        ]
