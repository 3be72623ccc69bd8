-- ===== src/Prelude/Lists.antt =====
-- Lists measured by native numbers, under the library's names, and predicates on lists.
use Prim.Native.Nat.{ℕ, zero, suc, ◌+◌, ◌-◌}
use mathlib.Core.Path.{◌≡◌, refl, sym, ap, subst}
use mathlib.Core.Logic.{◌⊎◌, inl, inr}
use mathlib.Core.List.{List, [], ◌∷◌, ◌++◌, Memᴰ, reverse, reverse-cons}
use native.Mathlib.Omega.{arith}

module _ {ℓ} {A : Type ℓ} where
  abbrev pub length : List A → ℕ
  length [] = 0
  length (x ∷ xs) = suc (length xs)

  abbrev pub drop : ℕ → List A → List A
  drop zero xs = xs
  drop (suc n) [] = []
  drop (suc n) (x ∷ xs) = drop n xs

  abbrev pub take : ℕ → List A → List A
  take zero xs = []
  take (suc n) [] = []
  take (suc n) (x ∷ xs) = x ∷ take n xs

  pub take-append : (xs ys : List A) → take (length xs) (xs ++ ys) ≡ xs
  take-append [] ys = refl
  take-append (x ∷ xs) ys = ap (λ l. x ∷ l) (take-append xs ys)

  pub drop-append : (xs ys : List A) → drop (length xs) (xs ++ ys) ≡ ys
  drop-append [] ys = refl
  drop-append (x ∷ xs) ys = drop-append xs ys

  pub length-append : (xs ys : List A) → length (xs ++ ys) ≡ length xs + length ys
  length-append [] ys = omega arith
  length-append (x ∷ xs) ys = omega (arith, length-append xs ys)

  pub length-drop : (n : ℕ) (xs : List A) → length (drop n xs) ≡ length xs - n
  length-drop zero xs = omega arith
  length-drop (suc n) [] = omega arith
  length-drop (suc n) (x ∷ xs) = omega (arith, length-drop n xs)

module _ {ℓ κ} {A : Type ℓ} where
  -- It computes to tuples, which the tactics read and build.
  abbrev pub All : (A → Type κ) → List A → Type κ
  All P [] = Unit
  All P (x ∷ xs) = P x × All P xs

  pub All-append : (P : A → Type κ) (old new : List A) → All P old → All P new → All P (old ++ new)
  All-append P [] new kept added = added
  All-append P (row ∷ old) new (p, kept) added = (p, All-append P old new kept added)

  pub All-split : (P : A → Type κ) (xs ys : List A) → All P (xs ++ ys) → All P xs × All P ys
  All-split P [] ys all = (tt, all)
  All-split P (x ∷ xs) ys all =
      let (left, right) = All-split P xs ys all.1 in ((all.0, left), right)

  pub All-mem : (P : A → Type κ) (xs : List A) {x : A} → All P xs → Memᴰ x xs → P x
  All-mem P [] h m = elim m [ ]
  All-mem P (y ∷ xs) h (Memᴰ.head e) = subst P (sym e) h.0
  All-mem P (y ∷ xs) h (Memᴰ.tail m) = All-mem P xs h.1 m

-- Two lists of the same length whose entries are related.
abbrev pub All2 {ℓ κ} : {A : Type ℓ} {B : Type κ} → (A → B → Type 0) → List A → List B → Type 0
All2 R [] [] = Unit
All2 R [] (y ∷ ys) = ⊥
All2 R (x ∷ xs) [] = ⊥
All2 R (x ∷ xs) (y ∷ ys) = R x y × All2 R xs ys

module _ {ℓ κ} {A : Type ℓ} {B : Type κ} (R : A → B → Type 0) where
  pub All2-append :
      (xs : List A) (ys : List B) (xs' : List A) (ys' : List B)
      → All2 R xs ys
      → All2 R xs' ys'
      → All2 R (xs ++ xs') (ys ++ ys')
  All2-append [] [] xs' ys' h h' = h'
  All2-append [] (y ∷ ys) xs' ys' h h' = absurd h
  All2-append (x ∷ xs) [] xs' ys' h h' = absurd h
  All2-append (x ∷ xs) (y ∷ ys) xs' ys' h h' = (h.0, All2-append xs ys xs' ys' h.1 h')

  pub All2-reverse : (xs : List A) (ys : List B) → All2 R xs ys → All2 R (reverse xs) (reverse ys)
  All2-reverse [] [] h = tt
  All2-reverse [] (y ∷ ys) h = absurd h
  All2-reverse (x ∷ xs) [] h = absurd h
  All2-reverse (x ∷ xs) (y ∷ ys) h =
      rw (reverse-cons x xs, reverse-cons y ys)
        (All2-append (reverse xs) (reverse ys) _ _ (All2-reverse xs ys h.1) (h.0, tt))

pub mem_middle {ℓ} : {A : Type ℓ} (xs : List A) (y : A) (ys : List A) → Memᴰ y (xs ++ y ∷ ys)
mem_middle [] y ys = Memᴰ.head refl
mem_middle (x ∷ xs) y ys = Memᴰ.tail (mem_middle xs y ys)

pub List-cases {ℓ} : {A : Type ℓ} (l : List A) → (l ≡ []) ⊎ ((x : A) × (xs : List A) × (l ≡ x ∷ xs))
List-cases [] = inl refl
List-cases (x ∷ xs) = inr (x, xs, refl)
