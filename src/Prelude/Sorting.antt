-- ===== src/Prelude/Sorting.antt =====
-- A stable sort with a strict order, as `sort.SliceStable` promises it.
use mathlib.Core.Path.{◌≡◌, refl, sym, ◌∙◌}
use mathlib.Core.Bool.{Bool, true, false}
use mathlib.Core.List.Permᴰ
use mathlib.Core.List.{List, [], ◌∷◌, Permᴰ, Memᴰ}
use headcount.Prelude.Lists.{All}
use headcount.Prelude.Tables.{All-map}
use headcount.Prelude.Tests.{if◌then◌else◌, if_elim}

module _ {ℓ} {A : Type ℓ} (less : A → A → Bool) where
  abbrev pub insert : A → List A → List A
  insert x [] = x ∷ []
  insert x (y ∷ ys) = let rest = insert x ys in if less y x then y ∷ rest else x ∷ y ∷ ys

  abbrev pub sort : List A → List A
  sort [] = []
  sort (x ∷ xs) = insert x (sort xs)

  -- No entry is less than one before it.
  abbrev pub InOrder : List A → Type 0
  InOrder [] = Unit
  InOrder (x ∷ xs) = All (λ y. less y x ≡ false) xs × InOrder xs

  insert-perm : (x : A) (ys : List A) → Permᴰ (x ∷ ys) (insert x ys)
  insert-perm x [] = Permᴰ.refl (x ∷ [])
  insert-perm x (y ∷ ys) =
      if_elim (λ (l : List A). Permᴰ (x ∷ y ∷ ys) l) (less y x)
        (λ _. Permᴰ.trans (Permᴰ.swap refl refl) (Permᴰ.cons refl (insert-perm x ys)))
        (λ _. Permᴰ.refl (x ∷ y ∷ ys))

  pub sort-perm : (xs : List A) → Permᴰ xs (sort xs)
  sort-perm [] = Permᴰ.nil
  sort-perm (x ∷ xs) = Permᴰ.trans (Permᴰ.cons refl (sort-perm xs)) (insert-perm x (sort xs))

  insert-All : (P : A → Type 0) (x : A) (ys : List A) → P x → All P ys → All P (insert x ys)
  insert-All P x [] p h = (p, tt)
  insert-All P x (y ∷ ys) p h =
      let rest = insert-All P x ys p h.1 in
      if_elim (All P) (less y x) (λ _. (h.0, rest)) (λ _. (p, h))

  module _ (asym : (x y : A) → less x y ≡ true → less y x ≡ false)
      (trans : (x y z : A) → less y x ≡ false → less z y ≡ false → less z x ≡ false) where
    insert-InOrder : (x : A) (ys : List A) → InOrder ys → InOrder (insert x ys)
    insert-InOrder x [] h = (tt, tt)
    insert-InOrder x (y ∷ ys) h =
        let rest = insert-InOrder x ys h.1 in
        if_elim InOrder (less y x)
          (λ before. (insert-All (λ z. less z y ≡ false) x ys (asym y x before) h.0, rest))
          (λ after. (
            (
              after,
              All-map (λ z. less z y ≡ false) (λ z. less z x ≡ false) ys (λ z. trans x y z after)
                  h.0,
            ),
            h,
          ))

    pub sort-InOrder : (xs : List A) → InOrder (sort xs)
    sort-InOrder [] = tt
    sort-InOrder (x ∷ xs) = insert-InOrder x (sort xs) (sort-InOrder xs)

pub perm_mem {ℓ} : {A : Type ℓ} {xs ys : List A} {m : A} → Permᴰ xs ys → Memᴰ m xs → Memᴰ m ys
perm_mem Permᴰ.nil h = h
perm_mem (Permᴰ.cons e p) (Memᴰ.head f) = Memᴰ.head (f ∙ e)
perm_mem (Permᴰ.cons e p) (Memᴰ.tail h) = Memᴰ.tail (perm_mem p h)
perm_mem (Permᴰ.swap e f) (Memᴰ.head g) = Memᴰ.tail (Memᴰ.head (g ∙ e))
perm_mem (Permᴰ.swap e f) (Memᴰ.tail (Memᴰ.head g)) = Memᴰ.head (g ∙ f)
perm_mem (Permᴰ.swap e f) (Memᴰ.tail (Memᴰ.tail h)) = Memᴰ.tail (Memᴰ.tail h)
perm_mem (Permᴰ.trans p q) h = perm_mem q (perm_mem p h)

pub perm_symm {ℓ} : {A : Type ℓ} {xs ys : List A} → Permᴰ xs ys → Permᴰ ys xs
perm_symm Permᴰ.nil = Permᴰ.nil
perm_symm (Permᴰ.cons e p) = Permᴰ.cons (sym e) (perm_symm p)
perm_symm (Permᴰ.swap e f) = Permᴰ.swap (sym f) (sym e)
perm_symm (Permᴰ.trans p q) = Permᴰ.trans (perm_symm q) (perm_symm p)
