-- ===== src/Prelude/Tables.antt =====
-- Database tables: a table is the list of its rows in primary-key order, and a statement with the
-- condition `p` is one of these functions (`First`, `Find`, `Update`, `Delete`, `Count`).
use Prim.Native.Nat.{ℕ, suc}
use mathlib.Core.Path.{◌≡◌, sym, subst, ap, ◌∙◌}
use mathlib.Core.Bool.{Bool, true, false}
use mathlib.Core.Option.{Option, none, some, some-injective}
use mathlib.Core.List.{List, [], ◌∷◌, ◌++◌, Memᴰ}
use headcount.Prelude.Lists.{All}
use headcount.Prelude.Tests.{if◌then◌else◌, if_elim, is_some}

module _ {ℓ} {A : Type ℓ} where
  abbrev pub first : (A → Bool) → List A → Option A
  first p [] = none
  first p (x ∷ xs) = if p x then some x else first p xs

  abbrev pub find : (A → Bool) → List A → List A
  find p [] = []
  find p (x ∷ xs) = let rest = find p xs in if p x then x ∷ rest else rest

  abbrev pub update : (A → Bool) → (A → A) → List A → List A
  update p f [] = []
  update p f (x ∷ xs) = (if p x then f x else x) ∷ update p f xs

  abbrev pub delete : (A → Bool) → List A → List A
  delete p [] = []
  delete p (x ∷ xs) = let rest = delete p xs in if p x then rest else x ∷ rest

  -- `RowsAffected` of an update, and `Count`.
  abbrev pub count : (A → Bool) → List A → ℕ
  count p [] = 0
  count p (x ∷ xs) = let rest = count p xs in if p x then suc rest else rest

  pub first-holds : (p : A → Bool) (xs : List A) {x : A} → first p xs ≡ some x → p x ≡ true
  first-holds p [] h = cc
  first-holds p (y ∷ xs) {x} h =
      if_elim (λ o. o ≡ some x → p x ≡ true) (p y)
        (λ t e. subst (λ z. p z ≡ true) (some-injective _ _ e) t) (λ _. first-holds p xs) h

pub first-mem {ℓ} :
    {A : Type ℓ} (p : A → Bool) (xs : List A) {x : A} → first p xs ≡ some x → Memᴰ x xs
first-mem p [] h = cc
first-mem p (y ∷ xs) {x} h =
    if_elim (λ o. o ≡ some x → Memᴰ x (y ∷ xs)) (p y)
      (λ _ e. Memᴰ.head (sym (some-injective _ _ e))) (λ _ e. Memᴰ.tail (first-mem p xs e)) h

module _ {ℓ κ} {A : Type ℓ} (P : A → Type κ) where
  pub All-first : (p : A → Bool) (xs : List A) {x : A} → All P xs → first p xs ≡ some x → P x
  All-first p [] h e = cc
  All-first p (y ∷ xs) {x} h e =
      if_elim (λ o. o ≡ some x → P x) (p y) (λ _ e'. subst P (some-injective _ _ e') h.0)
        (λ _. All-first p xs h.1) e

  pub All-update :
      (p : A → Bool) (f : A → A) (xs : List A)
      → ((x : A) → P x → p x ≡ true → P (f x))
      → All P xs
      → All P (update p f xs)
  All-update p f [] keep h = tt
  All-update p f (x ∷ xs) keep h =
      (if_elim P (p x) (keep x h.0) (λ _. h.0), All-update p f xs keep h.1)

  pub All-delete : (p : A → Bool) (xs : List A) → All P xs → All P (delete p xs)
  All-delete p [] h = tt
  All-delete p (x ∷ xs) h =
      let rest = All-delete p xs h.1 in if_elim (All P) (p x) (λ _. rest) (λ _. (h.0, rest))

  pub All-find : (p : A → Bool) (xs : List A) → ((x : A) → p x ≡ true → P x) → All P (find p xs)
  All-find p [] h = tt
  All-find p (x ∷ xs) h =
      let rest = All-find p xs h in if_elim (All P) (p x) (λ t. (h x t, rest)) (λ _. rest)

  pub find-All : (p : A → Bool) (xs : List A) → All P xs → All P (find p xs)
  find-All p [] h = tt
  find-All p (x ∷ xs) h =
      let rest = find-All p xs h.1 in if_elim (All P) (p x) (λ _. (h.0, rest)) (λ _. rest)

  -- No row fits.
  pub All-first_none :
      (p : A → Bool) (xs : List A)
      → ((x : A) → p x ≡ false → P x)
      → is_some (first p xs) ≡ false
      → All P xs
  All-first_none p [] h e = tt
  All-first_none p (x ∷ xs) h e =
      if_elim (λ o. is_some o ≡ false → P x × All P xs) (p x) (λ _ e'. cc)
        (λ miss e'. (h x miss, All-first_none p xs h e')) e

module _ {ℓ κ μ} {A : Type ℓ} (P : A → Type κ) (Q : A → Type μ) where
  -- An update that turns one property of all rows into another.
  pub update-All :
      (p : A → Bool) (f : A → A) (xs : List A)
      → ((x : A) → P x → p x ≡ true → Q (f x))
      → ((x : A) → P x → p x ≡ false → Q x)
      → All P xs
      → All Q (update p f xs)
  update-All p f [] hit miss h = tt
  update-All p f (x ∷ xs) hit miss h =
      (if_elim Q (p x) (hit x h.0) (miss x h.0), update-All p f xs hit miss h.1)

  pub All-map : (xs : List A) → ((x : A) → P x → Q x) → All P xs → All Q xs
  All-map [] f h = tt
  All-map (x ∷ xs) f h = (f x h.0, All-map xs f h.1)

-- The first row that a query returns is a row of the table that meets the condition.
pub find-head {ℓ} :
    {A : Type ℓ} (p : A → Bool) (xs : List A) {y : A} {ys : List A}
    → find p xs ≡ y ∷ ys
    → Memᴰ y xs × (p y ≡ true)
find-head p [] h = cc
find-head p (x ∷ xs) {y} {ys} h =
    if_elim (λ l. l ≡ y ∷ ys → Memᴰ y (x ∷ xs) × (p y ≡ true)) (p x)
      (λ t e. let same : x ≡ y = cc in (Memᴰ.head (sym same), subst (λ z. p z ≡ true) same t))
      (λ _ e. let (m, t) = find-head p xs e in (Memᴰ.tail m, t)) h

-- A row that meets the condition makes the query non-empty.
pub find-nil {ℓ} :
    {A : Type ℓ} (p : A → Bool) (xs : List A) {y : A} → find p xs ≡ [] → Memᴰ y xs → p y ≡ false
find-nil p [] h m = elim m [ ]
find-nil p (x ∷ xs) {y} h (Memᴰ.head e) =
    if_elim (λ l. l ≡ [] → p y ≡ false) (p x) (λ _ e'. cc)
      (λ miss _. subst (λ z. p z ≡ false) (sym e) miss) h
find-nil p (x ∷ xs) {y} h (Memᴰ.tail m) =
    if_elim (λ l. l ≡ [] → p y ≡ false) (p x) (λ _ e'. cc) (λ _ e'. find-nil p xs e' m) h

module _ {ℓ} {A : Type ℓ} (p : A → Bool) where
  -- An update that keeps the condition and reaches the first row changes that row in place.
  pub first-update :
      (q : A → Bool) (f : A → A) (xs : List A) {x : A}
      → ((y : A) → p (f y) ≡ p y)
      → q x ≡ true
      → first p xs ≡ some x
      → first p (update q f xs) ≡ some (f x)
  first-update q f [] same hit h = cc
  first-update q f (y ∷ xs) {x} same hit h =
      if_elim (λ o. o ≡ some x → first p (update q f (y ∷ xs)) ≡ some (f x)) (p y)
        (λ t e.
          let is_x : y ≡ x = some-injective _ _ e in
          let q_y : q y ≡ true = ap q is_x ∙ hit in rw (q_y, same y, t) (ap (λ z. some (f z)) is_x))
        (λ miss e.
          let rest = first-update q f xs same hit e in
          if_elim (λ z. (if p z then some z else first p (update q f xs)) ≡ some (f x)) (q y)
            (λ _. rw (same y, miss) rest) (λ _. rw miss rest))
        h

  pub first-append : (xs ys : List A) {x : A} → first p xs ≡ some x → first p (xs ++ ys) ≡ some x
  first-append [] ys h = cc
  first-append (y ∷ xs) ys {x} h =
      if_elim (λ o. o ≡ some x → first p (y ∷ xs ++ ys) ≡ some x) (p y) (λ t e. rw t e)
        (λ miss e. rw miss (first-append xs ys e)) h
