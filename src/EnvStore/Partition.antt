-- ===== src/EnvStore/Partition.antt =====
-- Which delivered variables are stored, and which stored keys are removed.
use headcount.Prelude.{
  ℕ, ◌≡◌, refl, sym, ap, subst, ◌⊎◌, inl, inr, All, All-mem, All-first_none, String, true, false,
  Option, none, some, List, [], ◌∷◌, ok, Result-cases, if_elim, str_eq, eq_iff, eq_refl, str_eq-ne,
  Memᴰ, Bool-cases,
}
use headcount.EnvStore.{Env, validate, skip_reason, put_with, partition, holds_key, removed_from}

pub skip_reason-validate :
    (decimal : ℕ → String) (key val : String)
    → skip_reason decimal key val ≡ none
    → validate key ≡ ok tt
unfolding skip_reason
skip_reason-validate decimal key val h = elim (Result-cases (validate key)) [
  | inl (tt, e) ↦ e
  | inr (reason, e) ↦
      let some_is : skip_reason decimal key val ≡ some reason = rw (skip_reason, e) refl in cc
]

module _ (decimal : ℕ → String) where
  put_with-accepted :
      (key val : String) (o : Option String) (r : Env × Env) (k v : String)
      → Memᴰ (k, v) (put_with key val o r).0
      → (Memᴰ (k, v) r.0) ⊎ ((o ≡ none) × (◌≡◌ {A = String × String} (k, v) (key, val)))
  put_with-accepted key val none (accepted, skipped) k v (Memᴰ.head e) = inr (refl, e)
  put_with-accepted key val none (accepted, skipped) k v (Memᴰ.tail h) = inl h
  put_with-accepted key val (some reason) (accepted, skipped) k v h = inl h

  -- Only what was delivered and is not skipped is accepted.
  pub partition-accepted :
      (env : Env) (k v : String)
      → Memᴰ (k, v) (partition decimal env).0
      → Memᴰ (k, v) env × (skip_reason decimal k v ≡ none)
  unfolding partition
  partition-accepted [] k v h = elim h [ ]
  partition-accepted ((key, val) ∷ env) k v h =
      elim (put_with-accepted key val (skip_reason decimal key val) (partition decimal env) k v h) [
        | inl later ↦ let (m, fine) = partition-accepted env k v later in (Memᴰ.tail m, fine)
        | inr (fine, e) ↦
            (Memᴰ.head e, subst (λ x. skip_reason decimal x.0 x.1 ≡ none) (sym e) fine)
      ]

  put_with-keeps :
      (key val : String) (o : Option String) (r : Env × Env) (k v : String)
      → Memᴰ (k, v) r.0
      → Memᴰ (k, v) (put_with key val o r).0
  put_with-keeps key val none (accepted, skipped) k v h = Memᴰ.tail h
  put_with-keeps key val (some reason) (accepted, skipped) k v h = h

  pub partition-complete :
      (env : Env) (k v : String)
      → Memᴰ (k, v) env
      → skip_reason decimal k v ≡ none
      → Memᴰ (k, v) (partition decimal env).0
  unfolding partition
  partition-complete [] k v h fine = elim h [ ]
  partition-complete ((key, val) ∷ env) k v (Memᴰ.tail h) fine =
      put_with-keeps key val _ (partition decimal env) k v (partition-complete env k v h fine)
  partition-complete ((key, val) ∷ env) k v (Memᴰ.head e) fine =
      let fine' : skip_reason decimal key val ≡ none =
        subst (λ x. skip_reason decimal x.0 x.1 ≡ none) e fine in
      rw fine' (Memᴰ.head e)

-- Keys of a map.
absent : (k : String) (l : Env) → holds_key k l ≡ false → All (λ e. str_eq e.0 k ≡ false) l
absent k l h = All-first_none (λ e. str_eq e.0 k ≡ false) (λ e. str_eq e.0 k) l (λ e miss. miss) h

pub no_key-mem :
    (k : String) (l : Env) (k' v : String)
    → holds_key k l ≡ false
    → Memᴰ (k', v) l
    → str_eq k k' ≡ false
no_key-mem k l k' v none_is h =
    let other : str_eq k' k ≡ false =
      All-mem (λ e. str_eq e.0 k ≡ false) l (absent k l none_is) h in
    str_eq-ne k k' (λ e. let same : str_eq k' k ≡ true = (eq_iff k' k).1 (sym e) in cc)

pub holds_key-mem : (k v : String) (l : Env) → Memᴰ (k, v) l → holds_key k l ≡ true
holds_key-mem k v l h = elim (Bool-cases (holds_key k l)) [
  | inl t ↦ t
  | inr f ↦
      let other : str_eq k k ≡ false = no_key-mem k l k v f h in absurd (cc (other, eq_refl k))
]

module _ (accepted : Env) where
  pub removed_from-mem :
      (values : Env) (k v : String)
      → Memᴰ (k, v) values
      → holds_key k accepted ≡ false
      → Memᴰ k (removed_from accepted values)
  unfolding removed_from
  removed_from-mem [] k v h gone = elim h [ ]
  removed_from-mem ((key, val) ∷ values) k v (Memᴰ.head e) gone =
      let gone' : holds_key key accepted ≡ false =
        subst (λ x. holds_key x.0 accepted ≡ false) e gone in
      rw gone' (Memᴰ.head (ap (λ x. x.0) e))
  removed_from-mem ((key, val) ∷ values) k v (Memᴰ.tail h) gone =
      let rest = removed_from-mem values k v h gone in
      if_elim (λ (l : List String). Memᴰ k l) (holds_key key accepted) (λ _. rest)
        (λ _. Memᴰ.tail rest)

  -- A stored key that is not accepted again.
  abbrev pub Gone : Env → String → Type 0
  Gone values k = (holds_key k accepted ≡ false) × ((v : String) × Memᴰ (k, v) values)

  Gone-cons :
      (e : String × String) (values : Env) (k : String) → Gone values k → Gone (e ∷ values) k
  Gone-cons e values k (gone, (v, h)) = (gone, (v, Memᴰ.tail h))

  Gone-head :
      (key val : String) (values : Env) (k : String) (rest : List String)
      → (Memᴰ k rest → Gone values k)
      → holds_key key accepted ≡ false
      → Memᴰ k (key ∷ rest)
      → Gone ((key, val) ∷ values) k
  Gone-head key val values k rest later gone (Memᴰ.head e) = (
    subst (λ x. holds_key x accepted ≡ false) (sym e) gone,
    (val, Memᴰ.head (ap (λ x. (x, val)) e)),
  )
  Gone-head key val values k rest later gone (Memᴰ.tail m) = Gone-cons (key, val) values k (later m)

  pub removed_from-only :
      (values : Env) (k : String) → Memᴰ k (removed_from accepted values) → Gone values k
  unfolding removed_from
  removed_from-only [] k h = elim h [ ]
  removed_from-only ((key, val) ∷ values) k h =
      let later = removed_from-only values k in
      if_elim (λ (l : List String). Memᴰ k l → Gone ((key, val) ∷ values) k)
        (holds_key key accepted) (λ _ m. Gone-cons (key, val) values k (later m))
        (λ gone m. Gone-head key val values k (removed_from accepted values) later gone m) h
