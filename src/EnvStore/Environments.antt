-- ===== src/EnvStore/Environments.antt =====
-- Values set one after the other in the environment of a process, and keys unset.
use headcount.Prelude.{
  ◌≡◌, refl, sym, ap, ◌∙◌, inl, inr, String, true, false, none, some, List, [], ◌∷◌, ◌++◌, ok,
  str_eq, eq_iff, Memᴰ, Bool-cases, has_nul,
}
use headcount.EnvStore.{Env, ProcessEnv, validate, set_var, apply_values, apply_removed}

-- The values are set one after the other, and the keys unset.
pub set_all : Env → ProcessEnv → ProcessEnv
set_all [] p = p
set_all ((k, v) ∷ values) p = set_all values (set_var k (some v) p)

pub unset_all : List String → ProcessEnv → ProcessEnv
unset_all [] p = p
unset_all (k ∷ keys) p = unset_all keys (set_var k none p)

-- A value that can be set.
abbrev pub CanSet : String × String → Type 0
CanSet e = (validate e.0 ≡ ok tt) × (has_nul e.1 ≡ false)

pub apply_values-sets :
    (values : Env) (applied : List String) (p : ProcessEnv)
    → ((k v : String) → Memᴰ (k, v) values → CanSet (k, v))
    → (names : List String) × (apply_values values applied p ≡ (names, (none, set_all values p)))
unfolding apply_values set_all
apply_values-sets [] applied p h = (applied, refl)
apply_values-sets ((k, v) ∷ values) applied p h =
    let fine = h k v (Memᴰ.head refl) in
    let (names, rest) =
      apply_values-sets values (applied ++ k ∷ []) (set_var k (some v) p)
        (λ k' v' m. h k' v' (Memᴰ.tail m)) in
    (names, rw (apply_values, fine.0, fine.1) rest)

pub apply_removed-unsets :
    (keys : List String) (p : ProcessEnv)
    → ((k : String) → Memᴰ k keys → validate k ≡ ok tt)
    → apply_removed keys p ≡ (none, unset_all keys p)
unfolding apply_removed unset_all
apply_removed-unsets [] p h = refl
apply_removed-unsets (k ∷ keys) p h =
    let rest = apply_removed-unsets keys (set_var k none p) (λ k' m. h k' (Memᴰ.tail m)) in
    rw (apply_removed, h k (Memᴰ.head refl)) rest

-- A name that no value has.
pub set_all_other :
    (values : Env) (p : ProcessEnv) (k : String)
    → ((k' v : String) → Memᴰ (k', v) values → str_eq k k' ≡ false)
    → set_all values p k ≡ p k
unfolding set_all
set_all_other [] p k h = refl
set_all_other ((k', v) ∷ values) p k h =
    let kept : set_var k' (some v) p k ≡ p k = rw (h k' v (Memᴰ.head refl)) refl in
    set_all_other values (set_var k' (some v) p) k (λ k'' v' m. h k'' v' (Memᴰ.tail m)) ∙ kept

-- A name all of whose values are the same.
module _ (k v : String) where
  set_all_kept :
      (values : Env) (p : ProcessEnv)
      → ((v' : String) → Memᴰ (k, v') values → v' ≡ v)
      → p k ≡ some v
      → set_all values p k ≡ some v
  unfolding set_all
  set_all_kept [] p one h = h
  set_all_kept ((k', v') ∷ values) p one h =
      set_all_kept values (set_var k' (some v') p) (λ v'' m. one v'' (Memᴰ.tail m))
        (elim (Bool-cases (str_eq k k')) [
          | inr other ↦ rw other h
          | inl same ↦
              let e = (eq_iff k k').0 same in
              let e' = one v' (Memᴰ.head (ap (λ x. (x, v')) e)) in rw same (ap some e')
        ])

  pub set_all_hit :
      (values : Env) (p : ProcessEnv)
      → ((v' : String) → Memᴰ (k, v') values → v' ≡ v)
      → Memᴰ (k, v) values
      → set_all values p k ≡ some v
  unfolding set_all
  set_all_hit [] p one h = elim h [ ]
  set_all_hit ((k', v') ∷ values) p one (Memᴰ.tail h) =
      set_all_hit values (set_var k' (some v') p) (λ v'' m. one v'' (Memᴰ.tail m)) h
  set_all_hit ((k', v') ∷ values) p one (Memᴰ.head e) =
      let same : str_eq k k' ≡ true = (eq_iff k k').1 (ap (λ x. x.0) e) in
      let first : set_var k' (some v') p k ≡ some v = rw same (ap some (sym (ap (λ x. x.1) e))) in
      set_all_kept values (set_var k' (some v') p) (λ v'' m. one v'' (Memᴰ.tail m)) first

pub unset_all_other :
    (keys : List String) (p : ProcessEnv) (k : String)
    → ((k' : String) → Memᴰ k' keys → str_eq k k' ≡ false)
    → unset_all keys p k ≡ p k
unfolding unset_all
unset_all_other [] p k h = refl
unset_all_other (k' ∷ keys) p k h =
    let kept : set_var k' none p k ≡ p k = rw (h k' (Memᴰ.head refl)) refl in
    unset_all_other keys (set_var k' none p) k (λ k'' m. h k'' (Memᴰ.tail m)) ∙ kept

unset_all_kept :
    (keys : List String) (p : ProcessEnv) (k : String) → p k ≡ none → unset_all keys p k ≡ none
unfolding unset_all
unset_all_kept [] p k h = h
unset_all_kept (k' ∷ keys) p k h =
    unset_all_kept keys (set_var k' none p) k
      (elim (Bool-cases (str_eq k k')) [ inl same ↦ rw same refl | inr other ↦ rw other h ])

pub unset_all_hit :
    (keys : List String) (p : ProcessEnv) (k : String) → Memᴰ k keys → unset_all keys p k ≡ none
unfolding unset_all
unset_all_hit [] p k h = elim h [ ]
unset_all_hit (k' ∷ keys) p k (Memᴰ.tail h) = unset_all_hit keys (set_var k' none p) k h
unset_all_hit (k' ∷ keys) p k (Memᴰ.head e) =
    let same : str_eq k k' ≡ true = (eq_iff k k').1 e in
    unset_all_kept keys (set_var k' none p) k (rw same refl)
