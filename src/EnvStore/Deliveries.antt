-- ===== src/EnvStore/Deliveries.antt =====
-- What a delivery changes in the environment of the next start.
use headcount.Prelude.{
  ℕ, ◌≡◌, refl, sym, subst, ◌∙◌, String, Bool, true, false, Option, none, some, List, [], ok,
  if_elim, str_eq, str_eq-ne, Memᴰ, has_nul, sort, sort-perm, perm_mem, perm_symm, text_before,
}
use headcount.EnvStore.{
  Env, Store, ProcessEnv, validate, skip_reason, partition, holds_key, removed_from, apply, save,
  key_before, persist_delivered_env, digest, keep_accepted,
}
use headcount.EnvStore.Partition.{
  skip_reason-validate, partition-accepted, partition-complete, no_key-mem, holds_key-mem,
  removed_from-mem, removed_from-only,
}
use headcount.EnvStore.Environments.{
  set_all, unset_all, CanSet, apply_values-sets, apply_removed-unsets, set_all_other, set_all_hit,
  unset_all_other, unset_all_hit,
}

-- Every name of the values may be delivered.
abbrev pub IsClean : Env → Type 0
IsClean values = (k v : String) → Memᴰ (k, v) values → validate k ≡ ok tt

-- The values are those of a map: one for each name.
abbrev pub IsMap : Env → Type 0
IsMap values = (k v v' : String) → Memᴰ (k, v) values → Memᴰ (k, v') values → v' ≡ v

-- The environment after a store with these values and removed keys is applied.
applied_env : Env → List String → ProcessEnv → ProcessEnv
applied_env accepted removed p =
    unset_all (sort text_before removed) (set_all (sort key_before accepted) p)

module _ (accepted : Env) (removed secret : List String)
    (settable : (k v : String) → Memᴰ (k, v) accepted → CanSet (k, v))
    (valid : (k : String) → Memᴰ k removed → validate k ≡ ok tt) where
  apply-runs :
      (p : ProcessEnv)
      → (names : List String) × (apply
            (save (record { values = accepted; secret_keys = secret; removed_keys = removed }))
            p
          ≡ (names, (none, applied_env accepted removed p)))
  unfolding apply save applied_env
  apply-runs p =
      let sorted = perm_symm (sort-perm key_before accepted) in
      let (names, set) =
        apply_values-sets (sort key_before accepted) [] p
          (λ k v m. settable k v (perm_mem sorted m)) in
      let unset =
        apply_removed-unsets (sort text_before removed) (set_all (sort key_before accepted) p)
          (λ k m. valid k (perm_mem (perm_symm (sort-perm text_before removed)) m)) in
      (names, rw (set, unset) refl)

module _ (accepted : Env) (removed : List String) where
  applied_env-set :
      (p : ProcessEnv) (k v : String)
      → IsMap accepted
      → ((k' : String) → Memᴰ k' removed → str_eq k k' ≡ false)
      → Memᴰ (k, v) accepted
      → applied_env accepted removed p k ≡ some v
  unfolding applied_env
  applied_env-set p k v one kept h =
      let sorted = sort-perm key_before accepted in
      unset_all_other (sort text_before removed) _ k
        (λ k' m. kept k' (perm_mem (perm_symm (sort-perm text_before removed)) m))
      ∙ set_all_hit k v (sort key_before accepted) p
          (λ v' m. one k v v' h (perm_mem (perm_symm sorted) m)) (perm_mem sorted h)

  applied_env-other :
      (p : ProcessEnv) (k : String)
      → holds_key k accepted ≡ false
      → ((k' : String) → Memᴰ k' removed → str_eq k k' ≡ false)
      → applied_env accepted removed p k ≡ p k
  unfolding applied_env
  applied_env-other p k absent kept =
      unset_all_other (sort text_before removed) _ k
        (λ k' m. kept k' (perm_mem (perm_symm (sort-perm text_before removed)) m))
      ∙ set_all_other (sort key_before accepted) p k (λ k' v m.
        no_key-mem k accepted k' v absent (perm_mem (perm_symm (sort-perm key_before accepted)) m))

  applied_env-unset :
      (p : ProcessEnv) (k : String) → Memᴰ k removed → applied_env accepted removed p k ≡ none
  unfolding applied_env
  applied_env-unset p k h =
      unset_all_hit (sort text_before removed) _ k (perm_mem (sort-perm text_before removed) h)

module _ (decimal : ℕ → String) (hash : Env → List String → String) (env : Env)
    (secret : List String) (current : Store) where
  abbrev accepted_env : Env
  accepted_env = (partition decimal env).0

  abbrev incoming : Store
  incoming = record {
    values = accepted_env;
    secret_keys = keep_accepted accepted_env secret;
    removed_keys = removed_from accepted_env current.values;
  }

  persist_changed :
      (persist_delivered_env decimal hash (some env) secret current).0 ≡ true
      → (persist_delivered_env decimal hash (some env) secret current).1.1 ≡ save incoming
  unfolding persist_delivered_env
  persist_changed h =
      if_elim (λ (r : Bool × (Env × Store)). r.0 ≡ true → r.1.1 ≡ save incoming)
        (str_eq (digest hash incoming) (digest hash current)) (λ _ e. cc) (λ _ e. refl) h

  abbrev pub Delivered : Store → ProcessEnv → List String × (Option String × ProcessEnv) → Type 0
  Delivered s p r =
      (r.1.0 ≡ none)
      × ((k v : String) → Memᴰ (k, v) env → skip_reason decimal k v ≡ none → r.1.1 k ≡ some v)
      × ((k v : String)
          → Memᴰ (k, v) current.values
          → holds_key k s.values ≡ false
          → r.1.1 k ≡ none)
      × ((k : String)
          → holds_key k s.values ≡ false
          → holds_key k current.values ≡ false
          → r.1.1 k ≡ p k)
      × IsClean s.values

  accepted_IsMap : IsMap env → IsMap accepted_env
  accepted_IsMap one k v v' m m' =
      one k v v' (partition-accepted decimal env k v m).0 (partition-accepted decimal env k v' m').0

  applied_env-Delivered :
      (p : ProcessEnv) (names : List String)
      → IsMap env
      → IsClean current.values
      → Delivered
          (save incoming)
          p
          (names, (none, applied_env accepted_env (removed_from accepted_env current.values) p))
  unfolding save
  applied_env-Delivered p names one clean =
      let removed = removed_from accepted_env current.values in
      let kept =
        λ (k : String) (present : holds_key k accepted_env ≡ true) (k' : String)
            (m : Memᴰ k' removed).
          let (gone, (v, h)) = removed_from-only accepted_env current.values k' m in
          str_eq-ne k k' (λ e.
            let there : holds_key k' accepted_env ≡ true =
              subst (λ x. holds_key x accepted_env ≡ true) e present in
            cc) in
      (
        refl,
        λ k v m fine.
            let stored = partition-complete decimal env k v m fine in
            applied_env-set accepted_env removed p k v (accepted_IsMap one)
              (kept k (holds_key-mem k v accepted_env stored)) stored,
        λ k v m gone.
            applied_env-unset accepted_env removed p k
              (removed_from-mem accepted_env current.values k v m gone),
        λ k absent unknown. applied_env-other accepted_env removed p k absent (λ k' m.
            let (gone, (v, h)) = removed_from-only accepted_env current.values k' m in
            no_key-mem k current.values k' v unknown h),
        λ k v m. skip_reason-validate decimal k v (partition-accepted decimal env k v m).1,
      )

  -- Let a delivery with values that can be set change a store all of whose names may be delivered. Then
  -- the next start applies the new store without an error: every delivered variable that is not skipped
  -- has its value, every variable of the old store that is not accepted again is unset, every other
  -- variable is as it was, and the names of the new store may again be delivered.
  pub persist_delivered_env-takes_effect :
      (p : ProcessEnv)
      → IsMap env
      → ((k v : String) → Memᴰ (k, v) env → has_nul v ≡ false)
      → IsClean current.values
      → (persist_delivered_env decimal hash (some env) secret current).0 ≡ true
      → let s = (persist_delivered_env decimal hash (some env) secret current).1.1 in
        Delivered s p (apply s p)
  persist_delivered_env-takes_effect p one plain clean changed =
      let stored = partition-accepted decimal env in
      let (names, runs) =
        apply-runs accepted_env (removed_from accepted_env current.values)
          (keep_accepted accepted_env secret)
          (λ k v m. (skip_reason-validate decimal k v (stored k v m).1, plain k v (stored k v m).0))
          (λ k m.
            let (gone, (v, h)) = removed_from-only accepted_env current.values k m in clean k v h)
          p in
      subst (λ s. Delivered s p (apply s p)) (sym (persist_changed changed))
        (subst (λ r. Delivered (save incoming) p r) (sym runs)
          (applied_env-Delivered p names one clean))
