-- ===== src/EnvStore/Effects.antt =====
-- What the stored variables do to the environment of the server.
use headcount.Prelude.{
  ◌≡◌, refl, ap, ◌∙◌, inl, inr, String, false, Option, none, some, List, [], ◌∷◌, ◌++◌, ok, err,
  Result-cases, if_elim, str_eq, str_eq-ne, has_nul, sort,
}
use headcount.EnvStore.{
  Env, Store, ProcessEnv, validate, set_var, apply_values, apply_removed, then_remove, apply,
  key_before,
}

refused_differs :
    (key key' reason : String)
    → validate key ≡ err reason
    → validate key' ≡ ok tt
    → str_eq key key' ≡ false
refused_differs key key' reason h h' =
    str_eq-ne key key' (λ e. let same : validate key ≡ ok tt = ap validate e ∙ h' in cc)

module _ (key reason : String) (refused : validate key ≡ err reason) where
  apply_values-keeps :
      (values : Env) (applied : List String) (p : ProcessEnv)
      → (apply_values values applied p).1.1 key ≡ p key
  unfolding apply_values
  apply_values-keeps [] applied p = refl
  apply_values-keeps ((k, v) ∷ values) applied p = elim (Result-cases (validate k)) [
    | inr (e, bad) ↦ rw (apply_values, bad) refl
    | inl (tt, fine) ↦
        let rest = apply_values-keeps values (applied ++ k ∷ []) (set_var k (some v) p) in
        let kept : set_var k (some v) p key ≡ p key =
          rw (refused_differs key k reason refused fine) refl in
        let P = λ (r : List String × (Option String × ProcessEnv)). r.1.1 key ≡ p key in
        rw (apply_values, fine) (if_elim P (has_nul v) (λ _. refl) (λ _. rest ∙ kept))
  ]

  apply_removed-keeps :
      (removed : List String) (p : ProcessEnv) → (apply_removed removed p).1 key ≡ p key
  unfolding apply_removed
  apply_removed-keeps [] p = refl
  apply_removed-keeps (k ∷ removed) p = elim (Result-cases (validate k)) [
    | inr (e, bad) ↦ rw (apply_removed, bad) refl
    | inl (tt, fine) ↦
        let rest = apply_removed-keeps removed (set_var k none p) in
        let kept : set_var k none p key ≡ p key =
          rw (refused_differs key k reason refused fine) refl in
        rw (apply_removed, fine) (rest ∙ kept)
  ]

  then_remove-keeps :
      (removed : List String) (p : ProcessEnv) (r : List String × (Option String × ProcessEnv))
      → r.1.1 key ≡ p key
      → (then_remove removed r).1.1 key ≡ p key
  then_remove-keeps removed p (applied, (some e, q)) h = h
  then_remove-keeps removed p (applied, (none, q)) h = apply_removed-keeps removed q ∙ h

-- Whatever the store file holds, applying it neither sets nor unsets a variable whose name `Validate`
-- refuses.
pub apply-keeps_refused :
    (s : Store) (p : ProcessEnv) (key reason : String)
    → validate key ≡ err reason
    → (apply s p).1.1 key ≡ p key
unfolding apply
apply-keeps_refused s p key reason refused =
    then_remove-keeps key reason refused s.removed_keys p
      (apply_values (sort key_before s.values) [] p)
      (apply_values-keeps key reason refused (sort key_before s.values) [] p)
