-- ===== src/RunTokens/Examples.antt =====
-- Tests of the registry, and concrete runs of its theorem. The hash is the identity here.
use headcount.Prelude.{◌≡◌, ◌↔◌, refl, none, some, List, [], ◌∷◌, arith, eq_iff}
use headcount.RunTokens.{issue, validate, revoke}
use headcount.RunTokens.Refinement.{
  Op, issued, revoked, current, AreFresh, apply_ops, validate-refines,
}

abbrev history : List Op
history = issued 2 "b2" ∷ revoked 1 ∷ issued 2 "b1" ∷ issued 1 "a1" ∷ []

latest_token : validate (λ t. t) "b2" (apply_ops (λ t. t) history) ≡ some 2
unfolding validate apply_ops issue revoke
latest_token = refl

replaced_token : validate (λ t. t) "b1" (apply_ops (λ t. t) history) ≡ none
unfolding validate apply_ops issue revoke
replaced_token = refl

history-AreFresh : AreFresh history
history-AreFresh = ground (
  arith,
  eq_iff "b2" "",
  eq_iff "b1" "",
  eq_iff "a1" "",
  eq_iff "b1" "b2",
  eq_iff "a1" "b2",
  eq_iff "a1" "b1",
)

validate-refines_example :
    (validate (λ t. t) "b2" (apply_ops (λ t. t) history) ≡ some 2) ↔ (current history 2 ≡ some "b2")
validate-refines_example = validate-refines (λ t. t) (λ a b e. e) history 2 "b2" history-AreFresh
