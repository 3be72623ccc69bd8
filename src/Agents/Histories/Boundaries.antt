-- ===== src/Agents/Histories/Boundaries.antt =====
-- Where a conversation can be forked: after a prefix whose calls all have their results.
use headcount.Prelude.{
  ℕ, suc, ◌+◌, ◌≤◌, ◌≡◌, refl, sym, ap, subst, ◌∙◌, String, Bool, true, false, List, [], ◌∷◌, ◌++◌,
  append-nil, append_assoc, ok, if◌then◌else◌, str_eq, eq_iff, arith,
}
use headcount.Agents.{ToolCall, Message}
use headcount.Agents.Histories.{has, remove, add_calls, pending_after}

abbrev pub ids : List ToolCall → List String
ids [] = []
ids (c ∷ calls) = c.id ∷ ids calls

-- The calls that a message makes, and the result that it holds.
abbrev pub calls_in : Message → List String
calls_in m = if str_eq m.role "assistant" then ids m.tool_calls else []

abbrev pub results_in : Message → List String
results_in m = if str_eq m.role "tool" then m.tool_call_id ∷ [] else []

abbrev pub calls_of : List Message → List String
calls_of [] = []
calls_of (m ∷ ms) = calls_in m ++ calls_of ms

abbrev pub results_of : List Message → List String
results_of [] = []
results_of (m ∷ ms) = results_in m ++ results_of ms

abbrev pub occurrences : String → List String → ℕ
occurrences x [] = 0
occurrences x (y ∷ ys) = if str_eq y x then suc (occurrences x ys) else occurrences x ys

-- Each call has its results, as many as it was made.
abbrev pub IsAnswered : List Message → Type 0
IsAnswered h = (x : String) → occurrences x (calls_of h) ≡ occurrences x (results_of h)

-- No longer prefix is answered.
abbrev pub NoneLonger : List Message → List Message → Type 0
NoneLonger h [] = Unit
NoneLonger h (m ∷ rest) = (IsAnswered (h ++ m ∷ []) → ⊥) × NoneLonger (h ++ m ∷ []) rest

pub NoneLonger-append :
    (h rest : List Message) (m : Message)
    → NoneLonger h rest
    → (IsAnswered ((h ++ rest) ++ m ∷ []) → ⊥)
    → NoneLonger h (rest ++ m ∷ [])
NoneLonger-append h [] m none_longer open_call =
    (subst (λ (p : List Message). IsAnswered (p ++ m ∷ []) → ⊥) (append-nil h) open_call, tt)
NoneLonger-append h (r ∷ rest) m (first_open, others) open_call = (
  first_open,
  NoneLonger-append (h ++ r ∷ []) rest m others (
      subst (λ (p : List Message). IsAnswered (p ++ m ∷ []) → ⊥)
        (sym (append_assoc h (r ∷ []) rest)) open_call),
)

pub occurrences-append :
    (x : String) (xs ys : List String)
    → occurrences x (xs ++ ys) ≡ occurrences x xs + occurrences x ys
occurrences-append x [] ys = omega arith
occurrences-append x (y ∷ xs) ys = let rest = occurrences-append x xs ys in ground arith

pub calls_of-append : (h g : List Message) → calls_of (h ++ g) ≡ calls_of h ++ calls_of g
calls_of-append [] g = refl
calls_of-append (m ∷ h) g =
    ap (λ l. calls_in m ++ l) (calls_of-append h g)
    ∙ sym (append_assoc (calls_in m) (calls_of h) (calls_of g))

pub results_of-append : (h g : List Message) → results_of (h ++ g) ≡ results_of h ++ results_of g
results_of-append [] g = refl
results_of-append (m ∷ h) g =
    ap (λ l. results_in m ++ l) (results_of-append h g)
    ∙ sym (append_assoc (results_in m) (results_of h) (results_of g))

has_not :
    (x y : String) (p : List String) → has x p ≡ false → str_eq x y ≡ true → occurrences y p ≡ 0
has_not x y [] h e = refl
has_not x y (z ∷ p) h e =
    let rest = has_not x y p in ground (arith, rest, eq_iff z x, eq_iff z y, eq_iff x y)

occurrences-remove :
    (x y : String) (p : List String)
    → occurrences y (remove x p) ≡ (if str_eq x y then 0 else occurrences y p)
unfolding remove
occurrences-remove x y [] = ground arith
occurrences-remove x y (z ∷ p) =
    let rest = occurrences-remove x y p in ground (arith, rest, eq_iff z x, eq_iff z y, eq_iff x y)

has_occurs : (x : String) (p : List String) → has x p ≡ true → 1 ≤ occurrences x p
has_occurs x [] h = cc
has_occurs x (z ∷ p) h = let rest = has_occurs x p in ground (arith, rest)

-- Calls that are added wait once each.
add_calls-occurrences :
    (n : ℕ) (calls : List ToolCall) (p p' : List String) (x : String)
    → add_calls n calls p ≡ ok p'
    → occurrences x p ≤ 1
    → (occurrences x p' ≡ occurrences x p + occurrences x (ids calls)) × (occurrences x p' ≤ 1)
unfolding add_calls
add_calls-occurrences n [] p p' x h once = ground arith
add_calls-occurrences n (c ∷ calls) p p' x h once =
    let rest = add_calls-occurrences n calls (c.id ∷ p) p' x in
    let fresh = has_not c.id x p in ground (arith, rest, fresh)

one_role : (m : Message) → str_eq m.role "assistant" ≡ true → str_eq m.role "tool" ≡ false
one_role m h = ap (λ r. str_eq r "tool") ((eq_iff m.role "assistant").0 h)

-- What waits after a message, and its results, are what waited before and its calls.
pub pending_after-occurrences :
    (n : ℕ) (m : Message) (p p' : List String) (x : String)
    → pending_after n m p ≡ ok p'
    → occurrences x p ≤ 1
    → (occurrences x p' + occurrences x (results_in m)
        ≡ occurrences x p + occurrences x (calls_in m))
      × (occurrences x p' ≤ 1)
unfolding pending_after
pending_after-occurrences n m p p' x h once =
    by_role m.tool_calls refl (str_eq m.role "assistant") refl (str_eq m.role "tool") refl
  where
    by_role :
        (calls : List ToolCall)
        → m.tool_calls ≡ calls
        → (a : Bool) → str_eq m.role "assistant" ≡ a
        → (t : Bool) → str_eq m.role "tool" ≡ t
        → (occurrences x p' + occurrences x (results_in m)
            ≡ occurrences x p + occurrences x (calls_in m))
          × (occurrences x p' ≤ 1)
    by_role [] same true e t e' = ground (arith, one_role m e)
    by_role (c ∷ calls) same true e t e' =
        let added = add_calls-occurrences n m.tool_calls p p' x in
        ground (arith, one_role m e, added)
    by_role calls same false e true e' =
        let removed = occurrences-remove m.tool_call_id x p in
        let occurs = has_occurs m.tool_call_id p in
        let is_id = eq_iff m.tool_call_id x in ground (arith, removed, occurs, is_id)
    by_role calls same false e false e' = ground arith
