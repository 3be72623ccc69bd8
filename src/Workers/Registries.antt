-- ===== src/Workers/Registries.antt =====
-- A registry holds at most one tool of a name, and what passing tools through a test leaves in it.
use headcount.Prelude.{
  ◌≡◌, refl, sym, ap, subst, ◌∙◌, String, Bool, true, false, not, ◌⊎◌, inl, inr, Option, none, some,
  List, [], ◌∷◌, ◌≢◌, if◌then◌else◌, if_elim, str_eq, str_eq-ne, first, arith, eq_iff, eq_refl,
  slice,
}
use text.Mathlib.TextPositions.{slice-zero-zero}
use headcount.Workers.{
  Tool, Registry, new_registry, drop_named, register, named, get_tool, entry_matches,
  name_matches_filter, register_passing, has_star, filter_tools, exclude_tools,
}

-- No two tools of the list have one name.
abbrev pub IsDistinct : List Tool → Type 0
IsDistinct [] = Unit
IsDistinct (t ∷ ts) = (first (named t.name) ts ≡ none) × IsDistinct ts

abbrev pub IsWellFormed : Registry → Type 0
IsWellFormed r = IsDistinct r.tools

abbrev pub passed : Bool → Option Tool → Option Tool
passed b o = if b then o else none

drop_named_same : (name : String) (ts : List Tool) → first (named name) (drop_named name ts) ≡ none
unfolding drop_named
drop_named_same name [] = refl
drop_named_same name (t ∷ ts) =
    let rest = drop_named_same name ts in ground (arith, rest, eq_iff t.name name)

drop_named_other :
    (name other : String) (ts : List Tool)
    → name ≢ other
    → first (named other) (drop_named name ts) ≡ first (named other) ts
unfolding drop_named
drop_named_other name other [] ne = refl
drop_named_other name other (t ∷ ts) ne =
    let rest = drop_named_other name other ts ne in
    ground (arith, rest, eq_iff t.name name, eq_iff t.name other)

drop_named_absent :
    (name other : String) (ts : List Tool)
    → first (named other) ts ≡ none
    → first (named other) (drop_named name ts) ≡ none
unfolding drop_named
drop_named_absent name other [] h = refl
drop_named_absent name other (t ∷ ts) h =
    if_elim (λ o. o ≡ none → first (named other) (drop_named name (t ∷ ts)) ≡ none)
      (str_eq t.name other) (λ e bad. cc)
      (λ e tail.
        let rest = drop_named_absent name other ts tail in ground (arith, rest, eq_iff t.name name))
      h

drop_named-IsDistinct :
    (name : String) (ts : List Tool) → IsDistinct ts → IsDistinct (drop_named name ts)
unfolding drop_named
drop_named-IsDistinct name [] d = d
drop_named-IsDistinct name (t ∷ ts) (fresh, d) =
    let rest = drop_named-IsDistinct name ts d in
    if_elim IsDistinct (str_eq t.name name) (λ e. rest)
      (λ e. (drop_named_absent name t.name ts fresh, rest))

register-IsWellFormed : (t : Tool) (r : Registry) → IsWellFormed r → IsWellFormed (register t r)
unfolding register
register-IsWellFormed t r d =
    (drop_named_same t.name r.tools, drop_named-IsDistinct t.name r.tools d)

get_tool-register_same : (t : Tool) (r : Registry) → get_tool t.name (register t r) ≡ some t
unfolding get_tool register
get_tool-register_same t r = ground (arith, eq_refl t.name)

get_tool-register_other :
    (t : Tool) (name : String) (r : Registry)
    → t.name ≢ name
    → get_tool name (register t r) ≡ get_tool name r
unfolding get_tool register
get_tool-register_other t name r ne =
    let rest = drop_named_other t.name name r.tools ne in
    let differs = str_eq-ne t.name name ne in ground (arith, rest, differs)

register_passing-IsWellFormed :
    (passes : String → Bool) (ts : List Tool) (r : Registry)
    → IsWellFormed r
    → IsWellFormed (register_passing passes ts r)
unfolding register_passing
register_passing-IsWellFormed passes [] r d = d
register_passing-IsWellFormed passes (t ∷ ts) r d =
    register_passing-IsWellFormed passes ts (if passes t.name then register t r else r)
      (if_elim IsWellFormed (passes t.name) (λ e. register-IsWellFormed t r d) (λ e. d))

-- Passing tools through a test leaves the name as it was, if the list has no tool that passes.
register_passing-misses :
    (passes : String → Bool) (name : String) (ts : List Tool) (r : Registry)
    → (passes name ≡ false) ⊎ (first (named name) ts ≡ none)
    → get_tool name (register_passing passes ts r) ≡ get_tool name r
unfolding register_passing
register_passing-misses passes name [] r h = refl
register_passing-misses passes name (t ∷ ts) r h =
    register_passing-misses passes name ts (if passes t.name then register t r else r)
      (tail_misses h)
    ∙ if_elim (λ (q : Registry). get_tool name q ≡ get_tool name r) (passes t.name)
        (λ p. get_tool-register_other t name r (λ e. differs p e h)) (λ p. refl)
  where
    differs :
        passes t.name ≡ true
        → t.name ≡ name
        → (passes name ≡ false) ⊎ (first (named name) (t ∷ ts) ≡ none)
        → ⊥
    differs p e (inl f) = cc
    differs p e (inr none_named) = ground (arith, eq_iff t.name name)

    tail_misses :
        (passes name ≡ false) ⊎ (first (named name) (t ∷ ts) ≡ none)
        → (passes name ≡ false) ⊎ (first (named name) ts ≡ none)
    tail_misses (inl f) = inl f
    tail_misses (inr none_named) = inr (ground arith)

register_passing-finds :
    (passes : String → Bool) (name : String) (ts : List Tool) (r : Registry)
    → IsDistinct ts
    → passes name ≡ true
    → get_tool name r ≡ none
    → get_tool name (register_passing passes ts r) ≡ first (named name) ts
unfolding register_passing
register_passing-finds passes name [] r d p fresh = fresh
register_passing-finds passes name (t ∷ ts) r (alone, d) p fresh =
    if_elim (λ o. get_tool name (register_passing passes (t ∷ ts) r) ≡ o) (str_eq t.name name)
      (λ same.
        let e = (eq_iff t.name name).0 same in
        let alone_name : first (named name) ts ≡ none =
          subst (λ n. first (named n) ts ≡ none) e alone in
        register_passing-misses passes name ts (if passes t.name then register t r else r)
          (inr alone_name)
        ∙ subst (λ n. get_tool n (if passes t.name then register t r else r) ≡ some t) e
            (ap (λ b. get_tool t.name (if b then register t r else r)) (ap passes e ∙ p)
              ∙ get_tool-register_same t r))
      (λ differs.
        register_passing-finds passes name ts (if passes t.name then register t r else r) d p (
          if_elim (λ (q : Registry). get_tool name q ≡ none) (passes t.name)
            (λ h.
              get_tool-register_other t name r (λ e. ground (arith, eq_iff t.name name)) ∙ fresh)
            (λ h. fresh)))

get_tool-register_passing :
    (passes : String → Bool) (name : String) (r : Registry)
    → IsWellFormed r
    → get_tool name (register_passing passes r.tools new_registry)
      ≡ passed (passes name) (get_tool name r)
unfolding get_tool
get_tool-register_passing passes name r d =
    if_elim (λ o. get_tool name (register_passing passes r.tools new_registry) ≡ o) (passes name)
      (λ p. register_passing-finds passes name r.tools new_registry d p refl)
      (λ p. register_passing-misses passes name r.tools new_registry (inl p))

pub get_tool-exclude_tools :
    (name : String) (denied : List String) (r : Registry)
    → IsWellFormed r
    → get_tool name (exclude_tools denied r)
      ≡ passed (not (name_matches_filter name denied)) (get_tool name r)
unfolding exclude_tools name_matches_filter
get_tool-exclude_tools name [] r d = refl
get_tool-exclude_tools name (a ∷ rest) r d =
    get_tool-register_passing (λ n. not (name_matches_filter n (a ∷ rest))) name r d

pub exclude_tools-IsWellFormed :
    (denied : List String) (r : Registry) → IsWellFormed r → IsWellFormed (exclude_tools denied r)
unfolding exclude_tools
exclude_tools-IsWellFormed [] r d = d
exclude_tools-IsWellFormed (a ∷ rest) r d =
    register_passing-IsWellFormed (λ n. not (name_matches_filter n (a ∷ rest))) r.tools new_registry
      tt

-- A star matches every name.
entry_matches_star : (name : String) → entry_matches name "*" ≡ true
unfolding entry_matches
entry_matches_star name =
    let nothing : str_eq (slice name 0 0) "" ≡ true =
      ap (λ s. str_eq s "") (slice-zero-zero name) in
    ground (arith, nothing)

name_matches_filter-has_star :
    (name : String) (entries : List String)
    → has_star entries ≡ true
    → name_matches_filter name entries ≡ true
unfolding name_matches_filter has_star
name_matches_filter-has_star name [] h = cc
name_matches_filter-has_star name (a ∷ rest) h =
    let later = name_matches_filter-has_star name rest in
    let here : a ≡ "*" → entry_matches name a ≡ true =
      λ e. ap (entry_matches name) e ∙ entry_matches_star name in
    ground (arith, later, here, eq_iff a "*")

pub get_tool-filter_tools :
    (name a : String) (rest : List String) (r : Registry)
    → IsWellFormed r
    → get_tool name (filter_tools (a ∷ rest) r)
      ≡ passed (name_matches_filter name (a ∷ rest)) (get_tool name r)
unfolding filter_tools
get_tool-filter_tools name a rest r d =
    if_elim
      (λ (q : Registry).
        get_tool name q ≡ passed (name_matches_filter name (a ∷ rest)) (get_tool name r))
      (has_star (a ∷ rest))
      (λ h.
        ap (λ b. passed b (get_tool name r)) (sym (name_matches_filter-has_star name (a ∷ rest) h)))
      (λ h. get_tool-register_passing (λ n. name_matches_filter n (a ∷ rest)) name r d)

pub filter_tools-IsWellFormed :
    (entries : List String) (r : Registry) → IsWellFormed r → IsWellFormed (filter_tools entries r)
unfolding filter_tools
filter_tools-IsWellFormed [] r d = d
filter_tools-IsWellFormed (a ∷ rest) r d =
    if_elim IsWellFormed (has_star (a ∷ rest)) (λ h. d)
      (λ h.
        register_passing-IsWellFormed (λ n. name_matches_filter n (a ∷ rest)) r.tools new_registry
          tt)
