-- ===== src/Router/Order.antt =====
-- The order in which the members of a group are tried.
use headcount.Prelude.{ℕ, ◌≡◌, Bool, true, List, [], ◌∷◌, All, ◌≤◌, ◌<◌}
use headcount.Router.{ModelGroupMember, Health, scored, tried_before}

-- Sorting the members by the scores of the moment.
abbrev before : Health → ℕ → ModelGroupMember → ModelGroupMember → Bool
before health now a b = tried_before (scored health now a) (scored health now b)

abbrev until : Health → ModelGroupMember → ℕ
until health m = (health m.provider_id m.model).rate_limited_until

abbrev fails : Health → ModelGroupMember → ℕ
fails health m = (health m.provider_id m.model).fail_streak

abbrev speed : Health → ModelGroupMember → ℕ
speed health m = (health m.provider_id m.model).last_tokens_per_sec

-- `x` may be tried before `y`: a paid member is not tried before a free one; among members of the same
-- kind, one that cools down is not tried before one that does not, of two that cool down the one that
-- recovers sooner comes first, and of two that do not, the one with the shorter streak of failures, at
-- the same streak the one that was faster, and at the same speed the one with the smaller priority.
abbrev pub MayPrecede : Health → ℕ → ModelGroupMember → ModelGroupMember → Type 0
MayPrecede health now x y =
    (y.is_free ≡ true → x.is_free ≡ true)
    × (x.is_free ≡ y.is_free → until health y ≤ now → until health x ≤ now)
    × (x.is_free ≡ y.is_free
        → now < until health x
        → now < until health y
        → until health x ≤ until health y)
    × (x.is_free ≡ y.is_free
        → until health x ≤ now
        → until health y ≤ now
        → fails health x ≤ fails health y)
    × (x.is_free ≡ y.is_free
        → until health x ≤ now
        → until health y ≤ now
        → fails health x ≡ fails health y
        → speed health y ≤ speed health x)
    × (x.is_free ≡ y.is_free
        → until health x ≤ now
        → until health y ≤ now
        → fails health x ≡ fails health y
        → speed health x ≡ speed health y
        → x.priority ≤ y.priority)

abbrev pub IsRanked : Health → ℕ → List ModelGroupMember → Type 0
IsRanked health now [] = Unit
IsRanked health now (x ∷ xs) = All (MayPrecede health now x) xs × IsRanked health now xs
