-- ===== src/Router/Failover/Attempts.antt =====
-- Which member of a group answers a request, and what is recorded.
use headcount.Prelude.{
  ℕ, ◌+◌, ◌≡◌, refl, sym, ap, subst, ◌∙◌, inl, inr, String, true, false, Option, none, some, List,
  [], ◌∷◌, if◌then◌else◌, leb, ◌==◌, length, length-append, arith, is_some, Bool-cases,
  Option-cases, Memᴰ,
}
use headcount.Router.{
  ModelGroupMember, Outcome, success, rate_limited, failure, Gateway, Attempt, record_outcome,
}
use headcount.Router.Failover.{
  Upstream, no_response, response, Relay, Request, Reply, passed_on, exhausted, Step, answered,
  failed, attempt, attempt_with, attempt_error, buffered, try_members,
}

record_outcome-stats :
    (speed : ℕ → ℕ → ℕ) (now group_id : ℕ) (m : ModelGroupMember) (o : Outcome) (a : Attempt)
    (g : Gateway)
    → length (record_outcome speed now group_id m o a g).stats ≡ length g.stats + 1
unfolding record_outcome
record_outcome-stats speed now group_id m success a g = length-append g.stats _
record_outcome-stats speed now group_id m rate_limited a g = length-append g.stats _
record_outcome-stats speed now group_id m failure a g = length-append g.stats _

abbrev pub good_if : ℕ → String → Outcome → Option (ℕ × String)
good_if status body success = some (status, body)
good_if status body rate_limited = none
good_if status body failure = none

module _ (classify : ℕ → String → Outcome × String) where
  -- The status and the body of an answer that is passed on.
  abbrev pub good : Upstream → Option (ℕ × String)
  good (no_response e) = none
  good (response status body) =
      if leb 400 status then none else good_if status body (classify status body).0

-- The status that is left by an answer that is not.
abbrev pub left_status : Upstream → ℕ
left_status (no_response e) = 502
left_status (response status body) = status

module _ (speed : ℕ → ℕ → ℕ) (classify : ℕ → String → Outcome × String)
    (upstream : ℕ → ModelGroupMember → Upstream) (relay : ℕ → ModelGroupMember → Relay)
    (usage : String → ℕ × ℕ) (took clock : ℕ → ℕ) (group_id : ℕ) (req : Request) where
  abbrev stepped : ℕ → ModelGroupMember → Gateway → Upstream → Step
  stepped i m g u = attempt_with speed classify upstream relay usage took clock group_id req i m g u

  abbrev pub tried : ℕ → List ModelGroupMember → String → ℕ → Gateway → Reply × Gateway
  tried i ms msg status g =
      try_members speed classify upstream relay usage took clock group_id req i ms msg status g

  -- What an attempt does, by the answer of the provider.
  abbrev pub Does : ℕ → ModelGroupMember → Gateway → Upstream → Option (ℕ × String) → Step → Type 0
  Does i m g u (some (status, body)) step =
      (g' : Gateway) × (step ≡ answered (passed_on m status body) g')
      × (length g'.stats ≡ length g.stats + 1)
  Does i m g u none step =
      (msg : String) × (g' : Gateway) × (step ≡ failed msg (left_status u) g')
      × (length g'.stats ≡ length g.stats + 1)

  buffered-Does :
      (i : ℕ) (m : ModelGroupMember) (g : Gateway) (status : ℕ) (body : String)
      (c : Outcome × String)
      → Does i m g
          (response status body)
          (good_if status body c.0)
          (buffered speed classify upstream relay usage took clock group_id req i m g status body c)
  buffered-Does i m g status body (success, msg) =
      (_, refl, record_outcome-stats speed _ group_id m success _ g)
  buffered-Does i m g status body (rate_limited, msg) =
      (msg, _, refl, record_outcome-stats speed _ group_id m rate_limited _ g)
  buffered-Does i m g status body (failure, msg) =
      (msg, _, refl, record_outcome-stats speed _ group_id m failure _ g)

  attempt_error-Does :
      (i : ℕ) (m : ModelGroupMember) (g : Gateway) (status : ℕ) (body : String)
      (c : Outcome × String)
      → Does i m g
          (response status body)
          none
          (attempt_error speed classify upstream relay usage took clock group_id req i m g status c)
  attempt_error-Does i m g status body (o, msg) =
      (msg, _, refl, record_outcome-stats speed _ group_id m _ _ g)

  attempt-Does :
      (i : ℕ) (m : ModelGroupMember) (g : Gateway) (u : Upstream)
      → req.stream ≡ false
      → Does i m g u (good classify u) (stepped i m g u)
  attempt-Does i m g (no_response e) plain =
      (e, _, refl, record_outcome-stats speed _ group_id m failure _ g)
  attempt-Does i m g (response status body) plain = elim (Bool-cases (leb 400 status)) [
    | inl t ↦ rw t (attempt_error-Does i m g status body (classify status body))
    | inr f ↦ rw (f, plain) (buffered-Does i m g status body (classify status body))
  ]

  abbrev pick :
      ℕ
      → ModelGroupMember
      → Option (ℕ × String)
      → Option (ℕ × (ModelGroupMember × (ℕ × String)))
      → Option (ℕ × (ModelGroupMember × (ℕ × String)))
  pick i m none rest = rest
  pick i m (some answer) rest = some (i, (m, answer))

  -- The first attempt whose answer can be passed on, with its number.
  abbrev pub first_good : ℕ → List ModelGroupMember → Option (ℕ × (ModelGroupMember × (ℕ × String)))
  first_good i [] = none
  first_good i (m ∷ ms) = pick i m (good classify (upstream i m)) (first_good (i + 1) ms)

  -- The status after the attempts, where none of them succeeds.
  abbrev pub last_left : ℕ → List ModelGroupMember → ℕ → ℕ
  last_left i [] status = status
  last_left i (m ∷ ms) status = last_left (i + 1) ms (left_status (upstream i m))

  abbrev pub Tries :
      ℕ
      → List ModelGroupMember
      → ℕ
      → Gateway
      → Option (ℕ × (ModelGroupMember × (ℕ × String)))
      → Reply × Gateway
      → Type 0
  Tries i ms status g (some (k, (m, answer))) (reply, after) =
      (reply ≡ passed_on m answer.0 answer.1) × (length after.stats + i ≡ length g.stats + k + 1)
  Tries i ms status g none (reply, after) =
      ((msg : String) × (reply
          ≡ exhausted (if last_left i ms status == 0 then 502 else last_left i ms status) msg))
      × (length after.stats ≡ length g.stats + length ms)

  Tries-next :
      (i : ℕ) (m : ModelGroupMember) (ms : List ModelGroupMember) (status : ℕ) (g next : Gateway)
      (o : Option (ℕ × (ModelGroupMember × (ℕ × String)))) (result : Reply × Gateway)
      → length next.stats ≡ length g.stats + 1
      → Tries (i + 1) ms (left_status (upstream i m)) next o result
      → Tries i (m ∷ ms) status g o result
  Tries-next i m ms status g next none (reply, after) one (msg, sent) = (msg, omega arith)
  Tries-next i m ms status g next (some (k, (m', answer))) (reply, after) one (same, sent) =
      (same, omega arith)

  -- A request that is not streamed is answered by the first attempt whose answer can be passed on, and
  -- each attempt up to it stores one row of statistics. If there is none, the group is exhausted: every
  -- member was tried once, and the status is the one of the last attempt, with 502 for no response.
  pub try_members_correct :
      (i : ℕ) (ms : List ModelGroupMember) (msg : String) (status : ℕ) (g : Gateway)
      → req.stream ≡ false
      → Tries i ms status g (first_good i ms) (tried i ms msg status g)
  unfolding try_members attempt
  try_members_correct i [] msg status g plain = ((msg, refl), omega arith)
  try_members_correct i (m ∷ ms) msg status g plain =
      let does = attempt-Does i m g (upstream i m) plain in
      elim (Option-cases (good classify (upstream i m))) [
        | inl bad ↦
            let (msg', next, step, one) =
              subst (λ o. Does i m g (upstream i m) o (stepped i m g (upstream i m))) bad does in
            let later =
              Tries-next i m ms status g next (first_good (i + 1) ms) _ one
                (try_members_correct (i + 1) ms msg' (left_status (upstream i m)) next plain) in
            subst
              (λ o.
                Tries i (m ∷ ms) status g (pick i m o (first_good (i + 1) ms))
                  (tried i (m ∷ ms) msg status g))
              (sym bad) (rw (try_members, step) later)
        | inr (answer, fine) ↦
            let (next, step, one) =
              subst (λ o. Does i m g (upstream i m) o (stepped i m g (upstream i m))) fine does in
            subst
              (λ o.
                Tries i (m ∷ ms) status g (pick i m o (first_good (i + 1) ms))
                  (tried i (m ∷ ms) msg status g))
              (sym fine) (rw (try_members, step) (refl, omega arith))
      ]

  later_mem :
      (i : ℕ) (x : ModelGroupMember) (ms : List ModelGroupMember) (m : ModelGroupMember)
      → Memᴰ m (x ∷ ms)
      → ((k : ℕ) → is_some (good classify (upstream k m)) ≡ true)
      → good classify (upstream i x) ≡ none
      → Memᴰ m ms
  later_mem i x ms m (Memᴰ.head e) up bad =
      let fine : is_some (good classify (upstream i x)) ≡ true =
        subst (λ z. is_some (good classify (upstream i z)) ≡ true) e (up i) in
      let none_is : is_some (good classify (upstream i x)) ≡ false = ap is_some bad in
      absurd (cc (fine, none_is))
  later_mem i x ms m (Memᴰ.tail h) up bad = h

  pub first_good-mem :
      (i : ℕ) (ms : List ModelGroupMember) (m : ModelGroupMember)
      → Memᴰ m ms
      → ((k : ℕ) → is_some (good classify (upstream k m)) ≡ true)
      → (k : ℕ) × (chosen : ModelGroupMember) × (answer : ℕ × String) × (first_good i ms
          ≡ some (k, (chosen, answer)))
        × Memᴰ chosen ms
        × (good classify (upstream k chosen) ≡ some answer)
  first_good-mem i [] m h up = elim h [ ]
  first_good-mem i (x ∷ ms) m h up = elim (Option-cases (good classify (upstream i x))) [
    | inr (answer, fine) ↦
        (i, x, answer, ap (λ o. pick i x o (first_good (i + 1) ms)) fine, Memᴰ.head refl, fine)
    | inl bad ↦
        let (k, chosen, answer, found, inside, fine) =
          first_good-mem (i + 1) ms m (later_mem i x ms m h up bad) up in
        (
          k,
          chosen,
          answer,
          ap (λ o. pick i x o (first_good (i + 1) ms)) bad ∙ found,
          Memᴰ.tail inside,
          fine,
        )
  ]
