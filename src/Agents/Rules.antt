-- ===== src/Agents/Rules.antt =====
-- The rule for a chain of steps: what holds when it stops, and when it hands a value on.
use headcount.Prelude.{List}
use headcount.Agents.{Message, Session}
use headcount.Agents.Steps.{Ending, Step, stop, next, ◌>>=◌, M}

module _ {W : Type 0} where
  abbrev pub After :
      {A : Type 0}
      → (Ending → List Message → Session W → Type 0)
      → (A → List Message → Session W → Type 0)
      → Step W A
      → Type 0
  After S N (stop e h s) = S e h s
  After S N (next a h s) = N a h s

  pub After-bind :
      {A B : Type 0} (S : Ending → List Message → Session W → Type 0)
      (N : A → List Message → Session W → Type 0) (N' : B → List Message → Session W → Type 0)
      (m : M W A) (k : A → M W B) (h : List Message) (s : Session W)
      → After S N (m h s)
      → ((a : A) (g : List Message) (t : Session W) → N a g t → After S N' (k a g t))
      → After S N' ((m >>= k) h s)
  After-bind {A} {B} S N N' m k h s first rest = by_step (m h s) first
    where
      by_step :
          (x : Step W A)
          → After S N x
          → After S N'
              (elim x as (λ _. Step W B) [ stop e g t ↦ stop e g t | next a g t ↦ k a g t ])
      by_step (stop e g t) holds = holds
      by_step (next a g t) holds = rest a g t holds
