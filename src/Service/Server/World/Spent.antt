-- ===== src/Service/Server/World/Spent.antt =====
-- In whatever order the turns come, they come to an end.
use sc_helper.Prelude.{◌≡◌, refl, Bool, List, [], ◌∷◌, arith}
use sc_helper.Prelude.Program.{Outcome}
use sc_helper.Prelude.Async.{Async, over, turn, lock, unlock}
use sc_helper.Service.State.{Daemon}
use sc_helper.Service.Server.Task.{Task}
use sc_helper.Service.Server.World.{Turn, turned, locks, unlocks, Turns, here, there}

-- There is no endless row of turns of these tasks, whatever becomes of the lock and the daemon
-- between.
pub data AreSpent : List Task → Type 0 where
  spent :
      {ms : List Task}
      → ((l : Bool) (d : Daemon) (l' : Bool) (d' : Daemon) (ms' : List Task)
          → Turns l d ms l' d' ms'
          → AreSpent ms')
      → AreSpent ms

Turns-nil :
    {l : Bool} {d : Daemon} {l' : Bool} {d' : Daemon} {ms ms' : List Task}
    → Turns l d ms l' d' ms'
    → ms ≡ []
    → ⊥
Turns-nil (here ms t) e = ground (arith, e)
Turns-nil (there m t) e = ground (arith, e)

-- A turn leaves a part of the program, so that there is an induction along turns.
module _ {A : Type 0} where
  Turn-over :
      {l : Bool} {d : Daemon} {l' : Bool} {d' : Daemon} {m n : Async Daemon A} {x : Outcome A}
      → Turn l d m l' d' n
      → m ≡ over x
      → ⊥
  Turn-over (turned e k) h = ground (arith, h)
  Turn-over (locks m e) h = ground (arith, h)
  Turn-over (unlocks m) h = ground (arith, h)

  module _ (C : Async Daemon A → Type 0) where
    Turn-turn :
        {e : Daemon → Daemon} {k : Daemon → Async Daemon A} {l : Bool} {d : Daemon} {l' : Bool}
        {d' : Daemon} {n : Async Daemon A}
        → ((s : Daemon) → C (k s))
        → Turn l d (turn e k) l' d' n
        → C n
    Turn-turn h (turned e k) = h _

    Turn-lock :
        {m n : Async Daemon A} {l : Bool} {d : Daemon} {l' : Bool} {d' : Daemon}
        → C m
        → Turn l d (lock m) l' d' n
        → C n
    Turn-lock h (locks m e) = h

    Turn-unlock :
        {m n : Async Daemon A} {l : Bool} {d : Daemon} {l' : Bool} {d' : Daemon}
        → C m
        → Turn l d (unlock m) l' d' n
        → C n
    Turn-unlock h (unlocks m) = h

    abbrev HasParts : Async Daemon A → Type 0
    HasParts m =
        (l : Bool) (d : Daemon) (l' : Bool) (d' : Daemon) (n : Async Daemon A)
        → Turn l d m l' d' n
        → C n

    Turn-induction : ((m : Async Daemon A) → HasParts m → C m) → (m : Async Daemon A) → C m
    Turn-induction h (over x) = h (over x) (λ l d l' d' n t. absurd (Turn-over t refl))
    Turn-induction h (turn e k) =
        h (turn e k) (λ l d l' d' n t. Turn-turn (λ s. Turn-induction h (k s)) t)
    Turn-induction h (lock m) = h (lock m) (λ l d l' d' n t. Turn-lock (Turn-induction h m) t)
    Turn-induction h (unlock m) = h (unlock m) (λ l d l' d' n t. Turn-unlock (Turn-induction h m) t)

abbrev IsPart : Task → Type 0
IsPart m = (ms : List Task) → AreSpent ms → AreSpent (m ∷ ms)

part-of :
    {m : Task} {ms : List Task} {l : Bool} {d : Daemon} {l' : Bool} {d' : Daemon} {ms' : List Task}
    → HasParts IsPart m
    → AreSpent ms
    → ((ns : List Task) → Turns l d ms l' d' ns → AreSpent (m ∷ ns))
    → Turns l d (m ∷ ms) l' d' ms'
    → AreSpent ms'
part-of parts now rest (here ms t) = parts _ _ _ _ _ t ms now
part-of parts now rest (there m t) = rest _ t

parts-AreSpent : (m : Task) → HasParts IsPart m → (ms : List Task) → AreSpent ms → AreSpent (m ∷ ms)
parts-AreSpent m parts ms (spent f) = spent λ l d l' d' ms' t.
    part-of parts (spent f) (λ ns u. parts-AreSpent m parts ns (f l d l' d' ns u)) t

pub all-AreSpent : (ms : List Task) → AreSpent ms
all-AreSpent [] = spent λ l d l' d' ms' t. absurd (Turns-nil t refl)
all-AreSpent (m ∷ ms) = Turn-induction IsPart parts-AreSpent m ms (all-AreSpent ms)

-- Nor is there one of turns of these tasks and of `main`.
pub data IsSpentWith : Async Daemon (Unit {0}) → List Task → Type 0 where
  spent_with :
      {m : Async Daemon (Unit {0})} {ms : List Task}
      → ((l : Bool) (d : Daemon) (l' : Bool) (d' : Daemon) (n : Async Daemon (Unit {0}))
          → Turn l d m l' d' n
          → IsSpentWith n ms)
      → ((l : Bool) (d : Daemon) (l' : Bool) (d' : Daemon) (ns : List Task)
          → Turns l d ms l' d' ns
          → IsSpentWith m ns)
      → IsSpentWith m ms

abbrev IsPartWith : Async Daemon (Unit {0}) → Type 0
IsPartWith m = (ms : List Task) → AreSpent ms → IsSpentWith m ms

parts-IsSpentWith :
    (m : Async Daemon (Unit {0}))
    → HasParts IsPartWith m
    → (ms : List Task) → AreSpent ms
    → IsSpentWith m ms
parts-IsSpentWith m parts ms (spent f) =
    spent_with (λ l d l' d' n t. parts l d l' d' n t ms (spent f))
      (λ l d l' d' ns t. parts-IsSpentWith m parts ns (f l d l' d' ns t))

pub all-IsSpentWith : (m : Async Daemon (Unit {0})) (ms : List Task) → IsSpentWith m ms
all-IsSpentWith m ms = Turn-induction IsPartWith parts-IsSpentWith m ms (all-AreSpent ms)
