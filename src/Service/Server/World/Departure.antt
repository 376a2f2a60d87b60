-- ===== src/Service/Server/World/Departure.antt =====
-- Once the loop is left, the daemon ends, whatever the scheduler does, and whichever of the clients
-- that it waits for send anything.
use sc_helper.Prelude.{
  ℕ, zero, suc, ◌+◌, ◌≡◌, refl, sym, ap, inl, inr, Bool, false, List, ◌∷◌, Text, none, some, arith,
}
use mathlib.Core.Path.{subst}
use sc_helper.Prelude.Program.{Outcome, done, failed, panicked, stuck}
use sc_helper.Prelude.Async.{Async, over, turn, lock, unlock}
use sc_helper.Service.Os.{Env, IsEarly, IsLawfulOs}
use sc_helper.Service.State.{Daemon}
use sc_helper.Service.Server.Request.{Build}
use sc_helper.Service.Server.Request.Sound.{IsResolved}
use sc_helper.Service.Server.Task.{Task, connection_task}
use sc_helper.Service.Server.World.{
  ending, exited, aborted, World, Turn, turned, locks, unlocks, Turns, Step, set_up_done, no_server,
  connected, arrived, accept_failed, signalled, shut_down, task_turn, main_turn, ended, Reach, here,
  there, surviving, IsUp, quitting,
}
use sc_helper.Service.Server.World.Guard.{Own, Guarded}
use sc_helper.Service.Server.World.Spent.{IsSpentWith, spent_with, all-IsSpentWith}
use sc_helper.Service.Server.World.Free.{Closed}
use sc_helper.Service.Server.World.Holder.{HasHolder, first, later}
use sc_helper.Service.Server.World.Last.{AtExit}
use sc_helper.Service.Server.World.Safe.{
  left_of, IsOpen, IsSafe, unheld, held_by_task, held_by_main, over_with, crashed, task_turn-IsSafe,
}
use sc_helper.Service.Server.World.Survived.{IsSafe-MaySurvive, IsSafe-aborted}
use sc_helper.Service.Server.World.Reached.{arrived-IsSafe, Step-IsSafe, Reach-IsSafe}

-- One of the tasks can take a turn.
abbrev CanTurn : Bool → Daemon → List Task → Type 0
CanTurn l d ms = (l' : Bool) × (d' : Daemon) × (ms' : List Task) × Turns l d ms l' d' ms'

module _ (P : Text → Type 0) (Q : Type 0) where
  holder-CanTurn :
      (o : Own) (l : Bool) (d : Daemon) (m : Task) (ms : List Task)
      → Guarded P (Closed Q) m (some o)
      → CanTurn l d (m ∷ ms)
  unfolding Guarded Closed
  holder-CanTurn o l d (over x) ms h = absurd h
  holder-CanTurn o l d (turn e k) ms h = (_, _, _, here ms (turned e k))
  holder-CanTurn o l d (lock m) ms h = absurd h
  holder-CanTurn o l d (unlock m) ms h = (_, _, _, here ms (unlocks m))

  there-CanTurn :
      {l : Bool} {d : Daemon} (m : Task) {ms : List Task} → CanTurn l d ms → CanTurn l d (m ∷ ms)
  there-CanTurn m (l', d', ms', t) = (l', d', m ∷ ms', there m t)

  HasHolder-CanTurn :
      (o : Own) (l : Bool) (d : Daemon) {ms : List Task} → HasHolder P Q o ms → CanTurn l d ms
  HasHolder-CanTurn o l d (first m ms h hs) = holder-CanTurn o l d m ms h
  HasHolder-CanTurn o l d (later m ms h hs) = there-CanTurn m (HasHolder-CanTurn o l d hs)

module _ (build : Build) (env : Env) where
  -- However the steps are ordered from here, some step can be taken until the daemon has exited, or
  -- a panic has aborted it at a clock that may read a time before 1970, and it comes to one of
  -- these.
  pub data WillExit : World → Type 0 where
    has_exited : {w : World} → w.phase ≡ exited → WillExit w
    has_aborted : {w : World} → w.phase ≡ aborted → IsEarly env → WillExit w
    will :
        {w v : World}
        → Step build env w v
        → ((u : World) → Step build env w u → WillExit u)
        → WillExit w

  abbrev P : Text → Type 0
  P = IsResolved build

  abbrev Q : Type 0
  Q = IsEarly env

  abbrev at_end : ℕ → Bool → Daemon → Async Daemon (Unit {0}) → List Task → World
  at_end n l d m ms = record { phase = ending m; daemon = d; locked = l; waiting = n; tasks = ms }

  abbrev CanStep : World → Type 0
  CanStep w = (v : World) × Step build env w v

  open_main-CanStep :
      (n : ℕ) (l : Bool) (d : Daemon) (m : Async Daemon (Unit {0})) (ms : List Task)
      → l ≡ false
      → Guarded P AtExit m none
      → CanStep (at_end n l d m ms)
  unfolding Guarded AtExit
  open_main-CanStep n l d (over x) ms e h = absurd h
  open_main-CanStep n l d (turn e' k) ms e h = (_, main_turn refl (turned e' k))
  open_main-CanStep n l d (lock m) ms e h = (_, main_turn refl (locks m e))
  open_main-CanStep n l d (unlock m) ms e h = absurd h

  held_main-CanStep :
      (o : Own) (n : ℕ) (l : Bool) (d : Daemon) (m : Async Daemon (Unit {0})) (ms : List Task)
      → Guarded P AtExit m (some o)
      → CanStep (at_end n l d m ms)
  unfolding Guarded
  held_main-CanStep o n l d (over x) ms h = (_, ended x refl)
  held_main-CanStep o n l d (turn e k) ms h = (_, main_turn refl (turned e k))
  held_main-CanStep o n l d (lock m) ms h = absurd h
  held_main-CanStep o n l d (unlock m) ms h = (_, main_turn refl (unlocks m))

  turn-CanStep :
      (n : ℕ) (l : Bool) (d : Daemon) (m : Async Daemon (Unit {0})) (ms : List Task)
      → CanTurn l d ms
      → CanStep (at_end n l d m ms)
  turn-CanStep n l d m ms (l', d', ms', t) = (_, task_turn tt t)

  IsSafe-CanStep :
      (n : ℕ) (l : Bool) (d : Daemon) (m : Async Daemon (Unit {0})) (ms : List Task)
      → IsSafe P Q (at_end n l d m ms)
      → CanStep (at_end n l d m ms)
  unfolding IsOpen
  IsSafe-CanStep n l d m ms (unheld e hd hs h) = open_main-CanStep n l d m ms e h
  IsSafe-CanStep n l d m ms (held_by_task o e hd hs h) =
      turn-CanStep n l d m ms (HasHolder-CanTurn P Q o l d hs)
  IsSafe-CanStep n l d m ms (held_by_main o x e hd hs at h) =
      let same = ap left_of (sym at) in
      held_main-CanStep o n l d m ms (subst (λ x. Guarded P AtExit x (some o)) same h)
  IsSafe-CanStep n l d m ms (over_with hd at) = absurd (ground (arith, at))
  IsSafe-CanStep n l d m ms (crashed o q hd at) = absurd (ground (arith, at))

  survived-WillExit :
      (w : World)
      → IsUp w.phase
      → IsSafe P Q w
      → WillExit w
      → WillExit (record w { phase = surviving w.tasks w.phase })
  survived-WillExit w up safe h = elim (IsSafe-MaySurvive P Q w up safe) [
    | inl e ↦ subst (λ p. WillExit (record w { phase = p })) (sym e) h
    | inr (e, early) ↦ has_aborted e early
  ]

  quitting-WillExit :
      (w : World) (x : Outcome (Unit {0}))
      → IsSafe P Q (record w { phase = quitting x })
      → WillExit (record w { phase = quitting x })
  unfolding quitting
  quitting-WillExit w (done u) safe = has_exited refl
  quitting-WillExit w (failed e) safe = has_exited refl
  quitting-WillExit w (panicked e) safe = has_aborted refl (IsSafe-aborted P Q _ refl safe)
  quitting-WillExit w stuck safe = has_exited refl

  -- Whatever is left to do at the end of `main`, and whatever tasks there are, with this many
  -- clients awaited.
  abbrev AllWillExit : ℕ → Type 0
  AllWillExit n =
      (l : Bool) (d : Daemon) (m : Async Daemon (Unit {0})) (ms : List Task)
      → IsSafe P Q (at_end n l d m ms)
      → WillExit (at_end n l d m ms)

  module _ (L : IsLawfulOs env) where
    -- The steps at the end of `main`: a frame arrives, a turn of `main`, one of a task, or the
    -- exit.
    step-WillExit :
        (n : ℕ) (l : Bool) (d : Daemon) (m : Async Daemon (Unit {0})) (ms : List Task)
        → ((k : ℕ) → n ≡ 1 + k → AllWillExit k)
        → ((l' : Bool) (d' : Daemon) (m' : Async Daemon (Unit {0}))
            → Turn l d m l' d' m'
            → IsSafe P Q (at_end n l' d' m' ms)
            → WillExit (at_end n l' d' m' ms))
        → ((l' : Bool) (d' : Daemon) (ns : List Task)
            → Turns l d ms l' d' ns
            → IsSafe P Q (at_end n l' d' m ns)
            → WillExit (at_end n l' d' m ns))
        → IsSafe P Q (at_end n l d m ms)
        → (u : World) → Step build env (at_end n l d m ms) u
        → WillExit u
    step-WillExit n l d m ms c f g safe _ (set_up_done at unix) = absurd (ground (arith, at))
    step-WillExit n l d m ms c f g safe _ (no_server at windows) = absurd (ground (arith, at))
    step-WillExit n l d m ms c f g safe _ (connected path at) = absurd (ground (arith, at))
    step-WillExit n l d m ms c f g safe _ (arrived stream k up e) =
        c k e l d m (connection_task build env stream ∷ ms)
          (arrived-IsSafe build env L stream k (at_end n l d m ms) safe)
    step-WillExit n l d m ms c f g safe _ (accept_failed path at) = absurd (ground (arith, at))
    step-WillExit n l d m ms c f g safe _ (signalled path at) = absurd (ground (arith, at))
    step-WillExit n l d m ms c f g safe _ (shut_down path at sent) = absurd (ground (arith, at))
    step-WillExit n l d m ms c f g safe _ (task_turn {l = l'} {d = d'} {ts = ns} up t) =
        let safe' = task_turn-IsSafe P Q (at_end n l d m ms) tt t safe in
        survived-WillExit (at_end n l' d' m ns) tt safe' (g l' d' ns t safe')
    step-WillExit n l d m ms c f g safe _ (main_turn {n = m'} {l = l'} {d = d'} at t) =
        f l' d' m' (subst (λ x. Turn l d x l' d' m') (ap left_of (sym at)) t)
          (Step-IsSafe build env L (main_turn at t) safe)
    step-WillExit n l d m ms c f g safe _ (ended x at) =
        quitting-WillExit (at_end n l d m ms) x (Step-IsSafe build env L (ended x at) safe)

    spent-WillExit :
        (n : ℕ) {m : Async Daemon (Unit {0})} {ms : List Task}
        → ((k : ℕ) → n ≡ 1 + k → AllWillExit k)
        → IsSpentWith m ms
        → (l : Bool) (d : Daemon) → IsSafe P Q (at_end n l d m ms)
        → WillExit (at_end n l d m ms)
    spent-WillExit n {m} {ms} c (spent_with f g) l d safe =
        will (IsSafe-CanStep n l d m ms safe).1 (
          step-WillExit n l d m ms c (λ l' d' m' t s. spent-WillExit n c (f l d l' d' m' t) l' d' s)
            (λ l' d' ns t s. spent-WillExit n c (g l d l' d' ns t) l' d' s) safe)

    fewer-WillExit : (n : ℕ) → ((k : ℕ) → n ≡ 1 + k → AllWillExit k) → AllWillExit n
    fewer-WillExit n c l d m ms = spent-WillExit n c (all-IsSpentWith m ms) l d

    all-WillExit : (n : ℕ) → AllWillExit n
    all-WillExit zero = fewer-WillExit 0 (λ k e. absurd (omega (arith, e)))
    all-WillExit (suc n) =
        let rest = all-WillExit n in
        fewer-WillExit (suc n) (λ k e. subst AllWillExit (omega (arith, e)) rest)

    -- On a lawful system, from any state that the daemon and its tasks reach together after it has
    -- left its loop: in whatever order the turns of the tasks and of `main` come, and whichever of
    -- the frames that are still awaited arrive or do not, some step can be taken until the daemon
    -- has exited, or a panic of a task has aborted it, and it comes to one of these; it comes to
    -- the exit where the clock never reads a time before 1970.
    pub Reach-WillExit :
        {w : World} (m : Async Daemon (Unit {0}))
        → Reach build env w
        → w.phase ≡ ending m
        → WillExit w
    Reach-WillExit {w} m r at =
        subst (λ p. WillExit (record w { phase = p })) (sym at)
          (all-WillExit w.waiting w.locked w.daemon m w.tasks
            (subst (λ p. IsSafe P Q (record w { phase = p })) at (Reach-IsSafe build env L r)))
