-- ===== src/Service/Server/World/Safe.antt =====
-- The supervisor is right whatever the order of the turns.
use sc_helper.Prelude.{refl, ◌≡◌, ◌∙◌, sym, ap, Bool, true, false, List, Text, none, some, arith}
use mathlib.Core.Path.{subst}
use sc_helper.Prelude.Program.{Outcome, done, failed, panicked, stuck, IsSettled}
use sc_helper.Prelude.Async.{Async, over}
use sc_helper.Service.State.{Daemon}
use sc_helper.Service.Server.Task.{Task}
use sc_helper.Service.Server.World.{
  Phase, launching, accepting, ending, exited, aborted, World, Turn, Turns, IsUp, quitting,
}
use sc_helper.Service.Server.World.Guard.{Own, whole, vacant, Holds, Rely, Rely-Holds, Guarded}
use sc_helper.Service.Server.World.Last.{AtExit}
use sc_helper.Service.Server.World.Holder.{
  AreFree, HasHolder, went, took, Turn-Turned, kept, gave, Turn-Held, all_went, one_took, one_kept,
  one_gave, Turns-AllTurned, Turns-AllHeld,
}

-- What is left of `main` behind `serve`.
abbrev pub left_of : Phase → Async Daemon (Unit {0})
left_of (ending m) = m
left_of _ = over stuck

module _ (P : Text → Type 0) (Q : Type 0) where
  -- `main` does not hold the lock.
  unfoldable pub IsOpen : Phase → Type 0
  IsOpen (ending m) = Guarded P AtExit m none
  IsOpen exited = ⊥
  IsOpen aborted = ⊥
  IsOpen _ = Unit

  -- Who holds the lock, and what is known of the supervisor then.
  pub data IsSafe (w : World) : Type 0 where
    unheld :
        w.locked ≡ false → Holds P whole w.daemon → AreFree P Q w.tasks → IsOpen w.phase → IsSafe w
    held_by_task :
        (o : Own)
        → w.locked ≡ true
        → Holds P o w.daemon
        → HasHolder P Q o w.tasks
        → IsOpen w.phase
        → IsSafe w
    held_by_main :
        (o : Own) (m : Async Daemon (Unit {0}))
        → w.locked ≡ true
        → Holds P o w.daemon
        → AreFree P Q w.tasks
        → w.phase ≡ ending m
        → Guarded P AtExit m (some o)
        → IsSafe w
    over_with : Holds P vacant w.daemon → w.phase ≡ exited → IsSafe w
    crashed : (o : Own) → Q → Holds P o w.daemon → w.phase ≡ aborted → IsSafe w

  abbrev pub IsBefore : Phase → Type 0
  IsBefore launching = Unit
  IsBefore (accepting path) = Unit
  IsBefore _ = ⊥

  -- A step of `main` that has nothing to do with the supervisor.
  pub moved-IsSafe :
      (w : World) (p : Phase) (d : Daemon)
      → IsBefore w.phase
      → IsOpen p
      → Rely P w.daemon d
      → IsSafe w
      → IsSafe (record w { phase = p; daemon = d })
  unfolding IsOpen
  moved-IsSafe w p d b h r (unheld e hd hs _) = unheld e (Rely-Holds P whole r hd) hs h
  moved-IsSafe w p d b h r (held_by_task o e hd hs _) = held_by_task o e (Rely-Holds P o r hd) hs h
  moved-IsSafe w p d b h r (held_by_main o m e hd hs at g) = absurd (subst IsBefore at b)
  moved-IsSafe w p d b h r (over_with hd at) = absurd (subst IsBefore at b)
  moved-IsSafe w p d b h r (crashed o q hd at) = absurd (subst IsBefore at b)

  pub task_turn-IsSafe :
      (w : World) {l : Bool} {d : Daemon} {ts : List Task}
      → IsUp w.phase
      → Turns w.locked w.daemon w.tasks l d ts
      → IsSafe w
      → IsSafe (record w { locked = l; daemon = d; tasks = ts })
  task_turn-IsSafe w up t (unheld e hd hs h) = elim (Turns-AllTurned P Q t hs) [
    | all_went e' r g ↦ unheld (e' ∙ e) (Rely-Holds P whole r hd) g h
    | one_took _ e' s g ↦ held_by_task whole e' (subst (Holds P whole) (sym s) hd) g h
  ]
  task_turn-IsSafe w up t (held_by_task o e hd hs h) = elim (Turns-AllHeld P Q o e t hd hs) [
    | one_kept o' e' hd' g ↦ held_by_task o' e' hd' g h
    | one_gave e' hd' g ↦ unheld e' hd' g h
  ]
  task_turn-IsSafe w up t (held_by_main o m e hd hs at h) = elim (Turns-AllTurned P Q t hs) [
    | all_went e' r g ↦ held_by_main o m (e' ∙ e) (Rely-Holds P o r hd) g at h
    | one_took e' _ s g ↦ absurd (ground (arith, e, e'))
  ]
  task_turn-IsSafe w up t (over_with hd at) = absurd (subst IsUp at up)
  task_turn-IsSafe w up t (crashed o q hd at) = absurd (subst IsUp at up)

  pub main-Turn-IsSafe :
      (w : World) {m n : Async Daemon (Unit {0})} {l : Bool} {d : Daemon}
      → w.phase ≡ ending m
      → Turn w.locked w.daemon m l d n
      → IsSafe w
      → IsSafe (record w { phase = ending n; locked = l; daemon = d })
  unfolding IsOpen
  main-Turn-IsSafe w p t (unheld e hd hs h) = elim (Turn-Turned P Q AtExit t (subst IsOpen p h)) [
    | went e' r g ↦ unheld (e' ∙ e) (Rely-Holds P whole r hd) hs g
    | took _ e' s g ↦ held_by_main whole _ e' (subst (Holds P whole) (sym s) hd) hs refl g
  ]
  main-Turn-IsSafe w p t (held_by_task o e hd hs h) =
      elim (Turn-Turned P Q AtExit t (subst IsOpen p h)) [
        | went e' r g ↦ held_by_task o (e' ∙ e) (Rely-Holds P o r hd) hs g
        | took e' _ s g ↦ absurd (ground (arith, e, e'))
      ]
  main-Turn-IsSafe w p t (held_by_main o m e hd hs at h) =
      let same = ap left_of (sym at ∙ p) in
      elim (Turn-Held P Q AtExit o e t hd (subst (λ x. Guarded P AtExit x (some o)) same h)) [
        | kept o' e' hd' g ↦ held_by_main o' _ e' hd' hs refl g
        | gave e' hd' g ↦ unheld e' hd' hs g
      ]
  main-Turn-IsSafe w p t (over_with hd at) = absurd (ground (arith, p, at))
  main-Turn-IsSafe w p t (crashed o q hd at) = absurd (ground (arith, p, at))

  at_exit :
      (o : Own) (x : Outcome (Unit {0})) (d : Daemon)
      → AtExit (some o) x
      → Holds P o d
      → IsSettled x × Holds P vacant d
  unfolding AtExit
  at_exit whole x d h hd = absurd h
  at_exit vacant x d h hd = (h, hd)
  at_exit (Own.ending c n) x d h hd = absurd h

  quit-IsSafe :
      (w : World) (x : Outcome (Unit {0}))
      → IsSettled x
      → Holds P vacant w.daemon
      → IsSafe (record w { phase = quitting x })
  unfolding quitting
  quit-IsSafe w (done u) settled h = over_with h refl
  quit-IsSafe w (failed e) settled h = over_with h refl
  quit-IsSafe w (panicked e) settled h = absurd settled
  quit-IsSafe w stuck settled h = absurd settled

  pub ended-IsSafe :
      (w : World) (x : Outcome (Unit {0}))
      → w.phase ≡ ending (over x)
      → IsSafe w
      → IsSafe (record w { phase = quitting x })
  unfolding IsOpen Guarded AtExit
  ended-IsSafe w x p (unheld e hd hs h) = absurd (subst IsOpen p h)
  ended-IsSafe w x p (held_by_task o e hd hs h) = absurd (subst IsOpen p h)
  ended-IsSafe w x p (held_by_main o m e hd hs at h) =
      let same = ap left_of (sym at ∙ p) in
      let r = at_exit o x w.daemon (subst (λ y. Guarded P AtExit y (some o)) same h) hd in
      quit-IsSafe w x r.0 r.1
  ended-IsSafe w x p (over_with hd at) = absurd (ground (arith, p, at))
  ended-IsSafe w x p (crashed o q hd at) = absurd (ground (arith, p, at))
