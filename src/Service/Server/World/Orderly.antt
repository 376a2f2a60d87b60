-- ===== src/Service/Server/World/Orderly.antt =====
-- Never two children, never one left behind.
use sc_helper.Prelude.{ℕ, ◌≡◌, ◌∙◌, sym, ap, ◌⊎◌, inl, inr, List, [], Text, Option, some, arith}
use mathlib.Core.Path.{subst}
use sc_helper.Service.Os.{Env, IsEarly, IsLawfulOs}
use sc_helper.Service.State.{Daemon}
use sc_helper.Service.Core.Tracking.{outstanding, held, AreJustified, IsSound}
use sc_helper.Service.Server.Request.{Build}
use sc_helper.Service.Server.Request.Sound.{IsResolved}
use sc_helper.Service.Server.Task.{Task}
use sc_helper.Service.Server.World.{
  Phase, launching, accepting, ending, exited, broken, aborted, World, IsUp, Reach,
}
use sc_helper.Service.Server.World.Guard.{Own, whole, vacant, Holds}
use sc_helper.Service.Server.World.Holder.{HasHolder, first, later}
use sc_helper.Service.Server.World.Safe.{
  IsOpen, IsSafe, unheld, held_by_task, held_by_main, over_with, crashed,
}
use sc_helper.Service.Server.World.Quiet.{IsQuiet}
use sc_helper.Service.Server.World.Reached.{Reach-IsSafe, Reach-IsQuiet}

-- At most one child is outstanding.
abbrev pub HasOneAtMost : Daemon → Type 0
HasOneAtMost d = (c : Option ℕ) × (outstanding d.trace ≡ held c)

module _ (P : Text → Type 0) (Q : Type 0) where
  Holds-HasOneAtMost :
      (o : Own) (d : Daemon) → Holds P o d → HasOneAtMost d × AreJustified P d.trace
  Holds-HasOneAtMost whole d h = ((d.supervisor.child, h.tracked), h.justified)
  Holds-HasOneAtMost vacant d h = ((d.supervisor.child, h.0.tracked), h.0.justified)
  Holds-HasOneAtMost (Own.ending c n) d h = ((some c, h.left), h.justified)

  HasHolder-some : (o : Own) {ms : List Task} → HasHolder P Q o ms → ms ≡ [] → ⊥
  HasHolder-some o (first m ms g f) e = ground (arith, e)
  HasHolder-some o (later m ms g f) e = ground (arith, e)

  abbrev IsSpent : Phase → Daemon → Type 0
  IsSpent p d = IsUp p ⊎ (((p ≡ aborted) × Q) ⊎ (outstanding d.trace ≡ []))

  unheld-IsSpent :
      (p : Phase) (d : Daemon) (ms : List Task) (n : ℕ)
      → IsSound P d
      → IsOpen P Q p
      → IsQuiet p d ms n
      → IsSpent p d
  unfolding IsOpen IsQuiet
  unheld-IsSpent launching d ms n h free q = inl tt
  unheld-IsSpent (accepting path) d ms n h free q = inl tt
  unheld-IsSpent (ending m) d ms n h free q = inl tt
  unheld-IsSpent exited d ms n h free q = absurd free
  unheld-IsSpent aborted d ms n h free q = absurd free
  unheld-IsSpent broken d ms n h free (c, _, _) = inr (inr (h.tracked ∙ ap held c))

  held-IsSpent :
      (o : Own) (p : Phase) (d : Daemon) (ms : List Task) (n : ℕ)
      → HasHolder P Q o ms
      → IsOpen P Q p
      → IsQuiet p d ms n
      → IsSpent p d
  unfolding IsOpen IsQuiet
  held-IsSpent o launching d ms n h free q = inl tt
  held-IsSpent o (accepting path) d ms n h free q = inl tt
  held-IsSpent o (ending m) d ms n h free q = inl tt
  held-IsSpent o exited d ms n h free q = absurd free
  held-IsSpent o aborted d ms n h free q = absurd free
  held-IsSpent o broken d ms n h free (_, e, _) = absurd (HasHolder-some o h e)

  IsSafe-IsSpent :
      (w : World)
      → IsSafe P Q w
      → IsQuiet w.phase w.daemon w.tasks w.waiting
      → IsSpent w.phase w.daemon
  IsSafe-IsSpent w (unheld e hd hs free) q =
      unheld-IsSpent w.phase w.daemon w.tasks w.waiting hd free q
  IsSafe-IsSpent w (held_by_task o e hd hs free) q =
      held-IsSpent o w.phase w.daemon w.tasks w.waiting hs free q
  IsSafe-IsSpent w (held_by_main o m e hd hs at h) q = inl (subst IsUp (sym at) tt)
  IsSafe-IsSpent w (over_with hd at) q = inr (inr (hd.0.tracked ∙ ap held hd.1))
  IsSafe-IsSpent w (crashed o early hd at) q = inr (inl (at, early))

  IsSafe-HasOneAtMost :
      (w : World) → IsSafe P Q w → HasOneAtMost w.daemon × AreJustified P w.daemon.trace
  IsSafe-HasOneAtMost w (unheld e hd hs free) = Holds-HasOneAtMost whole w.daemon hd
  IsSafe-HasOneAtMost w (held_by_task o e hd hs free) = Holds-HasOneAtMost o w.daemon hd
  IsSafe-HasOneAtMost w (held_by_main o m e hd hs at h) = Holds-HasOneAtMost o w.daemon hd
  IsSafe-HasOneAtMost w (over_with hd at) = Holds-HasOneAtMost vacant w.daemon hd
  IsSafe-HasOneAtMost w (crashed o early hd at) = Holds-HasOneAtMost o w.daemon hd

-- Outstanding is a mihomo that was spawned, and neither seen to have exited, nor waited for, nor
-- given up on after a failing `try_wait`. On a lawful system, with any number of clients at once,
-- in whatever order the turns of their tasks and of `main` come: at every moment at most one mihomo
-- is outstanding; each was spawned at a path that the resolver gave, with the arguments for a
-- directory and a file that were just found, while none was outstanding; and once the daemon is at
-- its end, by its exit or by an error of the set-up, none is, unless a panic has aborted it, which
-- takes a clock that may read a time before 1970.
pub Reach-HasOneAtMost :
    (build : Build) (env : Env) {w : World}
    → IsLawfulOs env
    → Reach build env w
    → HasOneAtMost w.daemon
      × AreJustified (IsResolved build) w.daemon.trace
      × (IsUp w.phase ⊎ (((w.phase ≡ aborted) × IsEarly env) ⊎ (outstanding w.daemon.trace ≡ [])))
Reach-HasOneAtMost build env {w} L r =
    let safe = Reach-IsSafe build env L r in
    let one = IsSafe-HasOneAtMost (IsResolved build) (IsEarly env) w safe in
    (
      one.0,
      one.1,
      IsSafe-IsSpent (IsResolved build) (IsEarly env) w safe (Reach-IsQuiet build env L r),
    )
