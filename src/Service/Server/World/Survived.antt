-- ===== src/Service/Server/World/Survived.antt =====
-- A panic of a task ends the process, and leaves what is known of the supervisor.
use sc_helper.Prelude.{
  refl, ◌≡◌, sym, ◌⊎◌, inl, inr, true, Bool-cases, List, [], ◌∷◌, Text, Option, none, some, arith,
}
use mathlib.Core.Path.{subst}
use sc_helper.Prelude.Program.{done, failed, panicked, stuck}
use sc_helper.Prelude.Async.{over, turn, lock, unlock}
use sc_helper.Service.Server.Task.{Task, crashes}
use sc_helper.Service.Server.World.{Phase, aborted, World, IsUp, surviving}
use sc_helper.Service.Server.World.Guard.{Own, whole, vacant, Guarded}
use sc_helper.Service.Server.World.Free.{Closed}
use sc_helper.Service.Server.World.Holder.{AreFree, HasHolder, first, later}
use sc_helper.Service.Server.World.Safe.{
  IsOpen, IsSafe, unheld, held_by_task, held_by_main, over_with, crashed,
}

module _ (P : Text → Type 0) (Q : Type 0) where
  closed-crash : (m : Task) (o : Option Own) → crashes m ≡ true → Guarded P (Closed Q) m o → Q
  unfolding crashes Guarded Closed
  closed-crash (over (done (done u, stream))) o e h = absurd (ground (arith, e))
  closed-crash (over (done (failed x, stream))) o e h = absurd (ground (arith, e))
  closed-crash (over (done (panicked x, stream))) none e h = h
  closed-crash (over (done (panicked x, stream))) (some o) e h = absurd h
  closed-crash (over (done (stuck, stream))) o e h = absurd (ground (arith, e))
  closed-crash (over (failed x)) o e h = absurd (ground (arith, e))
  closed-crash (over (panicked x)) none e h = absurd h
  closed-crash (over (panicked x)) (some o) e h = absurd h
  closed-crash (over stuck) o e h = absurd (ground (arith, e))
  closed-crash (turn f k) o e h = absurd (ground (arith, e))
  closed-crash (lock m) o e h = absurd (ground (arith, e))
  closed-crash (unlock m) o e h = absurd (ground (arith, e))

  -- The process goes on, or a task has panicked.
  abbrev pub MaySurvive : List Task → Phase → Type 0
  MaySurvive ms p = (surviving ms p ≡ p) ⊎ ((surviving ms p ≡ aborted) × Q)

  next-MaySurvive :
      (m : Task) (ms : List Task) (p : Phase)
      → (crashes m ≡ true → Q)
      → MaySurvive ms p
      → MaySurvive (m ∷ ms) p
  unfolding surviving
  next-MaySurvive m ms p h hs = elim (Bool-cases (crashes m)) [
    | inl e ↦ rw e (inr (refl, h e))
    | inr e ↦ rw e hs
  ]

  free-MaySurvive : (ms : List Task) (p : Phase) → AreFree P Q ms → MaySurvive ms p
  unfolding AreFree surviving
  free-MaySurvive [] p h = inl refl
  free-MaySurvive (m ∷ ms) p (h, hs) =
      next-MaySurvive m ms p (λ e. closed-crash m none e h) (free-MaySurvive ms p hs)

  held-MaySurvive : (o : Own) {ms : List Task} (p : Phase) → HasHolder P Q o ms → MaySurvive ms p
  held-MaySurvive o p (first m ms h hs) =
      next-MaySurvive m ms p (λ e. closed-crash m (some o) e h) (free-MaySurvive ms p hs)
  held-MaySurvive o p (later m ms h hs) =
      next-MaySurvive m ms p (λ e. closed-crash m none e h) (held-MaySurvive o p hs)

  pub IsSafe-MaySurvive : (w : World) → IsUp w.phase → IsSafe P Q w → MaySurvive w.tasks w.phase
  IsSafe-MaySurvive w up (unheld e hd hs h) = free-MaySurvive w.tasks w.phase hs
  IsSafe-MaySurvive w up (held_by_task o e hd hs h) = held-MaySurvive o w.phase hs
  IsSafe-MaySurvive w up (held_by_main o m e hd hs at h) = free-MaySurvive w.tasks w.phase hs
  IsSafe-MaySurvive w up (over_with hd at) = absurd (subst IsUp at up)
  IsSafe-MaySurvive w up (crashed o q hd at) = absurd (subst IsUp at up)

  -- An abort was a panic's.
  pub IsSafe-aborted : (w : World) → w.phase ≡ aborted → IsSafe P Q w → Q
  unfolding IsOpen
  IsSafe-aborted w p (unheld e hd hs h) = absurd (subst (IsOpen P Q) p h)
  IsSafe-aborted w p (held_by_task o e hd hs h) = absurd (subst (IsOpen P Q) p h)
  IsSafe-aborted w p (held_by_main o m e hd hs at h) = absurd (ground (arith, p, at))
  IsSafe-aborted w p (over_with hd at) = absurd (ground (arith, p, at))
  IsSafe-aborted w p (crashed o q hd at) = q

  -- A panic leaves what is known of the supervisor.
  crash-IsSafe : (w : World) → Q → IsSafe P Q w → IsSafe P Q (record w { phase = aborted })
  crash-IsSafe w q (unheld e hd hs h) = crashed whole q hd refl
  crash-IsSafe w q (held_by_task o e hd hs h) = crashed o q hd refl
  crash-IsSafe w q (held_by_main o m e hd hs at h) = crashed o q hd refl
  crash-IsSafe w q (over_with hd at) = crashed vacant q hd refl
  crash-IsSafe w q (crashed o _ hd at) = crashed o q hd refl

  pub survived-IsSafe :
      (w : World)
      → IsUp w.phase
      → IsSafe P Q w
      → IsSafe P Q (record w { phase = surviving w.tasks w.phase })
  survived-IsSafe w up h = elim (IsSafe-MaySurvive w up h) [
    | inl e ↦ subst (λ p. IsSafe P Q (record w { phase = p })) (sym e) h
    | inr (e, q) ↦ subst (λ p. IsSafe P Q (record w { phase = p })) (sym e) (crash-IsSafe w q h)
  ]
