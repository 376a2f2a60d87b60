-- ===== src/Service/Server/World/Last.antt =====
-- The end of `main` keeps the supervisor right between its turns, and releases its child.
-- turns.
use sc_helper.Prelude.{Text, Option, none, some}
use sc_helper.Prelude.Program.{Result, Outcome, done, failed, panicked, stuck, IsSettled}
use sc_helper.Prelude.Async.{pure, catch, caught_value, on_value}
use sc_helper.Service.Os.{Env, IsLawfulOs}
use sc_helper.Service.State.{Daemon}
use sc_helper.Service.Core.Turns.{stop_turns}
use sc_helper.Service.Server.Request.{Build}
use sc_helper.Service.Server.Request.Sound.{IsResolved}
use sc_helper.Service.Server.World.{last_stop}
use sc_helper.Service.Server.World.Guard.{Own, whole, vacant, ending, Guarded, Guarded-whatever}
use sc_helper.Service.Server.World.Stopping.{stop_turns-Guarded}

-- At its end `main` holds the lock, and the supervisor no child.
unfoldable pub AtExit : {A : Type 0} → Option Own → Outcome A → Type 0
AtExit (some vacant) x = IsSettled x
AtExit (some _) x = ⊥
AtExit none x = ⊥

module _ (build : Build) (env : Env) (L : IsLawfulOs env) where
  abbrev P : Text → Type 0
  P = IsResolved build

  value-AtExit :
      (o : Option Own) (x : Outcome (Result (Unit {0})))
      → AtExit o x
      → Guarded P AtExit (on_value {S = Daemon} (λ _. pure tt) x) o
  unfolding Guarded AtExit
  value-AtExit none x h = absurd h
  value-AtExit (some whole) x h = absurd h
  value-AtExit (some vacant) (done r) h = tt
  value-AtExit (some vacant) (failed e) h = tt
  value-AtExit (some vacant) (panicked e) h = absurd h
  value-AtExit (some vacant) stuck h = absurd h
  value-AtExit (some (ending c n)) x h = absurd h

  caught-AtExit :
      (o : Option Own) (x : Outcome (Unit {0}))
      → AtExit o x
      → Guarded P AtExit (caught_value {S = Daemon} x) o
  unfolding Guarded AtExit
  caught-AtExit none x h = absurd h
  caught-AtExit (some whole) x h = absurd h
  caught-AtExit (some vacant) (done a) h = tt
  caught-AtExit (some vacant) (failed e) h = tt
  caught-AtExit (some vacant) (panicked e) h = absurd h
  caught-AtExit (some vacant) stuck h = absurd h
  caught-AtExit (some (ending c n)) x h = absurd h

  stopped-AtExit : (x : Outcome (Unit {0})) → IsSettled x → AtExit (some vacant) x
  unfolding AtExit
  stopped-AtExit x h = h

  -- The end of `main` too; it keeps the lock.
  pub last_stop-Guarded : Guarded P AtExit (last_stop build env) none
  unfolding last_stop Guarded
  last_stop-Guarded =
      let stopping = stop_turns env build.target in
      Guarded-whatever P AtExit AtExit (on_value λ _. pure tt) value-AtExit (catch stopping)
        (some whole)
        (Guarded-whatever P AtExit AtExit caught_value caught-AtExit stopping (some whole)
          (stop_turns-Guarded P env L AtExit stopped-AtExit build.target))
