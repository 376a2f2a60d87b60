-- ===== src/Service/Core/Probe.antt =====
-- What `is_running` finds.
use sc_helper.Prelude.{ℕ, ◌≡◌, refl, Bool, true, false, Option, none, some, Text}
use sc_helper.Prelude.Program.{Outcome, done}
use sc_helper.Service.Os.{TryWait, exited, still_running, wait_failed, tried, Env}
use sc_helper.Service.State.{Daemon, log}
use sc_helper.Service.Core.{after_try_wait, probe_child, is_running}

abbrev pub drop_child : Daemon → Daemon
drop_child s = record s { supervisor = record { child = none } }

-- The four ends of `is_running` from a state: no child, a child that runs, one that has exited, and
-- one that cannot be waited for.
pub data Probe (env : Env) (s : Daemon) : Outcome Bool × Daemon → Type 0 where
  idle : s.supervisor.child ≡ none → Probe env s (done false, s)
  alive :
      (c : ℕ)
      → s.supervisor.child ≡ some c
      → env.try_wait s.trace c ≡ still_running
      → Probe env s (done true, log (tried c still_running) s)
  gone :
      (c : ℕ)
      → s.supervisor.child ≡ some c
      → env.try_wait s.trace c ≡ exited
      → Probe env s (done false, drop_child (log (tried c exited) s))
  lost :
      (c : ℕ) (e : Text)
      → s.supervisor.child ≡ some c
      → env.try_wait s.trace c ≡ wait_failed e
      → Probe env s (done false, drop_child (log (tried c (wait_failed e)) s))

module _ (env : Env) (s : Daemon) where
  waited-Probe :
      (c : ℕ) (r : TryWait)
      → s.supervisor.child ≡ some c
      → env.try_wait s.trace c ≡ r
      → Probe env s (after_try_wait env r (log (tried c r) s))
  unfolding after_try_wait
  waited-Probe c exited h e = gone c h e
  waited-Probe c still_running h e = alive c h e
  waited-Probe c (wait_failed x) h e = lost c x h e

  child-Probe :
      (child : Option ℕ) → s.supervisor.child ≡ child → Probe env s (probe_child env child s)
  unfolding probe_child
  child-Probe none h = idle h
  child-Probe (some c) h = waited-Probe c (env.try_wait s.trace c) h refl

  -- `is_running` has no other end.
  pub is_running-Probe : Probe env s (is_running env s)
  unfolding is_running
  is_running-Probe = child-Probe s.supervisor.child refl
