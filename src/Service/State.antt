-- ===== src/Service/State.antt =====
-- What the daemon keeps: the supervisor, the shutdown trigger, and the trace of its system calls.
use sc_helper.Prelude.{ℕ, Bool, Option, none, List, ◌∷◌, Text}
use sc_helper.Prelude.Program.{Program, Result, done}
use sc_helper.Service.Os.{
  TryWait, Output, Event, read_clock, tick, slept, probed_file, probed_dir, opened_log, cloned_log,
  spawned, asked_id, tried, terminated, killed, reaped, ran, read_override, existed, removed, bound,
  permitted, Trace, Env,
}

-- `MihomoSupervisor`
pub record Supervisor : Type 0 where
  pub child : Option ℕ

-- `MihomoSupervisor::new`
unfoldable pub new_supervisor : Supervisor
new_supervisor = record { child = none }

-- The sender inside `ShutdownTrigger`.
pub data Sender : Type 0 where
  sender : Sender

-- `shutdown_sent` is what the receiver of the shutdown channel sees.
pub record Daemon : Type 0 where
  pub supervisor : Supervisor
  pub trigger : Option Sender
  pub shutdown_sent : Bool
  pub trace : Trace

abbrev pub log : Event → Daemon → Daemon
log e s = record s { trace = e ∷ s.trace }

abbrev pub set_child : Option ℕ → Program Daemon (Unit {0})
set_child c s = (done tt, record s { supervisor = record { child = c } })

module _ (env : Env) where
  abbrev pub clock : Program Daemon (Option ℕ)
  clock s = let r = env.clock s.trace in (done r, log (read_clock r) s)

  abbrev pub instant : Program Daemon ℕ
  instant s = let r = env.instant s.trace in (done r, log (tick r) s)

  abbrev pub is_file : Text → Program Daemon Bool
  is_file p s = let r = env.is_file s.trace p in (done r, log (probed_file p r) s)

  abbrev pub is_dir : Text → Program Daemon Bool
  is_dir p s = let r = env.is_dir s.trace p in (done r, log (probed_dir p r) s)

  abbrev pub open_log : Text → Program Daemon Bool
  open_log p s = let r = env.open_log s.trace p in (done r, log (opened_log p r) s)

  abbrev pub clone_log : Text → Program Daemon Bool
  clone_log p s = let r = env.clone_log s.trace p in (done r, log (cloned_log p r) s)

  abbrev pub spawn : Text → List Text → Text → Program Daemon (Result ℕ)
  spawn p args l s = let r = env.spawn s.trace p args l in (done r, log (spawned p args l r) s)

  abbrev pub child_id : ℕ → Program Daemon (Option ℕ)
  child_id c s = let r = env.child_id s.trace c in (done r, log (asked_id c r) s)

  abbrev pub try_wait : ℕ → Program Daemon TryWait
  try_wait c s = let r = env.try_wait s.trace c in (done r, log (tried c r) s)

  abbrev pub run : Text → List Text → Program Daemon (Result Output)
  run p args s = let r = env.run s.trace p args in (done r, log (ran p args r) s)

  abbrev pub socket_override : Program Daemon (Option Text)
  socket_override s = let r = env.socket_override s.trace in (done r, log (read_override r) s)

  abbrev pub exists : Text → Program Daemon Bool
  exists p s = let r = env.exists s.trace p in (done r, log (existed p r) s)

  abbrev pub remove_file : Text → Program Daemon (Result (Unit {0}))
  remove_file p s = let r = env.remove_file s.trace p in (done r, log (removed p r) s)

  abbrev pub bind : Text → Program Daemon (Result (Unit {0}))
  bind p s = let r = env.bind s.trace p in (done r, log (bound p r) s)

  abbrev pub set_permissions : Text → ℕ → Program Daemon (Result (Unit {0}))
  set_permissions p mode s =
      let r = env.set_permissions s.trace p mode in (done r, log (permitted p mode r) s)

-- With a reading of the monotonic clock from before the sleep; 0 where none was taken.
abbrev pub sleep_ms : (from ms : ℕ) → Program Daemon (Unit {0})
sleep_ms from ms s = (done tt, log (slept from ms) s)

-- Their results are ignored where they are called.
abbrev pub terminate : ℕ → Program Daemon (Unit {0})
terminate pid s = (done tt, log (terminated pid) s)

abbrev pub start_kill : ℕ → Program Daemon (Unit {0})
start_kill c s = (done tt, log (killed c) s)

abbrev pub wait : ℕ → Program Daemon (Unit {0})
wait c s = (done tt, log (reaped c) s)
