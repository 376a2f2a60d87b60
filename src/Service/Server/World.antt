-- ===== src/Service/Server/World.antt =====
-- src/service/server.rs and src/bin/sc_helper.rs: the daemon with its connections' tasks, which
-- take their turns in any order, between the turns of `main`. A panic of any of them aborts the
-- process (Cargo.toml, `panic` of the release profile).
pub mod Guard
pub mod Free
pub mod Stopping
pub mod Silent
pub mod Tasks
pub mod Last
pub mod Holder
pub mod Safe
pub mod Survived
pub mod Quiet
pub mod Reached
pub mod Orderly
pub mod Spent
pub mod Departure
use sc_helper.Prelude.{ℕ, ◌+◌, if◌then◌else◌, ◌≡◌, ◌≢◌, Bool, true, false, List, [], ◌∷◌, Text}
use sc_helper.Prelude.Program.{Outcome, done, failed, panicked, stuck}
use sc_helper.Prelude.Async.{Async, over, turn, lock, unlock, pure, catch, acquire, ◌>>=◌, ◌>>◌}
use sc_helper.Ipc.Frame.{Stream}
use sc_helper.Service.Os.{Target, windows, Env}
use sc_helper.Service.State.{Daemon, sleep_ms}
use sc_helper.Service.Core.Turns.{stop_turns}
use sc_helper.Service.Server.Setup.{set_up, clean_up}
use sc_helper.Service.Server.Request.{Build}
use sc_helper.Service.Server.Accept.{new_daemon}
use sc_helper.Service.Server.Task.{Task, crashes, connection_task}

-- Where `main` is: at its start, in the loop with the socket's path, behind `serve` with this much
-- left to do, at its end, at its end by an error of `serve`, or aborted by a panic.
pub data Phase : Type 0 where
  launching : Phase
  accepting : Text → Phase
  ending : Async Daemon (Unit {0}) → Phase
  exited broken aborted : Phase

-- `locked` is the supervisor's mutex. `waiting` is how many connections' tasks await the frame of
-- their client, which need not come; `tasks` are those behind `read_frame`.
pub record World : Type 0 where
  pub phase : Phase
  pub daemon : Daemon
  pub locked : Bool
  pub waiting : ℕ
  pub tasks : List Task

unfoldable pub new_world : World
new_world = record {
  phase = launching;
  daemon = new_daemon;
  locked = false;
  waiting = 0;
  tasks = [];
}

-- One turn: of the lock, of the daemon and of what is left to do. The lock is only taken when it is
-- free.
pub data Turn {A : Type 0} (l : Bool) (d : Daemon)
    : Async Daemon A → Bool → Daemon → Async Daemon A → Type 0 where
  turned : (e : Daemon → Daemon) (k : Daemon → Async Daemon A) → Turn l d (turn e k) l (e d) (k d)
  locks : (m : Async Daemon A) → l ≡ false → Turn l d (lock m) true d m
  unlocks : (m : Async Daemon A) → Turn l d (unlock m) false d m

-- A turn of one of the tasks.
pub data Turns (l : Bool) (d : Daemon) : List Task → Bool → Daemon → List Task → Type 0 where
  here :
      {m n : Task} {l' : Bool} {d' : Daemon} (ts : List Task)
      → Turn l d m l' d' n
      → Turns l d (m ∷ ts) l' d' (n ∷ ts)
  there :
      (m : Task) {l' : Bool} {d' : Daemon} {ts ts' : List Task}
      → Turns l d ts l' d' ts'
      → Turns l d (m ∷ ts) l' d' (m ∷ ts')

-- The loop is entered, or `?` ends `serve` and `main`.
unfoldable pub entering : Outcome Text → Phase
entering (done path) = accepting path
entering (failed e) = broken
entering (panicked e) = aborted
entering stuck = broken

-- The process goes on, unless one of the tasks has panicked.
unfoldable pub surviving : List Task → Phase → Phase
surviving [] p = p
surviving (m ∷ ms) p = let rest = surviving ms p in if crashes m then aborted else rest

-- `main` returns.
unfoldable pub quitting : Outcome (Unit {0}) → Phase
quitting (done u) = exited
quitting (failed e) = exited
quitting (panicked e) = aborted
quitting stuck = exited

-- The runtime is there for the tasks until `main` ends.
abbrev pub IsUp : Phase → Type 0
IsUp exited = ⊥
IsUp broken = ⊥
IsUp aborted = ⊥
IsUp _ = Unit

module _ (build : Build) (env : Env) where
  -- `main` behind `serve`; its guard is dropped with the process.
  unfoldable pub last_stop : Async Daemon (Unit {0})
  last_stop = do acquire; r ← catch (stop_turns env build.target); pure tt

  -- Out of the loop: the socket is removed, and the supervisor is to be stopped.
  unfoldable pub leave : Text → World → World
  leave path w = record w { phase = ending last_stop; daemon = clean_up env path w.daemon }

  pub data Step (w : World) : World → Type 0 where
    set_up_done :
        w.phase ≡ launching
        → build.target ≢ windows
        → Step w (record w {
          phase = entering (set_up env build.target w.daemon).0;
          daemon = (set_up env build.target w.daemon).1;
        })
    -- there is no server on Windows
    no_server :
        w.phase ≡ launching
        → build.target ≡ windows
        → Step w (record w { phase = ending last_stop })
    -- the task is spawned, and awaits the frame, for as long as its client takes
    connected :
        (path : Text) → w.phase ≡ accepting path → Step w (record w { waiting = 1 + w.waiting })
    -- a frame has come, or the client has closed: what `read_frame` takes is there
    arrived :
        (stream : Stream) (n : ℕ)
        → IsUp w.phase
        → w.waiting ≡ 1 + n
        → Step w (record w { waiting = n; tasks = connection_task build env stream ∷ w.tasks })
    accept_failed :
        (path : Text)
        → w.phase ≡ accepting path
        → Step w (record w { daemon = (sleep_ms 0 200 w.daemon).1 })
    -- SIGTERM or SIGINT
    signalled : (path : Text) → w.phase ≡ accepting path → Step w (leave path w)
    -- `ipc_shutdown_rx` has what `fire` sent
    shut_down :
        (path : Text)
        → w.phase ≡ accepting path
        → w.daemon.shutdown_sent ≡ true
        → Step w (leave path w)
    task_turn :
        {l : Bool} {d : Daemon} {ts : List Task}
        → IsUp w.phase
        → Turns w.locked w.daemon w.tasks l d ts
        → Step w (record w { phase = surviving ts w.phase; locked = l; daemon = d; tasks = ts })
    main_turn :
        {m n : Async Daemon (Unit {0})} {l : Bool} {d : Daemon}
        → w.phase ≡ ending m
        → Turn w.locked w.daemon m l d n
        → Step w (record w { phase = ending n; locked = l; daemon = d })
    ended :
        (o : Outcome (Unit {0}))
        → w.phase ≡ ending (over o)
        → Step w (record w { phase = quitting o })

  -- What the daemon comes to, from its start.
  pub data Reach : World → Type 0 where
    launched : Reach new_world
    stepped : {w v : World} → Reach w → Step w v → Reach v
