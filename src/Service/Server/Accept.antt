-- ===== src/Service/Server/Accept.antt =====
-- src/service/server.rs: `serve`, and src/bin/sc_helper.rs: what `main` does around it. A
-- connection's task runs to its end before another starts. A panic of it aborts the process
-- (Cargo.toml, `panic` of the release profile).
pub mod Kept
pub mod Listening
pub mod Shutdown
pub mod Laws
use sc_helper.Prelude.{◌≡◌, ◌≢◌, Bool, true, false, some, none, [], Text}
use sc_helper.Prelude.Program.{Outcome, done, failed, panicked, stuck}
use sc_helper.Ipc.Frame.{Stream}
use sc_helper.Service.Os.{Env, windows}
use sc_helper.Service.State.{Daemon, sender, new_supervisor, sleep_ms}
use sc_helper.Service.Core.{stop}
use sc_helper.Service.Server.Setup.{set_up, clean_up}
use sc_helper.Service.Server.Request.{Build}
use sc_helper.Service.Server.Connection.{Session, handle_connection}

-- Where the daemon is: at the start of `main`, in the loop, with the socket's path, behind `serve`,
-- at the end of `main`, at its end by an error of `serve`, or aborted by a panic.
pub data Server : Type 0 where
  launching : Daemon → Server
  accepting : Text → Daemon → Server
  drained exited broken aborted : Daemon → Server

abbrev pub daemon_of : Server → Daemon
daemon_of (launching d) = d
daemon_of (accepting path d) = d
daemon_of (drained d) = d
daemon_of (exited d) = d
daemon_of (broken d) = d
daemon_of (aborted d) = d

-- `new_shared_supervisor`, and a fresh shutdown channel.
unfoldable pub new_daemon : Daemon
unfolding new_supervisor
new_daemon = record {
  supervisor = new_supervisor;
  trigger = some sender;
  shutdown_sent = false;
  trace = [];
}

-- The loop is entered, or `?` ends `serve` and `main`.
unfoldable pub entered : Outcome Text × Daemon → Server
entered (done path, d) = accepting path d
entered (failed e, d) = broken d
entered (panicked e, d) = aborted d
entered (stuck, d) = broken d

-- The end of a connection's task, which is looked at by nobody; a panic is the end of the process.
unfoldable pub returned : Text → Outcome (Unit {0}) × Session → Server
returned path (done u, s) = accepting path s.daemon
returned path (failed e, s) = accepting path s.daemon
returned path (panicked e, s) = aborted s.daemon
returned path (stuck, s) = accepting path s.daemon

module _ (build : Build) (env : Env) where
  -- The set-up, one turn of the `select!`, or the stop behind `serve`.
  pub data Step : Server → Server → Type 0 where
    set_up_done :
        (d : Daemon)
        → build.target ≢ windows
        → Step (launching d) (entered (set_up env build.target d))
    -- there is no server on Windows
    no_server : (d : Daemon) → build.target ≡ windows → Step (launching d) (drained d)
    -- a connection's task, once its frame has come or its client has closed
    connected :
        (path : Text) (stream : Stream) (d : Daemon)
        → Step
            (accepting path d)
            (returned path (handle_connection build env (record { stream = stream; daemon = d })))
    -- `accept` has an error
    accept_failed :
        (path : Text) (d : Daemon) → Step (accepting path d) (accepting path (sleep_ms 0 200 d).1)
    -- SIGTERM or SIGINT
    signalled : (path : Text) (d : Daemon) → Step (accepting path d) (drained (clean_up env path d))
    -- `ipc_shutdown_rx` has what `fire` sent
    shut_down :
        (path : Text) (d : Daemon)
        → d.shutdown_sent ≡ true
        → Step (accepting path d) (drained (clean_up env path d))
    ended : (d : Daemon) → Step (drained d) (exited (stop env build.target d).1)

  -- What the daemon comes to, from its start.
  pub data Reach : Server → Type 0 where
    launched : Reach (launching new_daemon)
    stepped : {s t : Server} → Reach s → Step s t → Reach t
