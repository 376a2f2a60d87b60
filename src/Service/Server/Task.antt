-- ===== src/Service/Server/Task.antt =====
-- src/service/server.rs: `handle_request` and `handle_connection` as asynchronous programs, which
-- run beside each other in the tasks that `serve` spawns. `lock` is that of the supervisor; the
-- trigger's is never held across an await, so that `fire` is one turn.
pub mod Alone
use sc_helper.Prelude.{
  List, Text, Bytes, Bool, true, false, not, Option, none, some, codes, if◌then◌else◌,
}
use sc_helper.Prelude.Program.{Program, Outcome, done, failed, panicked, stuck}
use sc_helper.Prelude.Async.{
  Async, over, sync, pure, whatever, catch, acquire, release, ◌>>=◌, ◌>>◌,
}
use sc_helper.Ipc.{
  Command, ping, start_mihomo, stop_mihomo, set_dns, clear_dns, get_version, shutdown, Request,
  bad_hmac, replayed, Response, pong, stopped, dns_set, dns_cleared, version, shutting_down, error,
}
use sc_helper.Ipc.Wire.{response_value}
use sc_helper.Ipc.Frame.{Stream, read_frame, write_frame}
use sc_helper.Ipc.Hmac.{verify_hmac}
use sc_helper.Service.Os.{Target, macos, Env}
use sc_helper.Service.State.{Daemon}
use sc_helper.Service.Core.{start}
use sc_helper.Service.Core.Turns.{stop_turns}
use sc_helper.Service.Dns.Macos.Turns.{set_dns_turns, clear_dns_turns}
use sc_helper.Service.Server.Request.{
  Build, ipc_secret, start_response, unit_response, fire, timestamp_fresh,
}

-- A connection's task has a value in any case: how it ended, and its stream.
abbrev pub Task : Type 0
Task = Async Daemon (Outcome (Unit {0}) × Stream)

-- `mihomo_path_resolver()`
abbrev pub resolved : Build → Program Daemon Text
resolved build s = (done (build.mihomo_path s.trace), s)

abbrev pub shut : Program Daemon (Unit {0})
shut s = fire s.trigger s

-- The task has panicked, which aborts the process.
unfoldable pub crashes : Task → Bool
crashes (over (done (panicked e, stream))) = true
crashes (over (panicked e)) = true
crashes _ = false

module _ (build : Build) (env : Env) where
  unfoldable pub set_dns_task : Target → List Text → Async Daemon Response
  set_dns_task macos servers = do
    r ← catch (set_dns_turns env build.lib.debug servers)
    pure (unit_response dns_set r)
  set_dns_task _ servers = pure dns_set

  unfoldable pub clear_dns_task : Target → Async Daemon Response
  clear_dns_task macos = do
    r ← catch (clear_dns_turns env build.lib.debug)
    pure (unit_response dns_cleared r)
  clear_dns_task _ = pure dns_cleared

  -- The guard lives to the end of the arm.
  unfoldable pub start_task : Text → Text → Text → Text → Async Daemon Response
  start_task path config_dir config_file log_file = do
    acquire
    r ← catch (sync (start env path config_dir config_file log_file))
    release
    pure (start_response r)

  unfoldable pub stop_task : Async Daemon Response
  stop_task = do
    acquire
    r ← catch (stop_turns env build.target)
    release
    pure (unit_response stopped r)

  unfoldable pub dispatch_task : Command → Async Daemon Response
  dispatch_task ping = pure pong
  dispatch_task get_version = pure (version build.helper_version build.helper_build_sha)
  dispatch_task (start_mihomo config_dir config_file log_file) = do
    path ← sync (resolved build)
    start_task path config_dir config_file log_file
  dispatch_task stop_mihomo = stop_task
  dispatch_task (set_dns servers) = set_dns_task build.target servers
  dispatch_task clear_dns = clear_dns_task build.target
  dispatch_task shutdown = do sync shut; pure shutting_down

  unfoldable pub answer_task : Request → Bool → Async Daemon Response
  answer_task request false = pure (error replayed (codes "timestamp outside ±30s window"))
  answer_task request true =
      if not (verify_hmac build.lib ipc_secret request)
      then pure (error bad_hmac (codes "HMAC mismatch — helper / GUI version skew?"))
      else dispatch_task request.command

  unfoldable pub request_task : Request → Async Daemon Response
  request_task request = do
    fresh ← sync (timestamp_fresh build env request.timestamp_nanos)
    answer_task request fresh

  -- From the response on; a panic ends the task, and the process with it (`crashes`).
  unfoldable pub responded : Stream → Outcome Response → Task
  responded stream (done response) =
      over (done (write_frame (build.lib.to_vec (response_value response)) stream))
  responded stream (failed e) = over (done (failed e, stream))
  responded stream (panicked e) = over (done (panicked e, stream))
  responded stream stuck = over (done (stuck, stream))

  unfoldable pub parsed_task : Stream → Option Request → Task
  parsed_task stream none = over (done (failed (codes "parsing IPC request JSON"), stream))
  parsed_task stream (some request) = whatever (request_task request) (responded stream)

  unfoldable pub received : Stream → Outcome Bytes → Task
  received stream (done body) = parsed_task stream (build.lib.request_from_slice body)
  received stream (failed e) = over (done (failed e, stream))
  received stream (panicked e) = over (done (panicked e, stream))
  received stream stuck = over (done (stuck, stream))

  -- From the moment that the stream has what `read_frame` takes, or has been closed: until then the
  -- task awaits it, and touches nothing of the daemon.
  unfoldable pub connection_task : Stream → Task
  connection_task stream = let r = read_frame stream in received r.1 r.0
