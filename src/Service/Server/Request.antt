-- ===== src/Service/Server/Request.antt =====
-- src/service/server.rs: `handle_request`.
pub mod Gate
pub mod Codes
pub mod Total
pub mod Kept
pub mod Sound
pub mod Wired
pub mod Contract
pub mod Begun
pub mod Refined
pub mod Answers
use sc_helper.Prelude.{
  ℕ, List, Bytes, Bool, true, false, not, Option, none, some, Text, codes, if◌then◌else◌,
}
use sc_helper.Prelude.Program.{Program, Result, ok, err, done, pure, lift, catch, ◌>>=◌}
use sc_helper.Std.Text.{contains}
use sc_helper.Ipc.{
  Command, ping, start_mihomo, stop_mihomo, set_dns, clear_dns, get_version, shutdown, Request,
  ErrorCode, bad_hmac, replayed, already_running, spawn_failed, internal, Response, pong, started,
  stopped, dns_set, dns_cleared, version, shutting_down, error,
}
use sc_helper.Ipc.Fresh.{now_nanos, fresh_at}
use sc_helper.Ipc.Hmac.{verify_hmac}
use sc_helper.Ipc.Libraries.{Libraries}
use sc_helper.Service.Os.{Target, macos, linux, windows, Trace, Env}
use sc_helper.Service.State.{Daemon, Sender, sender, clock}
use sc_helper.Service.Core.{start, stop}
use sc_helper.Service.Dns.Macos

-- `IPC_SECRET`
abbrev pub ipc_secret : Bytes
ipc_secret = codes "sc-helper-shared-secret-please-rotate-on-major-version-bump"

-- What a build of the helper fixes: the libraries, the system it is for, `HELPER_VERSION` and
-- `HELPER_BUILD_SHA`, and the `mihomo_path_resolver` that the daemon passes, which may look at the
-- system each time it is called.
pub record Build : Type 0 where
  pub lib : Libraries
  pub target : Target
  pub helper_version : Text
  pub helper_build_sha : Text
  pub mihomo_path : Trace → Text

-- The `Response` for the `Result` of `start`. The code is chosen by the error's text.
unfoldable pub start_response : Result ℕ → Response
start_response (ok pid) = started pid
start_response (err e) =
    let already = contains e (codes "already running") in
    error (if already then already_running else spawn_failed) e

-- That of a call which has no value: `response`, or the error.
abbrev pub unit_response : Response → Result (Unit {0}) → Response
unit_response response (ok _) = response
unit_response response (err e) = error internal e

-- `take()` on the trigger; the sender, if it was there, is used.
unfoldable pub fire : Option Sender → Program Daemon (Unit {0})
fire none s = (done tt, record s { trigger = none })
fire (some sender) s = (done tt, record s { trigger = none; shutdown_sent = true })

module _ (build : Build) (env : Env) where
  unfoldable pub set_dns_on : Target → List Text → Program Daemon Response
  set_dns_on macos servers = do
    r ← catch (Macos.set_dns env build.lib.debug servers)
    pure (unit_response dns_set r)
  set_dns_on _ servers = pure dns_set

  unfoldable pub clear_dns_on : Target → Program Daemon Response
  clear_dns_on macos = do
    r ← catch (Macos.clear_dns env build.lib.debug)
    pure (unit_response dns_cleared r)
  clear_dns_on _ = pure dns_cleared

  -- The `match` on the command.
  unfoldable pub dispatch : Command → Program Daemon Response
  unfolding set_dns_on clear_dns_on fire
  dispatch ping s = pure pong s
  dispatch get_version s = pure (version build.helper_version build.helper_build_sha) s
  dispatch (start_mihomo config_dir config_file log_file) s =
      (do
        r ← catch (start env (build.mihomo_path s.trace) config_dir config_file log_file)
        pure (start_response r))
        s
  dispatch stop_mihomo s = (do r ← catch (stop env build.target); pure (unit_response stopped r)) s
  dispatch (set_dns servers) s = set_dns_on build.target servers s
  dispatch clear_dns s = clear_dns_on build.target s
  dispatch shutdown s = (do _ ← fire s.trigger; pure shutting_down) s

  unfoldable pub timestamp_fresh : ℕ → Program Daemon Bool
  unfolding now_nanos
  timestamp_fresh timestamp_nanos = do
    reading ← clock env
    now ← lift (now_nanos reading)
    pure (fresh_at now timestamp_nanos)

  -- From the window test's answer on.
  unfoldable pub answer : Request → Bool → Program Daemon Response
  answer request false = pure (error replayed (codes "timestamp outside ±30s window"))
  answer request true =
      if not (verify_hmac build.lib ipc_secret request)
      then pure (error bad_hmac (codes "HMAC mismatch — helper / GUI version skew?"))
      else dispatch request.command

  unfoldable pub handle_request : Request → Program Daemon Response
  handle_request request = do fresh ← timestamp_fresh request.timestamp_nanos; answer request fresh
