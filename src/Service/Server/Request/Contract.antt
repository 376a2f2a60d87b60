-- ===== src/Service/Server/Request/Contract.antt =====
-- What a client may rely on: the daemon as a machine with one child or none, and a shutdown that
-- was asked for or not.
use sc_helper.Prelude.{ℕ, ◌≡◌, ◌⊎◌, Bool, true, false, Option, none, some, List, Text, codes}
use sc_helper.Ipc.{
  Command, ping, start_mihomo, stop_mihomo, set_dns, clear_dns, get_version, shutdown, Request,
  ErrorCode, bad_hmac, replayed, already_running, spawn_failed, internal, Response, pong, started,
  stopped, dns_set, dns_cleared, version, shutting_down, error,
}
use sc_helper.Ipc.Fresh.{fresh_at}
use sc_helper.Ipc.Hmac.{verify_hmac}
use sc_helper.Service.State.{Daemon}
use sc_helper.Service.Os.{TryWait, exited, still_running, wait_failed, Trace, Env}
use sc_helper.Service.Core.{already_running_message}
use sc_helper.Service.Server.Request.{Build, ipc_secret}

pub record Machine : Type 0 where
  pub child : Option ℕ
  pub ending : Bool

-- The machine that a daemon is, less its trace and its trigger.
abbrev pub view : Daemon → Machine
view d = record { child = d.supervisor.child; ending = d.shutdown_sent }

-- The system says that the child, if there is one, still runs.
abbrev is_still : TryWait → Bool
is_still still_running = true
is_still exited = false
is_still (wait_failed e) = false

unfoldable pub runs_yet : Env → Trace → Option ℕ → Bool
runs_yet env t none = false
runs_yet env t (some c) = is_still (env.try_wait t c)

-- `running` is whether the child runs when the command comes.
module _ (build : Build) (running : Bool) where
  -- A command, its response, and the machine before and after.
  pub data Serves (a : Machine) : Command → Response → Machine → Type 0 where
    pinged : Serves a ping pong a
    told : Serves a get_version (version build.helper_version build.helper_build_sha) a
    -- the child runs, and is not touched
    runs_already :
        (d f l : Text) (c : ℕ) (b : Machine)
        → a.child ≡ some c
        → running ≡ true
        → b ≡ a
        → Serves a (start_mihomo d f l) (error already_running already_running_message) b
    -- no child runs
    starts :
        (d f l : Text) (c pid : ℕ) (b : Machine)
        → running ≡ false
        → b ≡ record a { child = some c }
        → Serves a (start_mihomo d f l) (started pid) b
    start_fails :
        (d f l : Text) (code : ErrorCode) (e : Text) (b : Machine)
        → running ≡ false
        → (code ≡ already_running) ⊎ (code ≡ spawn_failed)
        → b ≡ record a { child = none }
        → Serves a (start_mihomo d f l) (error code e) b
    stops : (b : Machine) → b ≡ record a { child = none } → Serves a stop_mihomo stopped b
    -- a child is given up on
    stop_fails :
        (e : Text) (b : Machine)
        → b ≡ record a { child = none }
        → Serves a stop_mihomo (error internal e) b
    sets : (servers : List Text) (b : Machine) → b ≡ a → Serves a (set_dns servers) dns_set b
    set_fails :
        (servers : List Text) (e : Text) (b : Machine)
        → b ≡ a
        → Serves a (set_dns servers) (error internal e) b
    clears : (b : Machine) → b ≡ a → Serves a clear_dns dns_cleared b
    clear_fails : (e : Text) (b : Machine) → b ≡ a → Serves a clear_dns (error internal e) b
    shuts : (b : Machine) → b ≡ record a { ending = true } → Serves a shutdown shutting_down b

  -- At a reading of the clock: a request that is refused changes nothing, and it is refused
  -- only if it is out of time or not signed; else its command is served.
  pub data Answers (now : ℕ) (a : Machine) (r : Request) : Response → Machine → Type 0 where
    out_of_time :
        fresh_at now r.timestamp_nanos ≡ false
        → Answers now a r (error replayed (codes "timestamp outside ±30s window")) a
    not_signed :
        fresh_at now r.timestamp_nanos ≡ true
        → verify_hmac build.lib ipc_secret r ≡ false
        → Answers now a r (error bad_hmac (codes "HMAC mismatch — helper / GUI version skew?")) a
    served :
        {response : Response} {b : Machine}
        → fresh_at now r.timestamp_nanos ≡ true
        → verify_hmac build.lib ipc_secret r ≡ true
        → Serves a r.command response b
        → Answers now a r response b
