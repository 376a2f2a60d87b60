-- ===== src/Service/Core.antt =====
-- src/service/core.rs: the supervisor of the mihomo child process.
pub mod Probe
pub mod Launch
pub mod Tracking
pub mod Stopping
pub mod Patience
pub mod Started
pub mod Spawning
pub mod Total
pub mod Steady
pub mod Turns
use sc_helper.Prelude.{
  ℕ, zero, suc, ◌+◌, ◌*◌, Bool, true, false, not, Option, none, some, List, [], ◌∷◌, ◌++◌, Text,
  codes, leb, if◌then◌else◌,
}
use sc_helper.Prelude.Program.{Program, stuck, pure, fail, ◌>>=◌, ◌>>◌, Result, ok, err}
use sc_helper.Std.Path.{join}
use sc_helper.Service.Os.{
  Target, macos, linux, windows, TryWait, exited, still_running, wait_failed, Env,
}
use sc_helper.Service.State.{
  Daemon, set_child, instant, is_file, is_dir, open_log, clone_log, spawn, child_id, try_wait,
  sleep_ms, terminate, start_kill, wait,
}

-- `cfg(unix)`
abbrev pub is_unix : Target → Bool
is_unix windows = false
is_unix _ = true

-- The wait for SIGTERM to be honoured: 5 s, polled every 100 ms, so 51 polls at most.
abbrev pub grace_nanos : ℕ
grace_nanos = 5 * 1_000_000_000

abbrev pub poll_ms : ℕ
poll_ms = 100

abbrev pub max_polls : ℕ
max_polls = 51

abbrev pub already_running_message : Text
already_running_message = codes "mihomo already running"

abbrev pub mihomo_args : Text → Text → List Text
mihomo_args config_dir config_full = codes "-d" ∷ config_dir ∷ codes "-f" ∷ config_full ∷ []

module _ (env : Env) where
  after_try_wait : TryWait → Program Daemon Bool
  after_try_wait exited = do set_child none; pure false
  after_try_wait still_running = pure true
  after_try_wait (wait_failed _) = do set_child none; pure false

  probe_child : Option ℕ → Program Daemon Bool
  unfolding after_try_wait
  probe_child none = pure false
  probe_child (some child) = do r ← try_wait env child; after_try_wait r

  unfoldable pub is_running : Program Daemon Bool
  unfolding probe_child
  is_running s = probe_child s.supervisor.child s

  -- `child.id().ok_or_else(..)?` and the last two lines of `start`.
  keep_child : ℕ → Option ℕ → Program Daemon ℕ
  keep_child child none = fail (codes "spawned mihomo has no pid")
  keep_child child (some pid) = do set_child (some child); pure pid

  -- `.spawn().context(..)?` and what follows.
  unfoldable pub after_spawn : Result ℕ → Program Daemon ℕ
  unfolding keep_child
  after_spawn (err _) = fail (codes "spawning mihomo")
  after_spawn (ok child) = do pid ← child_id env child; keep_child child pid

  -- From the opening of the log file on.
  unfoldable pub launch : Text → Text → Text → Text → Program Daemon ℕ
  launch mihomo_path config_dir config_full log_file = do
    opened ← open_log env log_file
    if not opened then fail (codes "opening log file " ++ log_file) else do
      cloned ← clone_log env log_file
      if not cloned then fail (codes "cloning log file handle for stderr") else do
        r ← spawn env mihomo_path (mihomo_args config_dir config_full) log_file
        after_spawn r

  -- `start` once nothing is running.
  unfoldable pub start_idle : Text → Text → Text → Text → Program Daemon ℕ
  start_idle mihomo_path config_dir config_file log_file = do
    have_binary ← is_file env mihomo_path
    if not have_binary then fail (codes "mihomo binary not found at " ++ mihomo_path) else do
      have_dir ← is_dir env config_dir
      if not have_dir then fail (codes "config_dir not a directory: " ++ config_dir) else do
        let config_full = join config_dir config_file
        have_config ← is_file env config_full
        if not have_config
            then fail (codes "config file not found: " ++ config_full)
            else launch mihomo_path config_dir config_full log_file

  -- What `start` does with the answer of `is_running`.
  unfoldable pub start_unless : Text → Text → Text → Text → Bool → Program Daemon ℕ
  start_unless mihomo_path config_dir config_file log_file true = fail already_running_message
  start_unless mihomo_path config_dir config_file log_file false =
      start_idle mihomo_path config_dir config_file log_file

  unfoldable pub start : Text → Text → Text → Text → Program Daemon ℕ
  start mihomo_path config_dir config_file log_file = do
    running ← is_running
    start_unless mihomo_path config_dir config_file log_file running

  -- The loop of `stop`, with the number of polls left.
  unfoldable pub stop_loop : ℕ → ℕ → ℕ → Program Daemon (Unit {0})
  stop_loop zero deadline child s = (stuck, s)
  stop_loop (suc polls) deadline child s =
      let again = stop_loop polls deadline child in
      (do
        r ← try_wait env child
        elim r [
          | exited ↦ pure tt
          | still_running ↦ do
            now ← instant env
            if leb deadline now
                then (do start_kill child; wait child)
                else (do sleep_ms now poll_ms; again)
          | wait_failed e ↦ fail e
        ])
        s

  send_sigterm : Option ℕ → Program Daemon (Unit {0})
  send_sigterm none = pure tt
  send_sigterm (some pid) = terminate pid

  -- SIGTERM on Unix, `start_kill` elsewhere.
  unfoldable pub request_end : Target → ℕ → Program Daemon (Unit {0})
  unfolding send_sigterm
  request_end target child =
      if is_unix target then (do pid ← child_id env child; send_sigterm pid) else start_kill child

  unfoldable pub await_end : ℕ → Program Daemon (Unit {0})
  await_end child = do now ← instant env; stop_loop max_polls (now + grace_nanos) child

  unfoldable pub stop_child : Target → Option ℕ → Program Daemon (Unit {0})
  stop_child target none = pure tt
  stop_child target (some child) = do set_child none; request_end target child; await_end child

  unfoldable pub stop : Target → Program Daemon (Unit {0})
  stop target s = stop_child target s.supervisor.child s
