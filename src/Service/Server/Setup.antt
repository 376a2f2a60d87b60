-- ===== src/Service/Server/Setup.antt =====
-- src/service/server.rs: `serve` before its loop, and the cleanup behind it. Where the source says
-- `cfg(unix)`, the target is macOS or Linux.
pub mod Kept
pub mod Bound
use sc_helper.Prelude.{ℕ, Bool, true, false, Option, none, some, ◌++◌, [], Text, codes}
use sc_helper.Prelude.Program.{Program, pure, or_fail, ◌>>=◌, ◌>>◌}
use sc_helper.Paths.Macos.{socket_path as macos_socket}
use sc_helper.Paths.Linux.{socket_path as linux_socket}
use sc_helper.Service.Os.{Target, macos, linux, windows, Env}
use sc_helper.Service.State.{Daemon, socket_override, exists, remove_file, bind, set_permissions}

-- The end of `socket_path`, by what the variable holds. There is none on Windows.
unfoldable pub socket_or : Target → Option Text → Text
socket_or target (some over) = over
socket_or macos none = macos_socket
socket_or linux none = linux_socket
socket_or windows none = []

-- 0o666
abbrev pub socket_mode : ℕ
socket_mode = 438

module _ (env : Env) where
  unfoldable pub socket_path : Target → Program Daemon Text
  unfolding socket_or
  socket_path target = do over ← socket_override env; pure (socket_or target over)

  unfoldable pub remove_stale : Text → Bool → Program Daemon (Unit {0})
  remove_stale path true = do
    r ← remove_file env path
    or_fail (codes "removing stale socket " ++ path) r
  remove_stale path false = pure tt

  unfoldable pub set_up : Target → Program Daemon Text
  set_up target = do
    path ← socket_path target
    stale ← exists env path
    remove_stale path stale
    r ← bind env path
    or_fail (codes "binding " ++ path) r
    q ← set_permissions env path socket_mode
    or_fail (codes "chmod 666 " ++ path) q
    pure path

  -- Its result is not looked at.
  unfoldable pub clean_up : Text → Daemon → Daemon
  clean_up path d = (remove_file env path d).1
