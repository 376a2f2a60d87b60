-- ===== src/Ipc.antt =====
-- src/ipc.rs: the types of the protocol and its two constants.
pub mod Wire
pub mod Libraries
pub mod Hmac
pub mod Fresh
pub mod Frame
use sc_helper.Prelude.{ℕ, ◌*◌, List, Text}

-- `MAX_FRAME_BYTES`
abbrev pub max_frame_bytes : ℕ
max_frame_bytes = 1024 * 1024

-- `REPLAY_WINDOW_NANOS`
abbrev pub replay_window_nanos : ℕ
replay_window_nanos = 30 * 1_000_000_000

pub data Command : Type 0 where
  ping : Command
  -- config_dir, config_file, log_file
  start_mihomo : Text → Text → Text → Command
  stop_mihomo : Command
  set_dns : List Text → Command
  clear_dns : Command
  get_version : Command
  shutdown : Command

pub record Request : Type 0 where
  pub timestamp_nanos : ℕ
  pub hmac : Text
  pub command : Command

pub data ErrorCode : Type 0 where
  bad_hmac replayed bad_request already_running not_running spawn_failed internal : ErrorCode

pub data Response : Type 0 where
  pong : Response
  started : ℕ → Response
  stopped : Response
  dns_set : Response
  dns_cleared : Response
  -- version, build_sha
  version : Text → Text → Response
  shutting_down : Response
  error : ErrorCode → Text → Response
