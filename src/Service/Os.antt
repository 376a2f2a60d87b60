-- ===== src/Service/Os.antt =====
-- The operating system as the daemon meets it: what it is asked is a trace of events, newest first,
-- and an environment answers each call from the trace before it.
use sc_helper.Prelude.{
  ◌≡◌, ℕ, ◌+◌, ◌*◌, ◌≤◌, Bool, ◌≢◌, Option, none, List, [], ◌∷◌, Text, ltb, if◌then◌else◌,
}
use sc_helper.Prelude.Program.{Result, ok}

-- `target_os`
pub data Target : Type 0 where
  macos linux windows : Target

-- `try_wait`: `Ok(Some(_))`, `Ok(None)`, `Err(e)`
pub data TryWait : Type 0 where
  exited : TryWait
  still_running : TryWait
  wait_failed : Text → TryWait

-- What `Command::output` returns: whether `status` is a success, its `{}` form, and the two streams
-- decoded by `from_utf8_lossy`.
pub record Output : Type 0 where
  pub status : Text
  pub success : Bool
  pub stdout : Text
  pub stderr : Text

-- A child process is named by a number of the environment's, apart from its pid.
pub data Event : Type 0 where
  -- `SystemTime::now`, `Instant::now`, `sleep` in milliseconds, with a reading from before it
  read_clock : Option ℕ → Event
  tick : ℕ → Event
  slept : (from ms : ℕ) → Event
  -- `Path::is_file`, `Path::is_dir`, `OpenOptions::open`, `try_clone`
  probed_file : Text → Bool → Event
  probed_dir : Text → Bool → Event
  opened_log : Text → Bool → Event
  cloned_log : Text → Bool → Event
  -- `Command::spawn`: program, arguments, log file, the child
  spawned : Text → List Text → Text → Result ℕ → Event
  -- `Child::id`, `Child::try_wait`, SIGTERM to a pid, `Child::start_kill`, `Child::wait`
  asked_id : ℕ → Option ℕ → Event
  tried : ℕ → TryWait → Event
  terminated : ℕ → Event
  killed : ℕ → Event
  reaped : ℕ → Event
  -- `Command::output` or `Command::status`: program, arguments
  ran : Text → List Text → Result Output → Event
  -- `env::var("SC_HELPER_SOCKET_OVERRIDE")`, then `Path::exists`, `remove_file`,
  -- `UnixListener::bind` and `set_permissions` of the socket
  read_override : Option Text → Event
  existed : Text → Bool → Event
  removed : Text → Result (Unit {0}) → Event
  bound : Text → Result (Unit {0}) → Event
  permitted : Text → ℕ → Result (Unit {0}) → Event

abbrev pub Trace : Type 0
Trace = List Event

pub record Env : Type 0 where
  -- nanoseconds since 1970; `none` before
  pub clock : Trace → Option ℕ
  -- nanoseconds of the monotonic clock
  pub instant : Trace → ℕ
  pub is_file : Trace → Text → Bool
  pub is_dir : Trace → Text → Bool
  pub open_log : Trace → Text → Bool
  pub clone_log : Trace → Text → Bool
  pub spawn : Trace → Text → List Text → Text → Result ℕ
  pub child_id : Trace → ℕ → Option ℕ
  pub try_wait : Trace → ℕ → TryWait
  pub run : Trace → Text → List Text → Result Output
  pub socket_override : Trace → Option Text
  pub exists : Trace → Text → Bool
  pub remove_file : Trace → Text → Result (Unit {0})
  pub bind : Trace → Text → Result (Unit {0})
  pub set_permissions : Trace → Text → ℕ → Result (Unit {0})

-- The least reading of the monotonic clock after the events: it does not run backwards, and a sleep
-- takes its time at least.
unfoldable pub time_floor : Trace → ℕ
time_floor [] = 0
time_floor (tick n ∷ t) = n
time_floor (slept from ms ∷ t) =
    let before = time_floor t in
    let woken = from + ms * 1_000_000 in if ltb before woken then woken else before
time_floor (_ ∷ t) = time_floor t

-- What the daemon relies on: that clock, and that `Child::id` knows a child that was just spawned.
pub record IsLawfulOs (env : Env) : Type 0 where
  pub monotonic : (t : Trace) → time_floor t ≤ env.instant t
  pub spawned_id :
      (t : Trace) (program : Text) (args : List Text) (log : Text) (child : ℕ)
      → env.child_id (spawned program args log (ok child) ∷ t) child ≢ none

-- The clock may read a time before 1970.
abbrev pub IsEarly : Env → Type 0
IsEarly env = (t : Trace) × (env.clock t ≡ none)
