-- ===== src/Bin/Ping.antt =====
-- src/bin/sc_helper_ping.rs: the client that sends one request. What it prints to stderr is left
-- out.
pub mod Laws
use sc_helper.Prelude.{
  ℕ, Bool, not, Option, none, some, [], ◌++◌, Bytes, Text, codes, if◌then◌else◌,
}
use sc_helper.Prelude.Program.{
  Program, Outcome, done, failed, panicked, stuck, pure, fail, lift, ◌>>=◌, ◌>>◌,
}
use sc_helper.Std.Text.{text_eq}
use sc_helper.Ipc.{Command, ping, get_version, Request, Response, pong, version, error}
use sc_helper.Ipc.Wire.{request_value}
use sc_helper.Ipc.Libraries.{Libraries}
use sc_helper.Ipc.Fresh.{now_nanos}
use sc_helper.Ipc.Hmac.{compute_hmac}
use sc_helper.Ipc.Frame.{Stream, read_frame, write_frame}
use sc_helper.Service.Server.Request.{ipc_secret}

-- An exit code, and what was printed to stdout.
pub record Exit : Type 0 where
  pub code : ℕ
  pub stdout : Text

-- How the process ends. A panic aborts it (Cargo.toml, `panic` of the release profile).
pub data End : Type 0 where
  exits : Exit → End
  aborts : End

-- An `Err` from `main` exits with 1.
abbrev failure : ℕ → Exit
failure n = record { code = n; stdout = [] }

-- The `match` on the response.
unfoldable pub report : Response → Exit
report pong = record { code = 0; stdout = codes "pong\n" }
report (version v sha) = record {
  code = 0;
  stdout = codes "v=" ++ (v ++ (codes " sha=" ++ (sha ++ codes "\n")));
}
report (error code message) = failure 2
report _ = failure 3

module _ (lib : Libraries) where
  -- The first argument of the command line.
  unfoldable pub parse_command : Option Text → Outcome Command
  parse_command none = done ping
  parse_command (some arg) =
      if text_eq arg (codes "ping")
      then done ping
      else if text_eq arg (codes "version")
      then done get_version
      else failed (codes "unknown command " ++ lib.debug arg ++ codes " (try `ping` or `version`)")

  -- The request that `send` builds at a timestamp.
  unfoldable pub signed_request : ℕ → Command → Request
  signed_request timestamp_nanos command = record {
    timestamp_nanos = timestamp_nanos;
    hmac = compute_hmac lib ipc_secret timestamp_nanos command;
    command = command;
  }

  -- `from_slice(&reply).context(..)`
  response_from : Option Response → Program Stream Response
  response_from none = fail (codes "deserializing response")
  response_from (some response) = pure response

  -- `clock` is what the system clock gives, `connected` whether `connect` succeeds.
  unfoldable pub send :
      (clock : Option ℕ) (connected : Bool) (path : Text) → Command → Program Stream Response
  unfolding now_nanos response_from
  send clock connected path command = do
    timestamp_nanos ← lift (now_nanos clock)
    let body = lib.to_vec (request_value (signed_request timestamp_nanos command))
    if not connected
        then fail (codes "connecting to " ++ path ++ codes " (is sc-helper running?)")
        else do write_frame body; reply ← read_frame; response_from (lib.response_from_slice reply)

  abbrev exit_of : Outcome Response → End
  exit_of (done response) = exits (report response)
  exit_of (failed _) = exits (failure 1)
  exit_of (panicked _) = aborts
  exit_of stuck = exits (failure 1)

  abbrev run_command :
      Outcome Command → (clock : Option ℕ) (connected : Bool) (path : Text) → Stream → End
  run_command (done command) clock connected path s =
      exit_of (send clock connected path command s).0
  run_command _ clock connected path s = exits (failure 1)

  -- `main`, from the first argument.
  unfoldable pub main :
      (arg : Option Text) (clock : Option ℕ) (connected : Bool) (path : Text) → Stream → End
  main arg = run_command (parse_command arg)
