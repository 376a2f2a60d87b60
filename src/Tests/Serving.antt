-- ===== src/Tests/Serving.antt =====
-- The theorems on the service, on concrete daemons.
use sc_helper.Prelude.{
  ◌+◌, ◌≤◌, ◌≡◌, ◌≢◌, refl, ap, true, false, none, some, [], ◌++◌, Text, Bytes, codes, arith,
}
use sc_helper.Prelude.Program.{done, failed}
use sc_helper.Ipc.{
  Command, ping, start_mihomo, stop_mihomo, shutdown, pong, error, already_running,
  replay_window_nanos,
}
use sc_helper.Std.Word.{to_be_bytes}
use sc_helper.Ipc.Wire.{command_value, request_value, response_value}
use sc_helper.Ipc.Hmac.{canonical_command_bytes, compute_hmac, signed_message, verify_hmac}
use sc_helper.Ipc.Hmac.Laws.{verify_hmac-compute_hmac}
use sc_helper.Ipc.Frame.{Stream}
use sc_helper.Ipc.Frame.Laws.{frame}
use sc_helper.Service.Os.{linux, read_clock, Env}
use sc_helper.Service.State.{Daemon, sender, log}
use sc_helper.Service.Core.{stop}
use sc_helper.Service.Core.Tracking.{outstanding, AreJustified, IsSound}
use sc_helper.Service.Core.Stopping.{stop_releases}
use sc_helper.Service.Server.Request.{ipc_secret, dispatch, handle_request}
use sc_helper.Service.Server.Request.Gate.{effect_needs_mac, handle_request_accepted}
use sc_helper.Service.Server.Request.Codes.{HasUsedCode, handle_request-HasUsedCode}
use sc_helper.Service.Server.Request.Sound.{IsResolved}
use sc_helper.Service.Server.Request.Answers.{start_mihomo_misreported}
use sc_helper.Service.Server.Connection.{Session, handle_connection}
use sc_helper.Service.Server.Connection.Laws.{handle_connection_answers, handle_connection_unparsed}
use sc_helper.Service.Server.Accept.{new_daemon}
use sc_helper.Tests.Codec.{to_vec}
use sc_helper.Tests.Plain.{plain, plain-IsLawful}
use sc_helper.Tests.Setup.{calm, mac_build, signed}

signed-verified : (c : Command) → verify_hmac plain ipc_secret (signed c) ≡ true
signed-verified c = verify_hmac-compute_hmac plain plain-IsLawful ipc_secret (signed c) refl

new-IsSound : IsSound (IsResolved mac_build) new_daemon
unfolding outstanding AreJustified new_daemon
new-IsSound = record { tracked = refl; justified = tt }

shutdown_changes :
    (handle_request mac_build calm (signed shutdown) new_daemon).1
    ≢ log (read_clock (some 1_000_000_000)) new_daemon
unfolding dispatch new_daemon
shutdown_changes e =
    let accepted : handle_request mac_build calm (signed shutdown) new_daemon
        ≡ dispatch mac_build calm shutdown (log (read_clock (some 1_000_000_000)) new_daemon) =
      handle_request_accepted mac_build calm (signed shutdown) new_daemon 1_000_000_000 refl
        (omega arith) (omega arith) (omega arith) (signed-verified shutdown) in
    ground (arith, ap (λ d. d.shutdown_sent) e, accepted)

effect_needs_mac_example :
    (plain.hex_decode (signed shutdown).hmac
      ≡ some (plain.hmac_sha256 ipc_secret (signed_message plain 1_000_000_000 shutdown)))
    × (1_000_000_000 ≤ 1_000_000_000 + replay_window_nanos)
    × (1_000_000_000 ≤ 1_000_000_000 + replay_window_nanos)
effect_needs_mac_example =
    effect_needs_mac mac_build calm (signed shutdown) new_daemon 1_000_000_000 refl plain-IsLawful
      (omega arith) shutdown_changes

handle_request_accepted_example :
    handle_request mac_build calm (signed stop_mihomo) new_daemon
    ≡ dispatch mac_build calm stop_mihomo (log (read_clock (some 1_000_000_000)) new_daemon)
handle_request_accepted_example =
    handle_request_accepted mac_build calm (signed stop_mihomo) new_daemon 1_000_000_000 refl
      (omega arith) (omega arith) (omega arith) (signed-verified stop_mihomo)

abbrev pub start_it : Command
start_it = start_mihomo (codes "/etc/mihomo") (codes "config.yaml") (codes "/var/log/mihomo.log")

-- A daemon that holds child 7, and one with nothing but its trace.
abbrev holding : Daemon
holding = record {
  supervisor = record { child = some 7 };
  trigger = some sender;
  shutdown_sent = false;
  trace = [];
}

stop_releases_example : (stop calm linux holding).1.supervisor.child ≡ none
stop_releases_example = stop_releases calm linux holding

-- A system without directories.
abbrev bare : Env
bare = record calm { is_dir = λ t p. false }

abbrev odd_dir : Text
odd_dir = codes "/Users/a/" ++ (codes "already running" ++ codes "/mihomo")

start_mihomo_misreported_example :
    (dispatch mac_build bare
      (start_mihomo odd_dir (codes "config.yaml") (codes "/tmp/log"))
      new_daemon).0
    ≡ done (error already_running (codes "config_dir not a directory: " ++ odd_dir))
unfolding new_daemon
start_mihomo_misreported_example =
    start_mihomo_misreported mac_build bare (codes "/Users/a/") (codes "/mihomo")
      (codes "config.yaml") (codes "/tmp/log") new_daemon refl refl refl

-- A client that sends these bytes.
abbrev pub from_client : Bytes → Stream
from_client input = record { input = input; output = []; room = 4096; fault = codes "early eof" }

abbrev ping_body : Bytes
ping_body = plain.to_vec (request_value (signed ping))

abbrev ping_session : Session
ping_session = record { stream = from_client (frame ping_body ++ []); daemon = holding }

handle_connection_answers_example :
    (handle_connection mac_build calm ping_session).0 ≡ done tt
    × ((handle_connection mac_build calm ping_session).1.daemon
        ≡ log (read_clock (some 1_000_000_000)) holding)
    × ((handle_connection mac_build calm ping_session).1.stream.output
        ≡ frame (plain.to_vec (response_value pong)))
unfolding plain to_vec request_value command_value response_value compute_hmac signed_message
    canonical_command_bytes to_be_bytes dispatch frame
handle_connection_answers_example =
    handle_connection_answers mac_build calm (signed ping) [] ping_session
      (log (read_clock (some 1_000_000_000)) holding) pong plain-IsLawful (omega arith)
      (ground arith) refl
      (handle_request_accepted mac_build calm (signed ping) holding 1_000_000_000 refl (omega arith)
        (omega arith) (omega arith) (signed-verified ping))
      (ground arith) (ground arith)

abbrev noise : Bytes
noise = codes "hello"

abbrev noise_session : Session
noise_session = record { stream = from_client (frame noise ++ []); daemon = holding }

handle_connection_unparsed_example :
    ((handle_connection mac_build calm noise_session).0 ≡ failed (codes "parsing IPC request JSON"))
    × ((handle_connection mac_build calm noise_session).1.daemon ≡ holding)
    × ((handle_connection mac_build calm noise_session).1.stream.output ≡ [])
unfolding plain
handle_connection_unparsed_example =
    handle_connection_unparsed mac_build calm noise [] noise_session (omega arith) refl refl

handle_request-HasUsedCode_example :
    HasUsedCode (handle_request mac_build bare (signed start_it) new_daemon)
handle_request-HasUsedCode_example =
    handle_request-HasUsedCode mac_build bare (signed start_it) new_daemon
