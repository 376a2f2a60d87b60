-- ===== src/Tests/Systems.antt =====
-- The theorems on the system's tools, the waiting, and the client, on concrete runs.
use mathlib.Core.List.{Memᴰ}
use sc_helper.Prelude.{
  ℕ, ◌≡◌, ◌↔◌, refl, true, false, none, some, [], ◌∷◌, List, All, Text, codes, arith,
}
use sc_helper.Prelude.Program.{done, ok}
use sc_helper.Std.Text
use sc_helper.Std.Word.{to_be_bytes, from_be_bytes}
use sc_helper.Ipc.{ping, pong}
use sc_helper.Ipc.Wire.{command_value, request_value, response_value}
use sc_helper.Ipc.Hmac.{canonical_command_bytes, compute_hmac, signed_message, verify_hmac}
use sc_helper.Ipc.Fresh.{now_nanos, fresh_at}
use sc_helper.Ipc.Frame.{Stream, read_frame, write_frame}
use sc_helper.Ipc.Frame.Laws.{frame}
use sc_helper.Service.Os.{macos, Output, read_clock, asked_id, spawned, Env}
use sc_helper.Service.State.{Daemon, sender, log}
use sc_helper.Std.Path.{is_absolute}
use sc_helper.Service.Core.{
  stop, start, start_unless, start_idle, launch, after_spawn, is_running, mihomo_args,
}
use sc_helper.Service.Core.Started.{IsStarted, start_done, start_absolute}
use sc_helper.Service.Core.Tracking.{checks}
use sc_helper.Service.Core.Patience.{IsPatient, stop-IsPatient}
use sc_helper.Service.Dns.Linux
use sc_helper.Service.Dns.Linux.Applied.{IsSetOn, IsCleared, set_dns-IsSetOn, clear_dns-IsCleared}
use sc_helper.Service.Dns.Macos
use sc_helper.Service.Dns.Macos.Listing.{IsService, services_from_iff}
use sc_helper.Service.Dns.Macos.{services_from, networksetup, set_args, clear_args}
use sc_helper.Service.Dns.Macos.Applied.{HasRun, set_dns_ok, clear_dns_ok}
use sc_helper.Service.Server.Request.{dispatch, answer, timestamp_fresh, handle_request}
use sc_helper.Service.Server.Connection.{Session, handle_connection}
use sc_helper.Bin.Ping.{signed_request, send}
use sc_helper.Bin.Ping.Laws.{send-handle_connection}
use sc_helper.Tests.Codec.{to_vec}
use sc_helper.Tests.Plain.{plain, plain-IsLawful}
use sc_helper.Tests.Setup.{calm, calm-IsLawfulOs, mac_build}

abbrev holding : Daemon
holding = record {
  supervisor = record { child = some 7 };
  trigger = some sender;
  shutdown_sent = false;
  trace = [];
}

stop-IsPatient_example : IsPatient (stop calm macos holding).1.trace
unfolding IsPatient
stop-IsPatient_example =
    stop-IsPatient calm calm-IsLawfulOs macos holding (λ e. ground (arith, e)) tt

abbrev servers : List Text
servers = codes "1.1.1.1" ∷ codes "8.8.8.8" ∷ []

abbrev list_args : List Text
list_args = codes "-listallnetworkservices" ∷ []

set_dns_ok_example :
    (out : Output) × (calm.run [] networksetup list_args ≡ ok out)
    × (out.success ≡ true)
    × All
        (λ svc.
          HasRun networksetup
            (set_args servers svc)
            (Macos.set_dns calm plain.debug servers holding).1.trace)
        (services_from 0 (Text.lines out.stdout))
unfolding Macos.set_dns Macos.list_services Macos.each_service Macos.service_errors services_from
    Macos.flush_cache Macos.report Text.lines Text.trim
set_dns_ok_example = set_dns_ok calm plain.debug servers holding refl

clear_dns_ok_example :
    (out : Output) × (calm.run [] networksetup list_args ≡ ok out)
    × (out.success ≡ true)
    × All
        (λ svc.
          HasRun networksetup (clear_args svc) (Macos.clear_dns calm plain.debug holding).1.trace)
        (services_from 0 (Text.lines out.stdout))
unfolding Macos.clear_dns Macos.list_services Macos.each_service Macos.service_errors services_from
    Macos.flush_cache Macos.report Text.lines Text.trim
clear_dns_ok_example = clear_dns_ok calm plain.debug holding refl

abbrev second : ℕ
second = 1_000_000_000

abbrev client : Stream
client = record {
  input = frame (plain.to_vec (response_value pong));
  output = [];
  room = 4096;
  fault = codes "early eof";
}

abbrev session : Session
session = record {
  stream = record {
    input = frame (plain.to_vec (request_value (signed_request plain second ping)));
    output = [];
    room = 4096;
    fault = codes "early eof";
  };
  daemon = holding;
}

send-handle_connection_example :
    ((send plain (some second) true (codes "/tmp/s") ping client).0 ≡ done pong)
    × ((handle_connection mac_build calm session).1.daemon ≡ log (read_clock (some second)) holding)
unfolding plain to_vec request_value command_value response_value compute_hmac signed_message
    canonical_command_bytes to_be_bytes dispatch frame signed_request write_frame read_frame
    from_be_bytes handle_connection handle_request answer timestamp_fresh now_nanos fresh_at
    verify_hmac
send-handle_connection_example =
    send-handle_connection mac_build calm (codes "/tmp/s") ping pong client session
      (log (read_clock (some second)) holding) second second plain-IsLawful (omega arith)
      (omega arith) (omega arith) (omega arith) refl refl (ground arith) (ground arith)
      (ground arith) (ground arith) tt refl refl refl refl

abbrev fresh : Daemon
fresh = record {
  supervisor = record { child = none };
  trigger = some sender;
  shutdown_sent = false;
  trace = [];
}

abbrev dir : Text
dir = codes "/etc/mihomo"

abbrev file : Text
file = codes "config.yaml"

abbrev log_path : Text
log_path = codes "/var/log/mihomo.log"

abbrev binary : Text
binary = codes "/opt/mihomo"

-- Five checks come before the spawn, and `calm` names a child by what came before it.
start_done_example :
    ((is_running calm fresh).0 ≡ done false)
    × IsStarted calm binary dir file log_path
        (is_running calm fresh).1
        (start calm binary dir file log_path fresh).1
        1005
unfolding start start_unless start_idle launch after_spawn is_running
start_done_example = start_done calm binary dir file log_path fresh 1005 refl

abbrev elsewhere : Text
elsewhere = codes "/tmp/other.yaml"

start_absolute_example :
    (c : ℕ) × ((start calm binary dir elsewhere log_path fresh).1.trace
      ≡ asked_id c (some 1005)
        ∷ spawned binary (mihomo_args dir elsewhere) log_path (ok c)
        ∷ checks binary dir elsewhere log_path (is_running calm fresh).1.trace)
unfolding start start_unless start_idle launch after_spawn is_running is_absolute
start_absolute_example = start_absolute calm binary dir elsewhere log_path fresh 1005 refl refl

services_from_iff_example :
    Memᴰ
      (codes "Wi-Fi")
      (services_from 0 (codes "An asterisk" ∷ codes " Wi-Fi " ∷ codes "*Old" ∷ []))
    ↔ ((line : Text) × Memᴰ line (codes " Wi-Fi " ∷ codes "*Old" ∷ [])
        × IsService (codes "Wi-Fi") line)
services_from_iff_example =
    services_from_iff (codes "An asterisk") (codes " Wi-Fi " ∷ codes "*Old" ∷ []) (codes "Wi-Fi")

-- A system with a route.
abbrev routed_env : Env
routed_env = record calm {
  run = λ t p args. ok (record {
    status = codes "exit status: 0";
    success = true;
    stdout = codes "1.1.1.1 via 10.0.0.1 dev eth0 src 10.0.0.2";
    stderr = [];
  });
}

set_dns-IsSet_example : IsSetOn servers [] (Linux.set_dns routed_env servers holding).1.trace
unfolding Linux.set_dns Linux.default_iface Linux.iface_in Linux.flush_cache Text.split_whitespace
set_dns-IsSet_example = set_dns-IsSetOn routed_env servers holding refl

clear_dns-IsCleared_example : IsCleared [] (Linux.clear_dns routed_env holding).1.trace
unfolding Linux.clear_dns Linux.default_iface Linux.iface_in Linux.flush_cache Text.split_whitespace
clear_dns-IsCleared_example = clear_dns-IsCleared routed_env holding refl
