-- ===== src/Tests/Living.antt =====
-- The daemon from its start to its end, on a calm system: the socket is set up, a client starts
-- mihomo, or the daemon is asked to end.
use sc_helper.Prelude.{some, ◌∷◌, refl, arith}
use sc_helper.Ipc.{shutdown}
use sc_helper.Ipc.Wire.{request_value}
use sc_helper.Ipc.Frame.{Stream}
use sc_helper.Ipc.Frame.Laws.{frame}
use sc_helper.Paths.Macos.{socket_path as macos_socket}
use sc_helper.Service.Os.{macos, read_clock}
use sc_helper.Service.State.{Daemon}
use sc_helper.Service.Server.Setup.{set_up, socket_path, socket_or, remove_stale}
use sc_helper.Service.Server.Request.{dispatch, handle_request}
use sc_helper.Service.Server.Request.Contract.{view, runs_yet}
use sc_helper.Service.Server.Request.Refined.{IsAnswered, handle_request-IsAnswered}
use sc_helper.Service.Server.Connection.{handle_connection}
use sc_helper.Service.Server.Accept.{
  Server, returned, accepting, new_daemon, entered, daemon_of, Reach, launched, stepped,
  set_up_done, connected,
}
use sc_helper.Service.Server.Accept.Laws.{IsServerSound, Reach-IsSound}
use sc_helper.Service.Server.Accept.Listening.{IsServerListening, Reach-IsServerListening}
use sc_helper.Service.Server.Accept.Shutdown.{Reach-IsWired}
use sc_helper.Tests.Plain.{plain}
use sc_helper.Tests.Setup.{calm, calm-IsLawfulOs, mac_build, signed}
use sc_helper.Tests.Serving.{start_it, from_client}

abbrev up : Daemon
up = daemon_of (entered (set_up calm macos new_daemon))

up_reached : Reach mac_build calm (accepting macos_socket up)
unfolding entered set_up socket_path socket_or remove_stale
up_reached = stepped launched (set_up_done new_daemon (λ e. ground (arith, e)))

abbrev start_stream : Stream
start_stream = from_client (frame (plain.to_vec (request_value (signed start_it))))

-- What the client's connection comes to.
abbrev started_server : Server
started_server =
    returned macos_socket
      (handle_connection mac_build calm (record { stream = start_stream; daemon = up }))

started_reached : Reach mac_build calm started_server
started_reached = stepped up_reached (connected macos_socket start_stream up)

Reach-IsSound_example : IsServerSound mac_build calm started_server
Reach-IsSound_example = Reach-IsSound mac_build calm calm-IsLawfulOs started_reached

Reach-IsServerListening_example : IsServerListening started_server
Reach-IsServerListening_example =
    Reach-IsServerListening mac_build calm calm-IsLawfulOs started_reached

-- A client connects after the shutdown.
abbrev down : Daemon
down = (dispatch mac_build calm shutdown up).1

handle_request-IsAnswered_example :
    IsAnswered mac_build
      (runs_yet calm (read_clock (some 1_000_000_000) ∷ up.trace) up.supervisor.child)
      1_000_000_000
      (view up)
      (signed start_it)
      (handle_request mac_build calm (signed start_it) up)
handle_request-IsAnswered_example =
    handle_request-IsAnswered mac_build calm calm-IsLawfulOs (signed start_it) up 1_000_000_000 refl
      (Reach-IsWired mac_build calm calm-IsLawfulOs up_reached)
