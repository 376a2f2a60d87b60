-- ===== src/Tests/Weaving.antt =====
-- Three clients at once, on a calm system: all have connected, the frames of two have come, and one
-- of the two tasks has taken its first turn.
use sc_helper.Prelude.{◌≡◌, ◌⊎◌, refl, Bool, false, [], ◌∷◌, arith}
use sc_helper.Prelude.Async.{over, turn, lock, unlock}
use sc_helper.Ipc.Hmac.{compute_hmac, signed_message, canonical_command_bytes}
use sc_helper.Ipc.Wire.{request_value, command_value}
use sc_helper.Ipc.Frame.{Stream, read_frame}
use sc_helper.Ipc.Frame.Laws.{frame}
use sc_helper.Paths.Macos.{socket_path as macos_socket}
use sc_helper.Std.Word.{to_be_bytes, from_be_bytes}
use sc_helper.Service.Os.{IsEarly, macos}
use sc_helper.Service.State.{Daemon}
use sc_helper.Service.Core.Tracking.{outstanding, AreJustified}
use sc_helper.Service.Server.Setup.{set_up, socket_path, socket_or, remove_stale}
use sc_helper.Service.Server.Request.Sound.{IsResolved}
use sc_helper.Service.Server.Accept.{new_daemon}
use sc_helper.Service.Server.Task.{Task, connection_task, received, parsed_task, request_task}
use sc_helper.Service.Server.World.{
  last_stop, World, new_world, accepting, IsUp, aborted, surviving, entering, leave, Turn, turned,
  here, Reach, launched, stepped, set_up_done, connected, arrived, task_turn, signalled,
}
use sc_helper.Service.Server.World.Orderly.{HasOneAtMost, Reach-HasOneAtMost}
use sc_helper.Service.Server.World.Departure.{WillExit, Reach-WillExit}
use sc_helper.Tests.Codec.{to_vec}
use sc_helper.Tests.Plain.{plain}
use sc_helper.Tests.Setup.{calm, calm-IsLawfulOs, mac_build, signed}
use sc_helper.Tests.Serving.{start_it, from_client}

-- Two of them want mihomo started.
abbrev start_stream : Stream
start_stream = from_client (frame (plain.to_vec (request_value (signed start_it))))

abbrev client : Task
client = connection_task mac_build calm start_stream

abbrev up : Daemon
up = (set_up calm macos new_daemon).1

abbrev two_clients : World
two_clients = record {
  phase = accepting macos_socket;
  daemon = up;
  locked = false;
  waiting = 1;
  tasks = client ∷ client ∷ [];
}

two_reached : Reach mac_build calm two_clients
unfolding new_world entering set_up socket_path socket_or remove_stale
two_reached =
    stepped
      (stepped
        (stepped
          (stepped
            (stepped (stepped launched (set_up_done refl (λ e. ground (arith, e))))
              (connected macos_socket refl))
            (connected macos_socket refl))
          (connected macos_socket refl))
        (arrived start_stream 2 tt refl))
      (arrived start_stream 1 tt refl)

-- A turn of a task that is not at its end and does not wait for the lock.
abbrev CanGo : Task → Type 0
CanGo (turn e k) = Unit
CanGo _ = ⊥

abbrev made : Task → Daemon → Daemon
made (turn e k) d = e d
made _ d = d

abbrev left : Task → Daemon → Task
left (turn e k) d = k d
left m d = m

Turn-made : (m : Task) (l : Bool) (d : Daemon) → CanGo m → Turn l d m l (made m d) (left m d)
Turn-made (over x) l d h = absurd h
Turn-made (turn e k) l d h = turned e k
Turn-made (lock m) l d h = absurd h
Turn-made (unlock m) l d h = absurd h

client_goes : CanGo client
unfolding connection_task received parsed_task request_task plain to_vec request_value command_value
    compute_hmac signed_message canonical_command_bytes to_be_bytes from_be_bytes frame read_frame
client_goes = tt

abbrev woven : World
woven = record two_clients {
  phase = surviving (left client up ∷ client ∷ []) (accepting macos_socket);
  daemon = made client up;
  tasks = left client up ∷ client ∷ [];
}

woven_reached : Reach mac_build calm woven
woven_reached =
    stepped two_reached (task_turn tt (here (client ∷ []) (Turn-made client false up client_goes)))

Reach-HasOneAtMost_example :
    HasOneAtMost woven.daemon
    × AreJustified (IsResolved mac_build) woven.daemon.trace
    × (IsUp woven.phase
        ⊎ (((woven.phase ≡ aborted) × IsEarly calm) ⊎ (outstanding woven.daemon.trace ≡ [])))
Reach-HasOneAtMost_example = Reach-HasOneAtMost mac_build calm calm-IsLawfulOs woven_reached

-- A signal has come, with two tasks under way and the frame of one client awaited.
Reach-WillExit_example : WillExit mac_build calm (leave mac_build calm macos_socket two_clients)
unfolding leave
Reach-WillExit_example =
    Reach-WillExit mac_build calm calm-IsLawfulOs (last_stop mac_build calm)
      (stepped two_reached (signalled macos_socket refl)) refl
