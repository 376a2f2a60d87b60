-- ===== src/Bin/Ping/Laws.antt =====
-- What the client gets from the daemon.
use sc_helper.Prelude.{
  ℕ, ◌+◌, ◌-◌, ◌%◌, ◌^◌, ◌≤◌, ◌<◌, ◌≡◌, ◌↔◌, ◌⊎◌, refl, sym, ap, ◌∙◌, true, some, [], ◌++◌,
  append-nil, length, Text, arith,
}
use sc_helper.Prelude.Program.{done}
use sc_helper.Ipc.{Command, Response, pong, version, replay_window_nanos, max_frame_bytes}
use sc_helper.Ipc.Wire.{request_value, response_value}
use sc_helper.Ipc.Libraries.{IsLawful, IsInRange}
use sc_helper.Ipc.Fresh.{now_nanos}
use sc_helper.Ipc.Hmac.Laws.{verify_hmac-compute_hmac}
use sc_helper.Ipc.Frame.{Stream, read_frame, write_frame}
use sc_helper.Ipc.Frame.Laws.{frame, read_frame_ok, write_frame_lem}
use sc_helper.Service.Os.{Env, read_clock}
use sc_helper.Service.State.{Daemon, log}
use sc_helper.Service.Server.Request.{Build, ipc_secret, dispatch, handle_request}
use sc_helper.Service.Server.Request.Gate.{handle_request_accepted}
use sc_helper.Service.Server.Connection.{Session, handle_connection}
use sc_helper.Service.Server.Connection.Laws.{handle_connection_answers}
use sc_helper.Bin.Ping.{report, signed_request, send}

-- The client exits with 0 exactly on `Pong` and on a `Version`.
pub report_zero_iff :
    (r : Response)
    → ((report r).code ≡ 0) ↔ ((r ≡ pong) ⊎ ((v : Text) × (sha : Text) × (r ≡ version v sha)))
unfolding report
report_zero_iff r = ground arith

module _ (build : Build) (env : Env) (path : Text) where
  -- With lawful libraries, on a fresh connection: a client and a daemon whose clocks both read less
  -- than 2 ^ 64 ns since 1970 and are at most 30 s apart, and the bytes that each writes being the
  -- input of the other. If request and response are within the cap, each side has room, and the pid
  -- of a `Started` is below 2 ^ 32, `send` returns what the daemon's command answers.
  pub send-handle_connection :
      (command : Command) (response : Response) (c : Stream) (s : Session) (d : Daemon) (n m : ℕ)
      → IsLawful build.lib
      → n < 2 ^ 64
      → m < 2 ^ 64
      → m ≤ n + replay_window_nanos
      → n ≤ m + replay_window_nanos
      → env.clock s.daemon.trace ≡ some m
      → dispatch build env command (log (read_clock (some m)) s.daemon) ≡ (done response, d)
      → length (build.lib.to_vec (request_value (signed_request build.lib n command)))
        ≤ max_frame_bytes
      → 4 + length (build.lib.to_vec (request_value (signed_request build.lib n command))) ≤ c.room
      → length (build.lib.to_vec (response_value response)) ≤ max_frame_bytes
      → 4 + length (build.lib.to_vec (response_value response)) ≤ s.stream.room
      → IsInRange response
      → c.output ≡ []
      → s.stream.output ≡ []
      → s.stream.input
        ≡ (write_frame
            (build.lib.to_vec (request_value (signed_request build.lib n command)))
            c).1.output
      → c.input ≡ (handle_connection build env s).1.stream.output
      → ((send build.lib (some n) true path command c).0 ≡ done response)
        × ((handle_connection build env s).1.daemon ≡ d)
  unfolding send signed_request now_nanos
  send-handle_connection command response c s d n m L hn hm early late at answer short room rshort
        rroom ranged ce se sent replied =
      let r = signed_request build.lib n command in
      let body = build.lib.to_vec (request_value r) in
      let reply = build.lib.to_vec (response_value response) in
      let small : n % 2 ^ 64 ≡ n = omega arith in
      let written : (write_frame body c).1.output ≡ frame body =
        ground (arith, write_frame_lem body c) in
      let accepted : handle_request build env r s.daemon ≡ (done response, d) =
        handle_request_accepted build env r s.daemon m at hm early late
          (verify_hmac-compute_hmac build.lib L ipc_secret r refl)
        ∙ answer in
      let answers =
        handle_connection_answers build env r [] s d response L hn short
          (sent ∙ written ∙ sym (append-nil (frame body))) accepted rshort rroom in
      let replying : c.input ≡ frame reply ++ [] =
        replied ∙ answers.2 ∙ ap (λ o. o ++ frame reply) se ∙ sym (append-nil (frame reply)) in
      let sent_state : Stream = record c {
        output = frame body;
        room = c.room - (4 + length body);
      } in
      let wrote : write_frame body c ≡ (done tt, sent_state) =
        ground (arith, write_frame_lem body c) in
      let read : read_frame sent_state ≡ (done reply, record sent_state { input = [] }) =
        read_frame_ok reply [] sent_state rshort replying in
      (rw (small, wrote) (rw read (rw (L.response-to_vec response ranged) refl)), answers.1)
