-- ===== src/Service/Server/Connection/Kept.antt =====
-- A connection keeps what its request keeps: the reads and the writes do not touch the daemon.
use sc_helper.Prelude.{none, some, Option, Bytes}
use sc_helper.Prelude.Program.{Outcome, done, failed, panicked, stuck, after, Program, ◌>>=◌}
use sc_helper.Ipc.{Request, Response}
use sc_helper.Ipc.Wire.{response_value}
use sc_helper.Ipc.Frame.{Stream, read_frame, write_frame}
use sc_helper.Service.Os.{Env, IsLawfulOs}
use sc_helper.Service.State.{Daemon}
use sc_helper.Service.Server.Request.{Build, handle_request}
use sc_helper.Service.Server.Request.Kept.{IsKept, handle_request_keeps}
use sc_helper.Service.Server.Connection.{Session, handle_connection, parsed, on_stream, on_daemon}

module _ (build : Build) (env : Env) (L : IsLawfulOs env) {I : Daemon → Type 0}
    (K : IsKept build env I) where
  answered_keeps :
      (r : Outcome Response × Session) (f : Response → Program Stream (Unit {0}))
      → I r.1.daemon
      → I (after r (λ x. on_stream (f x))).1.daemon
  answered_keeps (done x, s) f h = h
  answered_keeps (failed x, s) f h = h
  answered_keeps (panicked x, s) f h = h
  answered_keeps (stuck, s) f h = h

  parsed_keeps :
      (r : Option Request) (s : Session)
      → I s.daemon
      → I
          (after (parsed r s) λ request.
            on_daemon (handle_request build env request) >>= λ response.
            on_stream (write_frame (build.lib.to_vec (response_value response)))).1.daemon
  unfolding parsed
  parsed_keeps none s h = h
  parsed_keeps (some r) s h =
      answered_keeps (on_daemon (handle_request build env r) s) _
        (handle_request_keeps build env L K r s.daemon h)

  read_keeps :
      (r : Outcome Bytes × Stream) (d : Daemon)
      → I d
      → I
          (after
            (r.0, record { stream = r.1; daemon = d })
            λ body. parsed (build.lib.request_from_slice body) >>= λ request.
              on_daemon (handle_request build env request) >>= λ response.
              on_stream (write_frame (build.lib.to_vec (response_value response)))).1.daemon
  read_keeps (done body, t) d h = parsed_keeps (build.lib.request_from_slice body) _ h
  read_keeps (failed x, t) d h = h
  read_keeps (panicked x, t) d h = h
  read_keeps (stuck, t) d h = h

  pub handle_connection_keeps :
      (s : Session) → I s.daemon → I (handle_connection build env s).1.daemon
  unfolding handle_connection
  handle_connection_keeps s h = read_keeps (read_frame s.stream) s.daemon h
