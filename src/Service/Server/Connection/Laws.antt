-- ===== src/Service/Server/Connection/Laws.antt =====
-- What a client gets back.
use sc_helper.Prelude.{◌+◌, ◌^◌, ◌≤◌, ◌<◌, ◌≡◌, refl, none, ◌++◌, length, Bytes, codes, arith}
use sc_helper.Prelude.Program.{done, failed}
use sc_helper.Ipc.{Request, Response, max_frame_bytes}
use sc_helper.Ipc.Wire.{request_value, response_value}
use sc_helper.Ipc.Libraries.{IsLawful}
use sc_helper.Ipc.Frame.Laws.{frame, read_frame_ok, write_frame_lem}
use sc_helper.Service.Os.{Env}
use sc_helper.Service.State.{Daemon}
use sc_helper.Service.Server.Request.{Build, handle_request}
use sc_helper.Service.Server.Connection.{Session, handle_connection}

module _ (build : Build) (env : Env) where
  -- With lawful libraries, a request sent as a frame within the cap is answered by one frame with
  -- the response of `handle_request`, and the daemon is left as that call leaves it, if the
  -- response is within the cap and the peer takes it.
  pub handle_connection_answers :
      (r : Request) (rest : Bytes) (s : Session) (d : Daemon) (response : Response)
      → IsLawful build.lib
      → r.timestamp_nanos < 2 ^ 64
      → length (build.lib.to_vec (request_value r)) ≤ max_frame_bytes
      → s.stream.input ≡ frame (build.lib.to_vec (request_value r)) ++ rest
      → handle_request build env r s.daemon ≡ (done response, d)
      → length (build.lib.to_vec (response_value response)) ≤ max_frame_bytes
      → 4 + length (build.lib.to_vec (response_value response)) ≤ s.stream.room
      → (handle_connection build env s).0 ≡ done tt
        × ((handle_connection build env s).1.daemon ≡ d)
        × ((handle_connection build env s).1.stream.output
            ≡ s.stream.output ++ frame (build.lib.to_vec (response_value response)))
  unfolding handle_connection
  handle_connection_answers r rest s d response L small short i e fits room =
      let body = build.lib.to_vec (request_value r) in
      rw (read_frame_ok body rest s.stream short i) (
        rw (L.request-to_vec r small) (
          ground (
            arith,
            e,
            write_frame_lem (build.lib.to_vec (response_value response))
                (record s.stream { input = rest }),
          )))

  -- A frame within the cap that does not parse as a request is never answered: the connection ends
  -- with nothing written, and nothing of the daemon has changed.
  pub handle_connection_unparsed :
      (body rest : Bytes) (s : Session)
      → length body ≤ max_frame_bytes
      → s.stream.input ≡ frame body ++ rest
      → build.lib.request_from_slice body ≡ none
      → ((handle_connection build env s).0 ≡ failed (codes "parsing IPC request JSON"))
        × ((handle_connection build env s).1.daemon ≡ s.daemon)
        × ((handle_connection build env s).1.stream.output ≡ s.stream.output)
  unfolding handle_connection
  handle_connection_unparsed body rest s short i e =
      rw (read_frame_ok body rest s.stream short i) (rw e (refl, refl, refl))
