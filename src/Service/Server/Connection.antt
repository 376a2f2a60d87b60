-- ===== src/Service/Server/Connection.antt =====
-- src/service/server.rs: `handle_connection`, one request and one response on a connection.
pub mod Laws
pub mod Kept
pub mod Ends
use sc_helper.Prelude.{Option, none, some, codes}
use sc_helper.Prelude.Program.{Program, pure, fail, Outcome, ◌>>=◌}
use sc_helper.Ipc.{Request}
use sc_helper.Ipc.Wire.{response_value}
use sc_helper.Ipc.Frame.{Stream, read_frame, write_frame}
use sc_helper.Service.Os.{Env}
use sc_helper.Service.State.{Daemon}
use sc_helper.Service.Server.Request.{Build, handle_request}

-- The connection's task: its stream, and the state it shares.
pub record Session : Type 0 where
  pub stream : Stream
  pub daemon : Daemon

abbrev pub on_stream : {A : Type 0} → Program Stream A → Program Session A
on_stream m s = let (r, t) = m s.stream in (r, record s { stream = t })

abbrev pub on_daemon : {A : Type 0} → Program Daemon A → Program Session A
on_daemon m s = let (r, d) = m s.daemon in (r, record s { daemon = d })

-- `serde_json::from_slice(&body).context(..)?`
unfoldable pub parsed : Option Request → Program Session Request
parsed none = fail (codes "parsing IPC request JSON")
parsed (some request) = pure request

module _ (build : Build) (env : Env) where
  unfoldable pub handle_connection : Program Session (Unit {0})
  unfolding parsed
  handle_connection = do
    body ← on_stream read_frame
    request ← parsed (build.lib.request_from_slice body)
    response ← on_daemon (handle_request build env request)
    on_stream (write_frame (build.lib.to_vec (response_value response)))
