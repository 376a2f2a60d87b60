-- ===== src/Service/Server/Connection/Ends.antt =====
-- A connection comes to an end: with a panic only if the clock may read a time before 1970.
use sc_helper.Prelude.{sym, inl, inr, none, some, Option, Bytes, Option-cases, arith}
use mathlib.Core.Path.{subst}
use sc_helper.Prelude.Program.{
  Program, ◌>>=◌, Outcome, done, failed, panicked, stuck, after, IsSettled, EndsIf,
  IsSettled-EndsIf,
}
use sc_helper.Ipc.{Request, Response}
use sc_helper.Ipc.Fresh.{now_nanos}
use sc_helper.Ipc.Wire.{response_value}
use sc_helper.Ipc.Frame.{Stream, read_frame, write_frame}
use sc_helper.Ipc.Frame.Ends.{read_frame-IsSettled, write_frame-IsSettled}
use sc_helper.Service.Os.{Env, IsLawfulOs, IsEarly}
use sc_helper.Service.State.{Daemon}
use sc_helper.Service.Server.Request.{Build, timestamp_fresh, handle_request}
use sc_helper.Service.Server.Request.Total.{handle_request_total}
use sc_helper.Service.Server.Connection.{Session, handle_connection, parsed, on_stream, on_daemon}

module _ (build : Build) (env : Env) (L : IsLawfulOs env) where
  abbrev Q : Type 0
  Q = IsEarly env

  handle_request-EndsIf : (r : Request) (s : Daemon) → EndsIf Q (handle_request build env r s).0
  unfolding handle_request timestamp_fresh now_nanos
  handle_request-EndsIf r s = elim (Option-cases (env.clock s.trace)) [
    | inl e ↦ rw e (s.trace, e)
    | inr (n, e) ↦
        let (response, q) = handle_request_total build env L r s (λ z. ground (arith, e, z)) in
        subst (EndsIf Q) (sym q) tt
  ]

  written : Response → Program Session (Unit {0})
  written response = on_stream (write_frame (build.lib.to_vec (response_value response)))

  written-EndsIf : (r : Outcome Response × Session) → EndsIf Q r.0 → EndsIf Q (after r written).0
  unfolding written
  written-EndsIf (done x, s) h = IsSettled-EndsIf Q _ (write_frame-IsSettled _ s.stream)
  written-EndsIf (failed x, s) h = tt
  written-EndsIf (panicked x, s) h = h
  written-EndsIf (stuck, s) h = absurd h

  answered : Request → Program Session (Unit {0})
  answered request = on_daemon (handle_request build env request) >>= written

  parsed-EndsIf : (r : Option Request) (s : Session) → EndsIf Q (after (parsed r s) answered).0
  unfolding parsed answered
  parsed-EndsIf none s = tt
  parsed-EndsIf (some r) s =
      written-EndsIf (on_daemon (handle_request build env r) s) (handle_request-EndsIf r s.daemon)

  read-EndsIf :
      (r : Outcome Bytes × Stream) (d : Daemon)
      → IsSettled r.0
      → EndsIf Q
          (after
            (r.0, record { stream = r.1; daemon = d })
            (λ body. parsed (build.lib.request_from_slice body) >>= answered)).0
  read-EndsIf (done body, t) d h = parsed-EndsIf (build.lib.request_from_slice body) _
  read-EndsIf (failed x, t) d h = tt
  read-EndsIf (panicked x, t) d h = absurd h
  read-EndsIf (stuck, t) d h = absurd h

  pub handle_connection-EndsIf : (s : Session) → EndsIf Q (handle_connection build env s).0
  unfolding handle_connection answered written
  handle_connection-EndsIf s =
      read-EndsIf (read_frame s.stream) s.daemon (read_frame-IsSettled s.stream)
