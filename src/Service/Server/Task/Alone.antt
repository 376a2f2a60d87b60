-- ===== src/Service/Server/Task/Alone.antt =====
-- A task that runs alone does what `handle_connection` does.
use sc_helper.Prelude.{
  ◌≡◌, refl, ap, ◌∙◌, Bytes, codes, Bool, true, false, not, List, Text, Option, none, some,
}
use sc_helper.Prelude.Program.{Program, ◌>>=◌, Outcome, done, failed, panicked, stuck, after}
use sc_helper.Prelude.Async.{
  alone, alone-whatever, IsAlone, IsAlone-sync, IsAlone-pure, IsAlone-release, IsAlone-bind,
  IsAlone-catch, IsAlone-if,
}
use sc_helper.Ipc.{
  Command, ping, start_mihomo, stop_mihomo, set_dns, clear_dns, get_version, shutdown, Request,
  Response, dns_set, dns_cleared, shutting_down, pong, version, stopped, error, bad_hmac, replayed,
}
use sc_helper.Ipc.Wire.{response_value}
use sc_helper.Ipc.Frame.{Stream, read_frame, write_frame}
use sc_helper.Ipc.Hmac.{verify_hmac}
use sc_helper.Service.Os.{Target, macos, linux, windows, Env}
use sc_helper.Service.State.{Daemon}
use sc_helper.Service.Core.{start, stop}
use sc_helper.Service.Core.Turns.{stop-IsAlone}
use sc_helper.Service.Dns.Macos.Turns.{set_dns-IsAlone, clear_dns-IsAlone}
use sc_helper.Service.Server.Request.{
  Build, ipc_secret, start_response, unit_response, fire, set_dns_on, clear_dns_on, dispatch,
  timestamp_fresh, answer, handle_request,
}
use sc_helper.Service.Server.Connection.{Session, on_stream, on_daemon, parsed, handle_connection}
use sc_helper.Service.Server.Task.{
  shut, set_dns_task, clear_dns_task, start_task, stop_task, dispatch_task, answer_task,
  request_task, responded, parsed_task, received, connection_task,
}

module _ (build : Build) (env : Env) where
  set_dns_task-IsAlone :
      (target : Target) (servers : List Text)
      → IsAlone (set_dns_task build env target servers) (set_dns_on build env target servers)
  unfolding set_dns_task set_dns_on
  set_dns_task-IsAlone macos servers =
      IsAlone-bind (IsAlone-catch (set_dns-IsAlone env build.lib.debug servers))
        λ r. IsAlone-pure (unit_response dns_set r)
  set_dns_task-IsAlone linux servers = IsAlone-pure dns_set
  set_dns_task-IsAlone windows servers = IsAlone-pure dns_set

  clear_dns_task-IsAlone :
      (target : Target) → IsAlone (clear_dns_task build env target) (clear_dns_on build env target)
  unfolding clear_dns_task clear_dns_on
  clear_dns_task-IsAlone macos =
      IsAlone-bind (IsAlone-catch (clear_dns-IsAlone env build.lib.debug))
        λ r. IsAlone-pure (unit_response dns_cleared r)
  clear_dns_task-IsAlone linux = IsAlone-pure dns_cleared
  clear_dns_task-IsAlone windows = IsAlone-pure dns_cleared

  dispatch-IsAlone : (c : Command) → IsAlone (dispatch_task build env c) (dispatch build env c)
  unfolding dispatch_task dispatch start_task stop_task fire
  dispatch-IsAlone ping = IsAlone-pure pong
  dispatch-IsAlone get_version = IsAlone-pure (version build.helper_version build.helper_build_sha)
  dispatch-IsAlone (start_mihomo d f l) = record {
    apply = λ s.
        (IsAlone-bind (IsAlone-catch (IsAlone-sync (start env (build.mihomo_path s.trace) d f l)))
            λ r. IsAlone-release (start_response r)).apply
          s;
  }
  dispatch-IsAlone stop_mihomo = record {
    apply =
        (IsAlone-bind (IsAlone-catch {p = stop env build.target} (stop-IsAlone env build.target))
          λ r. IsAlone-release (unit_response stopped r)).apply;
  }
  dispatch-IsAlone (set_dns servers) = set_dns_task-IsAlone build.target servers
  dispatch-IsAlone clear_dns = clear_dns_task-IsAlone build.target
  dispatch-IsAlone shutdown = record {
    apply = (IsAlone-bind (IsAlone-sync shut) λ _. IsAlone-pure shutting_down).apply;
  }

  answer-IsAlone :
      (request : Request) (fresh : Bool)
      → IsAlone (answer_task build env request fresh) (answer build env request fresh)
  unfolding answer_task answer
  answer-IsAlone request false =
      IsAlone-pure (error replayed (codes "timestamp outside ±30s window"))
  answer-IsAlone request true =
      IsAlone-if (not (verify_hmac build.lib ipc_secret request))
        (IsAlone-pure (error bad_hmac (codes "HMAC mismatch — helper / GUI version skew?")))
        (dispatch-IsAlone request.command)

  request-IsAlone :
      (request : Request)
      → IsAlone (request_task build env request) (handle_request build env request)
  unfolding request_task handle_request
  request-IsAlone request =
      IsAlone-bind (IsAlone-sync (timestamp_fresh build env request.timestamp_nanos))
        λ fresh. answer-IsAlone request fresh

  -- What `handle_connection` comes to, as the value of a task.
  abbrev pub ended : Outcome (Unit {0}) × Session → Outcome (Outcome (Unit {0}) × Stream) × Daemon
  ended r = (done (r.0, r.1.stream), r.1.daemon)

  abbrev written : Response → Program Session (Unit {0})
  written response = on_stream (write_frame (build.lib.to_vec (response_value response)))

  responded-alone :
      (stream : Stream) (r : Outcome Response × Daemon)
      → alone (responded build env stream r.0) r.1
        ≡ ended (after (r.0, record { stream = stream; daemon = r.1 }) written)
  unfolding responded
  responded-alone stream (done a, d) = refl
  responded-alone stream (failed e, d) = refl
  responded-alone stream (panicked e, d) = refl
  responded-alone stream (stuck, d) = refl

  abbrev served : Request → Program Session (Unit {0})
  served request = on_daemon (handle_request build env request) >>= written

  parsed-alone :
      (stream : Stream) (d : Daemon) (parse : Option Request)
      → alone (parsed_task build env stream parse) d
        ≡ ended (after (parsed parse (record { stream = stream; daemon = d })) served)
  unfolding parsed_task parsed
  parsed-alone stream d none = refl
  parsed-alone stream d (some request) =
      alone-whatever (request_task build env request) (responded build env stream) d
      ∙ ap (λ r. alone (responded build env stream r.0) r.1) ((request-IsAlone request).apply d)
      ∙ responded-alone stream (handle_request build env request d)

  received-alone :
      (d : Daemon) (r : Outcome Bytes × Stream)
      → alone (received build env r.1 r.0) d
        ≡ ended (
            after
              (r.0, record { stream = r.1; daemon = d })
              (λ body. parsed (build.lib.request_from_slice body) >>= served))
  unfolding received
  received-alone d (done body, stream) = parsed-alone stream d (build.lib.request_from_slice body)
  received-alone d (failed e, stream) = refl
  received-alone d (panicked e, stream) = refl
  received-alone d (stuck, stream) = refl

  -- A connection's task that runs alone, from any state of the daemon, comes to the same end as
  -- `handle_connection` run at once: the same result, the same stream and the same daemon.
  pub connection_task-handle_connection :
      (stream : Stream) (d : Daemon)
      → alone (connection_task build env stream) d
        ≡ ended (handle_connection build env (record { stream = stream; daemon = d }))
  unfolding connection_task handle_connection
  connection_task-handle_connection stream d = received-alone d (read_frame stream)
