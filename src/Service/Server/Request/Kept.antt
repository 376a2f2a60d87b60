-- ===== src/Service/Server/Request/Kept.antt =====
-- Conditions on the daemon that every request and every connection keeps, when the supervisor does.
use sc_helper.Prelude.{
  ℕ, ◌≡◌, refl, Bool, true, false, not, codes, Option, none, some, List, Text, Option-cases, inl,
  inr,
}
use sc_helper.Prelude.Program.{Result, after, pure, IsSettled}
use sc_helper.Prelude.Keeps.{Keeps, Keeps-bind, Keeps-pure, Keeps-catch, Keeps-if}
use sc_helper.Ipc.{
  Command, ping, start_mihomo, stop_mihomo, set_dns, clear_dns, get_version, shutdown, Request,
  Response, shutting_down, error, bad_hmac,
}
use sc_helper.Ipc.Fresh.{now_nanos}
use sc_helper.Ipc.Hmac.{verify_hmac}
use sc_helper.Service.Os.{
  Target, macos, linux, windows, Trace, Output, read_clock, ran, Env, IsLawfulOs,
}
use sc_helper.Service.State.{Daemon, Sender, sender, log}
use sc_helper.Service.Core.{start, stop}
use sc_helper.Service.Core.Stopping.{stop_total}
use sc_helper.Service.Core.Total.{start_total}
use sc_helper.Service.Dns.Macos.Laws.{set_dns-Keeps, clear_dns-Keeps}
use sc_helper.Service.Server.Request.{
  Build, ipc_secret, start_response, set_dns_on, clear_dns_on, fire, dispatch, timestamp_fresh,
  answer, handle_request,
}

-- What the parts of a request must keep. A path is one that the resolver has given, and the trigger
-- is fired, or found empty.
pub record IsKept (build : Build) (env : Env) (I : Daemon → Type 0) : Type 0 where
  pub read_keeps : (r : Option ℕ) (s : Daemon) → I s → I (log (read_clock r) s)
  pub ran_keeps :
      (s : Daemon) (program : Text) (args : List Text) (r : Result Output)
      → I s
      → I (log (ran program args r) s)
  pub start_keeps :
      (t : Trace) (d f l : Text) (s : Daemon) → I s → I (start env (build.mihomo_path t) d f l s).1
  pub stop_keeps : (s : Daemon) → I s → I (stop env build.target s).1
  pub fired : (s : Daemon) → I s → I (record s { trigger = none; shutdown_sent = true })
  pub found_empty : (s : Daemon) → s.trigger ≡ none → I s → I (record s { trigger = none })

module _ (build : Build) (env : Env) (L : IsLawfulOs env) {I : Daemon → Type 0}
    (K : IsKept build env I) where
  start-Keeps : (t : Trace) (d f l : Text) → Keeps I (start env (build.mihomo_path t) d f l)
  start-Keeps t d f l = record {
    apply = λ s h. (start_total env (build.mihomo_path t) d f l s, K.start_keeps t d f l s h);
  }

  stop-Keeps : Keeps I (stop env build.target)
  stop-Keeps = record { apply = λ s h. (stop_total env L build.target s, K.stop_keeps s h) }

  set_dns_on-Keeps :
      (target : Target) (servers : List Text) → Keeps I (set_dns_on build env target servers)
  unfolding set_dns_on
  set_dns_on-Keeps macos servers =
      Keeps-bind (Keeps-catch (set_dns-Keeps env build.lib.debug I K.ran_keeps servers))
        λ r. Keeps-pure _
  set_dns_on-Keeps linux servers = Keeps-pure _
  set_dns_on-Keeps windows servers = Keeps-pure _

  clear_dns_on-Keeps : (target : Target) → Keeps I (clear_dns_on build env target)
  unfolding clear_dns_on
  clear_dns_on-Keeps macos =
      Keeps-bind (Keeps-catch (clear_dns-Keeps env build.lib.debug I K.ran_keeps)) λ r. Keeps-pure _
  clear_dns_on-Keeps linux = Keeps-pure _
  clear_dns_on-Keeps windows = Keeps-pure _

  fire_keeps :
      (t : Option Sender) (s : Daemon)
      → s.trigger ≡ t
      → I s
      → I (after (fire t s) (λ _. pure shutting_down)).1
  unfolding fire
  fire_keeps none s e h = K.found_empty s e h
  fire_keeps (some sender) s e h = K.fired s h

  fire_settles :
      (t : Option Sender) (s : Daemon) → IsSettled (after (fire t s) (λ _. pure shutting_down)).0
  unfolding fire
  fire_settles none s = tt
  fire_settles (some sender) s = tt

  dispatch-Keeps : (c : Command) → Keeps I (dispatch build env c)
  unfolding dispatch
  dispatch-Keeps ping = Keeps-pure _
  dispatch-Keeps get_version = Keeps-pure _
  dispatch-Keeps (start_mihomo d f l) = record {
    apply = λ s.
        (Keeps-bind (Keeps-catch (start-Keeps s.trace d f l))
            λ r. Keeps-pure (start_response r)).apply
          s;
  }
  dispatch-Keeps stop_mihomo = Keeps-bind (Keeps-catch stop-Keeps) λ r. Keeps-pure _
  dispatch-Keeps (set_dns servers) = set_dns_on-Keeps build.target servers
  dispatch-Keeps clear_dns = clear_dns_on-Keeps build.target
  dispatch-Keeps shutdown = record {
    apply = λ s h. (fire_settles s.trigger s, fire_keeps s.trigger s refl h);
  }

  abbrev mismatch : Response
  mismatch = error bad_hmac (codes "HMAC mismatch — helper / GUI version skew?")

  answer_keeps : (r : Request) (fresh : Bool) (s : Daemon) → I s → I (answer build env r fresh s).1
  unfolding answer
  answer_keeps r false s h = h
  answer_keeps r true s h =
      let keeps =
        Keeps-if (not (verify_hmac build.lib ipc_secret r)) (Keeps-pure mismatch)
          (dispatch-Keeps r.command) in
      (keeps.apply s h).1

  -- Every request, answered or refused, keeps the condition.
  pub handle_request_keeps : (r : Request) (s : Daemon) → I s → I (handle_request build env r s).1
  unfolding handle_request timestamp_fresh now_nanos
  handle_request_keeps r s h = elim (Option-cases (env.clock s.trace)) [
    | inl e ↦ rw e (K.read_keeps none s h)
    | inr (n, e) ↦ rw e (answer_keeps r _ (log (read_clock (some n)) s) (K.read_keeps (some n) s h))
  ]
