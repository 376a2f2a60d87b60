-- ===== src/Service/Server/Request/Codes.antt =====
-- Which error codes a response can carry.
use sc_helper.Prelude.{
  Bool, true, false, Option, none, some, List, [], Text, ℕ, codes, Bool-cases, Option-cases, inl,
  inr,
}
use sc_helper.Prelude.Program.{
  Result, ok, err, Outcome, done, failed, panicked, stuck, pure, after, caught,
}
use sc_helper.Std.Text.{contains}
use sc_helper.Ipc.{
  Command, ping, start_mihomo, stop_mihomo, set_dns, clear_dns, get_version, shutdown, Request,
  ErrorCode, bad_request, not_running, Response, error, stopped, dns_set, dns_cleared,
  shutting_down,
}
use sc_helper.Ipc.Fresh.{now_nanos}
use sc_helper.Ipc.Hmac.{verify_hmac}
use sc_helper.Service.Os.{Target, macos, linux, windows, read_clock, Env}
use sc_helper.Service.State.{Daemon, Sender, sender, log}
use sc_helper.Service.Core.{start, stop}
use sc_helper.Service.Dns.Macos
use sc_helper.Service.Server.Request.{
  Build, ipc_secret, start_response, unit_response, set_dns_on, clear_dns_on, fire, dispatch,
  timestamp_fresh, answer, handle_request,
}

-- A code other than `BadRequest` and `NotRunning`.
abbrev pub IsUsed : ErrorCode → Type 0
IsUsed bad_request = ⊥
IsUsed not_running = ⊥
IsUsed _ = Unit

-- If the run has a response that is an error, its code is such a one.
abbrev pub HasUsedCode : Outcome Response × Daemon → Type 0
HasUsedCode (done (error code message), s) = IsUsed code
HasUsedCode _ = Unit

caught-HasUsedCode :
    {A : Type 0} (r : Outcome A × Daemon) (g : Result A → Response)
    → ((x : Result A) (s : Daemon) → HasUsedCode (done (g x), s))
    → HasUsedCode (after (caught r) (λ x. pure (g x)))
caught-HasUsedCode (done a, s) g h = h (ok a) s
caught-HasUsedCode (failed e, s) g h = h (err e) s
caught-HasUsedCode (panicked e, s) g h = tt
caught-HasUsedCode (stuck, s) g h = tt

start_response-HasUsedCode : (x : Result ℕ) (s : Daemon) → HasUsedCode (done (start_response x), s)
unfolding start_response
start_response-HasUsedCode (ok pid) s = tt
start_response-HasUsedCode (err e) s = elim (Bool-cases (contains e (codes "already running"))) [
  | inl yes_it ↦ rw yes_it tt
  | inr no_it ↦ rw no_it tt
]

module _ (build : Build) (env : Env) where
  dns-HasUsedCode :
      (target : Target) (servers : List Text) (s : Daemon)
      → HasUsedCode (set_dns_on build env target servers s)
        × HasUsedCode (clear_dns_on build env target s)
  unfolding set_dns_on clear_dns_on
  dns-HasUsedCode macos servers s = (
    caught-HasUsedCode (Macos.set_dns env build.lib.debug servers s) (unit_response dns_set) unit,
    caught-HasUsedCode (Macos.clear_dns env build.lib.debug s) (unit_response dns_cleared)
        unit_cleared,
  )
    where
      unit : (x : Result (Unit {0})) (s : Daemon) → HasUsedCode (done (unit_response dns_set x), s)
      unit (ok _) s = tt
      unit (err e) s = tt

      unit_cleared :
          (x : Result (Unit {0})) (s : Daemon) → HasUsedCode (done (unit_response dns_cleared x), s)
      unit_cleared (ok _) s = tt
      unit_cleared (err e) s = tt
  dns-HasUsedCode linux servers s = (tt, tt)
  dns-HasUsedCode windows servers s = (tt, tt)

  stopped-HasUsedCode :
      (x : Result (Unit {0})) (s : Daemon) → HasUsedCode (done (unit_response stopped x), s)
  stopped-HasUsedCode (ok _) s = tt
  stopped-HasUsedCode (err e) s = tt

  fire-HasUsedCode :
      (t : Option Sender) (s : Daemon) → HasUsedCode (after (fire t s) (λ _. pure shutting_down))
  unfolding fire
  fire-HasUsedCode none s = tt
  fire-HasUsedCode (some sender) s = tt

  dispatch-HasUsedCode : (c : Command) (s : Daemon) → HasUsedCode (dispatch build env c s)
  unfolding dispatch
  dispatch-HasUsedCode ping s = tt
  dispatch-HasUsedCode get_version s = tt
  dispatch-HasUsedCode (start_mihomo d f l) s =
      caught-HasUsedCode (start env (build.mihomo_path s.trace) d f l s) start_response
        start_response-HasUsedCode
  dispatch-HasUsedCode stop_mihomo s =
      caught-HasUsedCode (stop env build.target s) (unit_response stopped) stopped-HasUsedCode
  dispatch-HasUsedCode (set_dns servers) s = (dns-HasUsedCode build.target servers s).0
  dispatch-HasUsedCode clear_dns s = (dns-HasUsedCode build.target [] s).1
  dispatch-HasUsedCode shutdown s = fire-HasUsedCode s.trigger s

  answer-HasUsedCode :
      (r : Request) (fresh : Bool) (s : Daemon) → HasUsedCode (answer build env r fresh s)
  unfolding answer
  answer-HasUsedCode r false s = tt
  answer-HasUsedCode r true s = elim (Bool-cases (verify_hmac build.lib ipc_secret r)) [
    | inl good ↦ rw good (dispatch-HasUsedCode r.command s)
    | inr bad ↦ rw bad tt
  ]

  -- No request is answered by an error of code `BadRequest` or `NotRunning`.
  pub handle_request-HasUsedCode :
      (r : Request) (s : Daemon) → HasUsedCode (handle_request build env r s)
  unfolding handle_request timestamp_fresh now_nanos
  handle_request-HasUsedCode r s = elim (Option-cases (env.clock s.trace)) [
    | inl e ↦ rw e tt
    | inr (n, e) ↦ rw e (answer-HasUsedCode r _ (log (read_clock (some n)) s))
  ]
