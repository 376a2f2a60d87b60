-- ===== src/Service/Server/Request/Total.antt =====
-- Every request is answered.
use sc_helper.Prelude.{
  ◌≡◌, ◌≢◌, refl, Bool, true, false, Option, none, some, List, Text, Bool-cases, Option-cases, inl,
  inr,
}
use sc_helper.Prelude.Program.{Outcome, done, pure, after}
use sc_helper.Prelude.Keeps.{caught-done}
use sc_helper.Ipc.{
  Command, ping, start_mihomo, stop_mihomo, set_dns, clear_dns, get_version, shutdown, Request,
  Response, dns_set, dns_cleared, shutting_down, pong, version, stopped,
}
use sc_helper.Ipc.Fresh.{now_nanos}
use sc_helper.Ipc.Hmac.{verify_hmac}
use sc_helper.Service.Os.{Target, macos, linux, windows, read_clock, Env, IsLawfulOs}
use sc_helper.Service.State.{Daemon, Sender, sender, log}
use sc_helper.Service.Core.Stopping.{stop_total}
use sc_helper.Service.Core.Total.{start_total}
use sc_helper.Service.Dns.Macos.Laws.{set_dns-Keeps, clear_dns-Keeps}
use sc_helper.Service.Server.Request.{
  Build, ipc_secret, start_response, unit_response, set_dns_on, clear_dns_on, fire, dispatch,
  timestamp_fresh, answer, handle_request,
}

abbrev IsAnswered : Outcome Response × Daemon → Type 0
IsAnswered r = (response : Response) × (r.0 ≡ done response)

module _ (build : Build) (env : Env) (L : IsLawfulOs env) where
  set_dns_on-IsAnswered :
      (target : Target) (servers : List Text) (s : Daemon)
      → IsAnswered (set_dns_on build env target servers s)
  unfolding set_dns_on
  set_dns_on-IsAnswered macos servers s =
      caught-done _ (unit_response dns_set)
        ((set_dns-Keeps env build.lib.debug (λ _. Unit {0}) (λ _ _ _ _ _. tt) servers).apply s tt).0
  set_dns_on-IsAnswered linux servers s = (dns_set, refl)
  set_dns_on-IsAnswered windows servers s = (dns_set, refl)

  clear_dns_on-IsAnswered :
      (target : Target) (s : Daemon) → IsAnswered (clear_dns_on build env target s)
  unfolding clear_dns_on
  clear_dns_on-IsAnswered macos s =
      caught-done _ (unit_response dns_cleared)
        ((clear_dns-Keeps env build.lib.debug (λ _. Unit {0}) (λ _ _ _ _ _. tt)).apply s tt).0
  clear_dns_on-IsAnswered linux s = (dns_cleared, refl)
  clear_dns_on-IsAnswered windows s = (dns_cleared, refl)

  fire-IsAnswered :
      (t : Option Sender) (s : Daemon) → IsAnswered (after (fire t s) (λ _. pure shutting_down))
  unfolding fire
  fire-IsAnswered none s = (shutting_down, refl)
  fire-IsAnswered (some sender) s = (shutting_down, refl)

  dispatch-IsAnswered : (c : Command) (s : Daemon) → IsAnswered (dispatch build env c s)
  unfolding dispatch
  dispatch-IsAnswered ping s = (pong, refl)
  dispatch-IsAnswered get_version s = (version build.helper_version build.helper_build_sha, refl)
  dispatch-IsAnswered (start_mihomo d f l) s =
      caught-done _ start_response (start_total env (build.mihomo_path s.trace) d f l s)
  dispatch-IsAnswered stop_mihomo s =
      caught-done _ (unit_response stopped) (stop_total env L build.target s)
  dispatch-IsAnswered (set_dns servers) s = set_dns_on-IsAnswered build.target servers s
  dispatch-IsAnswered clear_dns s = clear_dns_on-IsAnswered build.target s
  dispatch-IsAnswered shutdown s = fire-IsAnswered s.trigger s

  answer-IsAnswered :
      (r : Request) (fresh : Bool) (s : Daemon) → IsAnswered (answer build env r fresh s)
  unfolding answer
  answer-IsAnswered r false s = (_, refl)
  answer-IsAnswered r true s = elim (Bool-cases (verify_hmac build.lib ipc_secret r)) [
    | inl e ↦ rw e (dispatch-IsAnswered r.command s)
    | inr e ↦ rw e (_, refl)
  ]

  pub handle_request_total :
      (r : Request) (s : Daemon)
      → env.clock s.trace ≢ none
      → (response : Response) × ((handle_request build env r s).0 ≡ done response)
  unfolding handle_request timestamp_fresh now_nanos
  handle_request_total r s h = elim (Option-cases (env.clock s.trace)) [
    | inl e ↦ absurd (h e)
    | inr (n, e) ↦ rw e (answer-IsAnswered r _ (log (read_clock (some n)) s))
  ]
