-- ===== src/Service/Server/Request/Refined.antt =====
-- `handle_request` keeps the contract.
use sc_helper.Prelude.{
  ◌%◌, ◌^◌, ℕ, ◌≡◌, refl, inl, inr, Bool, true, false, Option, none, some, List, ◌∷◌, Text,
  Bool-cases, arith,
}
use mathlib.Core.Path.{subst}
use sc_helper.Prelude.Program.{
  Outcome, done, failed, panicked, stuck, IsSettled, after, caught, pure,
}
use sc_helper.Ipc.{
  Command, ping, start_mihomo, stop_mihomo, set_dns, clear_dns, get_version, shutdown, Request,
  internal, Response, pong, version, stopped, dns_set, dns_cleared, shutting_down, error,
}
use sc_helper.Ipc.Fresh.{now_nanos, fresh_at}
use sc_helper.Ipc.Hmac.{verify_hmac}
use sc_helper.Service.Os.{Target, macos, linux, windows, read_clock, Env, IsLawfulOs}
use sc_helper.Service.State.{Daemon, Sender, sender, log}
use sc_helper.Service.Core.{start, stop}
use sc_helper.Service.Core.Stopping.{stop_total, stop_releases}
use sc_helper.Service.Core.Steady.{stop-IsSteady}
use sc_helper.Service.Dns.Macos.Laws.{set_dns-Keeps, clear_dns-Keeps}
use sc_helper.Service.Server.Request.{
  Build, ipc_secret, unit_response, set_dns_on, clear_dns_on, fire, dispatch, timestamp_fresh,
  answer, handle_request,
}
use sc_helper.Service.Server.Request.Wired.{IsWired}
use sc_helper.Service.Server.Request.Contract.{
  Machine, view, runs_yet, Serves, pinged, told, stops, stop_fails, sets, set_fails, clears,
  clear_fails, shuts, Answers, out_of_time, not_signed, served,
}
use sc_helper.Service.Server.Request.Begun.{IsServed, Begun, Begun-IsServed, start-Begun}

module _ (build : Build) (running : Bool) where
  view_eq : (a b : Machine) → a.child ≡ b.child → a.ending ≡ b.ending → a ≡ b
  view_eq a b p q = ground (arith, p, q)

  -- A call without a value that leaves the machine as it stands there.
  unit-IsServed :
      (a b : Machine) (c : Command) (response : Response) (r : Outcome (Unit {0}) × Daemon)
      → IsSettled r.0
      → view r.1 ≡ b
      → ((m : Machine) → m ≡ b → Serves build running a c response m)
      → ((e : Text) (m : Machine) → m ≡ b → Serves build running a c (error internal e) m)
      → IsServed build running a c (after (caught r) (λ x. pure (unit_response response x)))
  unit-IsServed a b c response (done u, s) settled h good bad = (response, (refl, good (view s) h))
  unit-IsServed a b c response (failed e, s) settled h good bad =
      (error internal e, (refl, bad e (view s) h))
  unit-IsServed a b c response (panicked e, s) settled h good bad = absurd settled
  unit-IsServed a b c response (stuck, s) settled h good bad = absurd settled

  fire-IsServed :
      (t : Option Sender) (s : Daemon)
      → s.trigger ≡ t
      → IsWired s
      → IsServed build running (view s) shutdown (after (fire t s) (λ _. pure shutting_down))
  unfolding fire
  fire-IsServed none s e (inl (held, _)) = absurd (ground (arith, e, held))
  fire-IsServed none s e (inr (_, sent)) =
      (shutting_down, (refl, shuts (view s) (view_eq (view s) _ refl sent)))
  fire-IsServed (some sender) s e h = (shutting_down, (refl, shuts _ refl))

  -- The request was answered, as the contract says.
  abbrev pub IsAnswered : ℕ → Machine → Request → Outcome Response × Daemon → Type 0
  IsAnswered now a r o =
      (response : Response) × ((o.0 ≡ done response)
        × Answers build running now a r response (view o.1))

  module _ (env : Env) (L : IsLawfulOs env) where
    set_dns_on-IsServed :
        (target : Target) (servers : List Text) (s : Daemon)
        → IsServed build running (view s) (set_dns servers) (set_dns_on build env target servers s)
    unfolding set_dns_on
    set_dns_on-IsServed macos servers s =
        let ends =
          (set_dns-Keeps env build.lib.debug (λ d. view d ≡ view s) (λ _ _ _ _ h. h) servers).apply
            s refl in
        unit-IsServed (view s) (view s) (set_dns servers) dns_set _ ends.0 ends.1 (sets servers)
          (set_fails servers)
    set_dns_on-IsServed linux servers s = (dns_set, (refl, sets servers (view s) refl))
    set_dns_on-IsServed windows servers s = (dns_set, (refl, sets servers (view s) refl))

    stop-IsServed :
        (s : Daemon)
        → IsServed build running
            (view s)
            stop_mihomo
            (after (caught (stop env build.target s)) (λ x. pure (unit_response stopped x)))
    stop-IsServed s =
        unit-IsServed (view s) (record (view s) { child = none }) stop_mihomo stopped
          (stop env build.target s) (stop_total env L build.target s)
          (view_eq _ _ (stop_releases env build.target s) (
            stop-IsSteady env {I = λ d. d.shutdown_sent ≡ s.shutdown_sent}
              (record { logs = λ e d other h. h; holds = λ c d h. h }) build.target s refl))
          stops stop_fails

    clear_dns_on-IsServed :
        (target : Target) (s : Daemon)
        → IsServed build running (view s) clear_dns (clear_dns_on build env target s)
    unfolding clear_dns_on
    clear_dns_on-IsServed macos s =
        let ends =
          (clear_dns-Keeps env build.lib.debug (λ d. view d ≡ view s) (λ _ _ _ _ h. h)).apply s
            refl in
        unit-IsServed (view s) (view s) clear_dns dns_cleared _ ends.0 ends.1 clears clear_fails
    clear_dns_on-IsServed linux s = (dns_cleared, (refl, clears (view s) refl))
    clear_dns_on-IsServed windows s = (dns_cleared, (refl, clears (view s) refl))

    dispatch-IsServed :
        (c : Command) (s : Daemon)
        → runs_yet env s.trace s.supervisor.child ≡ running
        → IsWired s
        → IsServed build running (view s) c (dispatch build env c s)
    unfolding dispatch
    dispatch-IsServed ping s q w = (pong, (refl, pinged))
    dispatch-IsServed get_version s q w =
        (version build.helper_version build.helper_build_sha, (refl, told))
    dispatch-IsServed (start_mihomo d f l) s q w =
        let r = start env (build.mihomo_path s.trace) d f l s in
        Begun-IsServed build running (view s) d f l r (
          subst (λ b. Begun build b (view s) r) q
            (start-Begun build env (build.mihomo_path s.trace) d f l s))
    dispatch-IsServed stop_mihomo s q w = stop-IsServed s
    dispatch-IsServed (set_dns servers) s q w = set_dns_on-IsServed build.target servers s
    dispatch-IsServed clear_dns s q w = clear_dns_on-IsServed build.target s
    dispatch-IsServed shutdown s q w = fire-IsServed s.trigger s refl w

    answer-IsAnswered :
        (r : Request) (now : ℕ) (fresh : Bool) (s : Daemon)
        → fresh_at now r.timestamp_nanos ≡ fresh
        → runs_yet env s.trace s.supervisor.child ≡ running
        → IsWired s
        → IsAnswered now (view s) r (answer build env r fresh s)
    unfolding answer
    answer-IsAnswered r now false s f q w = (_, (refl, out_of_time f))
    answer-IsAnswered r now true s f q w = elim (Bool-cases (verify_hmac build.lib ipc_secret r)) [
      | inl e ↦ rw e (
          let (response, (answered, how)) = dispatch-IsServed r.command s q w in
          (response, (answered, served f e how)))
      | inr e ↦ rw e (_, (refl, not_signed f e))
    ]

-- On a lawful system whose clock reads some number of nanoseconds since 1970, and from a daemon
-- whose trigger is empty exactly if a shutdown was sent, each request gets a response; and request,
-- response and the change of the daemon's child and shutdown message are one of those that the
-- contract lists for that reading and for what the system says then of the child: whether it still
-- runs.
pub handle_request-IsAnswered :
    (build : Build) (env : Env) (L : IsLawfulOs env) (r : Request) (s : Daemon) (n : ℕ)
    → env.clock s.trace ≡ some n
    → IsWired s
    → IsAnswered build
        (runs_yet env (read_clock (some n) ∷ s.trace) s.supervisor.child)
        (n % 2 ^ 64)
        (view s)
        r
        (handle_request build env r s)
unfolding handle_request timestamp_fresh now_nanos
handle_request-IsAnswered build env L r s n e w = rw e (
    answer-IsAnswered build (runs_yet env (read_clock (some n) ∷ s.trace) s.supervisor.child) env L
      r (n % 2 ^ 64) (fresh_at (n % 2 ^ 64) r.timestamp_nanos) (log (read_clock (some n)) s) refl
      refl w)
