-- ===== src/Service/Dns/Macos/Applied.antt =====
-- What a success of `set_dns` and `clear_dns` means.
use sc_helper.Prelude.{
  ◌≡◌, ◌≢◌, refl, sym, ap, ◌∙◌, true, Bool-cases, inl, inr, List, [], ◌∷◌, ◌++◌, Text, codes, All,
  All-map, arith,
}
use sc_helper.Prelude.Program.{
  Program, Result, ok, err, Outcome, done, failed, panicked, stuck, after, ◌>>◌, ◌>>=◌,
}
use sc_helper.Prelude.Keeps.{Keeps, Keeps-bind}
use sc_helper.Std.Text
use sc_helper.Service.Os.{Output, Event, ran, Trace, Env}
use sc_helper.Service.State.{Daemon, log}
use sc_helper.Service.Dns.Macos.{
  services_from, networksetup, set_args, clear_args, service_errors, listed, list_services,
  each_service, flush_cache, report, set_dns, clear_dns,
}
use sc_helper.Service.Dns.Macos.Laws.{each_service-Keeps, flush_cache-Keeps, report-Keeps}

-- A run of the program on the arguments stands in the trace, and it succeeded.
pub data HasRun (program : Text) (args : List Text) : Trace → Type 0 where
  now_run :
      (out : Output) (t : Trace)
      → out.success ≡ true
      → HasRun program args (ran program args (ok out) ∷ t)
  run_before : (e : Event) {t : Trace} → HasRun program args t → HasRun program args (e ∷ t)

module _ (env : Env) (debug : Text → Text) where
  service_errors-nil :
      (label svc : Text) (r : Result Output) (program : Text) (args : List Text) (t : Trace)
      → service_errors env debug label svc r ≡ []
      → HasRun program args (ran program args r ∷ t)
  unfolding service_errors
  service_errors-nil label svc (err x) program args t e = absurd (ground (arith, e))
  service_errors-nil label svc (ok out) program args t e = elim (Bool-cases out.success) [
    | inl good ↦ now_run out t good
    | inr bad ↦ absurd (ground (arith, e, bad))
  ]

  keeps_run :
      (program : Text) (args : List Text) (s : Daemon) (p : Text) (a : List Text)
      (r : Result Output)
      → HasRun program args s.trace
      → HasRun program args (log (ran p a r) s).trace
  keeps_run program args s p a r h = run_before _ h

  append-nil_parts : {A : Type 0} (xs ys : List A) → xs ++ ys ≡ [] → (xs ≡ []) × (ys ≡ [])
  append-nil_parts [] ys e = (refl, e)
  append-nil_parts (x ∷ xs) ys e = absurd (ground (arith, e))

  each_service_ok :
      (args : Text → List Text) (label : Text) (services errors : List Text) (s : Daemon)
      → (each_service env debug args label services errors s).0 ≡ done []
      → (errors ≡ [])
        × All
            (λ svc.
              HasRun networksetup
                (args svc)
                (each_service env debug args label services errors s).1.trace)
            services
  unfolding each_service
  each_service_ok args label [] errors s e = (ground (arith, e), tt)
  each_service_ok args label (svc ∷ rest) errors s e =
      let r = env.run s.trace networksetup (args svc) in
      let s' = log (ran networksetup (args svc) r) s in
      let errors' = errors ++ service_errors env debug label svc r in
      let (none_after, all) = each_service_ok args label rest errors' s' e in
      let (none_before, none_here) =
        append-nil_parts errors (service_errors env debug label svc r) none_after in
      (
        none_before,
        (
          ((each_service-Keeps env debug (λ d. HasRun networksetup (args svc) d.trace)
                (keeps_run networksetup (args svc)) args label rest errors').apply
              s' (service_errors-nil label svc r networksetup (args svc) s.trace none_here)).1,
          all,
        ),
      )

  -- What follows the loop.
  abbrev finish : Text → List Text → Program Daemon (Unit {0})
  finish what errors = flush_cache env >> report what errors

  report_refuses :
      (what e : Text) (errors : List Text) (r : Outcome (Unit {0}) × Daemon)
      → (after r (λ _. report what (e ∷ errors))).0 ≢ done tt
  unfolding report
  report_refuses what e errors (done x, s) h = ground (arith, h)
  report_refuses what e errors (failed x, s) h = ground (arith, h)
  report_refuses what e errors (panicked x, s) h = ground (arith, h)
  report_refuses what e errors (stuck, s) h = ground (arith, h)

  finish_ok :
      (what : Text) (r : Outcome (List Text) × Daemon)
      → (after r (finish what)).0 ≡ done tt
      → r.0 ≡ done []
  finish_ok what (done [], s) h = refl
  finish_ok what (done (e ∷ errors), s) h =
      absurd (report_refuses what e errors (flush_cache env s) h)
  finish_ok what (failed x, s) h = absurd (ground (arith, h))
  finish_ok what (panicked x, s) h = absurd (ground (arith, h))
  finish_ok what (stuck, s) h = absurd (ground (arith, h))

  finish-Keeps :
      (program : Text) (args : List Text) (what : Text) (errors : List Text)
      → Keeps (λ d. HasRun program args d.trace) (finish what errors)
  finish-Keeps program args what errors =
      Keeps-bind
        (flush_cache-Keeps env debug (λ d. HasRun program args d.trace) (keeps_run program args))
        λ _.
          report-Keeps env debug (λ d. HasRun program args d.trace) (keeps_run program args) what
            errors

  kept :
      (program : Text) (args : List Text) (what : Text) (r : Outcome (List Text) × Daemon)
      → r.0 ≡ done []
      → HasRun program args r.1.trace
      → HasRun program args (after r (finish what)).1.trace
  kept program args what (done errors, s) e h =
      ((finish-Keeps program args what errors).apply s h).1
  kept program args what (failed x, s) e h = h
  kept program args what (panicked x, s) e h = h
  kept program args what (stuck, s) e h = h

  module _ (args : Text → List Text) (label what : Text) where
    abbrev each_finish : List Text → Program Daemon (Unit {0})
    each_finish services = each_service env debug args label services [] >>= finish what

    -- The services were listed, and each has had its run.
    abbrev IsApplied : Result Output → Trace → Type 0
    IsApplied r t =
        (out : Output) × (r ≡ ok out)
        × (out.success ≡ true)
        × All (λ svc. HasRun networksetup (args svc) t) (services_from 0 (Text.lines out.stdout))

    each_finish_ok :
        (services : List Text) (s : Daemon)
        → (each_finish services s).0 ≡ done tt
        → All (λ svc. HasRun networksetup (args svc) (each_finish services s).1.trace) services
    each_finish_ok services s e =
        let r = each_service env debug args label services [] s in
        let clean = finish_ok what r e in
        All-map services (λ svc. kept networksetup (args svc) what r clean)
          (each_service_ok args label services [] s clean).1

    listed_ok :
        (r : Result Output) (s : Daemon)
        → (after (listed r s) each_finish).0 ≡ done tt
        → IsApplied r (after (listed r s) each_finish).1.trace
    unfolding listed
    listed_ok (err x) s e = absurd (ground (arith, e))
    listed_ok (ok out) s e = elim (Bool-cases out.success) [
      | inl good ↦
          let services = services_from 0 (Text.lines out.stdout) in
          let passed : listed (ok out) s ≡ (done services, s) = rw good refl in
          rw passed (
            out,
            refl,
            good,
            each_finish_ok services s (sym (ap (λ r. (after r each_finish).0) passed) ∙ e),
          )
      | inr bad ↦ absurd (ground (arith, e, bad))
    ]

    listing_ok :
        (s : Daemon)
        → ((list_services env >>= each_finish) s).0 ≡ done tt
        → IsApplied
            (env.run s.trace networksetup (codes "-listallnetworkservices" ∷ []))
            ((list_services env >>= each_finish) s).1.trace
    unfolding list_services
    listing_ok s e = listed_ok _ _ e

  -- Where `set_dns` succeeds on macOS, the services were listed with success, `networksetup` was
  -- run for each service of the listing with the servers, and every one of these runs succeeded.
  pub set_dns_ok :
      (servers : List Text) (s : Daemon)
      → (set_dns env debug servers s).0 ≡ done tt
      → (out : Output) × (env.run s.trace networksetup (codes "-listallnetworkservices" ∷ [])
          ≡ ok out)
        × (out.success ≡ true)
        × All
            (λ svc.
              HasRun networksetup (set_args servers svc) (set_dns env debug servers s).1.trace)
            (services_from 0 (Text.lines out.stdout))
  unfolding set_dns
  set_dns_ok [] s e = absurd (ground (arith, e))
  set_dns_ok (x ∷ servers) s e =
      listing_ok (set_args (x ∷ servers)) (codes "setdnsservers ")
        (codes "setdnsservers partial failure: ") s e

  -- Where `clear_dns` succeeds on macOS, the services were listed with success, and `networksetup`
  -- was run with success to clear each service of the listing.
  pub clear_dns_ok :
      (s : Daemon)
      → (clear_dns env debug s).0 ≡ done tt
      → (out : Output) × (env.run s.trace networksetup (codes "-listallnetworkservices" ∷ [])
          ≡ ok out)
        × (out.success ≡ true)
        × All
            (λ svc. HasRun networksetup (clear_args svc) (clear_dns env debug s).1.trace)
            (services_from 0 (Text.lines out.stdout))
  unfolding clear_dns
  clear_dns_ok s e =
      listing_ok clear_args (codes "setdnsservers empty ") (codes "clear_dns partial failure: ") s e
