-- ===== src/Service/Dns/Macos/Laws.antt =====
-- The calls end, and keep what running a system tool keeps.
use sc_helper.Prelude.{List, [], ◌∷◌, ◌++◌, Text, codes}
use sc_helper.Prelude.Program.{Result, ok, err}
use sc_helper.Prelude.Keeps.{Keeps, Keeps-bind, Keeps-pure, Keeps-fail, Keeps-if}
use sc_helper.Service.Os.{Output, ran, Env}
use sc_helper.Service.State.{Daemon, log, run}
use sc_helper.Service.Dns.Macos.{
  networksetup, service_errors, listed, list_services, each_service, flushed, flush_cache, report,
  set_dns, clear_dns,
}

module _ (env : Env) (debug : Text → Text) (I : Daemon → Type 0)
    (keeps_ran : (s : Daemon) (program : Text) (args : List Text) (r : Result Output)
      → I s
      → I (log (ran program args r) s)) where
  pub run-Keeps : (program : Text) (args : List Text) → Keeps I (run env program args)
  run-Keeps program args = record { apply = λ s h. (tt, keeps_ran s program args _ h) }

  listed-Keeps : (r : Result Output) → Keeps I (listed r)
  unfolding listed
  listed-Keeps (err _) = Keeps-fail _
  listed-Keeps (ok out) = Keeps-if _ (Keeps-fail _) (Keeps-pure _)

  pub list_services-Keeps : Keeps I (list_services env)
  unfolding list_services
  list_services-Keeps = Keeps-bind (run-Keeps _ _) listed-Keeps

  pub each_service-Keeps :
      (args : Text → List Text) (label : Text) (services errors : List Text)
      → Keeps I (each_service env debug args label services errors)
  unfolding each_service
  each_service-Keeps args label [] errors = Keeps-pure errors
  each_service-Keeps args label (svc ∷ rest) errors =
      Keeps-bind (run-Keeps networksetup (args svc))
        λ r. each_service-Keeps args label rest (errors ++ service_errors env debug label svc r)

  pub flushed-Keeps : (context : Text) (r : Result Output) → Keeps I (flushed context r)
  unfolding flushed
  flushed-Keeps context (err _) = Keeps-fail _
  flushed-Keeps context (ok _) = Keeps-pure _

  pub flush_cache-Keeps : Keeps I (flush_cache env)
  unfolding flush_cache
  flush_cache-Keeps = Keeps-bind (run-Keeps _ _) λ r.
      Keeps-bind (flushed-Keeps (codes "dscacheutil -flushcache") r) λ _.
        Keeps-bind (run-Keeps (codes "killall") (codes "-HUP" ∷ codes "mDNSResponder" ∷ []))
          (flushed-Keeps (codes "killall -HUP mDNSResponder"))

  pub report-Keeps : (what : Text) (errors : List Text) → Keeps I (report what errors)
  unfolding report
  report-Keeps what [] = Keeps-pure _
  report-Keeps what (e ∷ errors) = Keeps-fail _

  pub set_dns-Keeps : (servers : List Text) → Keeps I (set_dns env debug servers)
  unfolding set_dns
  set_dns-Keeps servers = Keeps-if _ (Keeps-fail _) (
      Keeps-bind list_services-Keeps λ services.
        Keeps-bind (each_service-Keeps _ _ services []) λ errors.
          Keeps-bind flush_cache-Keeps
            λ _. report-Keeps (codes "setdnsservers partial failure: ") errors)

  pub clear_dns-Keeps : Keeps I (clear_dns env debug)
  unfolding clear_dns
  clear_dns-Keeps = Keeps-bind list_services-Keeps λ services.
      Keeps-bind (each_service-Keeps _ _ services []) λ errors.
        Keeps-bind flush_cache-Keeps λ _. report-Keeps (codes "clear_dns partial failure: ") errors
