-- ===== src/Service/Dns/Macos/Turns.antt =====
-- src/service/dns_macos.rs: its functions as asynchronous programs, which are left for others at
-- each run of a command. No lock is taken.
use sc_helper.Prelude.{List, [], ◌∷◌, ◌++◌, Text, codes, if◌then◌else◌}
use sc_helper.Prelude.Program.{failed}
use sc_helper.Prelude.Async.{
  Async, over, sync, pure, ◌>>=◌, ◌>>◌, IsAlone, IsAlone-sync, IsAlone-pure, IsAlone-fail,
  IsAlone-bind, IsAlone-if,
}
use sc_helper.Service.Os.{Env}
use sc_helper.Service.State.{Daemon, run}
use sc_helper.Service.Dns.Macos.{
  is_empty, networksetup, set_args, clear_args, flushed, report, list_services, flush_cache,
  service_errors, each_service, set_dns, clear_dns,
}

module _ (env : Env) where
  unfoldable pub flush_turns : Async Daemon (Unit {0})
  unfolding flushed
  flush_turns = do
    r ← sync (run env (codes "dscacheutil") (codes "-flushcache" ∷ []))
    sync (flushed (codes "dscacheutil -flushcache") r)
    q ← sync (run env (codes "killall") (codes "-HUP" ∷ codes "mDNSResponder" ∷ []))
    sync (flushed (codes "killall -HUP mDNSResponder") q)

  flush-IsAlone : IsAlone flush_turns (flush_cache env)
  unfolding flush_turns flush_cache
  flush-IsAlone =
      IsAlone-bind (IsAlone-sync (run env (codes "dscacheutil") (codes "-flushcache" ∷ []))) λ r.
        IsAlone-bind (IsAlone-sync (flushed (codes "dscacheutil -flushcache") r)) λ _.
          IsAlone-bind
            (IsAlone-sync (run env (codes "killall") (codes "-HUP" ∷ codes "mDNSResponder" ∷ [])))
            λ q. IsAlone-sync (flushed (codes "killall -HUP mDNSResponder") q)

module _ (env : Env) (debug : Text → Text) where
  unfoldable pub each_turns :
      (Text → List Text) → Text → List Text → List Text → Async Daemon (List Text)
  each_turns args label [] errors = pure errors
  each_turns args label (svc ∷ rest) errors = do
    r ← sync (run env networksetup (args svc))
    each_turns args label rest (errors ++ service_errors env debug label svc r)

  unfoldable pub set_dns_turns : List Text → Async Daemon (Unit {0})
  set_dns_turns servers =
      if is_empty servers
      then over (failed (codes "set_dns called with empty servers; use clear() to revert to DHCP"))
      else do
        services ← sync (list_services env)
        errors ← each_turns (set_args servers) (codes "setdnsservers ") services []
        flush_turns env
        sync (report (codes "setdnsservers partial failure: ") errors)

  unfoldable pub clear_dns_turns : Async Daemon (Unit {0})
  clear_dns_turns = do
    services ← sync (list_services env)
    errors ← each_turns clear_args (codes "setdnsservers empty ") services []
    flush_turns env
    sync (report (codes "clear_dns partial failure: ") errors)

  each-IsAlone :
      (args : Text → List Text) (label : Text) (services errors : List Text)
      → IsAlone
          (each_turns args label services errors)
          (each_service env debug args label services errors)
  unfolding each_turns each_service
  each-IsAlone args label [] errors = IsAlone-pure errors
  each-IsAlone args label (svc ∷ rest) errors =
      IsAlone-bind (IsAlone-sync (run env networksetup (args svc)))
        λ r. each-IsAlone args label rest (errors ++ service_errors env debug label svc r)

  pub set_dns-IsAlone :
      (servers : List Text) → IsAlone (set_dns_turns servers) (set_dns env debug servers)
  unfolding set_dns_turns set_dns
  set_dns-IsAlone servers =
      IsAlone-if (is_empty servers)
        (IsAlone-fail (codes "set_dns called with empty servers; use clear() to revert to DHCP"))
        (IsAlone-bind (IsAlone-sync (list_services env)) λ services.
          IsAlone-bind (each-IsAlone (set_args servers) (codes "setdnsservers ") services [])
            λ errors.
              IsAlone-bind (flush-IsAlone env)
                λ _. IsAlone-sync (report (codes "setdnsservers partial failure: ") errors))

  pub clear_dns-IsAlone : IsAlone clear_dns_turns (clear_dns env debug)
  unfolding clear_dns_turns clear_dns
  clear_dns-IsAlone = IsAlone-bind (IsAlone-sync (list_services env)) λ services.
      IsAlone-bind (each-IsAlone clear_args (codes "setdnsservers empty ") services []) λ errors.
        IsAlone-bind (flush-IsAlone env)
          λ _. IsAlone-sync (report (codes "clear_dns partial failure: ") errors)
