-- ===== src/Service/Server/World/Silent.antt =====
-- src/service/dns_macos.rs, cut into turns, and single turns that the supervisor does not notice.
use sc_helper.Prelude.{ℕ, refl, List, [], ◌∷◌, ◌++◌, Text, codes, Option, none, some, arith}
use sc_helper.Prelude.Program.{Result}
use sc_helper.Prelude.Async.{sync}
use sc_helper.Service.Os.{Output, ran, read_clock, time_floor, Env}
use sc_helper.Service.State.{Daemon, Sender, sender, log, run}
use sc_helper.Service.Core.Tracking.{outstanding, AreJustified}
use sc_helper.Service.Dns.Macos.{
  networksetup, set_args, clear_args, flushed, report, list_services, service_errors, is_empty,
}
use sc_helper.Service.Dns.Macos.Laws.{run-Keeps, list_services-Keeps, flushed-Keeps, report-Keeps}
use sc_helper.Service.Dns.Macos.Turns.{flush_turns, each_turns, set_dns_turns, clear_dns_turns}
use sc_helper.Service.Server.Request.{fire}
use sc_helper.Service.Server.World.Guard.{Rely}
use sc_helper.Service.Server.World.Free.{
  IsFree, IsFree-over, IsFree-pure, IsFree-sync, IsFree-bind, IsFree-if,
}

-- Events of which neither the supervisor nor the monotonic clock takes note.
module _ (P : Text → Type 0) where
  pub ran-Rely :
      (d s : Daemon) (program : Text) (args : List Text) (r : Result Output)
      → Rely P d s
      → Rely P d (log (ran program args r) s)
  unfolding outstanding AreJustified time_floor
  ran-Rely d s program args r h = record {
    child_stays = h.child_stays;
    left_stays = h.left_stays;
    justified_stays = h.justified_stays;
    time_passes = h.time_passes;
  }

  pub read-Rely : (d : Daemon) (r : Option ℕ) → Rely P d (log (read_clock r) d)
  unfolding outstanding AreJustified time_floor
  read-Rely d r = record {
    child_stays = refl;
    left_stays = refl;
    justified_stays = λ j. j;
    time_passes = omega arith;
  }

  pub shut-Rely : (d : Daemon) (t : Option Sender) → Rely P d (fire t d).1
  unfolding fire
  shut-Rely d none = record {
    child_stays = refl;
    left_stays = refl;
    justified_stays = λ j. j;
    time_passes = omega arith;
  }
  shut-Rely d (some sender) = record {
    child_stays = refl;
    left_stays = refl;
    justified_stays = λ j. j;
    time_passes = omega arith;
  }

  module _ (env : Env) (debug : Text → Text) (Q : Type 0) where
    run-IsFree : (program : Text) (args : List Text) → IsFree P Q (sync (run env program args))
    run-IsFree program args =
        IsFree-sync _ λ d. run-Keeps env debug (Rely P d) (ran-Rely d) program args

    flushed-IsFree : (context : Text) (r : Result Output) → IsFree P Q (sync (flushed context r))
    flushed-IsFree context r =
        IsFree-sync (flushed context r)
          λ d. flushed-Keeps env debug (Rely P d) (ran-Rely d) context r

    flush-IsFree : IsFree P Q (flush_turns env)
    unfolding flush_turns
    flush-IsFree = IsFree-bind (run-IsFree (codes "dscacheutil") (codes "-flushcache" ∷ [])) λ r.
        IsFree-bind (flushed-IsFree (codes "dscacheutil -flushcache") r) λ _.
          IsFree-bind (run-IsFree (codes "killall") (codes "-HUP" ∷ codes "mDNSResponder" ∷ []))
            λ q. flushed-IsFree (codes "killall -HUP mDNSResponder") q

    each-IsFree :
        (args : Text → List Text) (label : Text) (services errors : List Text)
        → IsFree P Q (each_turns env debug args label services errors)
    unfolding each_turns
    each-IsFree args label [] errors = IsFree-pure errors
    each-IsFree args label (svc ∷ rest) errors =
        IsFree-bind (run-IsFree networksetup (args svc))
          λ r. each-IsFree args label rest (errors ++ service_errors env debug label svc r)

    listing-IsFree : IsFree P Q (sync (list_services env))
    listing-IsFree = IsFree-sync _ λ d. list_services-Keeps env debug (Rely P d) (ran-Rely d)

    report-IsFree : (what : Text) (errors : List Text) → IsFree P Q (sync (report what errors))
    report-IsFree what errors =
        IsFree-sync _ λ d. report-Keeps env debug (Rely P d) (ran-Rely d) what errors

    pub set_dns-IsFree : (servers : List Text) → IsFree P Q (set_dns_turns env debug servers)
    unfolding set_dns_turns
    set_dns-IsFree servers = IsFree-if (is_empty servers) (IsFree-over _ tt) (
        IsFree-bind listing-IsFree λ services.
          IsFree-bind (each-IsFree (set_args servers) (codes "setdnsservers ") services [])
            λ errors.
              IsFree-bind flush-IsFree
                λ _. report-IsFree (codes "setdnsservers partial failure: ") errors)

    pub clear_dns-IsFree : IsFree P Q (clear_dns_turns env debug)
    unfolding clear_dns_turns
    clear_dns-IsFree = IsFree-bind listing-IsFree λ services.
        IsFree-bind (each-IsFree clear_args (codes "setdnsservers empty ") services []) λ errors.
          IsFree-bind flush-IsFree λ _. report-IsFree (codes "clear_dns partial failure: ") errors
