-- ===== src/Service/Server/Setup/Kept.antt =====
-- Conditions on the daemon that the socket's set-up and cleanup keep.
use sc_helper.Prelude.{◌≡◌, refl, Bool, true, false, ◌++◌, Text, codes}
use sc_helper.Prelude.Program.{Result, ok, err, or_fail}
use sc_helper.Prelude.Keeps.{Keeps, Keeps-bind, Keeps-pure, Keeps-fail}
use sc_helper.Service.Os.{Target, Event, Env}
use sc_helper.Service.State.{
  Daemon, log, socket_override, exists, remove_file, bind, set_permissions,
}
use sc_helper.Service.Core.Steady.{is_of_socket}
use sc_helper.Service.Server.Setup.{
  socket_path, socket_or, socket_mode, remove_stale, set_up, clean_up,
}

abbrev pub IsDeaf : (Daemon → Type 0) → Type 0
IsDeaf I = (e : Event) (s : Daemon) → is_of_socket e ≡ true → I s → I (log e s)

module _ (env : Env) {I : Daemon → Type 0} (K : IsDeaf I) where
  or_fail-Keeps : {A : Type 0} (context : Text) (r : Result A) → Keeps I (or_fail context r)
  or_fail-Keeps context (ok a) = Keeps-pure a
  or_fail-Keeps context (err e) = Keeps-fail context

  socket_path-Keeps : (target : Target) → Keeps I (socket_path env target)
  unfolding socket_path
  socket_path-Keeps target =
      Keeps-bind {m = socket_override env} (record { apply = λ s h. (tt, K _ s refl h) })
        (λ over. Keeps-pure (socket_or target over))

  remove_stale-Keeps : (path : Text) (b : Bool) → Keeps I (remove_stale env path b)
  unfolding remove_stale
  remove_stale-Keeps path true =
      Keeps-bind {m = remove_file env path} (record { apply = λ s h. (tt, K _ s refl h) })
        (or_fail-Keeps (codes "removing stale socket " ++ path))
  remove_stale-Keeps path false = Keeps-pure tt

  pub set_up-Keeps : (target : Target) → Keeps I (set_up env target)
  unfolding set_up
  set_up-Keeps target = Keeps-bind (socket_path-Keeps target) λ path.
      Keeps-bind {m = exists env path} (record { apply = λ s h. (tt, K _ s refl h) })
        λ stale. Keeps-bind (remove_stale-Keeps path stale) λ _.
          Keeps-bind {m = bind env path} (record { apply = λ s h. (tt, K _ s refl h) })
            λ r. Keeps-bind (or_fail-Keeps (codes "binding " ++ path) r) λ _.
              Keeps-bind {m = set_permissions env path socket_mode}
                (record { apply = λ s h. (tt, K _ s refl h) })
                λ q. Keeps-bind (or_fail-Keeps (codes "chmod 666 " ++ path) q) λ _. Keeps-pure path

  pub clean_up_keeps : (path : Text) (d : Daemon) → I d → I (clean_up env path d)
  unfolding clean_up
  clean_up_keeps path d h = K _ d refl h
