-- ===== src/Bin/Uninstall/Linux/Removal.antt =====
-- src/bin/sc_helper_uninstall.rs: what the uninstaller for Linux leaves.
use sc_helper.Prelude.{refl, [], ◌∷◌, Text, List, codes}
use sc_helper.Prelude.Program.{Result, ok, err}
use sc_helper.Prelude.Triple.{Ensures, Meets, Meets-bind, Meets-then, Meets-pure}
use sc_helper.Paths.Linux.{systemd_unit_path, helper_install_dir, socket_path}
use sc_helper.Bin.Files.{Status, Calls, Files, ran, status}
use sc_helper.Bin.Uninstall.Account.{failures, gone_at, refused_at}
use sc_helper.Bin.Uninstall.Laws.{Never, Counted, line-Meets, stop_service-Meets}
use sc_helper.Bin.Uninstall.Cleared.{
  UnitDone, IsUninstalled, remove_unit-Meets, remove_install_dir-Meets, remove_socket-Meets,
  finish-Meets,
}
use sc_helper.Bin.Uninstall.Linux.{main, reload, disable, disable_args}

-- `daemon-reload` is not counted.
reloaded :
    (errors : List Text) (program : Text) (r : Result Status) (t : Calls)
    → UnitDone disable systemd_unit_path errors t
    → UnitDone disable systemd_unit_path errors (ran program (codes "daemon-reload" ∷ []) r ∷ t)
unfolding failures gone_at refused_at
reloaded errors program (ok s) t h = h
reloaded errors program (err e) t h = h

reload-Meets :
    (fs : Files) (errors : List Text)
    → Meets
        (UnitDone disable systemd_unit_path errors)
        (reload fs)
        (λ _. UnitDone disable systemd_unit_path errors)
        Never
unfolding reload
reload-Meets fs errors =
    Meets-bind {mid = λ _. UnitDone disable systemd_unit_path errors}
      {m = status fs (codes "systemctl") (codes "daemon-reload" ∷ [])}
      (record {
        apply = λ t h.
            reloaded errors _ (fs.status t (codes "systemctl") (codes "daemon-reload" ∷ [])) t h;
      })
      (λ _. Meets-pure tt (λ t h. h))

-- The uninstaller for Linux ends without an error, whatever its calls answer. Its last line is the
-- summary for the number of the steps that failed: the stop's command did not start, the removal of
-- the service's description failed, or that of the install directory. The description and each file
-- under the install directory are gone, unless the system refused to remove it, in which case that
-- number is not 0.
pub main-Uninstalled_linux :
    (fs : Files)
    → Ensures (λ _. IsUninstalled disable systemd_unit_path helper_install_dir) Never (main fs [])
unfolding main failures
main-Uninstalled_linux fs =
    Meets.apply
      (Meets-then {mid = Counted disable systemd_unit_path []} (line-Meets _ (λ l t h. h)) (
        Meets-bind
          (stop_service-Meets disable systemd_unit_path fs (codes "disable --now") (codes " exit ")
            (codes " (likely already stopped/missing)") (codes "systemctl") disable_args [] refl)
          λ e1.
            Meets-bind
              (remove_unit-Meets disable systemd_unit_path fs (codes "unit") (codes "systemd unit")
                e1)
              λ e2. Meets-then (reload-Meets fs e2) (
                Meets-bind
                  (remove_install_dir-Meets disable systemd_unit_path fs helper_install_dir e2)
                  λ e3.
                    Meets-then
                      (remove_socket-Meets disable systemd_unit_path fs helper_install_dir
                        socket_path e3 refl)
                      (finish-Meets disable systemd_unit_path helper_install_dir e3))))
      [] refl
