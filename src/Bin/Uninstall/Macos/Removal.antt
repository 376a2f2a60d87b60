-- ===== src/Bin/Uninstall/Macos/Removal.antt =====
-- src/bin/sc_helper_uninstall.rs: what the uninstaller for macOS leaves.
use sc_helper.Prelude.{refl, [], codes}
use sc_helper.Prelude.Triple.{Ensures, Meets, Meets-bind, Meets-then}
use sc_helper.Paths.Macos.{launchd_plist, helper_install_dir, socket_path}
use sc_helper.Bin.Files.{Files}
use sc_helper.Bin.Uninstall.Account.{failures}
use sc_helper.Bin.Uninstall.Laws.{Never, Counted, line-Meets, stop_service-Meets}
use sc_helper.Bin.Uninstall.Cleared.{
  IsUninstalled, remove_unit-Meets, remove_install_dir-Meets, remove_socket-Meets, finish-Meets,
}
use sc_helper.Bin.Uninstall.Macos.{main, bootout, bootout_args}

-- The uninstaller for macOS ends without an error, whatever its calls answer. Its last line is the
-- summary for the number of the steps that failed: the stop's command did not start, the removal of
-- the service's description failed, or that of the install directory. The description and each file
-- under the install directory are gone, unless the system refused to remove it, in which case that
-- number is not 0.
pub main-Uninstalled_macos :
    (fs : Files)
    → Ensures (λ _. IsUninstalled bootout launchd_plist helper_install_dir) Never (main fs [])
unfolding main failures
main-Uninstalled_macos fs =
    Meets.apply
      (Meets-then {mid = Counted bootout launchd_plist []} (line-Meets _ (λ l t h. h)) (
        Meets-bind
          (stop_service-Meets bootout launchd_plist fs bootout (codes " exited ")
            (codes " (likely already stopped)") (codes "launchctl") bootout_args [] refl)
          λ e1.
            Meets-bind
              (remove_unit-Meets bootout launchd_plist fs (codes "plist") (codes "plist") e1)
              λ e2.
                Meets-bind (remove_install_dir-Meets bootout launchd_plist fs helper_install_dir e2)
                  λ e3.
                    Meets-then
                      (remove_socket-Meets bootout launchd_plist fs helper_install_dir socket_path
                        e3 refl)
                      (finish-Meets bootout launchd_plist helper_install_dir e3)))
      [] refl
