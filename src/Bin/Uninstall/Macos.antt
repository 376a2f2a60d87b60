-- ===== src/Bin/Uninstall/Macos.antt =====
-- src/bin/sc_helper_uninstall.rs: `main` on macOS.
pub mod Removal
use sc_helper.Prelude.{List, [], ◌∷◌, ◌++◌, Text, codes}
use sc_helper.Prelude.Program.{Program, ◌>>=◌, ◌>>◌}
use sc_helper.Paths.Macos.{launchd_label, launchd_plist, helper_install_dir, socket_path}
use sc_helper.Bin.Files.{Calls, Files, say}
use sc_helper.Bin.Uninstall.{
  tag, stop_service, remove_unit, remove_install_dir, remove_socket, finish,
}

abbrev pub bootout : Text
bootout = codes "bootout"

abbrev pub bootout_args : List Text
bootout_args = bootout ∷ (codes "system/" ++ launchd_label) ∷ []

module _ (fs : Files) where
  unfoldable pub main : Program Calls (Unit {0})
  main = do
    say (tag ++ codes "starting")
    e1 ←
        stop_service fs bootout (codes " exited ") (codes " (likely already stopped)")
          (codes "launchctl") bootout_args []
    e2 ← remove_unit fs (codes "plist") (codes "plist") launchd_plist e1
    e3 ← remove_install_dir fs helper_install_dir e2
    remove_socket fs socket_path
    finish e3
