-- ===== src/Bin/Uninstall/Linux.antt =====
-- src/bin/sc_helper_uninstall.rs: `main` on Linux.
pub mod Removal
use sc_helper.Prelude.{List, [], ◌∷◌, ◌++◌, Text, codes}
use sc_helper.Prelude.Program.{Program, pure, ◌>>=◌, ◌>>◌}
use sc_helper.Paths.Linux.{service_name, systemd_unit_path, helper_install_dir, socket_path}
use sc_helper.Bin.Files.{Calls, Files, say, status}
use sc_helper.Bin.Uninstall.{
  tag, stop_service, remove_unit, remove_install_dir, remove_socket, finish,
}

abbrev pub disable : Text
disable = codes "disable"

abbrev pub disable_args : List Text
disable_args = disable ∷ codes "--now" ∷ service_name ∷ []

module _ (fs : Files) where
  -- Its answer is not looked at.
  unfoldable pub reload : Program Calls (Unit {0})
  reload = do _ ← status fs (codes "systemctl") (codes "daemon-reload" ∷ []); pure tt

  unfoldable pub main : Program Calls (Unit {0})
  main = do
    say (tag ++ codes "starting (linux/systemd)")
    e1 ←
        stop_service fs (codes "disable --now") (codes " exit ")
          (codes " (likely already stopped/missing)") (codes "systemctl") disable_args []
    e2 ← remove_unit fs (codes "unit") (codes "systemd unit") systemd_unit_path e1
    reload
    e3 ← remove_install_dir fs helper_install_dir e2
    remove_socket fs socket_path
    finish e3
