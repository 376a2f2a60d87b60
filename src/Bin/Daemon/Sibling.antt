-- ===== src/Bin/Daemon/Sibling.antt =====
-- The mihomo that the daemon runs is the one beside it.
use sc_helper.Prelude.{◌≡◌, refl, some, Text, []}
use sc_helper.Prelude.Program.{ok}
use sc_helper.Prelude.Triple.{Ensures, Ensures-weaken}
use sc_helper.Std.Path.{is_absolute, need_sep, trimmed, join, parent, IsTidy, parent-join}
use sc_helper.Paths.Macos.{helper_install_dir as macos_dir}
use sc_helper.Paths.Linux.{helper_install_dir as linux_dir}
use sc_helper.Service.Os.{macos, linux}
use sc_helper.Bin.Install.{helper_name}
use sc_helper.Bin.Install.Ready.{IsGuarded, IsExcused}
use sc_helper.Bin.Files.{Calls, Files}
use sc_helper.Bin.Files.Known.{IsLawfulFiles}
use sc_helper.Bin.Install.Macos.{main as install_macos}
use sc_helper.Bin.Install.Linux.{main as install_linux}
use sc_helper.Bin.Install.Macos.Registration.{plan_from as macos_plan, main-Registered_macos}
use sc_helper.Bin.Install.Linux.Registration.{plan_from as linux_plan, main-Registered_linux}
use sc_helper.Bin.Daemon.{mihomo_name, resolve_mihomo_path}

parent-join_helper : (dir : Text) → IsTidy dir → parent (join dir helper_name) ≡ some dir
unfolding is_absolute
parent-join_helper dir tidy = parent-join dir helper_name _ _ _ refl refl refl tidy

-- On macOS and Linux, a daemon that stands in some directory, written without a separator or a dot
-- at its end, runs the sc-mihomo of that directory.
pub resolve_mihomo_path_lem :
    (dir : Text)
    → IsTidy dir
    → (resolve_mihomo_path macos (ok (join dir helper_name)) ≡ join dir mihomo_name)
      × (resolve_mihomo_path linux (ok (join dir helper_name)) ≡ join dir mihomo_name)
unfolding resolve_mihomo_path
resolve_mihomo_path_lem dir tidy =
    (rw (parent-join_helper dir tidy) refl, rw (parent-join_helper dir tidy) refl)

macos_dir-IsTidy : IsTidy macos_dir
unfolding need_sep trimmed
macos_dir-IsTidy = (refl, refl)

linux_dir-IsTidy : IsTidy linux_dir
unfolding need_sep trimmed
linux_dir-IsTidy = (refl, refl)

-- The file that an installed daemon runs as mihomo.
abbrev pub macos_mihomo : Text
macos_mihomo = resolve_mihomo_path macos (ok (join macos_dir helper_name))

abbrev pub linux_mihomo : Text
linux_mihomo = resolve_mihomo_path linux (ok (join linux_dir helper_name))

-- Where a file that was put somewhere is found there: an installer that stands in some directory
-- ends. When it ends without an error, the file that the installed daemon resolves as its mihomo,
-- if one was put there, is root's and has mode 755. When it ends with one, its last call was
-- refused, and it had not registered the service before all was ready.
pub main_guards_mihomo :
    (fs : Files) (me payload : Text)
    → IsLawfulFiles fs
    → ((t : Calls) → fs.current_exe t ≡ ok me)
    → parent me ≡ some payload
    → Ensures (λ _. IsGuarded macos_mihomo) (IsExcused (macos_plan payload)) (install_macos fs [])
      × Ensures (λ _. IsGuarded linux_mihomo) (IsExcused (linux_plan payload)) (install_linux fs [])
main_guards_mihomo fs me payload lawful exe dir = (
  Ensures-weaken (IsExcused (macos_plan payload)) _ (λ _. IsGuarded macos_mihomo)
      (install_macos fs [])
      (λ a t h. rw (resolve_mihomo_path_lem macos_dir macos_dir-IsTidy).0 h.1.0.3)
      (main-Registered_macos fs me payload lawful exe dir),
  Ensures-weaken (IsExcused (linux_plan payload)) _ (λ _. IsGuarded linux_mihomo)
      (install_linux fs [])
      (λ a t h. rw (resolve_mihomo_path_lem linux_dir linux_dir-IsTidy).1 h.1.0.3)
      (main-Registered_linux fs me payload lawful exe dir),
)
