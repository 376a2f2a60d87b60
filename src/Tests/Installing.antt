-- ===== src/Tests/Installing.antt =====
-- The installers and the uninstallers on a system where every call succeeds.
use sc_helper.Prelude.{◌≡◌, refl, true, [], some, Text, codes}
use sc_helper.Prelude.Program.{ok}
use sc_helper.Prelude.Triple.{Ensures}
use sc_helper.Std.Path.{need_sep, trimmed, parent, IsTidy}
use sc_helper.Bin.Files.{Files}
use sc_helper.Bin.Files.Known.{IsLawfulFiles}
use sc_helper.Bin.Install.Ready.{IsGuarded, IsExcused}
use sc_helper.Bin.Daemon.Sibling.{macos_mihomo, linux_mihomo, main_guards_mihomo}
use sc_helper.Bin.Install.Registered.{Registered}
use sc_helper.Bin.Install.Macos.{main as install_macos}
use sc_helper.Bin.Install.Linux.{main as install_linux}
use sc_helper.Bin.Install.Macos.Registration.{
  plan_from as macos_plan, accepts as macos_accepts, main-Registered_macos,
}
use sc_helper.Bin.Install.Linux.Registration.{
  plan_from as linux_plan, accepts as linux_accepts, main-Registered_linux,
}
use sc_helper.Paths.Macos.{launchd_plist, helper_install_dir as macos_dir}
use sc_helper.Paths.Linux.{systemd_unit_path, helper_install_dir as linux_dir}
use sc_helper.Bin.Uninstall.Laws.{Never}
use sc_helper.Bin.Uninstall.Cleared.{IsUninstalled}
use sc_helper.Bin.Uninstall.Macos.{bootout, main as uninstall_macos}
use sc_helper.Bin.Uninstall.Linux.{disable, main as uninstall_linux}
use sc_helper.Bin.Uninstall.Macos.Removal.{main-Uninstalled_macos}
use sc_helper.Bin.Uninstall.Linux.Removal.{main-Uninstalled_linux}

abbrev payload : Text
payload = codes "/tmp/sc"

abbrev installer : Text
installer = codes "/tmp/sc/sc-helper-install"

abbrev willing : Files
willing = record {
  current_exe = λ t. ok installer;
  is_file = λ t p. true;
  exists = λ t p. true;
  create_dir_all = λ t p. ok tt;
  copy = λ t src dst. ok tt;
  write = λ t p text. ok tt;
  chown = λ t p. ok tt;
  metadata = λ t p. ok tt;
  set_permissions = λ t p mode. ok tt;
  remove_file = λ t p. ok tt;
  remove_dir_all = λ t p. ok tt;
  status = λ t program args. ok (record { success = true; shown = codes "exit status: 0" });
}

willing-IsLawful : IsLawfulFiles willing
willing-IsLawful = record { is_file_put = λ t p put. refl }

installer_dir : parent installer ≡ some payload
unfolding parent
installer_dir = refl

main-Registered_macos_example :
    Ensures
      (λ _. Registered willing (macos_plan payload) macos_accepts)
      (IsExcused (macos_plan payload))
      (install_macos willing [])
main-Registered_macos_example =
    main-Registered_macos willing installer payload willing-IsLawful (λ t. refl) installer_dir

main-Registered_linux_example :
    Ensures
      (λ _. Registered willing (linux_plan payload) linux_accepts)
      (IsExcused (linux_plan payload))
      (install_linux willing [])
main-Registered_linux_example =
    main-Registered_linux willing installer payload willing-IsLawful (λ t. refl) installer_dir

main-Uninstalled_macos_example :
    Ensures (λ _. IsUninstalled bootout launchd_plist macos_dir) Never (uninstall_macos willing [])
main-Uninstalled_macos_example = main-Uninstalled_macos willing

main-Uninstalled_linux_example :
    Ensures
      (λ _. IsUninstalled disable systemd_unit_path linux_dir)
      Never
      (uninstall_linux willing [])
main-Uninstalled_linux_example = main-Uninstalled_linux willing

main_guards_mihomo_example :
    Ensures
      (λ _. IsGuarded macos_mihomo)
      (IsExcused (macos_plan payload))
      (install_macos willing [])
    × Ensures
        (λ _. IsGuarded linux_mihomo)
        (IsExcused (linux_plan payload))
        (install_linux willing [])
main_guards_mihomo_example =
    main_guards_mihomo willing installer payload willing-IsLawful (λ t. refl) installer_dir

opt_dir-IsTidy : IsTidy (codes "/opt/sc")
unfolding need_sep trimmed
opt_dir-IsTidy = (refl, refl)
