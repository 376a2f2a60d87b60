-- ===== src/Bin/Install/Macos.antt =====
-- src/bin/sc_helper_install.rs: `main` on macOS.
pub mod Registration
use sc_helper.Prelude.{List, [], ◌∷◌, ◌++◌, Text, codes, if◌then◌else◌}
use sc_helper.Prelude.Program.{or_fail, Program, Result, ok, err, pure, fail, ◌>>=◌, ◌>>◌}
use sc_helper.Paths.Macos.{launchd_label, launchd_plist, helper_install_dir}
use sc_helper.Bin.Files.{Status, Calls, Files, say, status}
use sc_helper.Bin.Install.{
  tag, locate, check_payload, make_dir, unload, copy_payload, write_unit, set_perms,
}
use sc_helper.Bin.Install.Plist.{render_plist}

abbrev pub unload_notice : Text
unload_notice = codes "existing install detected — bootout first"

abbrev pub owner : Text
owner = codes "root:wheel"

abbrev pub launchctl : Text
launchctl = codes "launchctl"

abbrev pub bootout_args : List Text
bootout_args = codes "bootout" ∷ (codes "system/" ++ launchd_label) ∷ []

abbrev pub bootstrap_args : List Text
bootstrap_args = codes "bootstrap" ∷ codes "system" ∷ launchd_plist ∷ []

-- A status other than success is a warning only.
report : Status → Program Calls (Unit {0})
report s =
    if s.success
    then say (tag ++ codes "launchctl bootstrap OK")
    else say (tag ++ codes "WARN: launchctl bootstrap exited " ++ s.shown)

module _ (fs : Files) where
  unfoldable pub register : Program Calls (Unit {0})
  unfolding report
  register = do
    r ← status fs launchctl bootstrap_args
    s ← or_fail (codes "spawning launchctl") r
    report s
    say (tag ++ codes "done")

  -- From the payload's check on.
  unfoldable pub install_from : Text → Program Calls (Unit {0})
  install_from payload = do
    check_payload fs payload
    make_dir fs helper_install_dir
    unload fs unload_notice launchd_plist launchctl bootout_args
    copy_payload fs payload helper_install_dir
    write_unit fs (codes "plist") launchd_plist render_plist
    set_perms fs owner helper_install_dir launchd_plist
    register

  unfoldable pub main : Program Calls (Unit {0})
  main = do say (tag ++ codes "starting"); payload ← locate fs; install_from payload
