-- ===== src/Bin/Install/Linux.antt =====
-- src/bin/sc_helper_install.rs: `main` on Linux.
pub mod Registration
use sc_helper.Prelude.{List, [], ◌∷◌, ◌++◌, Text, codes, if◌then◌else◌}
use sc_helper.Prelude.Program.{or_fail, Program, Result, ok, err, pure, fail, ◌>>=◌, ◌>>◌}
use sc_helper.Paths.Linux.{service_name, systemd_unit_path, helper_install_dir}
use sc_helper.Bin.Files.{Status, Calls, Files, say, status}
use sc_helper.Bin.Install.{
  tag, locate, check_payload, make_dir, unload, copy_payload, write_unit, set_perms,
}
use sc_helper.Bin.Install.Unit.{unit_body}

abbrev pub unload_notice : Text
unload_notice = codes "existing install detected — stop + disable first"

abbrev pub owner : Text
owner = codes "root:root"

abbrev pub systemctl : Text
systemctl = codes "systemctl"

abbrev pub disable_args : List Text
disable_args = codes "disable" ∷ codes "--now" ∷ service_name ∷ []

abbrev pub enable_args : List Text
enable_args = codes "enable" ∷ codes "--now" ∷ service_name ∷ []

-- A status other than success of `daemon-reload` is a warning, of `enable` an error.
report_reload : Status → Program Calls (Unit {0})
report_reload s =
    if s.success then pure tt else say (tag ++ codes "WARN: daemon-reload exited " ++ s.shown)

report_enable : Status → Program Calls (Unit {0})
report_enable s =
    if s.success
    then say (tag ++ codes "systemctl enable --now OK")
    else fail (codes "systemctl enable --now " ++ service_name ++ codes " failed: exit " ++ s.shown)

module _ (fs : Files) where
  unfoldable pub register : Program Calls (Unit {0})
  unfolding report_reload report_enable
  register = do
    r ← status fs systemctl (codes "daemon-reload" ∷ [])
    s ← or_fail (codes "spawning systemctl daemon-reload") r
    report_reload s
    r' ← status fs systemctl enable_args
    s' ← or_fail (codes "spawning systemctl enable --now") r'
    report_enable s'
    say (tag ++ codes "done")

  -- From the payload's check on.
  unfoldable pub install_from : Text → Program Calls (Unit {0})
  install_from payload = do
    check_payload fs payload
    unload fs unload_notice systemd_unit_path systemctl disable_args
    make_dir fs helper_install_dir
    copy_payload fs payload helper_install_dir
    write_unit fs (codes "systemd unit") systemd_unit_path unit_body
    set_perms fs owner helper_install_dir systemd_unit_path
    register

  unfoldable pub main : Program Calls (Unit {0})
  main = do say (tag ++ codes "starting (linux/systemd)"); payload ← locate fs; install_from payload
