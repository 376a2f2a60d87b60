-- ===== src/Bin/Daemon.antt =====
-- src/bin/sc_helper.rs: where the daemon looks for mihomo. `parent` is that of a Unix path; on
-- Windows the path is a constant.
pub mod Sibling
use sc_helper.Prelude.{Option, none, some, Text, codes}
use sc_helper.Prelude.Program.{Result, ok, err}
use sc_helper.Std.Path.{join, parent}
use sc_helper.Paths.Macos.{helper_binary as macos_binary}
use sc_helper.Paths.Linux.{helper_binary as linux_binary}
use sc_helper.Service.Os.{Target, macos, linux, windows}

abbrev pub mihomo_name : Text
mihomo_name = codes "sc-mihomo"

-- `current_exe().unwrap_or_else(..)`
exe_or : Text → Result Text → Text
exe_or default (ok me) = me
exe_or default (err _) = default

-- `.map(|p| p.join("sc-mihomo")).unwrap_or_else(..)`
beside_or : Text → Option Text → Text
beside_or default (some dir) = join dir mihomo_name
beside_or default none = default

-- From what `current_exe` answers.
unfoldable pub resolve_mihomo_path : Target → Result Text → Text
unfolding exe_or beside_or
resolve_mihomo_path macos exe =
    beside_or (codes "/Library/PrivilegedHelperTools/com.scloud.helper/sc-mihomo")
      (parent (exe_or macos_binary exe))
resolve_mihomo_path linux exe =
    beside_or (codes "/usr/lib/sc-helper/sc-mihomo") (parent (exe_or linux_binary exe))
resolve_mihomo_path windows exe = codes "C:\\Program Files\\sc_helper\\sc-mihomo.exe"
