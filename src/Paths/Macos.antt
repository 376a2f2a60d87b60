-- ===== src/Paths/Macos.antt =====
-- src/paths.rs, `macos`
use sc_helper.Prelude.{Text, codes}

abbrev pub launchd_label : Text
launchd_label = codes "com.scloud.helper"

abbrev pub launchd_plist : Text
launchd_plist = codes "/Library/LaunchDaemons/com.scloud.helper.plist"

abbrev pub helper_install_dir : Text
helper_install_dir = codes "/Library/PrivilegedHelperTools/com.scloud.helper"

abbrev pub helper_binary : Text
helper_binary = codes "/Library/PrivilegedHelperTools/com.scloud.helper/sc-helper"

abbrev pub stdout_log : Text
stdout_log = codes "/Library/Logs/sc-helper.log"

abbrev pub stderr_log : Text
stderr_log = codes "/Library/Logs/sc-helper.err.log"

abbrev pub socket_path : Text
socket_path = codes "/var/run/sc-helper.sock"
