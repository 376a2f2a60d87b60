-- ===== src/Paths/Linux.antt =====
-- src/paths.rs, `linux`
use sc_helper.Prelude.{Text, codes}

abbrev pub service_name : Text
service_name = codes "sc-helper"

abbrev pub systemd_unit_path : Text
systemd_unit_path = codes "/etc/systemd/system/sc-helper.service"

abbrev pub helper_install_dir : Text
helper_install_dir = codes "/usr/lib/sc-helper"

abbrev pub helper_binary : Text
helper_binary = codes "/usr/lib/sc-helper/sc-helper"

abbrev pub stdout_log : Text
stdout_log = codes "/var/log/sc-helper.log"

abbrev pub stderr_log : Text
stderr_log = codes "/var/log/sc-helper.err.log"

abbrev pub socket_path : Text
socket_path = codes "/run/sc-helper.sock"
