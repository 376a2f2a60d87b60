-- ===== src/Paths/Windows.antt =====
-- src/paths.rs, `windows`
use sc_helper.Prelude.{Text, codes}

abbrev pub service_name : Text
service_name = codes "sc_helper"

abbrev pub service_display : Text
service_display = codes "SCloud VPN Helper"

abbrev pub helper_install_dir : Text
helper_install_dir = codes "C:\\Program Files\\sc_helper"

abbrev pub helper_binary : Text
helper_binary = codes "C:\\Program Files\\sc_helper\\sc-helper.exe"

abbrev pub pipe_name : Text
pipe_name = codes "\\\\.\\pipe\\sc-helper"
