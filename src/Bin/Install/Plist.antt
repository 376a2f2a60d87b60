-- ===== src/Bin/Install/Plist.antt =====
-- src/bin/sc_helper_install.rs: `render_plist`.
use sc_helper.Prelude.{◌++◌, Text, codes}
use sc_helper.Paths.Macos.{launchd_label, helper_binary, stdout_log, stderr_log}

unfoldable pub render_plist : Text
render_plist =
    codes "<?xml version=\"1.0\" encoding=\"UTF-8\"?>\n"
    ++ (codes
          "<!DOCTYPE plist PUBLIC \"-//Apple//DTD PLIST 1.0//EN\" \"http://www.apple.com/DTDs/PropertyList-1.0.dtd\">\n"
        ++ (codes "<plist version=\"1.0\">\n"
            ++ (codes "<dict>\n"
                ++ (codes "    <key>Label</key>\n"
                    ++ (codes "    <string>"
                        ++ (launchd_label
                            ++ (codes "</string>\n"
                                ++ (codes "    <key>ProgramArguments</key>\n"
                                    ++ (codes "    <array>\n"
                                        ++ (codes "        <string>"
                                            ++ (helper_binary
                                                ++ (codes "</string>\n"
                                                    ++ (codes "    </array>\n"
                                                        ++ (codes "    <key>RunAtLoad</key>\n"
                                                            ++ (codes "    <true/>\n"
                                                            ++ (codes "    <key>KeepAlive</key>\n"
                                                            ++ (codes "    <true/>\n"
                                                            ++ (codes
                                                            "    <key>StandardOutPath</key>\n"
                                                            ++ (codes "    <string>"
                                                            ++ (stdout_log
                                                            ++ (codes "</string>\n"
                                                            ++ (codes
                                                            "    <key>StandardErrorPath</key>\n"
                                                            ++ (codes "    <string>"
                                                            ++ (stderr_log
                                                            ++ (codes "</string>\n"
                                                            ++ (codes
                                                            "    <key>EnvironmentVariables</key>\n"
                                                            ++ (codes "    <dict>\n"
                                                            ++ (codes
                                                            "        <key>RUST_LOG</key>\n"
                                                            ++ (codes
                                                            "        <string>info</string>\n"
                                                            ++ (codes "    </dict>\n"
                                                            ++ (codes "</dict>\n"
                                                            ++ (codes
                                                            "</plist>\n"))))))))))))))))))))))))))))))))
