-- ===== src/Bin/Install/Unit.antt =====
-- files/sc-helper.service.tmpl, which `include_str!` puts into the installer.
use sc_helper.Prelude.{◌++◌, Text, codes}

unfoldable pub unit_body : Text
unit_body =
    codes "# sc-helper systemd unit template. 安装时由 sc_helper_install.rs 写到\n"
    ++ (codes "# `/etc/systemd/system/sc-helper.service`. 跟 mac plist 同款 — long-running\n"
        ++ (codes "# daemon, 失败自动 restart, log 走系统设施 (journald 而不是 launchd plist\n"
            ++ (codes "# 里的 StandardOutPath).\n"
                ++ (codes "#\n"
                    ++ (codes "# 在 sc_helper_install.rs 里 include_str! 这个文件后直接写, 没字符串替换\n"
                        ++ (codes "# 必要 (路径都 hardcoded, 跟 paths::linux 模块的常量手动对齐).\n"
                            ++ (codes "[Unit]\n"
                                ++ (codes "Description=SCloud VPN Helper\n"
                                    ++ (codes
                                          "Documentation=https://github.com/NiDeHaoDaGe/sc_helper\n"
                                        ++ (codes
                                              "# 网络起来之后才启 — IPC socket 在 /run/ 不需要网络, 但 helper 会\n"
                                            ++ (codes
                                                  "# spawn mihomo 是网络应用, 等 network.target 是 cleaner ordering.\n"
                                                ++ (codes "After=network.target\n"
                                                    ++ (codes "\n"
                                                        ++ (codes "[Service]\n"
                                                            ++ (codes "Type=simple\n"
                                                            ++ (codes
                                                            "ExecStart=/usr/lib/sc-helper/sc-helper\n"
                                                            ++ (codes "\n"
                                                            ++ (codes
                                                            "# Restart=on-failure: helper crash 自动重启 (跟 mac launchd KeepAlive=true\n"
                                                            ++ (codes
                                                            "# 同款). 不用 always — manual systemctl stop 不该 trigger restart.\n"
                                                            ++ (codes "Restart=on-failure\n"
                                                            ++ (codes "RestartSec=1s\n"
                                                            ++ (codes "\n"
                                                            ++ (codes
                                                            "# stdout/stderr 默认走 journald (`journalctl -u sc-helper -f` 看 log).\n"
                                                            ++ (codes
                                                            "# RUST_LOG=info 控制 env_logger level.\n"
                                                            ++ (codes "Environment=RUST_LOG=info\n"
                                                            ++ (codes "\n"
                                                            ++ (codes
                                                            "# helper 跑 root (Linux 创建 utun 必须 root). 不限制 capabilities —\n"
                                                            ++ (codes
                                                            "# 跟 mac launchd 默认行为一致, helper 内部已经 own kill/exec 权限.\n"
                                                            ++ (codes
                                                            "# 想 hardening 留 phase 4 加 CapabilityBoundingSet=CAP_NET_ADMIN 之类.\n"
                                                            ++ (codes "User=root\n"
                                                            ++ (codes "Group=root\n"
                                                            ++ (codes "\n"
                                                            ++ (codes "[Install]\n"
                                                            ++ (codes
                                                            "# multi-user.target = standard \"system is up + multi-user mode\" target.\n"
                                                            ++ (codes
                                                            "# `systemctl enable` 创建 .wants/ symlink 到这, 开机自启.\n"
                                                            ++ (codes
                                                            "WantedBy=multi-user.target\n"))))))))))))))))))))))))))))))))))))
