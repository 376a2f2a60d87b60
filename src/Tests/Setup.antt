-- ===== src/Tests/Setup.antt =====
-- A system on which every call succeeds, and builds of the helper for it.
use sc_helper.Prelude.{◌+◌, true, none, some, [], length, Text, codes, arith}
use sc_helper.Prelude.Program.{ok}
use sc_helper.Ipc.{Command, Request}
use sc_helper.Ipc.Hmac.{compute_hmac}
use sc_helper.Service.Os.{Target, macos, linux, still_running, Env, time_floor, IsLawfulOs}
use sc_helper.Service.Server.Request.{Build, ipc_secret}
use sc_helper.Tests.Plain.{plain}

-- `ip route get`, `networksetup -listallnetworkservices` and the rest answer alike.
abbrev pub listing : Text
listing =
    codes "An asterisk (*) denotes that a network service is disabled.\nWi-Fi\n*Bluetooth PAN\n"

abbrev pub calm : Env
calm = record {
  clock = λ t. some 1_000_000_000;
  instant = λ t. time_floor t;
  is_file = λ t p. true;
  is_dir = λ t p. true;
  open_log = λ t p. true;
  clone_log = λ t p. true;
  socket_override = λ t. none;
  exists = λ t p. true;
  remove_file = λ t p. ok tt;
  bind = λ t p. ok tt;
  set_permissions = λ t p mode. ok tt;
  spawn = λ t p args l. ok (length t);
  child_id = λ t c. some (1000 + c);
  try_wait = λ t c. still_running;
  run = λ t p args.
      ok
        (record { status = codes "exit status: 0"; success = true; stdout = listing; stderr = [] });
}

pub calm-IsLawfulOs : IsLawfulOs calm
calm-IsLawfulOs = record {
  monotonic = λ t. omega arith;
  spawned_id = λ t program args log child e. ground arith;
}

abbrev pub build_for : Target → Build
build_for target = record {
  lib = plain;
  target = target;
  helper_version = codes "0.1.0";
  helper_build_sha = codes "abc123";
  mihomo_path = λ t. codes "/opt/mihomo";
}

abbrev pub mac_build : Build
mac_build = build_for macos

abbrev pub linux_build : Build
linux_build = build_for linux

-- A request that the GUI signs at the second that the clock shows.
abbrev pub signed : Command → Request
signed command = record {
  timestamp_nanos = 1_000_000_000;
  hmac = compute_hmac plain ipc_secret 1_000_000_000 command;
  command = command;
}
