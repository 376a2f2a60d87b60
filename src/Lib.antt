-- ===== src/Lib.antt =====
-- sc-helper: a daemon that runs as root beside a VPN client. Over a socket it takes signed requests of
-- the client's GUI: start and stop the proxy process (mihomo), set and clear the system's DNS, report
-- the version, shut down. This library models its service and proves what makes it safe to keep.
--
-- The parts, and the files that model them (paths of the repository on the left):
--   src/ipc.rs, types                  Ipc.antt, Ipc/Wire.antt (the JSON that serde derives)
--   src/ipc.rs, compute_hmac,
--     verify_hmac                      Ipc/Hmac.antt; proofs in Ipc/Hmac/Laws.antt
--   src/ipc.rs, now_nanos,
--     timestamp_fresh                  Ipc/Fresh.antt
--   src/ipc.rs, read_frame,
--     write_frame                      Ipc/Frame.antt; proofs in Ipc/Frame/Laws.antt
--   src/service/core.rs                Service/Core.antt, on the state of Service/State.antt; proofs in
--                                      Service/Core/: Probe and Launch list how is_running and start
--                                      end, Tracking states the invariant, Spawning proves it,
--                                      Stopping and Total prove that stop and start end,
--                                      Started and Patience what they did, and Steady what they
--                                      leave alone
--   src/service/dns_macos.rs           Service/Dns/Macos.antt; proofs in Service/Dns/Macos/
--   src/service/dns_linux.rs           Service/Dns/Linux.antt; proofs in Service/Dns/Linux/
--   src/service/server.rs,
--     handle_request                   Service/Server/Request.antt; proofs in Service/Server/Request/:
--                                      Contract is what a client may rely on, Refined proves it
--   src/service/server.rs,
--     handle_connection                Service/Server/Connection.antt; proofs in Service/Server/Connection/
--   src/service/server.rs, serve,
--     before and behind its loop       Service/Server/Setup.antt; proofs in Service/Server/Setup/
--   src/service/server.rs, serve, and
--     src/bin/sc_helper.rs, main       Service/Server/Accept.antt; proofs in Service/Server/Accept/
--   the same, with the connections'
--     tasks interleaved                Service/Server/Task.antt, on Service/Core/Turns.antt and
--                                      Service/Dns/Macos/Turns.antt: the programs, cut into turns;
--                                      Service/Server/World.antt: the turns in any order; proofs in
--                                      Service/Server/Task/ and World/: Guard says what each program
--                                      keeps to, Free, Silent, Stopping and Tasks that each does,
--                                      Last that the end of main does, Holder, Safe, Survived, Quiet
--                                      and Reached what follows for all of them, and Spent that
--                                      turns come to an end; Orderly and Departure are the results; Task/Alone joins
--                                      a task to handle_connection
--   src/bin/sc_helper_ping.rs          Bin/Ping.antt; proofs in Bin/Ping/Laws.antt
--   src/bin/sc_helper.rs,
--     resolve_mihomo_path              Bin/Daemon.antt; proofs in Bin/Daemon/Sibling.antt
--   src/bin/sc_helper_install.rs       Bin/Install.antt (what both systems share), Install/Macos,
--                                      Install/Linux, Install/Plist, Install/Unit; proofs in
--                                      Bin/Install/: Ready says when a service may be registered,
--                                      Steps, Laws, Perms, Placed and Registered follow the steps,
--                                      Macos/Registration and Linux/Registration put them together
--   src/bin/sc_helper_uninstall.rs     Bin/Uninstall.antt, Uninstall/Macos, Uninstall/Linux; proofs in
--                                      Bin/Uninstall/: Account counts failures, Laws, Removed and
--                                      Cleared follow the steps
--   build.rs                           BuildScript.antt; proofs in BuildScript/Laws.antt
--   src/paths.rs                       Paths/Macos.antt, Paths/Linux.antt, Paths/Windows.antt
-- Prelude holds the shared types, lists and the program monad; Std the methods of Rust's str, Path and
-- integers that the source calls; Tests the concrete instances.
--
-- How the code is read. A function with effects is a `Program` over a state: it ends with a value, an
-- error (`failed`, with the text of `to_string`), a panic, or, where the model runs out of fuel,
-- `stuck`. `?` is bind, a `match` on a result is `catch`. The daemon's state (Service/State.antt) is
-- the supervisor, the shutdown trigger and a trace of the system calls made, newest first; an
-- environment (Service/Os.antt) answers each call from the trace before it, so it may answer the same
-- call differently each time. A child process is named by a number of the environment's own. A
-- connection (Ipc/Frame.antt) is the peer's bytes, the bytes written, and the room the peer leaves.
-- The installer and the uninstaller have a state of their own, a trace of file and service-manager
-- calls (Bin/Files.antt) answered by an environment `Files`; Bin/Files/Known.antt reads from a trace
-- what stands at a path and who may write to it. Their proofs are by the rules of Prelude/Triple.antt.
-- Text is a list of code points, a byte string a list of numbers; `as u64` and `as u32` are `% 2 ^ 64`
-- and `% 2 ^ 32`.
--
-- What is a parameter: HMAC-SHA256, hex, serde_json's printing and parsing, the Debug form of a text
-- (Ipc/Libraries.antt, with `IsLawful` for their documented behaviour), the system's answers (`Env`,
-- with `IsLawfulOs` for the monotonic clock and for the id of a child just spawned; `Files`, with
-- `IsLawfulFiles`: a file that was put somewhere is found there), and what a build fixes (`Build`: the system,
-- version and commit, and the resolver of mihomo's path).
--
-- Fuel: the loop of `stop` has 51 polls (`max_polls`): each sleeps 100 ms at least, and the deadline is
-- 5 s after the first. `decimal` has 20 digits, enough for 64 bits, and `octal` 11, enough for 32.
--
-- Tasks. Service/Server/Accept.antt runs a connection's task to its end before another starts. In
-- Service/Server/World.antt the tasks of all connections and `main` take their turns in any order. There
-- a function is an `Async` (Prelude/Async.antt): turns on the daemon, and the taking and giving back of the
-- supervisor's lock. A turn is a system call or a piece of the code without an await, so that others may
-- come between at each await of the code, and at more places; `start`, which has no await, is one turn. The
-- lock goes to any task that waits for it. A task awaits its frame for as long as its client takes, and
-- so maybe for ever; what it reads before the frame is whole touches nothing of the daemon. A response is
-- written whole.
--
-- Panics. The release profile has `panic = "abort"` (Cargo.toml), so a panic of any task ends the process
-- at once, and nothing of `main` follows: `aborted` in both models of the loop, `aborts` in that of the
-- client. The panic that the code has is that of `now_nanos`, where the clock reads a time before 1970.
--
-- Outstanding, of a mihomo in a trace (Service/Core/Tracking.antt), is one that was spawned, and neither
-- seen to have exited, nor waited for, nor given up on after a failing `try_wait`. The source drops the
-- handle in the last case, so such a process may go on unseen.
--
-- Not modelled: the time that a read or write takes; how the signal handlers are registered (a signal
-- is a step); log lines of the daemon and what the client prints to stderr; Windows, which has
-- no server, installer or uninstaller in the source.
pub mod Prelude
pub mod Std
pub mod Paths
pub mod Ipc
pub mod Service
pub mod Bin
pub mod BuildScript
mod Tests
