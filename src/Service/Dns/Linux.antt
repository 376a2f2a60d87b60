-- ===== src/Service/Dns/Linux.antt =====
-- src/service/dns_linux.rs: DNS by `resolvectl`.
pub mod Calls
pub mod Applied
use sc_helper.Prelude.{not, Option, none, some, List, [], ◌∷◌, ◌++◌, Text, codes, if◌then◌else◌}
use sc_helper.Prelude.Program.{Program, Result, ok, err, pure, fail, ◌>>=◌, ◌>>◌}
use sc_helper.Std.Text
use sc_helper.Service.Os.{Output, Env}
use sc_helper.Service.State.{Daemon, run}
use sc_helper.Service.Dns.Macos.{is_empty}

-- The token scan: the token behind the first `dev`.
unfoldable pub iface_in : List Text → Option Text
iface_in [] = none
iface_in (tok ∷ []) = none
iface_in (tok ∷ iface ∷ rest) =
    let later = iface_in (iface ∷ rest) in
    if Text.text_eq tok (codes "dev") then some iface else later

abbrev pub resolvectl : Text
resolvectl = codes "resolvectl"

-- `output().await.context(context)?`, and an exit other than success refused.
pub expect_success : (context failure : Text) → Result Output → Program Daemon (Unit {0})
expect_success context failure (err _) = fail context
expect_success context failure (ok out) =
    if not out.success then fail (failure ++ Text.trim out.stderr) else pure tt

-- The same, where a failing exit is only logged.
pub expect_output : (context : Text) → Result Output → Program Daemon (Unit {0})
expect_output context (err _) = fail context
expect_output context (ok _) = pure tt

module _ (env : Env) where
  found : Text → Option Text → Program Daemon Text
  found stdout (some iface) = pure iface
  found stdout none =
      fail (codes "no `dev <iface>` in `ip route get 1.1.1.1` output: " ++ Text.trim stdout)

  pub routed : Result Output → Program Daemon Text
  unfolding found
  routed (err _) = fail (codes "spawning `ip route get 1.1.1.1`")
  routed (ok out) =
      if not out.success
      then fail
          (codes "`ip route get 1.1.1.1` exit " ++ out.status ++ codes ": " ++ Text.trim out.stderr)
      else found out.stdout (iface_in (Text.split_whitespace out.stdout))

  unfoldable pub default_iface : Program Daemon Text
  unfolding routed
  default_iface = do
    r ← run env (codes "ip") (codes "route" ∷ codes "get" ∷ codes "1.1.1.1" ∷ [])
    routed r

  unfoldable pub flush_cache : Program Daemon (Unit {0})
  unfolding expect_output
  flush_cache = do
    r ← run env resolvectl (codes "flush-caches" ∷ [])
    expect_output (codes "spawning resolvectl flush-caches") r

  unfoldable pub set_dns : List Text → Program Daemon (Unit {0})
  unfolding expect_success expect_output
  set_dns servers =
      if is_empty servers
      then fail (codes "set_dns called with empty servers; use clear_dns() to revert to DHCP")
      else do
        iface ← default_iface
        r ← run env resolvectl (codes "dns" ∷ iface ∷ servers)
        expect_success (codes "spawning resolvectl dns") (codes "resolvectl dns failed: ") r
        q ← run env resolvectl (codes "domain" ∷ iface ∷ codes "~." ∷ [])
        expect_output (codes "spawning resolvectl domain") q
        flush_cache

  unfoldable pub clear_dns : Program Daemon (Unit {0})
  unfolding expect_success
  clear_dns = do
    iface ← default_iface
    r ← run env resolvectl (codes "revert" ∷ iface ∷ [])
    expect_success (codes "spawning resolvectl revert") (codes "resolvectl revert failed: ") r
    flush_cache
