-- ===== src/Service/Dns/Macos.antt =====
-- src/service/dns_macos.rs: DNS by `networksetup`.
pub mod Laws
pub mod Listing
pub mod Applied
pub mod Turns
use sc_helper.Prelude.{
  ℕ, suc, Bool, true, false, not, ◌||◌, List, [], ◌∷◌, ◌++◌, Text, codes, ◌==◌, if◌then◌else◌,
}
use sc_helper.Prelude.Program.{Program, Result, ok, err, pure, fail, ◌>>=◌, ◌>>◌}
use sc_helper.Std.Text
use sc_helper.Service.Os.{Output, Env}
use sc_helper.Service.State.{Daemon, run}

abbrev pub is_empty : {A : Type 0} → List A → Bool
is_empty [] = true
is_empty (x ∷ xs) = false

-- The loop of `list_services` from line `i` on: line 0 is a preamble, a `*` marks a disabled
-- service.
unfoldable pub services_from : ℕ → List Text → List Text
services_from i [] = []
services_from i (line ∷ rest) =
    let services = services_from (suc i) rest in
    let trimmed = Text.trim line in
    if i == 0
    then services
    else if is_empty trimmed
    then services
    else if Text.starts_with trimmed (codes "*")
    then services
    else trimmed ∷ services

abbrev pub networksetup : Text
networksetup = codes "networksetup"

abbrev pub set_args : List Text → Text → List Text
set_args servers svc = codes "-setdnsservers" ∷ svc ∷ servers

-- `servers` is the keyword `empty` in `clear_dns`.
abbrev pub clear_args : Text → List Text
clear_args svc = codes "-setdnsservers" ∷ svc ∷ codes "empty" ∷ []

listed : Result Output → Program Daemon (List Text)
listed (err _) = fail (codes "spawning networksetup -listallnetworkservices")
listed (ok out) =
    if not out.success
    then fail (codes "networksetup -listallnetworkservices failed: " ++ out.stderr)
    else pure (services_from 0 (Text.lines out.stdout))

pub flushed : Text → Result Output → Program Daemon (Unit {0})
flushed context (err _) = fail context
flushed context (ok _) = pure tt

unfoldable pub report : Text → List Text → Program Daemon (Unit {0})
report what [] = pure tt
report what (e ∷ errors) = fail (what ++ Text.join (e ∷ errors) (codes "; "))

module _ (env : Env) where
  unfoldable pub list_services : Program Daemon (List Text)
  unfolding listed
  list_services = do r ← run env networksetup (codes "-listallnetworkservices" ∷ []); listed r

  unfoldable pub flush_cache : Program Daemon (Unit {0})
  unfolding flushed
  flush_cache = do
    r ← run env (codes "dscacheutil") (codes "-flushcache" ∷ [])
    flushed (codes "dscacheutil -flushcache") r
    q ← run env (codes "killall") (codes "-HUP" ∷ codes "mDNSResponder" ∷ [])
    flushed (codes "killall -HUP mDNSResponder") q

module _ (env : Env) (debug : Text → Text) where
  -- What one service adds to `errors`; `label` opens the message.
  unfoldable pub service_errors : Text → Text → Result Output → List Text
  service_errors label svc (ok out) =
      if out.success then [] else (label ++ debug svc ++ codes ": " ++ Text.trim out.stderr) ∷ []
  service_errors label svc (err e) = (label ++ debug svc ++ codes ": spawn failed: " ++ e) ∷ []

  -- The loop over the services: all are tried, and the failures are gathered.
  unfoldable pub each_service :
      (Text → List Text) → Text → List Text → List Text → Program Daemon (List Text)
  each_service args label [] errors s = pure errors s
  each_service args label (svc ∷ rest) errors s =
      (do
        r ← run env networksetup (args svc)
        each_service args label rest (errors ++ service_errors label svc r))
        s

  unfoldable pub set_dns : List Text → Program Daemon (Unit {0})
  unfolding report
  set_dns servers =
      if is_empty servers
      then fail (codes "set_dns called with empty servers; use clear() to revert to DHCP")
      else do
        services ← list_services env
        errors ← each_service (set_args servers) (codes "setdnsservers ") services []
        flush_cache env
        report (codes "setdnsservers partial failure: ") errors

  unfoldable pub clear_dns : Program Daemon (Unit {0})
  unfolding report
  clear_dns = do
    services ← list_services env
    errors ← each_service clear_args (codes "setdnsservers empty ") services []
    flush_cache env
    report (codes "clear_dns partial failure: ") errors
