-- ===== src/Service/Dns/Linux/Applied.antt =====
-- What a success of `set_dns` and `clear_dns` means.
use mathlib.Core.Path.{subst}
use sc_helper.Prelude.{◌≡◌, sym, ap, ◌∙◌, true, some, List, [], ◌∷◌, Text, codes, arith}
use sc_helper.Prelude.Program.{Program, ok, done, ◌>>=◌, ◌>>◌}
use sc_helper.Std.Text
use sc_helper.Service.Os.{Output, ran, Trace, Env}
use sc_helper.Service.State.{Daemon, log, run}
use sc_helper.Service.Dns.Linux.{
  iface_in, resolvectl, expect_success, expect_output, default_iface, flush_cache, set_dns,
  clear_dns,
}
use sc_helper.Service.Dns.Linux.Calls.{
  after-expect_success, after-expect_output, after-routed, flushed_ok,
}

abbrev pub route_args : List Text
route_args = codes "route" ∷ codes "get" ∷ codes "1.1.1.1" ∷ []

-- The route's interface was found, the servers were set on it with success, and the other two tools
-- were run, in this order and with nothing between.
pub data IsSetOn (servers : List Text) (before : Trace) : Trace → Type 0 where
  is_set :
      (iface : Text) (route dns domain flush : Output)
      → route.success ≡ true
      → iface_in (Text.split_whitespace route.stdout) ≡ some iface
      → dns.success ≡ true
      → IsSetOn servers before (
          ran resolvectl (codes "flush-caches" ∷ []) (ok flush)
          ∷ ran resolvectl (codes "domain" ∷ iface ∷ codes "~." ∷ []) (ok domain)
          ∷ ran resolvectl (codes "dns" ∷ iface ∷ servers) (ok dns)
          ∷ ran (codes "ip") route_args (ok route)
          ∷ before)

-- The same for `clear_dns`.
pub data IsCleared (before : Trace) : Trace → Type 0 where
  is_cleared :
      (iface : Text) (route revert flush : Output)
      → route.success ≡ true
      → iface_in (Text.split_whitespace route.stdout) ≡ some iface
      → revert.success ≡ true
      → IsCleared before (
          ran resolvectl (codes "flush-caches" ∷ []) (ok flush)
          ∷ ran resolvectl (codes "revert" ∷ iface ∷ []) (ok revert)
          ∷ ran (codes "ip") route_args (ok route)
          ∷ before)

module _ (env : Env) where
  flush_ok :
      (s : Daemon)
      → (flush_cache env s).0 ≡ done tt
      → (out : Output) × ((flush_cache env s).1.trace
          ≡ ran resolvectl (codes "flush-caches" ∷ []) (ok out) ∷ s.trace)
  unfolding flush_cache
  flush_ok s e = flushed_ok _ (codes "flush-caches" ∷ []) _ s e

  -- `set_dns` from the `domain` call on, and from the `dns` call on; `clear_dns` from `revert` on.
  abbrev from_domain : Text → Program Daemon (Unit {0})
  from_domain iface = do
    q ← run env resolvectl (codes "domain" ∷ iface ∷ codes "~." ∷ [])
    expect_output (codes "spawning resolvectl domain") q
    flush_cache env

  abbrev from_dns : List Text → Text → Program Daemon (Unit {0})
  from_dns servers iface = do
    r ← run env resolvectl (codes "dns" ∷ iface ∷ servers)
    expect_success (codes "spawning resolvectl dns") (codes "resolvectl dns failed: ") r
    from_domain iface

  abbrev from_revert : Text → Program Daemon (Unit {0})
  from_revert iface = do
    r ← run env resolvectl (codes "revert" ∷ iface ∷ [])
    expect_success (codes "spawning resolvectl revert") (codes "resolvectl revert failed: ") r
    flush_cache env

  from_domain_ok :
      (iface : Text) (s : Daemon)
      → (from_domain iface s).0 ≡ done tt
      → (domain : Output) × (flush : Output) × ((from_domain iface s).1.trace
          ≡ ran resolvectl (codes "flush-caches" ∷ []) (ok flush)
            ∷ ran resolvectl (codes "domain" ∷ iface ∷ codes "~." ∷ []) (ok domain)
            ∷ s.trace)
  from_domain_ok iface s e =
      let args = codes "domain" ∷ iface ∷ codes "~." ∷ [] in
      let r = env.run s.trace resolvectl args in
      let s' = log (ran resolvectl args r) s in
      let (domain, q, go) =
        after-expect_output (λ _. flush_cache env) (codes "spawning resolvectl domain") r s' e in
      let (flush, t) = flush_ok s' (sym (ap (λ o. o.0) go) ∙ e) in
      (
        domain,
        flush,
        ap (λ o. o.1.trace) go
            ∙ t
            ∙ ap
                (λ x.
                  ran resolvectl (codes "flush-caches" ∷ []) (ok flush)
                  ∷ ran resolvectl args x
                  ∷ s.trace)
                q,
      )

  from_dns_ok :
      (servers : List Text) (iface : Text) (s : Daemon)
      → (from_dns servers iface s).0 ≡ done tt
      → (dns : Output) × (domain : Output) × (flush : Output) × (dns.success ≡ true)
        × ((from_dns servers iface s).1.trace
            ≡ ran resolvectl (codes "flush-caches" ∷ []) (ok flush)
              ∷ ran resolvectl (codes "domain" ∷ iface ∷ codes "~." ∷ []) (ok domain)
              ∷ ran resolvectl (codes "dns" ∷ iface ∷ servers) (ok dns)
              ∷ s.trace)
  from_dns_ok servers iface s e =
      let args = codes "dns" ∷ iface ∷ servers in
      let r = env.run s.trace resolvectl args in
      let s' = log (ran resolvectl args r) s in
      let (dns, q, good, go) =
        after-expect_success (λ _. from_domain iface) (codes "spawning resolvectl dns")
          (codes "resolvectl dns failed: ") r s' e in
      let (domain, flush, t) = from_domain_ok iface s' (sym (ap (λ o. o.0) go) ∙ e) in
      (
        dns,
        domain,
        flush,
        good,
        ap (λ o. o.1.trace) go
            ∙ t
            ∙ ap
                (λ x.
                  ran resolvectl (codes "flush-caches" ∷ []) (ok flush)
                  ∷ ran resolvectl (codes "domain" ∷ iface ∷ codes "~." ∷ []) (ok domain)
                  ∷ ran resolvectl args x
                  ∷ s.trace)
                q,
      )

  from_revert_ok :
      (iface : Text) (s : Daemon)
      → (from_revert iface s).0 ≡ done tt
      → (revert : Output) × (flush : Output) × (revert.success ≡ true)
        × ((from_revert iface s).1.trace
            ≡ ran resolvectl (codes "flush-caches" ∷ []) (ok flush)
              ∷ ran resolvectl (codes "revert" ∷ iface ∷ []) (ok revert)
              ∷ s.trace)
  from_revert_ok iface s e =
      let args = codes "revert" ∷ iface ∷ [] in
      let r = env.run s.trace resolvectl args in
      let s' = log (ran resolvectl args r) s in
      let (revert, q, good, go) =
        after-expect_success (λ _. flush_cache env) (codes "spawning resolvectl revert")
          (codes "resolvectl revert failed: ") r s' e in
      let (flush, t) = flush_ok s' (sym (ap (λ o. o.0) go) ∙ e) in
      (
        revert,
        flush,
        good,
        ap (λ o. o.1.trace) go
            ∙ t
            ∙ ap
                (λ x.
                  ran resolvectl (codes "flush-caches" ∷ []) (ok flush)
                  ∷ ran resolvectl args x
                  ∷ s.trace)
                q,
      )

  -- Where `set_dns` succeeds on Linux, it has found the interface of the default route, set the
  -- servers on it with success, then run the call that asks for all domains there and the one that
  -- flushes the caches, whatever their exit status, and run no more.
  pub set_dns-IsSetOn :
      (servers : List Text) (s : Daemon)
      → (set_dns env servers s).0 ≡ done tt
      → IsSetOn servers s.trace (set_dns env servers s).1.trace
  unfolding set_dns default_iface
  set_dns-IsSetOn [] s e = absurd (ground (arith, e))
  set_dns-IsSetOn (x ∷ servers) s e =
      let r = env.run s.trace (codes "ip") route_args in
      let s' = log (ran (codes "ip") route_args r) s in
      let (route, iface, q, good, i, go) = after-routed env (from_dns (x ∷ servers)) r s' e in
      let (dns, domain, flush, set, t) =
        from_dns_ok (x ∷ servers) iface s' (sym (ap (λ o. o.0) go) ∙ e) in
      let traced =
        ap (λ o. o.1.trace) go
        ∙ t
        ∙ ap
            (λ y.
              ran resolvectl (codes "flush-caches" ∷ []) (ok flush)
              ∷ ran resolvectl (codes "domain" ∷ iface ∷ codes "~." ∷ []) (ok domain)
              ∷ ran resolvectl (codes "dns" ∷ iface ∷ x ∷ servers) (ok dns)
              ∷ ran (codes "ip") route_args y
              ∷ s.trace)
            q in
      subst (IsSetOn (x ∷ servers) s.trace) (sym traced)
        (is_set iface route dns domain flush good i set)

  -- Where `clear_dns` succeeds on Linux, it has found the interface of the default route, reverted
  -- its settings with success, then run the call that flushes the caches, whatever its exit status,
  -- and run no more.
  pub clear_dns-IsCleared :
      (s : Daemon) → (clear_dns env s).0 ≡ done tt → IsCleared s.trace (clear_dns env s).1.trace
  unfolding clear_dns default_iface
  clear_dns-IsCleared s e =
      let r = env.run s.trace (codes "ip") route_args in
      let s' = log (ran (codes "ip") route_args r) s in
      let (route, iface, q, good, i, go) = after-routed env from_revert r s' e in
      let (revert, flush, reverted, t) = from_revert_ok iface s' (sym (ap (λ o. o.0) go) ∙ e) in
      let traced =
        ap (λ o. o.1.trace) go
        ∙ t
        ∙ ap
            (λ y.
              ran resolvectl (codes "flush-caches" ∷ []) (ok flush)
              ∷ ran resolvectl (codes "revert" ∷ iface ∷ []) (ok revert)
              ∷ ran (codes "ip") route_args y
              ∷ s.trace)
            q in
      subst (IsCleared s.trace) (sym traced) (is_cleared iface route revert flush good i reverted)
