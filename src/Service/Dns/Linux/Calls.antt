-- ===== src/Service/Dns/Linux/Calls.antt =====
-- Where a sequence of calls has succeeded, each call has, and what it did.
use sc_helper.Prelude.{
  ◌≡◌, refl, sym, ap, ◌∙◌, Bool-cases, true, Option, none, some, inl, inr, List, ◌∷◌, Text, arith,
}
use sc_helper.Prelude.Program.{Program, Result, ok, err, done, after}
use sc_helper.Std.Text
use sc_helper.Service.Os.{Output, ran, Env}
use sc_helper.Service.State.{Daemon, log}
use sc_helper.Service.Dns.Linux.{iface_in, resolvectl, expect_success, expect_output, found, routed}

module _ (k : (Unit {0}) → Program Daemon (Unit {0})) where
  pub after-expect_success :
      (context failure : Text) (r : Result Output) (s : Daemon)
      → (after (expect_success context failure r s) k).0 ≡ done tt
      → (out : Output) × (r ≡ ok out)
        × (out.success ≡ true)
        × (after (expect_success context failure r s) k ≡ k tt s)
  unfolding expect_success
  after-expect_success context failure (err x) s e = absurd (ground (arith, e))
  after-expect_success context failure (ok out) s e = elim (Bool-cases out.success) [
    | inl good ↦ (out, refl, good, rw good refl)
    | inr bad ↦ absurd (ground (arith, e, bad))
  ]

  pub after-expect_output :
      (context : Text) (r : Result Output) (s : Daemon)
      → (after (expect_output context r s) k).0 ≡ done tt
      → (out : Output) × (r ≡ ok out) × (after (expect_output context r s) k ≡ k tt s)
  unfolding expect_output
  after-expect_output context (err x) s e = absurd (ground (arith, e))
  after-expect_output context (ok out) s e = (out, refl, refl)

after-found :
    (env : Env) (k : Text → Program Daemon (Unit {0})) (stdout : Text) (i : Option Text)
    (s : Daemon)
    → (after (found env stdout i s) k).0 ≡ done tt
    → (iface : Text) × (i ≡ some iface) × (after (found env stdout i s) k ≡ k iface s)
unfolding found
after-found env k stdout none s e = absurd (ground (arith, e))
after-found env k stdout (some iface) s e = (iface, refl, refl)

pub after-routed :
    (env : Env) (k : Text → Program Daemon (Unit {0})) (r : Result Output) (s : Daemon)
    → (after (routed env r s) k).0 ≡ done tt
    → (out : Output) × (iface : Text) × (r ≡ ok out)
      × (out.success ≡ true)
      × (iface_in (Text.split_whitespace out.stdout) ≡ some iface)
      × (after (routed env r s) k ≡ k iface s)
unfolding routed
after-routed env k (err x) s e = absurd (ground (arith, e))
after-routed env k (ok out) s e = elim (Bool-cases out.success) [
  | inl good ↦
      let scanned = iface_in (Text.split_whitespace out.stdout) in
      let same : routed env (ok out) s ≡ found env out.stdout scanned s = rw good refl in
      let (iface, i, go) =
        after-found env k out.stdout scanned s (sym (ap (λ r. (after r k).0) same) ∙ e) in
      (out, iface, refl, good, i, ap (λ r. after r k) same ∙ go)
  | inr bad ↦ absurd (ground (arith, e, bad))
]

pub flushed_ok :
    (context : Text) (args : List Text) (r : Result Output) (s : Daemon)
    → (expect_output context r (log (ran resolvectl args r) s)).0 ≡ done tt
    → (out : Output) × ((expect_output context r (log (ran resolvectl args r) s)).1.trace
        ≡ ran resolvectl args (ok out) ∷ s.trace)
unfolding expect_output
flushed_ok context args (err x) s e = absurd (ground (arith, e))
flushed_ok context args (ok out) s e = (out, refl)
