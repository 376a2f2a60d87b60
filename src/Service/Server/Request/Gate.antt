-- ===== src/Service/Server/Request/Gate.antt =====
-- Which requests reach their command.
use sc_helper.Prelude.{
  ℕ, ◌+◌, ◌%◌, ◌^◌, ◌≤◌, ◌<◌, ◌≡◌, ◌≢◌, refl, ap, ◌∙◌, true, some, Bool-cases, inl, inr, arith,
}
use sc_helper.Ipc.{Request, replay_window_nanos}
use sc_helper.Ipc.Fresh.{now_nanos, fresh_at, fresh_at_iff}
use sc_helper.Ipc.Hmac.{signed_message, verify_hmac}
use sc_helper.Ipc.Hmac.Laws.{verify_hmac_iff}
use sc_helper.Ipc.Libraries.{IsLawful}
use sc_helper.Service.Os.{read_clock, Env}
use sc_helper.Service.State.{Daemon, log}
use sc_helper.Service.Server.Request.{
  Build, ipc_secret, dispatch, timestamp_fresh, answer, handle_request,
}

module _ (build : Build) (env : Env) (r : Request) (s : Daemon) (n : ℕ)
    (at : env.clock s.trace ≡ some n) where
  handle_request-answer :
      handle_request build env r s
      ≡ answer build env r (fresh_at (n % 2 ^ 64) r.timestamp_nanos) (log (read_clock (some n)) s)
  unfolding handle_request timestamp_fresh now_nanos
  handle_request-answer = rw at

  -- While the clock's reading fits 64 bits, a request that comes within 30 s of its timestamp and
  -- passes `verify_hmac` is carried out, whatever was requested before: one that was accepted once
  -- is accepted again, within the window.
  pub handle_request_accepted :
      n < 2 ^ 64
      → n ≤ r.timestamp_nanos + replay_window_nanos
      → r.timestamp_nanos ≤ n + replay_window_nanos
      → verify_hmac build.lib ipc_secret r ≡ true
      → handle_request build env r s ≡ dispatch build env r.command (log (read_clock (some n)) s)
  unfolding answer
  handle_request_accepted h late early v =
      let small : n % 2 ^ 64 ≡ n = omega arith in
      let fresh : fresh_at n r.timestamp_nanos ≡ true =
        (fresh_at_iff n r.timestamp_nanos).1 (late, early) in
      handle_request-answer ∙ rw small (rw fresh (rw v refl))

  -- With lawful libraries, and a clock whose reading fits 64 bits, a request that changes anything
  -- but the record of that reading carries, under the secret, the MAC of its own timestamp and
  -- command, and comes within 30 s of its timestamp.
  pub effect_needs_mac :
      IsLawful build.lib
      → n < 2 ^ 64
      → (handle_request build env r s).1 ≢ log (read_clock (some n)) s
      → (build.lib.hex_decode r.hmac
          ≡ some (
              build.lib.hmac_sha256 ipc_secret
                (signed_message build.lib r.timestamp_nanos r.command)))
        × (n ≤ r.timestamp_nanos + replay_window_nanos)
        × (r.timestamp_nanos ≤ n + replay_window_nanos)
  unfolding answer
  effect_needs_mac L h changed =
      let small : n % 2 ^ 64 ≡ n = omega arith in
      elim (Bool-cases (fresh_at n r.timestamp_nanos)) [
        | inr stale ↦
            absurd (changed (ap (λ p. p.1) handle_request-answer ∙ rw small (rw stale refl)))
        | inl fresh ↦
            let window = (fresh_at_iff n r.timestamp_nanos).0 fresh in
            elim (Bool-cases (verify_hmac build.lib ipc_secret r)) [
              | inr bad ↦ absurd (
                  changed (ap (λ p. p.1) handle_request-answer ∙ rw small (rw fresh (rw bad refl))))
              | inl good ↦ ((verify_hmac_iff build.lib L ipc_secret r).0 good, window.0, window.1)
            ]
      ]
