-- ===== src/Service/Core/Stopping.antt =====
-- `stop` ends: its loop polls at most 51 times.
use sc_helper.Prelude.{ℕ, zero, suc, ◌+◌, ◌*◌, ◌≤◌, ◌≡◌, refl, Option, none, some, ◌∷◌, arith}
use sc_helper.Prelude.Program.{IsSettled}
use sc_helper.Service.Os.{Target, still_running, tick, slept, tried, time_floor, Env, IsLawfulOs}
use sc_helper.Service.State.{Daemon, log}
use sc_helper.Service.Core.{stop_loop, request_end, await_end, stop_child, stop}

module _ (env : Env) (L : IsLawfulOs env) where
  stop_loop_total :
      (k deadline c : ℕ) (s : Daemon)
      → deadline ≤ time_floor s.trace + k * 100_000_000
      → IsSettled (stop_loop env (suc k) deadline c s).0
  unfolding stop_loop time_floor
  stop_loop_total zero deadline c s h =
      ground (arith, L.monotonic (tried c still_running ∷ s.trace))
  stop_loop_total (suc k) deadline c s h = ground (
    arith,
    L.monotonic (tried c still_running ∷ s.trace),
    stop_loop_total k deadline c (
        log (slept (env.instant (tried c still_running ∷ s.trace)) 100) (
          log (tick (env.instant (tried c still_running ∷ s.trace)))
            (log (tried c still_running) s))),
  )

  await_end_total : (c : ℕ) (s : Daemon) → IsSettled (await_end env c s).0
  unfolding await_end time_floor
  await_end_total c s = stop_loop_total 50 _ c (log (tick (env.instant s.trace)) s) (omega arith)

  pub stop_child_total :
      (target : Target) (child : Option ℕ) (s : Daemon)
      → IsSettled (stop_child env target child s).0
  unfolding stop_child request_end
  stop_child_total target none s = tt
  stop_child_total target (some c) s = grind (arith, await_end_total)

  -- Where the monotonic clock is lawful, `stop` ends on every state, with `Ok` or an error, after
  -- at most 51 polls.
  pub stop_total : (target : Target) (s : Daemon) → IsSettled (stop env target s).0
  unfolding stop
  stop_total target s = stop_child_total target s.supervisor.child s

module _ (env : Env) where
  stop_loop_supervisor :
      (k deadline c : ℕ) (s : Daemon)
      → (stop_loop env k deadline c s).1.supervisor.child ≡ s.supervisor.child
  unfolding stop_loop
  stop_loop_supervisor zero deadline c s = refl
  stop_loop_supervisor (suc k) deadline c s =
      let ticked =
        log (tick (env.instant (tried c still_running ∷ s.trace)))
          (log (tried c still_running) s) in
      ground (
        arith,
        stop_loop_supervisor k deadline c
            (log (slept (env.instant (tried c still_running ∷ s.trace)) 100) ticked),
      )

  stop_child_releases :
      (target : Target) (child : Option ℕ) (s : Daemon)
      → s.supervisor.child ≡ child
      → (stop_child env target child s).1.supervisor.child ≡ none
  unfolding stop_child request_end await_end
  stop_child_releases target none s e = e
  stop_child_releases target (some c) s e = grind (arith, stop_loop_supervisor)

  -- `stop` leaves the supervisor without a child, whether it succeeds or fails.
  pub stop_releases : (target : Target) (s : Daemon) → (stop env target s).1.supervisor.child ≡ none
  unfolding stop
  stop_releases target s = stop_child_releases target s.supervisor.child s refl
