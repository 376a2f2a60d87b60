-- ===== src/Service/Core/Patience.antt =====
-- `stop` kills only a child that was given its time.
use sc_helper.Prelude.{ℕ, zero, suc, ◌+◌, ◌≤◌, ◌≢◌, Option, none, some, ◌∷◌, [], arith}
use sc_helper.Service.Os.{
  Target, windows, still_running, tick, slept, tried, killed, asked_id, time_floor, Trace, Env,
  IsLawfulOs,
}
use sc_helper.Service.State.{Daemon, log}
use sc_helper.Service.Core.{grace_nanos, stop_loop, request_end, await_end, stop_child, stop}

-- The clock when a child's id was last asked for, which is when SIGTERM is sent.
unfoldable pub asked_at : Trace → ℕ
asked_at [] = 0
asked_at (asked_id _ _ ∷ t) = time_floor t
asked_at (_ ∷ t) = asked_at t

-- The child was just seen running, and the clock then read 5 s more than when its id was asked for.
pub data IsOverdue (c : ℕ) : Trace → Type 0 where
  overdue :
      (now : ℕ) (t : Trace)
      → asked_at t + grace_nanos ≤ now
      → IsOverdue c (tick now ∷ tried c still_running ∷ t)

-- Each kill of a trace was of such a child.
unfoldable pub IsPatient : Trace → Type 0
IsPatient [] = Unit
IsPatient (killed c ∷ t) = IsOverdue c t × IsPatient t
IsPatient (_ ∷ t) = IsPatient t

module _ (env : Env) where
  stop_loop-IsPatient :
      (polls deadline c : ℕ) (s : Daemon)
      → asked_at s.trace + grace_nanos ≤ deadline
      → IsPatient s.trace
      → IsPatient (stop_loop env polls deadline c s).1.trace
  unfolding stop_loop asked_at IsPatient
  stop_loop-IsPatient zero deadline c s h p = p
  stop_loop-IsPatient (suc k) deadline c s h p =
      let polled = log (tried c still_running) s in
      let now = env.instant polled.trace in
      let ticked = log (tick now) polled in
      let late : deadline ≤ now → IsOverdue c ticked.trace =
        λ d. overdue now s.trace (omega (arith, h, d)) in
      ground (arith, p, late, stop_loop-IsPatient k deadline c (log (slept now 100) ticked) h p)

  module _ (L : IsLawfulOs env) where
    await_end-IsPatient :
        (c : ℕ) (s : Daemon)
        → asked_at s.trace ≤ time_floor s.trace
        → IsPatient s.trace
        → IsPatient (await_end env c s).1.trace
    unfolding await_end asked_at IsPatient
    await_end-IsPatient c s h p =
        let now = env.instant s.trace in
        stop_loop-IsPatient 51 (now + grace_nanos) c (log (tick now) s)
          (omega (arith, h, L.monotonic s.trace)) p

    stop_child-IsPatient :
        (target : Target) (child : Option ℕ) (s : Daemon)
        → target ≢ windows
        → IsPatient s.trace
        → IsPatient (stop_child env target child s).1.trace
    unfolding stop_child request_end asked_at time_floor IsPatient
    stop_child-IsPatient target none s unix p = p
    stop_child-IsPatient target (some c) s unix p = grind (arith, await_end-IsPatient)

    -- On Unix, where the monotonic clock is lawful, `stop` kills only a child that it has just seen
    -- running, 5 s or more after it asked for the child's id to send SIGTERM.
    pub stop-IsPatient :
        (target : Target) (s : Daemon)
        → target ≢ windows
        → IsPatient s.trace
        → IsPatient (stop env target s).1.trace
    unfolding stop
    stop-IsPatient target s = stop_child-IsPatient target s.supervisor.child s
