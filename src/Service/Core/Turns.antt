-- ===== src/Service/Core/Turns.antt =====
-- src/service/core.rs: `stop` as an asynchronous program. A turn is a system call here, so that it
-- is left for others at each await of the code, and elsewhere too. `start` has no await, and is one
-- turn.
use sc_helper.Prelude.{
  ap, sym, ℕ, zero, suc, ◌+◌, ◌≡◌, refl, ◌∙◌, Option, none, some, leb, if◌then◌else◌, arith,
}
use sc_helper.Prelude.Program.{Program, done, failed, stuck, after}
use sc_helper.Prelude.Async.{Async, over, sync, alone, alone-on_value, pure, ◌>>=◌, ◌>>◌, IsAlone}
use sc_helper.Service.Os.{
  Target, TryWait, exited, still_running, wait_failed, tried, slept, tick, Env,
}
use sc_helper.Service.State.{Daemon, log, instant, try_wait, sleep_ms, start_kill, wait}
use sc_helper.Service.Core.{
  max_polls, grace_nanos, poll_ms, stop_loop, request_end, await_end, stop_child, stop,
}

-- `self.child.take()`
abbrev pub take_child : Program Daemon (Option ℕ)
take_child s = (done s.supervisor.child, record s { supervisor = record { child = none } })

module _ (env : Env) where
  -- The end of a round of the loop of `stop`, with the rounds after it.
  unfoldable pub patient :
      Async Daemon (Unit {0}) → (deadline child now : ℕ) → Async Daemon (Unit {0})
  patient again deadline child now =
      if leb deadline now
      then (do sync (start_kill child); sync (wait child))
      else (do sync (sleep_ms now poll_ms); again)

  unfoldable pub after_poll :
      Async Daemon (Unit {0}) → (deadline child : ℕ) → TryWait → Async Daemon (Unit {0})
  after_poll again deadline child exited = pure tt
  after_poll again deadline child still_running = do
    now ← sync (instant env)
    patient again deadline child now
  after_poll again deadline child (wait_failed e) = over (failed e)

  -- The loop, with the number of polls left.
  unfoldable pub poll_child : (polls deadline child : ℕ) → Async Daemon (Unit {0})
  poll_child zero deadline child = over stuck
  poll_child (suc polls) deadline child = do
    r ← sync (try_wait env child)
    after_poll (poll_child polls deadline child) deadline child r

  unfoldable pub end_child : Target → Option ℕ → Async Daemon (Unit {0})
  end_child target none = pure tt
  end_child target (some child) = do
    sync (request_end env target child)
    now ← sync (instant env)
    poll_child max_polls (now + grace_nanos) child

  unfoldable pub stop_turns : Target → Async Daemon (Unit {0})
  stop_turns target = do child ← sync take_child; end_child target child

  alone-poll_child :
      (k deadline c : ℕ) (s : Daemon)
      → alone (poll_child k deadline c) s ≡ stop_loop env k deadline c s
  unfolding poll_child after_poll patient stop_loop
  alone-poll_child zero deadline c s = refl
  alone-poll_child (suc k) deadline c s =
      let polled = log (tried c still_running) s in
      let now = env.instant polled.trace in
      ground (arith, alone-poll_child k deadline c (log (slept now 100) (log (tick now) polled)))

  alone-await :
      (child : ℕ) (s : Daemon)
      → alone (sync (instant env) >>= λ now. poll_child max_polls (now + grace_nanos) child) s
        ≡ await_end env child s
  unfolding await_end
  alone-await child s = alone-poll_child max_polls _ child _

  alone-end_child :
      (target : Target) (child : Option ℕ) (s : Daemon)
      → s.supervisor.child ≡ child
      → alone (end_child target child) (record s { supervisor = record { child = none } })
        ≡ stop_child env target child s
  unfolding end_child stop_child
  alone-end_child target none s e =
      ap (λ c. (done tt, record s { supervisor = record { child = c } })) (sym e)
  alone-end_child target (some c) s e =
      let asked = request_end env target c (record s { supervisor = record { child = none } }) in
      alone-on_value asked
        (λ _. sync (instant env) >>= λ now. poll_child max_polls (now + grace_nanos) c)
      ∙ (λ i. after asked (λ _ d. alone-await c d i))

  -- Alone, that is `stop`.
  alone-stop_turns :
      (target : Target) (s : Daemon) → alone (stop_turns target) s ≡ stop env target s
  unfolding stop_turns stop
  alone-stop_turns target s = alone-end_child target s.supervisor.child s refl

  pub stop-IsAlone : (target : Target) → IsAlone (stop_turns target) (stop env target)
  stop-IsAlone target = record { apply = alone-stop_turns target }
