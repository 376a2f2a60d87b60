-- ===== src/Service/Core/Steady.antt =====
-- Conditions on the daemon that the supervisor keeps, since it does not touch the socket or the
-- shutdown channel.
use sc_helper.Prelude.{
  ℕ, arith, zero, suc, ◌≡◌, refl, Bool, true, false, Option, none, some, Text, Bool-cases, inl, inr,
}
use sc_helper.Prelude.Program.{Outcome, after}
use sc_helper.Service.Os.{
  Target, still_running, Event, read_override, existed, removed, bound, permitted, opened_log,
  cloned_log, asked_id, tried, tick, slept, killed, reaped, terminated, Env,
}
use sc_helper.Service.State.{Daemon, log}
use sc_helper.Service.Core.{
  is_unix, max_polls, start_unless, start, stop_loop, send_sigterm, request_end, await_end,
  stop_child, stop,
}
use sc_helper.Service.Core.Probe.{Probe, idle, alive, gone, lost, is_running-Probe}
use sc_helper.Service.Core.Launch.{
  Launch, no_binary, no_dir, no_config, no_log, no_clone, no_spawn, no_pid, launched,
  start_idle-Launch,
}

abbrev pub is_of_socket : Event → Bool
is_of_socket (read_override o) = true
is_of_socket (existed p b) = true
is_of_socket (removed p r) = true
is_of_socket (bound p r) = true
is_of_socket (permitted p mode r) = true
is_of_socket _ = false

-- Kept by a call that has nothing to do with the socket, and by a change of the supervisor's child.
pub record IsSteady (I : Daemon → Type 0) : Type 0 where
  pub logs : (e : Event) (s : Daemon) → is_of_socket e ≡ false → I s → I (log e s)
  pub holds : (c : Option ℕ) (s : Daemon) → I s → I (record s { supervisor = record { child = c } })

module _ (env : Env) {I : Daemon → Type 0} (K : IsSteady I) where
  Probe-IsSteady : {s : Daemon} {r : Outcome Bool × Daemon} → Probe env s r → I s → I r.1
  Probe-IsSteady (idle e) h = h
  Probe-IsSteady (alive c e w) h = K.logs _ _ refl h
  Probe-IsSteady (gone c e w) h = K.holds none _ (K.logs _ _ refl h)
  Probe-IsSteady (lost c x e w) h = K.holds none _ (K.logs _ _ refl h)

  module _ (p d f l : Text) where
    checked-IsSteady : (s : Daemon) → I s → I (log (cloned_log l true) (log (opened_log l true) s))
    checked-IsSteady s h = K.logs _ _ refl (K.logs _ _ refl h)

    Launch-IsSteady : {s : Daemon} {r : Outcome ℕ × Daemon} → Launch env p d f l s r → I s → I r.1
    Launch-IsSteady (no_binary _) h = K.logs _ _ refl h
    Launch-IsSteady (no_dir _) h = K.logs _ _ refl (K.logs _ _ refl h)
    Launch-IsSteady (no_config _) h = K.logs _ _ refl (K.logs _ _ refl (K.logs _ _ refl h))
    Launch-IsSteady (no_log _) h =
        K.logs _ _ refl (K.logs _ _ refl (K.logs _ _ refl (K.logs _ _ refl h)))
    Launch-IsSteady (no_clone _) h =
        K.logs _ _ refl (K.logs _ _ refl (K.logs _ _ refl (K.logs _ _ refl (K.logs _ _ refl h))))
    Launch-IsSteady (no_spawn x) h =
        K.logs _ _ refl (checked-IsSteady _ (K.logs _ _ refl (K.logs _ _ refl (K.logs _ _ refl h))))
    Launch-IsSteady (no_pid c i) h = K.logs _ _ refl (
        K.logs _ _ refl
          (checked-IsSteady _ (K.logs _ _ refl (K.logs _ _ refl (K.logs _ _ refl h)))))
    Launch-IsSteady (launched c pid e) h = K.holds (some c) _ (
        K.logs _ _ refl (
          K.logs _ _ refl
            (checked-IsSteady _ (K.logs _ _ refl (K.logs _ _ refl (K.logs _ _ refl h))))))

    after-Probe-IsSteady :
        {s : Daemon} {r : Outcome Bool × Daemon}
        → Probe env s r
        → I s
        → I (after r (start_unless env p d f l)).1
    unfolding start_unless
    after-Probe-IsSteady {s} (idle e) h = Launch-IsSteady (start_idle-Launch env p d f l s) h
    after-Probe-IsSteady (alive c e w) h = Probe-IsSteady (alive c e w) h
    after-Probe-IsSteady (gone c e w) h =
        Launch-IsSteady (start_idle-Launch env p d f l _) (Probe-IsSteady (gone c e w) h)
    after-Probe-IsSteady (lost c x e w) h =
        Launch-IsSteady (start_idle-Launch env p d f l _) (Probe-IsSteady (lost c x e w) h)

    pub start-IsSteady : (s : Daemon) → I s → I (start env p d f l s).1
    unfolding start
    start-IsSteady s h = after-Probe-IsSteady (is_running-Probe env s) h

  stop_loop-IsSteady : (k deadline c : ℕ) (s : Daemon) → I s → I (stop_loop env k deadline c s).1
  unfolding stop_loop
  stop_loop-IsSteady zero deadline c s h = h
  stop_loop-IsSteady (suc k) deadline c s h =
      let polled = log (tried c still_running) s in
      let ticked = log (tick (env.instant polled.trace)) polled in
      let ticked_keeps =
        K.logs (tick (env.instant polled.trace)) polled refl
          (K.logs (tried c still_running) s refl h) in
      ground (
        arith,
        K.logs (tried c (env.try_wait s.trace c)) s refl h,
        K.logs (reaped c) (log (killed c) ticked) refl (K.logs (killed c) ticked refl ticked_keeps),
        stop_loop-IsSteady k deadline c (log (slept (env.instant polled.trace) 100) ticked)
            (K.logs (slept (env.instant polled.trace) 100) ticked refl ticked_keeps),
      )

  await_end-IsSteady : (c : ℕ) (s : Daemon) → I s → I (await_end env c s).1
  unfolding await_end
  await_end-IsSteady c s h =
      stop_loop-IsSteady max_polls _ c (log (tick (env.instant s.trace)) s) (K.logs _ s refl h)

  asked-IsSteady :
      (c : ℕ) (pid : Option ℕ) (s : Daemon)
      → I s
      → I (after (send_sigterm env pid s) (λ _. await_end env c)).1
  unfolding send_sigterm
  asked-IsSteady c none s h = await_end-IsSteady c s h
  asked-IsSteady c (some pid) s h = await_end-IsSteady c _ (K.logs (terminated pid) s refl h)

  requested-IsSteady :
      (target : Target) (c : ℕ) (s : Daemon)
      → I s
      → I (after (request_end env target c s) (λ _. await_end env c)).1
  unfolding request_end
  requested-IsSteady target c s h = elim (Bool-cases (is_unix target)) [
    | inl e ↦ rw e (
        asked-IsSteady c (env.child_id s.trace c) (log (asked_id c (env.child_id s.trace c)) s)
          (K.logs _ s refl h))
    | inr e ↦ rw e (await_end-IsSteady c _ (K.logs (killed c) s refl h))
  ]

  stop_child-IsSteady :
      (target : Target) (child : Option ℕ) (s : Daemon) → I s → I (stop_child env target child s).1
  unfolding stop_child
  stop_child-IsSteady target none s h = h
  stop_child-IsSteady target (some c) s h = requested-IsSteady target c _ (K.holds none s h)

  pub stop-IsSteady : (target : Target) (s : Daemon) → I s → I (stop env target s).1
  unfolding stop
  stop-IsSteady target s h = stop_child-IsSteady target s.supervisor.child s h

  sigterm-IsSteady : (pid : Option ℕ) (s : Daemon) → I s → I (send_sigterm env pid s).1
  unfolding send_sigterm
  sigterm-IsSteady none s h = h
  sigterm-IsSteady (some pid) s h = K.logs (terminated pid) s refl h

  pub request_end-IsSteady :
      (target : Target) (c : ℕ) (s : Daemon) → I s → I (request_end env target c s).1
  unfolding request_end
  request_end-IsSteady target c s h = elim (Bool-cases (is_unix target)) [
    | inl e ↦ rw e (
        sigterm-IsSteady (env.child_id s.trace c) (log (asked_id c (env.child_id s.trace c)) s)
          (K.logs _ s refl h))
    | inr e ↦ rw e (K.logs (killed c) s refl h)
  ]
