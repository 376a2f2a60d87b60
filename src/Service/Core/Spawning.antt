-- ===== src/Service/Core/Spawning.antt =====
-- `is_running`, `start` and `stop` keep the invariant.
use sc_helper.Prelude.{ℕ, zero, suc, ◌≡◌, refl, Bool, Option, none, some, [], ◌∷◌, Text, arith}
use sc_helper.Prelude.Program.{Outcome, IsSettled, after}
use sc_helper.Service.Os.{Target, still_running, slept, tick, tried, Env, IsLawfulOs}
use sc_helper.Service.State.{Daemon, log}
use sc_helper.Service.Core.{
  start, start_unless, start_idle, stop_loop, request_end, await_end, stop_child, stop,
}
use sc_helper.Service.Core.Probe.{Probe, idle, alive, gone, lost, is_running-Probe}
use sc_helper.Service.Core.Launch.{
  Launch, no_binary, no_dir, no_config, no_log, no_clone, no_spawn, no_pid, launched,
  start_idle-Launch,
}
use sc_helper.Service.Core.Stopping.{stop_child_total}
use sc_helper.Service.Core.Tracking.{outstanding, remove_only, checked, AreJustified, IsSound}

module _ (P : Text → Type 0) (env : Env) where
  Probe-IsSound :
      {s : Daemon} {r : Outcome Bool × Daemon} → Probe env s r → IsSound P s → IsSound P r.1
  unfolding outstanding AreJustified
  Probe-IsSound (idle e) h = h
  Probe-IsSound (alive c e w) h = record { tracked = h.tracked; justified = h.justified }
  Probe-IsSound (gone c e w) h = ground (arith, remove_only c)
  Probe-IsSound (lost c x e w) h = ground (arith, remove_only c)

  module _ (L : IsLawfulOs env) (p d f l : Text) (allowed : P p) where
    Launch-IsSound :
        {s : Daemon} {r : Outcome ℕ × Daemon}
        → Launch env p d f l s r
        → s.supervisor.child ≡ none
        → IsSound P s
        → IsSound P r.1
    unfolding outstanding AreJustified
    Launch-IsSound (no_binary _) e h = record { tracked = h.tracked; justified = h.justified }
    Launch-IsSound (no_dir _) e h = record { tracked = h.tracked; justified = h.justified }
    Launch-IsSound (no_config _) e h = record { tracked = h.tracked; justified = h.justified }
    Launch-IsSound (no_log _) e h = record { tracked = h.tracked; justified = h.justified }
    Launch-IsSound (no_clone _) e h = record { tracked = h.tracked; justified = h.justified }
    Launch-IsSound {s} (no_spawn x) e h = record {
      tracked = h.tracked;
      justified = (checked d f s.trace allowed refl refl (ground arith), h.justified);
    }
    Launch-IsSound {s} (no_pid c i) e h = absurd (L.spawned_id _ _ _ _ _ i)
    Launch-IsSound {s} (launched c pid _) e h = record {
      tracked = ground arith;
      justified = (checked d f s.trace allowed refl refl (ground arith), h.justified);
    }

    start_idle-IsSound :
        {s : Daemon}
        → s.supervisor.child ≡ none
        → IsSound P s
        → IsSound P (start_idle env p d f l s).1
    start_idle-IsSound {s} = Launch-IsSound (start_idle-Launch env p d f l s)

    after-Probe-IsSound :
        {s : Daemon} {r : Outcome Bool × Daemon}
        → Probe env s r
        → IsSound P s
        → IsSound P (after r (start_unless env p d f l)).1
    unfolding start_unless
    after-Probe-IsSound (idle e) h = start_idle-IsSound e h
    after-Probe-IsSound (alive c e w) h = Probe-IsSound (alive c e w) h
    after-Probe-IsSound (gone c e w) h = start_idle-IsSound refl (Probe-IsSound (gone c e w) h)
    after-Probe-IsSound (lost c x e w) h = start_idle-IsSound refl (Probe-IsSound (lost c x e w) h)

    -- Where the system knows the id of a child that it has just spawned, `start` of an allowed
    -- program keeps the invariant: the supervisor holds the one child that is outstanding, if one
    -- is, and each spawn was of an allowed program, for files just found, while no child was
    -- outstanding.
    pub start-IsSound : (s : Daemon) → IsSound P s → IsSound P (start env p d f l s).1
    unfolding start
    start-IsSound s h = after-Probe-IsSound (is_running-Probe env s) h

  -- A run of the loop that ends has seen the child end, and leaves the handle alone.
  stop_loop-IsSound :
      (polls deadline c : ℕ) (s : Daemon)
      → s.supervisor.child ≡ none
      → outstanding s.trace ≡ c ∷ []
      → AreJustified P s.trace
      → IsSettled (stop_loop env polls deadline c s).0
      → IsSound P (stop_loop env polls deadline c s).1
  unfolding stop_loop outstanding AreJustified
  stop_loop-IsSound zero deadline c s n o j e = absurd e
  stop_loop-IsSound (suc k) deadline c s n o j e =
      let polled = log (tried c still_running) s in
      let ticked = log (tick (env.instant polled.trace)) polled in
      ground (
        arith,
        remove_only c,
        stop_loop-IsSound k deadline c (log (slept (env.instant polled.trace) 100) ticked),
      )

  await_end-IsSound :
      (c : ℕ) (s : Daemon)
      → s.supervisor.child ≡ none
      → outstanding s.trace ≡ c ∷ []
      → AreJustified P s.trace
      → IsSettled (await_end env c s).0
      → IsSound P (await_end env c s).1
  unfolding await_end outstanding AreJustified
  await_end-IsSound c s n o j e =
      stop_loop-IsSound 51 _ c (log (tick (env.instant s.trace)) s) n o j e

  stop_child-IsSound :
      (target : Target) (child : Option ℕ) (s : Daemon)
      → s.supervisor.child ≡ child
      → IsSound P s
      → IsSettled (stop_child env target child s).0
      → IsSound P (stop_child env target child s).1
  unfolding stop_child request_end outstanding AreJustified
  stop_child-IsSound target none s e h ends = h
  stop_child-IsSound target (some c) s e h ends = grind (arith, await_end-IsSound)

  -- On a lawful system `stop` keeps the same invariant: it gives up the child only when the child
  -- has been waited for, or when that has failed.
  pub stop-IsSound :
      (L : IsLawfulOs env) (target : Target) (s : Daemon)
      → IsSound P s
      → IsSound P (stop env target s).1
  unfolding stop
  stop-IsSound L target s h =
      stop_child-IsSound target s.supervisor.child s refl h
        (stop_child_total env L target s.supervisor.child s)
