-- ===== src/Service/Core/Started.antt =====
-- What a success of `start` means, and what a failure leaves.
use sc_helper.Prelude.{ℕ, ◌≡◌, refl, Bool, true, false, ap, ◌∙◌, some, ◌∷◌, Text, arith}
use sc_helper.Prelude.Program.{ok, Outcome, done, failed, after}
use sc_helper.Std.Path.{is_absolute, join, join_absolute}
use sc_helper.Service.Os.{spawned, asked_id, Env}
use sc_helper.Service.State.{Daemon}
use sc_helper.Service.Core.{mihomo_args, is_running, start, start_unless}
use sc_helper.Service.Core.Probe.{Probe, idle, alive, gone, lost, is_running-Probe}
use sc_helper.Service.Core.Launch.{
  Launch, no_binary, no_dir, no_config, no_log, no_clone, no_spawn, no_pid, launched,
  start_idle-Launch,
}
use sc_helper.Service.Core.Tracking.{checks}

module _ (env : Env) (p d f l : Text) where
  -- From `before`, the checks answered yes, then one child was spawned that has this pid, and it is
  -- the one held.
  abbrev pub IsStarted : (before after : Daemon) → ℕ → Type 0
  IsStarted before after pid =
      (c : ℕ) × (after.supervisor.child ≡ some c)
      × (after.trace
          ≡ asked_id c (some pid)
            ∷ spawned p (mihomo_args d (join d f)) l (ok c)
            ∷ checks p d f l before.trace)

  Launch-done :
      {s : Daemon} {r : Outcome ℕ × Daemon} {pid : ℕ}
      → Launch env p d f l s r
      → r.0 ≡ done pid
      → IsStarted s r.1 pid
  Launch-done (no_binary _) h = absurd (ground (arith, h))
  Launch-done (no_dir _) h = absurd (ground (arith, h))
  Launch-done (no_config _) h = absurd (ground (arith, h))
  Launch-done (no_log _) h = absurd (ground (arith, h))
  Launch-done (no_clone _) h = absurd (ground (arith, h))
  Launch-done (no_spawn x) h = absurd (ground (arith, h))
  Launch-done (no_pid c i) h = absurd (ground (arith, h))
  Launch-done (launched c pid e) h = (c, refl, ground (arith, h))

  after-Probe-done :
      {s : Daemon} {r : Outcome Bool × Daemon} {pid : ℕ}
      → Probe env s r
      → (after r (start_unless env p d f l)).0 ≡ done pid
      → (r.0 ≡ done false) × IsStarted r.1 (after r (start_unless env p d f l)).1 pid
  unfolding start_unless
  after-Probe-done {s} (idle e) h = (refl, Launch-done (start_idle-Launch env p d f l s) h)
  after-Probe-done (alive c e w) h = absurd (ground (arith, h))
  after-Probe-done (gone c e w) h = (refl, Launch-done (start_idle-Launch env p d f l _) h)
  after-Probe-done (lost c x e w) h = (refl, Launch-done (start_idle-Launch env p d f l _) h)

  -- Where `start` returns a pid, `is_running` found nothing running, and then, in this order: the
  -- binary, the directory, and the configuration file in it were found, the log file was opened and
  -- its handle cloned, one child was spawned with mihomo's arguments, and the child, of that pid,
  -- is held.
  pub start_done :
      (s : Daemon) (pid : ℕ)
      → (start env p d f l s).0 ≡ done pid
      → ((is_running env s).0 ≡ done false)
        × IsStarted (is_running env s).1 (start env p d f l s).1 pid
  unfolding start
  start_done s pid h = after-Probe-done (is_running-Probe env s) h

  Launch-failed :
      {s : Daemon} {r : Outcome ℕ × Daemon} {e : Text}
      → Launch env p d f l s r
      → r.0 ≡ failed e
      → r.1.supervisor.child ≡ s.supervisor.child
  Launch-failed (no_binary _) h = refl
  Launch-failed (no_dir _) h = refl
  Launch-failed (no_config _) h = refl
  Launch-failed (no_log _) h = refl
  Launch-failed (no_clone _) h = refl
  Launch-failed (no_spawn x) h = refl
  Launch-failed (no_pid c i) h = refl
  Launch-failed (launched c pid e) h = absurd (ground (arith, h))

  after-Probe-failed :
      {s : Daemon} {r : Outcome Bool × Daemon} {e : Text}
      → Probe env s r
      → (after r (start_unless env p d f l)).0 ≡ failed e
      → (after r (start_unless env p d f l)).1.supervisor.child ≡ r.1.supervisor.child
  unfolding start_unless
  after-Probe-failed {s} (idle e) h = Launch-failed (start_idle-Launch env p d f l s) h
  after-Probe-failed (alive c e w) h = refl
  after-Probe-failed (gone c e w) h = Launch-failed (start_idle-Launch env p d f l _) h
  after-Probe-failed (lost c x e w) h = Launch-failed (start_idle-Launch env p d f l _) h

  -- Where `start` fails, the supervisor holds what `is_running` left it.
  pub start_failed :
      (s : Daemon) (e : Text)
      → (start env p d f l s).0 ≡ failed e
      → (start env p d f l s).1.supervisor.child ≡ (is_running env s).1.supervisor.child
  unfolding start
  start_failed s e h = after-Probe-failed (is_running-Probe env s) h

  -- Where `start` of an absolute configuration file returns a pid, mihomo was spawned with that
  -- file, wherever it lies: the directory is not put in front of it.
  pub start_absolute :
      (s : Daemon) (pid : ℕ)
      → is_absolute f ≡ true
      → (start env p d f l s).0 ≡ done pid
      → (c : ℕ) × ((start env p d f l s).1.trace
          ≡ asked_id c (some pid)
            ∷ spawned p (mihomo_args d f) l (ok c)
            ∷ checks p d f l (is_running env s).1.trace)
  start_absolute s pid h e =
      let (c, _, t) = (start_done s pid e).1 in
      let joined = join_absolute d f h in
      (
        c,
        t
            ∙ ap
                (λ q.
                  asked_id c (some pid)
                  ∷ spawned p (mihomo_args d q) l (ok c)
                  ∷ checks p d f l (is_running env s).1.trace)
                joined,
      )
