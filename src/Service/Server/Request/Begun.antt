-- ===== src/Service/Server/Request/Begun.antt =====
-- `start` keeps the contract.
use sc_helper.Prelude.{
  ℕ, ◌≡◌, refl, ap, true, false, inl, inr, ◌⊎◌, Bool, none, some, Text, codes, Bool-cases,
  if◌then◌else◌,
}
use sc_helper.Prelude.Program.{Outcome, done, failed, panicked, stuck, after, caught, pure}
use sc_helper.Std.Text.{contains}
use sc_helper.Ipc.{
  Command, start_mihomo, ErrorCode, already_running, spawn_failed, Response, started, error,
}
use sc_helper.Service.Os.{Env}
use sc_helper.Service.State.{Daemon}
use sc_helper.Service.Core.{already_running_message, start_unless, start}
use sc_helper.Service.Core.Probe.{Probe, idle, alive, gone, lost, is_running-Probe}
use sc_helper.Service.Core.Launch.{
  Launch, no_binary, no_dir, no_config, no_log, no_clone, no_spawn, no_pid, launched,
  start_idle-Launch,
}
use sc_helper.Service.Server.Request.{Build, start_response}
use sc_helper.Service.Server.Request.Contract.{
  Machine, view, runs_yet, Serves, runs_already, starts, start_fails,
}

module _ (build : Build) (running : Bool) where
  -- The command was answered, and served as the contract says.
  abbrev pub IsServed : Machine → Command → Outcome Response × Daemon → Type 0
  IsServed a c r =
      (response : Response) × ((r.0 ≡ done response) × Serves build running a c response (view r.1))

  start_code : (e : Text) → ErrorCode
  start_code e = if contains e (codes "already running") then already_running else spawn_failed

  start_code_cases : (e : Text) → (start_code e ≡ already_running) ⊎ (start_code e ≡ spawn_failed)
  unfolding start_code
  start_code_cases e = elim (Bool-cases (contains e (codes "already running"))) [
    | inl h ↦ inl (rw h refl)
    | inr h ↦ inr (rw h refl)
  ]

  -- How `start` ends, on the machine.
  unfoldable pub Begun : Machine → Outcome ℕ × Daemon → Type 0
  Begun a (done pid, s) = (running ≡ false) × ((c : ℕ) × (view s ≡ record a { child = some c }))
  Begun a (failed e, s) =
      ((running ≡ false) × (view s ≡ record a { child = none }))
      ⊎ ((e ≡ already_running_message)
          × (running ≡ true)
          × (view s ≡ a)
          × ((c : ℕ) × (a.child ≡ some c)))
  Begun a (panicked e, s) = ⊥
  Begun a (stuck, s) = ⊥

  pub Begun-IsServed :
      (a : Machine) (d f l : Text) (r : Outcome ℕ × Daemon)
      → Begun a r
      → IsServed a (start_mihomo d f l) (after (caught r) (λ x. pure (start_response x)))
  unfolding Begun start_response start_code
  Begun-IsServed a d f l (done pid, s) (none_runs, (c, h)) =
      (started pid, (refl, starts d f l c pid (view s) none_runs h))
  Begun-IsServed a d f l (failed e, s) (inl (none_runs, h)) = (
    error (start_code e) e,
    (refl, start_fails d f l (start_code e) e (view s) none_runs (start_code_cases e) h),
  )
  Begun-IsServed a d f l (failed e, s) (inr (m, runs, same, (c, held))) = (
    error already_running already_running_message,
    (rw m refl, runs_already d f l c (view s) held runs same),
  )
  Begun-IsServed a d f l (panicked e, s) h = absurd h
  Begun-IsServed a d f l (stuck, s) h = absurd h

module _ (build : Build) (env : Env) (p d f l : Text) where
  Launch-Begun :
      (a : Machine) {s : Daemon} {r : Outcome ℕ × Daemon} {running : Bool}
      → running ≡ false
      → view s ≡ record a { child = none }
      → Launch env p d f l s r
      → Begun build running a r
  unfolding Begun
  Launch-Begun a q h (no_binary _) = inl (q, h)
  Launch-Begun a q h (no_dir _) = inl (q, h)
  Launch-Begun a q h (no_config _) = inl (q, h)
  Launch-Begun a q h (no_log _) = inl (q, h)
  Launch-Begun a q h (no_clone _) = inl (q, h)
  Launch-Begun a q h (no_spawn x) = inl (q, h)
  Launch-Begun a q h (no_pid c i) = inl (q, h)
  Launch-Begun a q h (launched c pid e) =
      (q, (c, ap (λ (m : Machine). record m { child = some c }) h))

  -- Whether the child runs, as the system says when it is asked.
  abbrev runs_in : Daemon → Bool
  runs_in s = runs_yet env s.trace s.supervisor.child

  Probe-Begun :
      {s : Daemon} {r : Outcome Bool × Daemon}
      → Probe env s r
      → Begun build (runs_in s) (view s) (after r (start_unless env p d f l))
  unfolding start_unless Begun runs_yet
  Probe-Begun {s} (idle e) =
      Launch-Begun (view s) (rw e refl) (ap (λ c. record (view s) { child = c }) e)
        (start_idle-Launch env p d f l s)
  Probe-Begun (alive c e w) = inr (refl, rw e (rw w refl), refl, (c, e))
  Probe-Begun {s} (gone c e w) =
      Launch-Begun (view s) (rw e (rw w refl)) refl (start_idle-Launch env p d f l _)
  Probe-Begun {s} (lost c x e w) =
      Launch-Begun (view s) (rw e (rw w refl)) refl (start_idle-Launch env p d f l _)

  pub start-Begun : (s : Daemon) → Begun build (runs_in s) (view s) (start env p d f l s)
  unfolding start
  start-Begun s = Probe-Begun (is_running-Probe env s)
