-- ===== src/Service/Core/Launch.antt =====
-- The ends of `start` once nothing is running: one for each check that fails, and those of the
-- spawn.
use sc_helper.Prelude.{
  ℕ, ◌≡◌, refl, true, false, Option, none, some, ◌++◌, Text, codes, Bool-cases, inl, inr,
}
use sc_helper.Prelude.Program.{Result, ok, err, Outcome, done, failed}
use sc_helper.Std.Path.{join}
use sc_helper.Service.Os.{probed_file, probed_dir, opened_log, cloned_log, spawned, asked_id, Env}
use sc_helper.Service.State.{Daemon, log}
use sc_helper.Service.Core.{mihomo_args, keep_child, after_spawn, launch, start_idle}

module _ (env : Env) (p d f l : Text) (s : Daemon) where
  abbrev found_binary : Daemon
  found_binary = log (probed_file p true) s

  abbrev found_dir : Daemon
  found_dir = log (probed_dir d true) found_binary

  abbrev found_config : Daemon
  found_config = log (probed_file (join d f) true) found_dir

  abbrev opened_state : Daemon
  opened_state = log (opened_log l true) found_config

  -- All checks have answered yes.
  abbrev pub checked_state : Daemon
  checked_state = log (cloned_log l true) opened_state

  abbrev pub spawned_state : Result ℕ → Daemon
  spawned_state r = log (spawned p (mihomo_args d (join d f)) l r) checked_state

  pub data Launch : Outcome ℕ × Daemon → Type 0 where
    no_binary :
        env.is_file s.trace p ≡ false
        → Launch (failed (codes "mihomo binary not found at " ++ p), log (probed_file p false) s)
    no_dir :
        env.is_dir found_binary.trace d ≡ false
        → Launch (
          failed (codes "config_dir not a directory: " ++ d),
          log (probed_dir d false) found_binary,
        )
    no_config :
        env.is_file found_dir.trace (join d f) ≡ false
        → Launch (
          failed (codes "config file not found: " ++ join d f),
          log (probed_file (join d f) false) found_dir,
        )
    no_log :
        env.open_log found_config.trace l ≡ false
        → Launch (failed (codes "opening log file " ++ l), log (opened_log l false) found_config)
    no_clone :
        env.clone_log opened_state.trace l ≡ false
        → Launch (
          failed (codes "cloning log file handle for stderr"),
          log (cloned_log l false) opened_state,
        )
    no_spawn : (e : Text) → Launch (failed (codes "spawning mihomo"), spawned_state (err e))
    no_pid :
        (c : ℕ)
        → env.child_id (spawned_state (ok c)).trace c ≡ none
        → Launch (
          failed (codes "spawned mihomo has no pid"),
          log (asked_id c none) (spawned_state (ok c)),
        )
    launched :
        (c pid : ℕ)
        → env.spawn checked_state.trace p (mihomo_args d (join d f)) l ≡ ok c
        → Launch (
          done pid,
          record (log (asked_id c (some pid)) (spawned_state (ok c))) {
            supervisor = record { child = some c };
          },
        )

  id-Launch :
      (c : ℕ) (pid : Option ℕ)
      → env.spawn checked_state.trace p (mihomo_args d (join d f)) l ≡ ok c
      → env.child_id (spawned_state (ok c)).trace c ≡ pid
      → Launch (keep_child env c pid (log (asked_id c pid) (spawned_state (ok c))))
  unfolding keep_child
  id-Launch c none e i = no_pid c i
  id-Launch c (some pid) e i = launched c pid e

  spawn-Launch :
      (r : Result ℕ)
      → env.spawn checked_state.trace p (mihomo_args d (join d f)) l ≡ r
      → Launch (after_spawn env r (spawned_state r))
  unfolding after_spawn
  spawn-Launch (err x) e = no_spawn x
  spawn-Launch (ok c) e = id-Launch c (env.child_id (spawned_state (ok c)).trace c) e refl

  launch-Launch : Launch (launch env p d (join d f) l found_config)
  unfolding launch
  launch-Launch = elim (Bool-cases (env.open_log found_config.trace l)) [
    | inr e ↦ rw e (no_log e)
    | inl opened ↦ rw opened (elim (Bool-cases (env.clone_log opened_state.trace l)) [
      | inr e ↦ rw e (no_clone e)
      | inl cloned ↦ rw cloned (spawn-Launch _ refl)
    ])
  ]

  -- `start` has no other end.
  pub start_idle-Launch : Launch (start_idle env p d f l s)
  unfolding start_idle
  start_idle-Launch = elim (Bool-cases (env.is_file s.trace p)) [
    | inr e ↦ rw e (no_binary e)
    | inl binary ↦ rw binary (elim (Bool-cases (env.is_dir found_binary.trace d)) [
      | inr e ↦ rw e (no_dir e)
      | inl dir ↦ rw dir (elim (Bool-cases (env.is_file found_dir.trace (join d f))) [
        | inr e ↦ rw e (no_config e)
        | inl config ↦ rw config launch-Launch
      ])
    ])
  ]
