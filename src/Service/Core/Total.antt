-- ===== src/Service/Core/Total.antt =====
-- `start` ends on every state.
use sc_helper.Prelude.{ℕ, Bool, Text}
use sc_helper.Prelude.Program.{Outcome, IsSettled, after}
use sc_helper.Service.Os.{Env}
use sc_helper.Service.State.{Daemon}
use sc_helper.Service.Core.{start, start_unless}
use sc_helper.Service.Core.Probe.{Probe, idle, alive, gone, lost, is_running-Probe}
use sc_helper.Service.Core.Launch.{
  Launch, no_binary, no_dir, no_config, no_log, no_clone, no_spawn, no_pid, launched,
  start_idle-Launch,
}

module _ (env : Env) (p d f l : Text) where
  Launch-IsSettled : {s : Daemon} {r : Outcome ℕ × Daemon} → Launch env p d f l s r → IsSettled r.0
  Launch-IsSettled (no_binary _) = tt
  Launch-IsSettled (no_dir _) = tt
  Launch-IsSettled (no_config _) = tt
  Launch-IsSettled (no_log _) = tt
  Launch-IsSettled (no_clone _) = tt
  Launch-IsSettled (no_spawn x) = tt
  Launch-IsSettled (no_pid c i) = tt
  Launch-IsSettled (launched c pid e) = tt

  Probe-IsSettled :
      {s : Daemon} {r : Outcome Bool × Daemon}
      → Probe env s r
      → IsSettled (after r (start_unless env p d f l)).0
  unfolding start_unless
  Probe-IsSettled {s} (idle e) = Launch-IsSettled (start_idle-Launch env p d f l s)
  Probe-IsSettled (alive c e w) = tt
  Probe-IsSettled (gone c e w) = Launch-IsSettled (start_idle-Launch env p d f l _)
  Probe-IsSettled (lost c x e w) = Launch-IsSettled (start_idle-Launch env p d f l _)

  pub start_total : (s : Daemon) → IsSettled (start env p d f l s).0
  unfolding start
  start_total s = Probe-IsSettled (is_running-Probe env s)
