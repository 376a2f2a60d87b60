-- ===== src/Service/Server/Request/Answers.antt =====
-- What the commands answer, and what they do.
use sc_helper.Prelude.{ℕ, ◌≡◌, true, false, none, some, ◌∷◌, ◌++◌, Text, codes, arith}
use sc_helper.Prelude.Program.{done}
use sc_helper.Std.Text.{contains-append}
use sc_helper.Ipc.{start_mihomo, shutdown, already_running, shutting_down, error}
use sc_helper.Service.Os.{still_running, probed_file, tried, Env}
use sc_helper.Service.State.{Daemon, sender, log}
use sc_helper.Service.Core.{is_running, start, start_unless, start_idle, already_running_message}
use sc_helper.Service.Server.Request.{Build, start_response, dispatch}

module _ (build : Build) (env : Env) where
  -- While the child runs, `StartMihomo` answers `already_running` and does nothing but look.
  pub start_mihomo_running :
      (d f l : Text) (s : Daemon) (c : ℕ)
      → s.supervisor.child ≡ some c
      → env.try_wait s.trace c ≡ still_running
      → dispatch build env (start_mihomo d f l) s
        ≡ (done (error already_running already_running_message), log (tried c still_running) s)
  unfolding dispatch start is_running start_unless start_response
  start_mihomo_running d f l s c held w = ground arith

  -- Although nothing runs and mihomo's binary is there, a directory that is missing is reported as
  -- `already_running` if its path contains that phrase.
  pub start_mihomo_misreported :
      (front back f l : Text) (s : Daemon)
      → s.supervisor.child ≡ none
      → env.is_file s.trace (build.mihomo_path s.trace) ≡ true
      → env.is_dir
          (probed_file (build.mihomo_path s.trace) true ∷ s.trace)
          (front ++ (codes "already running" ++ back))
        ≡ false
      → (dispatch build env (start_mihomo (front ++ (codes "already running" ++ back)) f l) s).0
        ≡ done (
            error already_running (
              codes "config_dir not a directory: " ++ (front ++ (codes "already running" ++ back))))
  unfolding dispatch start is_running start_unless start_idle start_response
  start_mihomo_misreported front back f l s idle b d = ground (
    arith,
    contains-append (codes "config_dir not a directory: " ++ front) (codes "already running") back,
  )

  -- While the trigger is there, `Shutdown` uses up the trigger and signals the accept loop; each
  -- later one is answered alike and changes nothing.
  pub shutdown_once :
      (s : Daemon)
      → s.trigger ≡ some sender
      → (dispatch build env shutdown s
          ≡ (done shutting_down, record s { trigger = none; shutdown_sent = true }))
        × (dispatch build env shutdown (dispatch build env shutdown s).1
            ≡ (done shutting_down, (dispatch build env shutdown s).1))
  unfolding dispatch
  shutdown_once s armed = ground arith
