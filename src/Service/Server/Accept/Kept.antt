-- ===== src/Service/Server/Accept/Kept.antt =====
-- Conditions that the daemon keeps from its start to its end.
use sc_helper.Prelude.{ℕ, ◌≡◌, refl, none, true, Text}
use sc_helper.Prelude.Program.{Outcome, done, failed, panicked, stuck}
use sc_helper.Prelude.Keeps.{Ends}
use sc_helper.Service.Os.{slept, read_clock, ran, Env, IsLawfulOs}
use sc_helper.Service.State.{Daemon, log}
use sc_helper.Service.Core.Steady.{IsSteady, start-IsSteady, stop-IsSteady}
use sc_helper.Service.Server.Setup.{set_up}
use sc_helper.Service.Server.Setup.Kept.{IsDeaf, set_up-Keeps, clean_up_keeps}
use sc_helper.Service.Server.Request.{Build}
use sc_helper.Service.Server.Request.Kept.{IsKept}
use sc_helper.Service.Server.Connection.{Session}
use sc_helper.Service.Server.Connection.Kept.{handle_connection_keeps}
use sc_helper.Service.Server.Accept.{
  Server, daemon_of, entered, returned, Step, set_up_done, no_server, connected, accept_failed,
  signalled, shut_down, ended,
}

-- A steady condition is kept by requests, when a fired trigger keeps it.
pub steady-IsKept :
    (build : Build) (env : Env) {I : Daemon → Type 0}
    → IsSteady I
    → ((s : Daemon) → I s → I (record s { trigger = none; shutdown_sent = true }))
    → ((s : Daemon) → s.trigger ≡ none → I s → I (record s { trigger = none }))
    → IsKept build env I
steady-IsKept build env K fired empty = record {
  read_keeps = λ r s h. K.logs (read_clock r) s refl h;
  ran_keeps = λ s program args r h. K.logs (ran program args r) s refl h;
  start_keeps = λ t d f l s h. start-IsSteady env K (build.mihomo_path t) d f l s h;
  stop_keeps = λ s h. stop-IsSteady env K build.target s h;
  fired = fired;
  found_empty = empty;
}

-- Also by the socket's set-up and cleanup, and by the sleep behind a failed `accept`.
pub record IsLasting (build : Build) (env : Env) (I : Daemon → Type 0) : Type 0 where
  pub kept : IsKept build env I
  pub deaf : IsDeaf I
  pub slept_keeps : (from ms : ℕ) (s : Daemon) → I s → I (log (slept from ms) s)

module _ (build : Build) (env : Env) (L : IsLawfulOs env) {I : Daemon → Type 0}
    (K : IsLasting build env I) where
  entered_keeps : (r : Outcome Text × Daemon) → Ends I r → I (daemon_of (entered r))
  unfolding entered
  entered_keeps (done path, d) h = h.1
  entered_keeps (failed e, d) h = h.1
  entered_keeps (panicked e, d) h = h.1
  entered_keeps (stuck, d) h = h.1

  returned_keeps :
      (path : Text) (r : Outcome (Unit {0}) × Session)
      → I r.1.daemon
      → I (daemon_of (returned path r))
  unfolding returned
  returned_keeps path (done u, s) h = h
  returned_keeps path (failed e, s) h = h
  returned_keeps path (panicked e, s) h = h
  returned_keeps path (stuck, s) h = h

  pub Step_keeps : {s t : Server} → Step build env s t → I (daemon_of s) → I (daemon_of t)
  Step_keeps (set_up_done d unix) h =
      entered_keeps (set_up env build.target d) ((set_up-Keeps env K.deaf build.target).apply d h)
  Step_keeps (no_server d w) h = h
  Step_keeps (connected path stream d) h =
      returned_keeps path _ (handle_connection_keeps build env L K.kept _ h)
  Step_keeps (accept_failed path d) h = K.slept_keeps 0 200 d h
  Step_keeps (signalled path d) h = clean_up_keeps env K.deaf path d h
  Step_keeps (shut_down path d e) h = clean_up_keeps env K.deaf path d h
  Step_keeps (ended d) h = K.kept.stop_keeps d h
