-- ===== src/Service/Server/Accept/Shutdown.antt =====
-- The shutdown channel: once a client has asked for a shutdown, the daemon can end by itself.
use sc_helper.Prelude.{◌≡◌, ◌⊎◌, refl, inl, inr, arith}
use sc_helper.Service.Os.{Env, IsLawfulOs, IsEarly}
use sc_helper.Service.State.{Daemon}
use sc_helper.Service.Server.Request.{Build}
use sc_helper.Service.Server.Request.Wired.{IsWired, IsSent}
use sc_helper.Service.Server.Accept.{
  Server, launching, accepting, drained, exited, broken, aborted, daemon_of, new_daemon, Step,
  shut_down, ended, Reach, launched, stepped,
}
use sc_helper.Service.Server.Accept.Kept.{steady-IsKept, IsLasting, Step_keeps}

module _ (build : Build) (env : Env) where
  -- Any number of steps.
  pub data Runs (s : Server) : Server → Type 0 where
    still : Runs s s
    then : {t u : Server} → Runs s t → Step build env t u → Runs s u

  -- The daemon takes it by itself: no signal comes, no client connects and `accept` does not fail.
  unfoldable pub IsOwn : {s t : Server} → Step build env s t → Type 0
  IsOwn (shut_down path d e) = Unit
  IsOwn (ended d) = Unit
  IsOwn _ = ⊥

  -- Any number of such steps.
  pub data OwnRuns (s : Server) : Server → Type 0 where
    rests : OwnRuns s s
    goes_on : {t u : Server} → OwnRuns s t → (e : Step build env t u) → IsOwn e → OwnRuns s u

-- The loop after a shutdown, and what follows it.
unfoldable pub IsEnding : Env → Server → Type 0
IsEnding env (launching d) = ⊥
IsEnding env (accepting path d) = IsSent d
IsEnding env (drained d) = Unit
IsEnding env (exited d) = Unit
IsEnding env (broken d) = ⊥
IsEnding env (aborted d) = IsEarly env

-- It can come to its exit by itself, or a panic has aborted it, at a clock that may read a time
-- before 1970.
abbrev pub CanExit : Build → Env → Server → Type 0
CanExit build env s =
    (d : Daemon) × (OwnRuns build env s (exited d) ⊎ ((s ≡ aborted d) × IsEarly env))

module _ (build : Build) (env : Env) where
  IsWired-IsLasting : IsLasting build env IsWired
  IsWired-IsLasting = record {
    kept =
        steady-IsKept build env (record { logs = λ e d other h. h; holds = λ c d h. h })
          (λ d h. inr (refl, refl))
          (λ d e h. elim h [
            | inl (held, _) ↦ absurd (ground (arith, e, held))
            | inr (_, sent) ↦ inr (refl, sent)
          ]);
    deaf = λ e d socket h. h;
    slept_keeps = λ from ms d h. h;
  }

  module _ (L : IsLawfulOs env) where
    -- The trigger is empty exactly if a shutdown was sent.
    pub Reach-IsWired : {s : Server} → Reach build env s → IsWired (daemon_of s)
    unfolding new_daemon
    Reach-IsWired launched = inl (refl, refl)
    Reach-IsWired (stepped r t) = Step_keeps build env L IsWired-IsLasting t (Reach-IsWired r)
