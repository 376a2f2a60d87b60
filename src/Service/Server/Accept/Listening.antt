-- ===== src/Service/Server/Accept/Listening.antt =====
-- The socket on which the daemon accepts.
use sc_helper.Prelude.{refl, Text, arith}
use sc_helper.Prelude.Program.{Outcome, done, failed, panicked, stuck}
use sc_helper.Prelude.Triple.{Ensures}
use sc_helper.Service.Os.{Env, IsLawfulOs, slept}
use sc_helper.Service.State.{Daemon}
use sc_helper.Service.Core.Steady.{IsSteady, stop-IsSteady}
use sc_helper.Service.Server.Setup.{set_up, clean_up}
use sc_helper.Service.Server.Setup.Bound.{
  AreClear, IsListening, IsClear, IsListening-IsSteady, set_up-Meets,
}
use sc_helper.Service.Server.Request.{Build}
use sc_helper.Service.Server.Connection.{Session, handle_connection}
use sc_helper.Service.Server.Connection.Kept.{handle_connection_keeps}
use sc_helper.Service.Server.Accept.{
  Server, launching, accepting, drained, exited, broken, aborted, new_daemon, entered, returned,
  Step, set_up_done, no_server, connected, accept_failed, signalled, shut_down, ended, Reach,
  launched, stepped,
}
use sc_helper.Service.Server.Accept.Kept.{steady-IsKept}

-- In the loop the daemon listens at the path; and wherever it is, each socket was bound where
-- nothing stood.
unfoldable pub IsServerListening : Server → Type 0
IsServerListening (launching d) = IsClear d
IsServerListening (accepting path d) = IsListening path d
IsServerListening (drained d) = IsClear d
IsServerListening (exited d) = IsClear d
IsServerListening (broken d) = IsClear d
IsServerListening (aborted d) = IsClear d

IsClear-IsSteady : IsSteady IsClear
unfolding AreClear
IsClear-IsSteady = record { logs = λ e d other h. ground (arith, other, h); holds = λ c d h. h }

entered-IsServerListening :
    (r : Outcome Text × Daemon) → Ensures IsListening IsClear r → IsServerListening (entered r)
unfolding entered IsServerListening
entered-IsServerListening (done path, d) h = h
entered-IsServerListening (failed e, d) h = h
entered-IsServerListening (panicked e, d) h = absurd h
entered-IsServerListening (stuck, d) h = absurd h

returned-IsServerListening :
    (path : Text) (r : Outcome (Unit {0}) × Session)
    → IsListening path r.1.daemon
    → IsServerListening (returned path r)
unfolding returned IsServerListening
returned-IsServerListening path (done u, s) h = h
returned-IsServerListening path (failed e, s) h = h
returned-IsServerListening path (panicked e, s) h = h.2
returned-IsServerListening path (stuck, s) h = h

module _ (build : Build) (env : Env) (L : IsLawfulOs env) where
  Step-IsServerListening :
      {s t : Server} → Step build env s t → IsServerListening s → IsServerListening t
  unfolding IsServerListening clean_up AreClear
  Step-IsServerListening (set_up_done d unix) h =
      entered-IsServerListening (set_up env build.target d)
        ((set_up-Meets env build.target).apply d h)
  Step-IsServerListening (no_server d w) h = h
  Step-IsServerListening (connected path stream d) h =
      returned-IsServerListening path
        (handle_connection build env (record { stream = stream; daemon = d }))
        (handle_connection_keeps build env L
          (steady-IsKept build env (IsListening-IsSteady path) (λ s k. k) (λ s e k. k)) _ h)
  Step-IsServerListening (accept_failed path d) h =
      (IsListening-IsSteady path).logs (slept 0 200) d refl h
  Step-IsServerListening (signalled path d) h = h.2
  Step-IsServerListening (shut_down path d e) h = h.2
  Step-IsServerListening (ended d) h = stop-IsSteady env IsClear-IsSteady build.target d h

  -- On a lawful system, with clients that connect one after another: whenever the daemon is in its
  -- accept loop, its socket was bound, after what stood at its path
  -- was removed, has been given mode 666 since, and has not been removed: neither a request nor a
  -- failed `accept` changes that. Wherever the daemon is, it has bound no socket at a path where it
  -- had not made sure that nothing stands.
  pub Reach-IsServerListening : {s : Server} → Reach build env s → IsServerListening s
  unfolding IsServerListening new_daemon AreClear
  Reach-IsServerListening launched = tt
  Reach-IsServerListening (stepped r t) = Step-IsServerListening t (Reach-IsServerListening r)
