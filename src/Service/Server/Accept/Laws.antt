-- ===== src/Service/Server/Accept/Laws.antt =====
-- What holds of the supervisor at every moment of the daemon's life.
use sc_helper.Prelude.{◌≡◌, refl, ◌∙◌, ap, none, [], Text, arith}
use sc_helper.Prelude.Program.{Outcome, done, failed, panicked, stuck, EndsIf}
use sc_helper.Prelude.Keeps.{Ends}
use sc_helper.Service.Os.{Env, IsLawfulOs, IsEarly}
use sc_helper.Service.State.{Daemon}
use sc_helper.Service.Core.Tracking.{outstanding, held, AreJustified, IsSound}
use sc_helper.Service.Core.Stopping.{stop_releases}
use sc_helper.Service.Server.Setup.{set_up}
use sc_helper.Service.Server.Setup.Kept.{IsDeaf, set_up-Keeps}
use sc_helper.Service.Server.Request.{Build}
use sc_helper.Service.Server.Request.Sound.{IsResolved, Sound-IsKept}
use sc_helper.Service.Server.Connection.{Session, handle_connection}
use sc_helper.Service.Server.Connection.Ends.{handle_connection-EndsIf}
use sc_helper.Service.Server.Accept.{
  Server, launching, accepting, drained, exited, broken, aborted, daemon_of, new_daemon, entered,
  returned, Step, set_up_done, no_server, connected, accept_failed, signalled, shut_down, ended,
  Reach, launched, stepped,
}
use sc_helper.Service.Server.Accept.Kept.{IsLasting, Step_keeps}

module _ (build : Build) where
  abbrev Sound : Daemon → Type 0
  Sound = IsSound (IsResolved build)

  -- Before the first request, no child is held either.
  abbrev IsIdle : Daemon → Type 0
  IsIdle d = Sound d × (d.supervisor.child ≡ none)

  -- The invariant of the supervisor, wherever the daemon is; and, at both ends of `main`, that no
  -- child is outstanding. An abort is no end of `main`.
  unfoldable pub IsServerSound : Env → Server → Type 0
  IsServerSound env (launching d) = IsIdle d
  IsServerSound env (accepting path d) = Sound d
  IsServerSound env (drained d) = Sound d
  IsServerSound env (exited d) = Sound d × (outstanding d.trace ≡ [])
  IsServerSound env (broken d) = Sound d × (outstanding d.trace ≡ [])
  IsServerSound env (aborted d) = Sound d × IsEarly env

  module _ (env : Env) (L : IsLawfulOs env) where
    Sound-IsDeaf : IsDeaf Sound
    unfolding outstanding AreJustified
    Sound-IsDeaf e s socket h = record {
      tracked = ground (arith, socket, h.tracked);
      justified = ground (arith, socket, h.justified);
    }

    Sound-IsLasting : IsLasting build env Sound
    unfolding outstanding AreJustified
    Sound-IsLasting = record {
      kept = Sound-IsKept build env L;
      deaf = Sound-IsDeaf;
      slept_keeps = λ from ms s h. record { tracked = h.tracked; justified = h.justified };
    }

    IsIdle-IsDeaf : IsDeaf IsIdle
    IsIdle-IsDeaf e s socket h = (Sound-IsDeaf e s socket h.0, h.1)

    left_none : (d : Daemon) → IsIdle d → Sound d × (outstanding d.trace ≡ [])
    left_none d h = (h.0, h.0.tracked ∙ ap held h.1)

    entered-IsServerSound :
        (r : Outcome Text × Daemon) → Ends IsIdle r → IsServerSound env (entered r)
    unfolding entered IsServerSound
    entered-IsServerSound (done path, d) h = h.1.0
    entered-IsServerSound (failed e, d) h = left_none d h.1
    entered-IsServerSound (panicked e, d) h = absurd h.0
    entered-IsServerSound (stuck, d) h = left_none d h.1

    returned-IsServerSound :
        (path : Text) (r : Outcome (Unit {0}) × Session)
        → EndsIf (IsEarly env) r.0
        → Sound (daemon_of (returned path r))
        → IsServerSound env (returned path r)
    unfolding returned IsServerSound
    returned-IsServerSound path (done u, s) q h = h
    returned-IsServerSound path (failed e, s) q h = h
    returned-IsServerSound path (panicked e, s) q h = (h, q)
    returned-IsServerSound path (stuck, s) q h = absurd q

    Step-IsSound : {s t : Server} → Step build env s t → IsServerSound env s → IsServerSound env t
    unfolding IsServerSound
    Step-IsSound (set_up_done d unix) h =
        entered-IsServerSound (set_up env build.target d)
          ((set_up-Keeps env IsIdle-IsDeaf build.target).apply d h)
    Step-IsSound (no_server d w) h = h.0
    Step-IsSound (connected path stream d) h =
        returned-IsServerSound path
          (handle_connection build env (record { stream = stream; daemon = d }))
          (handle_connection-EndsIf build env L _)
          (Step_keeps build env L Sound-IsLasting (connected path stream d) h)
    Step-IsSound (accept_failed path d) h =
        Step_keeps build env L Sound-IsLasting (accept_failed path d) h
    Step-IsSound (signalled path d) h = Step_keeps build env L Sound-IsLasting (signalled path d) h
    Step-IsSound (shut_down path d e) h =
        Step_keeps build env L Sound-IsLasting (shut_down path d e) h
    Step-IsSound (ended d) h =
        let sound = Step_keeps build env L Sound-IsLasting (ended d) h in
        (sound, sound.tracked ∙ ap held (stop_releases env build.target d))

    -- Outstanding is a mihomo that was spawned, and neither seen to have exited, nor waited for,
    -- nor given up on after a failing `try_wait`. Whatever comes of the socket's set-up, whatever
    -- clients connect and send, one after another, and whatever a lawful system answers: mihomo is
    -- spawned only at a path that the resolver gave, with the arguments for a directory and a file
    -- that were just found, and never while an earlier one is outstanding; between the steps the
    -- supervisor holds the one that is; and when the daemon exits, at the end of `main` or by an
    -- error of the set-up, none is. Of a daemon that a panic has aborted the last is not said, and
    -- that takes a clock that may read a time before 1970.
    pub Reach-IsSound : {s : Server} → Reach build env s → IsServerSound env s
    unfolding IsServerSound outstanding AreJustified new_daemon
    Reach-IsSound launched = (record { tracked = refl; justified = tt }, refl)
    Reach-IsSound (stepped r t) = Step-IsSound t (Reach-IsSound r)
