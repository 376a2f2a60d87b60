-- ===== src/Service/Server/World/Reached.antt =====
-- What holds of the supervisor at every moment of the daemon's life, in whatever order the turns
-- come.
use sc_helper.Prelude.{ℕ, ◌+◌, refl, ◌≡◌, ◌∙◌, sym, ◌∷◌, Text, arith}
use mathlib.Core.Path.{subst}
use sc_helper.Prelude.Program.{Outcome, done, failed, panicked, stuck, IsSettled}
use sc_helper.Ipc.Frame.{Stream}
use sc_helper.Service.Os.{slept, time_floor, Env, IsEarly, IsLawfulOs}
use sc_helper.Service.State.{Daemon, log}
use sc_helper.Service.Core.Tracking.{outstanding, AreJustified}
use sc_helper.Service.Server.Setup.{set_up, clean_up}
use sc_helper.Service.Server.Setup.Kept.{IsDeaf, set_up-Keeps, clean_up_keeps}
use sc_helper.Service.Server.Request.{Build}
use sc_helper.Service.Server.Request.Sound.{IsResolved}
use sc_helper.Service.Server.Accept.{new_daemon}
use sc_helper.Service.Server.Task.{connection_task}
use sc_helper.Service.Server.World.{
  accepting, ending, World, new_world, entering, last_stop, leave, Step, set_up_done, no_server,
  connected, arrived, accept_failed, signalled, shut_down, task_turn, main_turn, ended, Reach,
  launched, stepped,
}
use sc_helper.Service.Server.World.Guard.{Rely, Rely-refl}
use sc_helper.Service.Server.World.Last.{last_stop-Guarded}
use sc_helper.Service.Server.World.Tasks.{connection_task-IsClosed}
use sc_helper.Service.Server.World.Holder.{AreFree, later}
use sc_helper.Service.Server.World.Survived.{survived-IsSafe}
use sc_helper.Service.Server.World.Quiet.{
  IsQuiet, turned-IsQuiet, survived-IsQuiet, arrived-IsQuiet, quitting-IsQuiet, entering-IsQuiet,
}
use sc_helper.Service.Server.World.Safe.{
  IsBefore, IsOpen, IsSafe, unheld, held_by_task, held_by_main, over_with, crashed, moved-IsSafe,
  task_turn-IsSafe, main-Turn-IsSafe, ended-IsSafe,
}

module _ (P : Text → Type 0) where
  slept-Rely : (d : Daemon) (ms : ℕ) → Rely P d (log (slept 0 ms) d)
  unfolding outstanding AreJustified time_floor
  slept-Rely d ms = record {
    child_stays = refl;
    left_stays = refl;
    justified_stays = λ j. j;
    time_passes = ground arith;
  }

  socket-Rely : (d : Daemon) → IsDeaf (Rely P d)
  unfolding outstanding AreJustified time_floor
  socket-Rely d e s socket h = record {
    child_stays = h.child_stays;
    left_stays = ground (arith, socket, h.left_stays);
    justified_stays = ground (arith, socket, h.justified_stays);
    time_passes = ground (arith, socket, h.time_passes);
  }

module _ (P : Text → Type 0) (Q : Type 0) where
  entering-IsOpen : (x : Outcome Text) → IsSettled x → IsOpen P Q (entering x)
  unfolding IsOpen entering
  entering-IsOpen (done path) settled = tt
  entering-IsOpen (failed e) settled = tt
  entering-IsOpen (panicked e) settled = absurd settled
  entering-IsOpen stuck settled = absurd settled

module _ (build : Build) (env : Env) (L : IsLawfulOs env) where
  abbrev pub P : Text → Type 0
  P = IsResolved build

  abbrev pub Q : Type 0
  Q = IsEarly env

  set_up-Rely : (d : Daemon) → Rely P d (set_up env build.target d).1
  set_up-Rely d = ((set_up-Keeps env (socket-Rely P d) build.target).apply d (Rely-refl P d)).1

  set_up-IsSettled : (d : Daemon) → IsSettled (set_up env build.target d).0
  set_up-IsSettled d = ((set_up-Keeps env (socket-Rely P d) build.target).apply d (Rely-refl P d)).0

  left-IsSafe :
      (path : Text) (w : World)
      → w.phase ≡ accepting path
      → IsSafe P Q w
      → IsSafe P Q (leave build env path w)
  unfolding leave IsOpen
  left-IsSafe path w at =
      moved-IsSafe P Q w (ending (last_stop build env)) (clean_up env path w.daemon)
        (subst (IsBefore P Q) (sym at) tt) (last_stop-Guarded build env L)
        (clean_up_keeps env (socket-Rely P w.daemon) path w.daemon (Rely-refl P w.daemon))

  connected-IsSafe : (w : World) → IsSafe P Q w → IsSafe P Q (record w { waiting = 1 + w.waiting })
  connected-IsSafe w (unheld e hd hs h) = unheld e hd hs h
  connected-IsSafe w (held_by_task o e hd hs h) = held_by_task o e hd hs h
  connected-IsSafe w (held_by_main o m e hd hs at h) = held_by_main o m e hd hs at h
  connected-IsSafe w (over_with hd at) = over_with hd at
  connected-IsSafe w (crashed o q hd at) = crashed o q hd at

  pub arrived-IsSafe :
      (stream : Stream) (n : ℕ) (w : World)
      → IsSafe P Q w
      → IsSafe P Q (record w { waiting = n; tasks = connection_task build env stream ∷ w.tasks })
  unfolding AreFree
  arrived-IsSafe stream n w (unheld e hd hs h) =
      unheld e hd ((connection_task-IsClosed build env L stream), hs) h
  arrived-IsSafe stream n w (held_by_task o e hd hs h) =
      held_by_task o e hd (later _ _ (connection_task-IsClosed build env L stream) hs) h
  arrived-IsSafe stream n w (held_by_main o m e hd hs at h) =
      held_by_main o m e hd ((connection_task-IsClosed build env L stream), hs) at h
  arrived-IsSafe stream n w (over_with hd at) = over_with hd at
  arrived-IsSafe stream n w (crashed o q hd at) = crashed o q hd at

  pub Step-IsSafe : {w v : World} → Step build env w v → IsSafe P Q w → IsSafe P Q v
  unfolding IsOpen
  Step-IsSafe {w} (set_up_done at unix) h =
      moved-IsSafe P Q w (entering (set_up env build.target w.daemon).0)
        (set_up env build.target w.daemon).1 (subst (IsBefore P Q) (sym at) tt)
        (entering-IsOpen P Q (set_up env build.target w.daemon).0 (set_up-IsSettled w.daemon))
        (set_up-Rely w.daemon) h
  Step-IsSafe {w} (no_server at windows) h =
      moved-IsSafe P Q w (ending (last_stop build env)) w.daemon (subst (IsBefore P Q) (sym at) tt)
        (last_stop-Guarded build env L) (Rely-refl P w.daemon) h
  Step-IsSafe {w} (connected path at) h = connected-IsSafe w h
  Step-IsSafe {w} (arrived stream n up e) h = arrived-IsSafe stream n w h
  Step-IsSafe {w} (accept_failed path at) h =
      moved-IsSafe P Q w w.phase (log (slept 0 200) w.daemon) (subst (IsBefore P Q) (sym at) tt)
        (subst (IsOpen P Q) (sym at) tt) (slept-Rely P w.daemon 200) h
  Step-IsSafe {w} (signalled path at) h = left-IsSafe path w at h
  Step-IsSafe {w} (shut_down path at sent) h = left-IsSafe path w at h
  Step-IsSafe {w} (task_turn up t) h = survived-IsSafe P Q _ up (task_turn-IsSafe P Q w up t h)
  Step-IsSafe {w} (main_turn at t) h = main-Turn-IsSafe P Q w at t h
  Step-IsSafe {w} (ended x at) h = ended-IsSafe P Q w x at h

  pub Reach-IsSafe : {w : World} → Reach build env w → IsSafe P Q w
  unfolding new_world new_daemon outstanding AreJustified IsOpen AreFree
  Reach-IsSafe launched = unheld refl (record { tracked = refl; justified = tt }) tt tt
  Reach-IsSafe (stepped r t) = Step-IsSafe t (Reach-IsSafe r)

  abbrev pub Quiet : World → Type 0
  Quiet w = IsQuiet w.phase w.daemon w.tasks w.waiting

  Step-IsQuiet : {w v : World} → Step build env w v → Quiet w → Quiet v
  unfolding IsQuiet leave
  Step-IsQuiet {w} (set_up_done at unix) h =
      let (c, none_yet, none_waits) = subst (λ p. IsQuiet p w.daemon w.tasks w.waiting) at h in
      entering-IsQuiet (set_up env build.target w.daemon).0 (set_up env build.target w.daemon).1
        w.tasks w.waiting ((set_up-Rely w.daemon).child_stays ∙ c, none_yet, none_waits)
  Step-IsQuiet {w} (no_server at windows) h = tt
  Step-IsQuiet {w} (connected path at) h =
      subst (λ p. IsQuiet p w.daemon w.tasks (1 + w.waiting)) (sym at) tt
  Step-IsQuiet {w} (arrived stream n up e) h = arrived-IsQuiet w.phase w.daemon w.tasks _ n e h
  Step-IsQuiet {w} (accept_failed path at) h =
      subst (λ p. IsQuiet p (log (slept 0 200) w.daemon) w.tasks w.waiting) (sym at) tt
  Step-IsQuiet {w} (signalled path at) h = tt
  Step-IsQuiet {w} (shut_down path at sent) h = tt
  Step-IsQuiet {w} (task_turn up t) h =
      survived-IsQuiet w.phase _ _ w.waiting (turned-IsQuiet w.phase w.waiting t h)
  Step-IsQuiet {w} (main_turn at t) h = tt
  Step-IsQuiet {w} (ended x at) h = quitting-IsQuiet x w.daemon w.tasks w.waiting

  pub Reach-IsQuiet : {w : World} → Reach build env w → Quiet w
  unfolding IsQuiet new_world new_daemon
  Reach-IsQuiet launched = (refl, refl, refl)
  Reach-IsQuiet (stepped r t) = Step-IsQuiet t (Reach-IsQuiet r)
