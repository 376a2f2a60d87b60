-- ===== src/Service/Server/Request/Sound.antt =====
-- Whatever is requested, the one mihomo child is tracked and each spawn was justified.
use sc_helper.Prelude.{◌≡◌, refl, List, Text}
use sc_helper.Prelude.Program.{Result}
use sc_helper.Ipc.{Request}
use sc_helper.Service.Os.{Trace, Output, ran, Env, IsLawfulOs}
use sc_helper.Service.State.{Daemon, log}
use sc_helper.Service.Core.Spawning.{start-IsSound, stop-IsSound}
use sc_helper.Service.Core.Tracking.{outstanding, AreJustified, IsSound}
use sc_helper.Service.Server.Request.Kept.{IsKept, handle_request_keeps}
use sc_helper.Service.Server.Request.{Build, handle_request}

-- A path that the resolver has given.
abbrev pub IsResolved : Build → Text → Type 0
IsResolved build p = (t : Trace) × (p ≡ build.mihomo_path t)

module _ (build : Build) (env : Env) (L : IsLawfulOs env) where
  abbrev pub Sound : Daemon → Type 0
  Sound = IsSound (IsResolved build)

  ran-IsSound :
      (s : Daemon) (program : Text) (args : List Text) (r : Result Output)
      → Sound s
      → Sound (log (ran program args r) s)
  unfolding outstanding AreJustified
  ran-IsSound s program args r h = record { tracked = h.tracked; justified = h.justified }

  pub Sound-IsKept : IsKept build env Sound
  unfolding outstanding AreJustified
  Sound-IsKept = record {
    read_keeps = λ r s h. record { tracked = h.tracked; justified = h.justified };
    ran_keeps = ran-IsSound;
    start_keeps = λ t d f l s h.
        start-IsSound (IsResolved build) env L (build.mihomo_path t) d f l (t, refl) s h;
    stop_keeps = λ s h. stop-IsSound (IsResolved build) env L build.target s h;
    fired = λ s h. record { tracked = h.tracked; justified = h.justified };
    found_empty = λ s e h. record { tracked = h.tracked; justified = h.justified };
  }

  -- On a lawful system every request, answered or refused, keeps the invariant, in which the
  -- allowed programs are the paths that the resolver has given.
  pub handle_request-IsSound :
      (r : Request) (s : Daemon)
      → IsSound (IsResolved build) s
      → IsSound (IsResolved build) (handle_request build env r s).1
  handle_request-IsSound r s h = handle_request_keeps build env L Sound-IsKept r s h
