-- ===== src/Service/Server/Request/Wired.antt =====
-- The shutdown channel.
use sc_helper.Prelude.{◌≡◌, refl, true, false, none, some, inl, inr, ◌⊎◌, Option, arith}
use sc_helper.Prelude.Program.{after, pure}
use sc_helper.Ipc.{shutdown, shutting_down}
use sc_helper.Service.Os.{Env}
use sc_helper.Service.State.{Daemon, Sender, sender}
use sc_helper.Service.Server.Request.{Build, dispatch, fire}

-- The trigger holds the sender until it is fired.
abbrev pub IsWired : Daemon → Type 0
IsWired d =
    ((d.trigger ≡ some sender) × (d.shutdown_sent ≡ false))
    ⊎ ((d.trigger ≡ none) × (d.shutdown_sent ≡ true))

abbrev pub IsSent : Daemon → Type 0
IsSent d = d.shutdown_sent ≡ true

fired-IsSent :
    (t : Option Sender) (d : Daemon)
    → d.trigger ≡ t
    → IsWired d
    → IsSent (after (fire t d) (λ _. pure shutting_down)).1
unfolding fire
fired-IsSent none d e (inl (held, _)) = absurd (ground (arith, e, held))
fired-IsSent none d e (inr (_, sent)) = sent
fired-IsSent (some sender) d e h = refl

module _ (build : Build) (env : Env) where
  -- Once the command Shutdown has been carried out, the message has been sent.
  pub dispatch-IsSent : (d : Daemon) → IsWired d → IsSent (dispatch build env shutdown d).1
  unfolding dispatch fire
  dispatch-IsSent d h = fired-IsSent d.trigger d refl h
