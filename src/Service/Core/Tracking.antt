-- ===== src/Service/Core/Tracking.antt =====
-- What a trace says of the mihomo processes: which of them are still to be ended, and that each was
-- spawned as it should be.
use sc_helper.Prelude.{
  ℕ, ◌≡◌, true, Option, none, some, List, [], ◌∷◌, Text, ◌==◌, ==_iff, if◌then◌else◌, arith,
}
use sc_helper.Prelude.Program.{ok}
use sc_helper.Std.Path.{join}
use sc_helper.Service.Os.{
  exited, wait_failed, probed_file, probed_dir, opened_log, cloned_log, spawned, tried, reaped,
  Trace,
}
use sc_helper.Service.State.{Daemon}
use sc_helper.Service.Core.{mihomo_args}

pub remove : ℕ → List ℕ → List ℕ
remove c [] = []
remove c (x ∷ xs) = let rest = remove c xs in if x == c then rest else x ∷ rest

-- The children spawned and neither waited for with success nor given up on by a failing `try_wait`.
unfoldable pub outstanding : Trace → List ℕ
unfolding remove
outstanding [] = []
outstanding (spawned _ _ _ (ok c) ∷ t) = c ∷ outstanding t
outstanding (tried c exited ∷ t) = remove c (outstanding t)
outstanding (tried c (wait_failed _) ∷ t) = remove c (outstanding t)
outstanding (reaped c ∷ t) = remove c (outstanding t)
outstanding (_ ∷ t) = outstanding t

abbrev pub held : Option ℕ → List ℕ
held none = []
held (some c) = c ∷ []

pub remove_only : (c : ℕ) → remove c (c ∷ []) ≡ []
unfolding remove
remove_only c = ground (arith, ==_iff c c)

-- The answers that a spawn stands on, newest first: the binary and the directory were there, then
-- the configuration file in it, then the log file was opened and its handle cloned.
abbrev pub checks : Text → Text → Text → Text → Trace → Trace
checks program config_dir config_file log_file t =
    cloned_log log_file true
    ∷ opened_log log_file true
    ∷ probed_file (join config_dir config_file) true
    ∷ probed_dir config_dir true
    ∷ probed_file program true
    ∷ t

-- A spawn after a trace is of an allowed program, with mihomo's arguments for a directory and a
-- file that were just found, at a time when no child was outstanding.
pub data MaySpawn (P : Text → Type 0) (program : Text) (args : List Text) (log_file : Text)
    (t : Trace) : Type 0 where
  checked :
      (config_dir config_file : Text) (before : Trace)
      → P program
      → args ≡ mihomo_args config_dir (join config_dir config_file)
      → t ≡ checks program config_dir config_file log_file before
      → outstanding before ≡ []
      → MaySpawn P program args log_file t

-- Each spawn of a trace was one that might be made.
unfoldable pub AreJustified : (Text → Type 0) → Trace → Type 0
AreJustified P [] = Unit
AreJustified P (spawned program args log_file r ∷ t) =
    MaySpawn P program args log_file t × AreJustified P t
AreJustified P (_ ∷ t) = AreJustified P t

-- The supervisor holds the one child that is outstanding, or none is.
pub record IsSound (P : Text → Type 0) (s : Daemon) : Type 0 where
  pub tracked : outstanding s.trace ≡ held s.supervisor.child
  pub justified : AreJustified P s.trace
