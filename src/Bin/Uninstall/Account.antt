-- ===== src/Bin/Uninstall/Account.antt =====
-- What a trace of calls says of a removal: which files are gone, which removals were refused, and
-- how many of the uninstaller's steps failed.
use sc_helper.Prelude.{
  ℕ, suc, Bool, true, false, ◌||◌, [], ◌∷◌, ◌++◌, Option, none, some, Text, codes, if◌then◌else◌,
  ◌≡◌, ◌≢◌, ◌⊎◌,
}
use sc_helper.Prelude.Program.{ok, err}
use sc_helper.Std.Text.{text_eq, starts_with}
use sc_helper.Bin.Files.{existed, copied, wrote, removed_file, removed_dir, ran, printed, Calls}
use sc_helper.Bin.Install.Ready.{first_is}

abbrev pub is_under : (p dir : Text) → Bool
is_under p dir = starts_with p (dir ++ codes "/")

-- The system has told that there is no such file, or has removed it, and nothing was put there
-- since.
unfoldable pub gone_at : Text → Calls → Bool
gone_at p [] = false
gone_at p (existed q false ∷ t) = let before = gone_at p t in text_eq p q || is_under p q || before
gone_at p (removed_file q (ok _) ∷ t) = let before = gone_at p t in text_eq p q || before
gone_at p (removed_dir d (ok _) ∷ t) = let before = gone_at p t in is_under p d || before
gone_at p (copied src dst r ∷ t) =
    let before = gone_at p t in if text_eq p dst then false else before
gone_at p (wrote q text r ∷ t) = let before = gone_at p t in if text_eq p q then false else before
gone_at p (_ ∷ t) = gone_at p t

-- The system has refused to remove the file, or a directory around it.
unfoldable pub refused_at : Text → Calls → Bool
refused_at p [] = false
refused_at p (removed_file q (err _) ∷ t) = let before = refused_at p t in text_eq p q || before
refused_at p (removed_dir d (err _) ∷ t) = let before = refused_at p t in is_under p d || before
refused_at p (_ ∷ t) = refused_at p t

-- The steps that failed: the stop, if its command did not start, the removal of this unit, and that
-- of a directory.
unfoldable pub failures : (verb unit : Text) → Calls → ℕ
failures verb unit [] = 0
failures verb unit (ran program args (err _) ∷ t) =
    let before = failures verb unit t in if first_is verb args then suc before else before
failures verb unit (removed_file q (err _) ∷ t) =
    let before = failures verb unit t in if text_eq unit q then suc before else before
failures verb unit (removed_dir d (err _) ∷ t) = suc (failures verb unit t)
failures verb unit (_ ∷ t) = failures verb unit t

abbrev pub last_line : Calls → Option Text
last_line [] = none
last_line (printed line ∷ t) = some line
last_line (_ ∷ t) = none

module _ (verb unit : Text) where
  -- It is gone, or the system has refused to remove it and a step has failed.
  abbrev pub IsHandled : Text → Calls → Type 0
  IsHandled p t = (gone_at p t ≡ true) ⊎ ((refused_at p t ≡ true) × (failures verb unit t ≢ 0))

  -- That for the unit and for each file under the directory.
  abbrev pub IsCleared : Text → Calls → Type 0
  IsCleared dir t = IsHandled unit t × ((p : Text) → is_under p dir ≡ true → IsHandled p t)
