-- ===== src/Bin/Files/Known.antt =====
-- What a trace of calls says of the files: what was last put at a path, and whether it has been
-- given to root and a mode since.
use sc_helper.Prelude.{
  ℕ, Bool, true, false, Option, none, some, [], ◌∷◌, ◌++◌, Text, codes, if◌then◌else◌, ◌≡◌, ◌≢◌,
}
use sc_helper.Prelude.Program.{ok, err}
use sc_helper.Std.Text.{text_eq, starts_with}
use sc_helper.Bin.Files.{
  Call, located, probed_file, made_dir, inspected, ran, copied, wrote, chowned, chmodded,
  removed_file, removed_dir, Calls, Files,
}

pub data Content : Type 0 where
  copy_of : Text → Content
  body : Text → Content

-- A call that failed may have left anything.
unfoldable pub content_at : Text → Calls → Option Content
content_at p [] = none
content_at p (copied src dst (ok _) ∷ t) =
    let before = content_at p t in if text_eq p dst then some (copy_of src) else before
content_at p (copied src dst (err _) ∷ t) =
    let before = content_at p t in if text_eq p dst then none else before
content_at p (wrote q text (ok _) ∷ t) =
    let before = content_at p t in if text_eq p q then some (body text) else before
content_at p (wrote q text (err _) ∷ t) =
    let before = content_at p t in if text_eq p q then none else before
content_at p (removed_file q r ∷ t) =
    let before = content_at p t in if text_eq p q then none else before
content_at p (removed_dir d r ∷ t) =
    let before = content_at p t in if starts_with p (d ++ codes "/") then none else before
content_at p (_ ∷ t) = content_at p t

unfoldable pub root_at : Text → Calls → Bool
root_at p [] = false
root_at p (copied src dst r ∷ t) =
    let before = root_at p t in if text_eq p dst then false else before
root_at p (wrote q text r ∷ t) = let before = root_at p t in if text_eq p q then false else before
root_at p (chowned q (ok _) ∷ t) = let before = root_at p t in if text_eq p q then true else before
root_at p (chowned q (err _) ∷ t) =
    let before = root_at p t in if text_eq p q then false else before
root_at p (_ ∷ t) = root_at p t

unfoldable pub mode_at : Text → Calls → Option ℕ
mode_at p [] = none
mode_at p (copied src dst r ∷ t) =
    let before = mode_at p t in if text_eq p dst then none else before
mode_at p (wrote q text r ∷ t) = let before = mode_at p t in if text_eq p q then none else before
mode_at p (chmodded q mode (ok _) ∷ t) =
    let before = mode_at p t in if text_eq p q then some mode else before
mode_at p (chmodded q mode (err _) ∷ t) =
    let before = mode_at p t in if text_eq p q then none else before
mode_at p (_ ∷ t) = mode_at p t

-- Root's, with this mode.
abbrev pub IsSecured : ℕ → Text → Calls → Type 0
IsSecured mode p t = (root_at p t ≡ true) × (mode_at p t ≡ some mode)

-- A file that was put there is found there.
pub record IsLawfulFiles (fs : Files) : Type 0 where
  pub is_file_put : (t : Calls) (p : Text) → content_at p t ≢ none → fs.is_file t p ≡ true

-- The system has answered no: an error, a program that did not succeed, a file that is not there.
abbrev pub is_refusal : Call → Bool
is_refusal (located (err _)) = true
is_refusal (probed_file p false) = true
is_refusal (made_dir p (err _)) = true
is_refusal (copied src dst (err _)) = true
is_refusal (wrote p text (err _)) = true
is_refusal (chowned p (err _)) = true
is_refusal (inspected p (err _)) = true
is_refusal (chmodded p mode (err _)) = true
is_refusal (ran program args (err _)) = true
is_refusal (ran program args (ok s)) = if s.success then false else true
is_refusal _ = false

-- The newest call was refused.
abbrev pub refused_last : Calls → Bool
refused_last [] = false
refused_last (c ∷ t) = is_refusal c
