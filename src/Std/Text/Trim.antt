-- ===== src/Std/Text/Trim.antt =====
-- What `trim` makes of a line.
use sc_helper.Prelude.{ℕ, ◌≡◌, refl, ap, ◌∙◌, false, [], ◌∷◌, ◌++◌, All, Text, codes}
use sc_helper.Std.Text.{is_whitespace, trim_start, trim_end, keep, trim}

-- Without white space.
abbrev pub IsSolid : Text → Type 0
IsSolid s = All (λ c. is_whitespace c ≡ false) s

solid-keep : (c : ℕ) (s : Text) → is_whitespace c ≡ false → keep c s ≡ c ∷ s
unfolding keep
solid-keep c [] h = rw h refl
solid-keep c (d ∷ r) h = refl

line-trim_end : (s : Text) → IsSolid s → trim_end (s ++ codes "\n") ≡ s
unfolding trim_end keep
line-trim_end [] h = refl
line-trim_end (c ∷ s) (w, h) = ap (keep c) (line-trim_end s h) ∙ solid-keep c s w

line-trim_start : (s : Text) → IsSolid s → trim_end (trim_start (s ++ codes "\n")) ≡ s
unfolding trim_start trim_end
line-trim_start [] h = refl
line-trim_start (c ∷ s) (w, h) = rw w (line-trim_end (c ∷ s) (w, h))

-- The white space behind it goes.
pub line-trim : (s : Text) → IsSolid s → trim (s ++ codes "\n") ≡ s
unfolding trim
line-trim s h = line-trim_start s h
