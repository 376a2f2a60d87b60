-- ===== src/Std/Path.antt =====
-- `Path::join` and `Path::parent` on Unix, over the text of a path.
use sc_helper.Prelude.{
  ℕ, ◌≡◌, ◌≢◌, refl, sym, ◌∙◌, append_assoc, ap, arith, Option, none, some, Bool, true, false, [],
  ◌∷◌, ◌++◌, Text, ◌==◌, if◌then◌else◌,
}

unfoldable pub is_absolute : Text → Bool
is_absolute [] = false
is_absolute (c ∷ s) = c == b'/'

-- Whether `push` puts a separator behind the base: the base is not empty and does not end in one.
unfoldable pub need_sep : Text → Bool
need_sep [] = false
need_sep (c ∷ []) = if c == b'/' then false else true
need_sep (c ∷ d ∷ s) = need_sep (d ∷ s)

-- An absolute path replaces the base.
unfoldable pub join : Text → Text → Text
unfolding is_absolute need_sep
join base path =
    if is_absolute path then path else base ++ (if need_sep base then b'/' ∷ path else path)

pub join_absolute : (base path : Text) → is_absolute path ≡ true → join base path ≡ path
unfolding join
join_absolute base path h = rw h refl

abbrev reverse_onto : Text → Text → Text
reverse_onto [] out = out
reverse_onto (c ∷ s) out = reverse_onto s (c ∷ out)

-- Here a path is read from its end: less the separators and the `.` components there, but not less
-- the root.
unfoldable pub trimmed : Text → Text
trimmed [] = []
trimmed (c ∷ []) = c ∷ []
trimmed (c ∷ d ∷ s) =
    let rest = trimmed (d ∷ s) in
    if c == b'/'
    then rest
    else if c == b'.'
    then (if d == b'/' then rest else c ∷ d ∷ s)
    else c ∷ d ∷ s

-- Less its last name.
without_name : Text → Text
without_name [] = []
without_name (c ∷ s) = let rest = without_name s in if c == b'/' then c ∷ s else rest

parent_of : Text → Option Text
unfolding trimmed without_name
parent_of [] = none
parent_of (c ∷ []) = if c == b'/' then none else some []
parent_of (c ∷ d ∷ s) = some (reverse_onto (trimmed (without_name (c ∷ d ∷ s))) [])

-- `none` for the root and the empty path.
unfoldable pub parent : Text → Option Text
unfolding parent_of trimmed
parent path = parent_of (trimmed (reverse_onto path []))

-- A directory as it is usually written: not empty, and with no separator and no `.` at its end.
abbrev pub IsTidy : Text → Type 0
IsTidy dir = (need_sep dir ≡ true) × (trimmed (reverse_onto dir []) ≡ reverse_onto dir [])

reverse_onto-append :
    (xs ys out : Text) → reverse_onto (xs ++ ys) out ≡ reverse_onto ys (reverse_onto xs out)
reverse_onto-append [] ys out = refl
reverse_onto-append (x ∷ xs) ys out = reverse_onto-append xs ys (x ∷ out)

reverse_onto_front : (xs out : Text) → reverse_onto xs out ≡ reverse_onto xs [] ++ out
reverse_onto_front [] out = refl
reverse_onto_front (x ∷ xs) out =
    reverse_onto_front xs (x ∷ out)
    ∙ sym (
        ap (λ r. r ++ out) (reverse_onto_front xs (x ∷ []))
        ∙ append_assoc (reverse_onto xs []) (x ∷ []) out)

reverse_onto_twice : (xs ys : Text) → reverse_onto (reverse_onto xs ys) [] ≡ reverse_onto ys xs
reverse_onto_twice [] ys = refl
reverse_onto_twice (x ∷ xs) ys = reverse_onto_twice xs (x ∷ ys)

trimmed_slash : (r : Text) → r ≢ [] → trimmed r ≡ r → trimmed (b'/' ∷ r) ≡ r
unfolding trimmed
trimmed_slash [] some_name h = absurd (some_name refl)
trimmed_slash (x ∷ r) some_name h = h

reversed_nonempty : (dir : Text) → need_sep dir ≡ true → reverse_onto dir [] ≢ []
unfolding need_sep
reversed_nonempty [] h e = ground (arith, h)
reversed_nonempty (c ∷ dir) h e =
    absurd (ground (arith, reverse_onto_twice (c ∷ dir) [], ap (λ r. reverse_onto r []) e))

-- No separator and no dot.
abbrev pub is_plain : Text → Bool
is_plain [] = true
is_plain (c ∷ s) = if c == b'/' then false else if c == b'.' then false else is_plain s

without_name_plain : (n r : Text) → is_plain n ≡ true → without_name (n ++ (b'/' ∷ r)) ≡ b'/' ∷ r
unfolding without_name
without_name_plain [] r h = refl
without_name_plain (c ∷ n) r h = ground (arith, without_name_plain n r)

trimmed_plain : (c d : ℕ) (n : Text) → is_plain (c ∷ []) ≡ true → trimmed (c ∷ d ∷ n) ≡ c ∷ d ∷ n
unfolding trimmed
trimmed_plain c d n h = ground arith

parent_of_plain :
    (c d : ℕ) (n r : Text)
    → is_plain (c ∷ d ∷ n) ≡ true
    → r ≢ []
    → trimmed r ≡ r
    → parent_of (trimmed ((c ∷ d ∷ n) ++ (b'/' ∷ r))) ≡ some (reverse_onto r [])
unfolding parent_of
parent_of_plain c d n r plain nonempty tidy =
    rw (trimmed_plain c d (n ++ (b'/' ∷ r)) (ground (arith, plain)))
      (rw (without_name_plain (c ∷ d ∷ n) r plain, trimmed_slash r nonempty tidy) refl)

-- The parent of a file in a tidy directory is that directory.
pub parent-join :
    (dir name : Text) (c d : ℕ) (back : Text)
    → is_absolute name ≡ false
    → reverse_onto name [] ≡ c ∷ d ∷ back
    → is_plain (c ∷ d ∷ back) ≡ true
    → IsTidy dir
    → parent (join dir name) ≡ some dir
unfolding parent join
parent-join dir name c d back relative reversed plain (sep, tidy) =
    rw (relative, sep, reverse_onto-append dir (b'/' ∷ name) [])
      (rw (reverse_onto_front name (b'/' ∷ reverse_onto dir []), reversed)
        (rw (parent_of_plain c d back (reverse_onto dir []) plain (reversed_nonempty dir sep) tidy)
          (ap some (reverse_onto_twice dir []))))
