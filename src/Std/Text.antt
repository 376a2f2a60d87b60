-- ===== src/Std/Text.antt =====
-- Methods of `str` and `[String]` that the program calls, over code points.
pub mod Trim
use sc_helper.Prelude.{
  ℕ, zero, suc, ◌+◌, ◌/◌, ◌%◌, ltb, Bool, true, false, ◌&&◌, ◌||◌, List, [], ◌∷◌, ◌++◌, Text, leb,
  ◌==◌, if◌then◌else◌, ◌≡◌, refl, arith,
}

abbrev pub text_eq : Text → Text → Bool
text_eq [] [] = true
text_eq (x ∷ xs) (y ∷ ys) = x == y && text_eq xs ys
text_eq _ _ = false

-- `s.starts_with(p)`
abbrev pub starts_with : Text → Text → Bool
starts_with s [] = true
starts_with [] (y ∷ ys) = false
starts_with (x ∷ xs) (y ∷ ys) = x == y && starts_with xs ys

-- `s.contains(p)`
abbrev pub contains : Text → Text → Bool
contains [] p = starts_with [] p
contains (x ∷ xs) p = starts_with (x ∷ xs) p || contains xs p

-- `char::is_whitespace`, the Unicode property White_Space.
abbrev pub is_whitespace : ℕ → Bool
is_whitespace c =
    (leb 9 c && leb c 13)
    || c == 0x20
    || c == 0x85
    || c == 0xa0
    || c == 0x1680
    || (leb 0x2000 c && leb c 0x200a)
    || c == 0x2028
    || c == 0x2029
    || c == 0x202f
    || c == 0x205f
    || c == 0x3000

-- `s.trim_start()`, `s.trim_end()`, `s.trim()`
unfoldable pub trim_start : Text → Text
trim_start [] = []
trim_start (c ∷ s) = let rest = trim_start s in if is_whitespace c then rest else c ∷ s

keep : ℕ → Text → Text
keep c [] = if is_whitespace c then [] else c ∷ []
keep c (d ∷ r) = c ∷ d ∷ r

unfoldable pub trim_end : Text → Text
unfolding keep
trim_end [] = []
trim_end (c ∷ s) = keep c (trim_end s)

unfoldable pub trim : Text → Text
unfolding trim_start trim_end
trim s = trim_end (trim_start s)

extend_first : ℕ → List Text → List Text
extend_first c [] = (c ∷ []) ∷ []
extend_first c (l ∷ ls) = (c ∷ l) ∷ ls

-- `s.lines()`: a line ends in "\n" or "\r\n", and the last line need not.
unfoldable pub lines : Text → List Text
unfolding extend_first
lines [] = []
lines (c ∷ s) =
    let rest = lines s in
    if c == b'\n'
    then [] ∷ rest
    else if c == b'\r' && starts_with s (b'\n' ∷ [])
    then rest
    else extend_first c rest

flush : Text → List Text → List Text
flush [] rest = rest
flush (c ∷ w) rest = (c ∷ w) ∷ rest

words_from : Text → Text → List Text
words_from w [] = flush w []
words_from w (c ∷ s) =
    let after = words_from [] s in
    let longer = words_from (w ++ c ∷ []) s in if is_whitespace c then flush w after else longer

-- `s.split_whitespace()`
unfoldable pub split_whitespace : Text → List Text
unfolding words_from flush
split_whitespace = words_from []

-- `v.join(sep)`
unfoldable pub join : List Text → Text → Text
join [] sep = []
join (t ∷ []) sep = t
join (t ∷ u ∷ ts) sep = t ++ sep ++ join (u ∷ ts) sep

decimal_onto : ℕ → ℕ → Text → Text
decimal_onto zero n out = out
decimal_onto (suc fuel) n out =
    let more = decimal_onto fuel (n / 10) ((b'0' + n % 10) ∷ out) in
    if ltb n 10 then (b'0' + n) ∷ out else more

-- `{}` of a number. Twenty digits are enough for 64 bits.
unfoldable pub decimal : ℕ → Text
unfolding decimal_onto
decimal n = decimal_onto 20 n []

starts_with-append : (p back : Text) → starts_with (p ++ back) p ≡ true
starts_with-append [] back = refl
starts_with-append (c ∷ p) back = ground (arith, starts_with-append p back)

contains_of_starts_with : (s p : Text) → starts_with s p ≡ true → contains s p ≡ true
contains_of_starts_with [] p h = h
contains_of_starts_with (c ∷ s) p h = rw h

-- A text contains each of its parts.
pub contains-append : (front p back : Text) → contains (front ++ (p ++ back)) p ≡ true
contains-append [] p back = contains_of_starts_with (p ++ back) p (starts_with-append p back)
contains-append (c ∷ front) p back = ground (arith, contains-append front p back)

pub text_eq_self : (s : Text) → text_eq s s ≡ true
text_eq_self [] = refl
text_eq_self (c ∷ s) = ground (arith, text_eq_self s)
