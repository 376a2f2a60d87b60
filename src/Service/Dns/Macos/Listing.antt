-- ===== src/Service/Dns/Macos/Listing.antt =====
-- Which lines of the listing are services.
use mathlib.Core.List.{Memᴰ}
use mathlib.Core.List.Memᴰ
use mathlib.Core.Path.{subst}
use sc_helper.Prelude.{
  ℕ, suc, ◌≡◌, ◌↔◌, ◌⊎◌, refl, sym, ap, ◌∙◌, Bool, ◌==◌, true, false, Bool-cases, inl, inr, List,
  [], ◌∷◌, Text, codes, arith,
}
use sc_helper.Std.Text
use sc_helper.Service.Dns.Macos.{is_empty, services_from}

-- The line names an enabled service: trimmed, it is the name, which is not empty and has no `*` in
-- front.
pub record IsService (svc line : Text) : Type 0 where
  pub named : Text.trim line ≡ svc
  pub not_empty : is_empty svc ≡ false
  pub enabled : Text.starts_with svc (codes "*") ≡ false

-- What a line adds, by the two tests of its trimmed text.
select : Bool → Bool → Text → List Text → List Text
select true _ svc services = services
select false true svc services = services
select false false svc services = svc ∷ services

services_from-select :
    (i : ℕ) (line : Text) (rest : List Text)
    → services_from (suc i) (line ∷ rest)
      ≡ select
          (is_empty (Text.trim line))
          (Text.starts_with (Text.trim line) (codes "*"))
          (Text.trim line)
          (services_from (suc (suc i)) rest)
unfolding services_from select
services_from-select i line rest =
    let later : (suc i == 0) ≡ false = ground arith in
    elim (Bool-cases (is_empty (Text.trim line))) [
      | inl e ↦ rw (later, e) refl
      | inr e ↦ elim (Bool-cases (Text.starts_with (Text.trim line) (codes "*"))) [
        | inl f ↦ rw (later, e, f) refl
        | inr f ↦ rw (later, e, f) refl
      ]
    ]

select-from :
    (a b : Bool) (svc name : Text) (services : List Text)
    → Memᴰ name (select a b svc services)
    → Memᴰ name services ⊎ ((svc ≡ name) × (a ≡ false) × (b ≡ false))
unfolding select
select-from true b svc name services m = inl m
select-from false true svc name services m = inl m
select-from false false svc name services (Memᴰ.head e) = inr (sym e, refl, refl)
select-from false false svc name services (Memᴰ.tail m) = inl m

select-later :
    (a b : Bool) (svc name : Text) (services : List Text)
    → Memᴰ name services
    → Memᴰ name (select a b svc services)
unfolding select
select-later true b svc name services m = m
select-later false true svc name services m = m
select-later false false svc name services m = Memᴰ.tail m

select-now :
    (a b : Bool) (svc : Text) (services : List Text)
    → a ≡ false
    → b ≡ false
    → Memᴰ svc (select a b svc services)
unfolding select
select-now a b svc services e f = rw (e, f) (Memᴰ.head refl)

services_from_sound :
    (i : ℕ) (svc : Text) (lines : List Text)
    → Memᴰ svc (services_from (suc i) lines)
    → (line : Text) × Memᴰ line lines × IsService svc line
unfolding services_from
services_from_sound i svc [] m = absurd (Memᴰ.not-nil m)
services_from_sound i svc (line ∷ rest) m =
    elim (select-from _ _ (Text.trim line) svc (services_from (suc (suc i)) rest)
      (subst (Memᴰ svc) (services_from-select i line rest) m)) [
        | inl later ↦
            let (l, here, is) = services_from_sound (suc i) svc rest later in
            (l, Memᴰ.tail here, is)
        | inr (e, full, enabled) ↦ (
          line,
          Memᴰ.head refl,
          record { named = e; not_empty = rw (← e) full; enabled = rw (← e) enabled },
        )
      ]

services_from_complete :
    (i : ℕ) (svc line : Text) (lines : List Text)
    → Memᴰ line lines
    → IsService svc line
    → Memᴰ svc (services_from (suc i) lines)
services_from_complete i svc line [] m is = absurd (Memᴰ.not-nil m)
services_from_complete i svc line (first ∷ rest) (Memᴰ.head e) is =
    let name : Text.trim first ≡ svc = ap Text.trim (sym e) ∙ is.named in
    subst (Memᴰ svc) (sym (services_from-select i first rest)) (
      rw name (
        select-now (is_empty svc) (Text.starts_with svc (codes "*")) svc
          (services_from (suc (suc i)) rest) is.not_empty is.enabled))
services_from_complete i svc line (first ∷ rest) (Memᴰ.tail m) is =
    subst (Memᴰ svc) (sym (services_from-select i first rest))
      (select-later _ _ (Text.trim first) svc _ (services_from_complete (suc i) svc line rest m is))

-- The services of a listing are, without its first line, the trimmed lines that are not empty and
-- have no `*` in front.
pub services_from_iff :
    (preamble : Text) (lines : List Text) (svc : Text)
    → Memᴰ svc (services_from 0 (preamble ∷ lines))
      ↔ ((line : Text) × Memᴰ line lines × IsService svc line)
unfolding services_from
services_from_iff preamble lines svc =
    (services_from_sound 0 svc lines, λ (line, m, is). services_from_complete 0 svc line lines m is)
