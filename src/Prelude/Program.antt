-- ===== src/Prelude/Program.antt =====
-- A program over a state: how it ends, and the state then. `anyhow::Error` is the text that its
-- `to_string` shows, that of the outermost context.
use sc_helper.Prelude.Lists.{Text}

pub data Result (A : Type 0) : Type 0 where
  ok : A → Result A
  err : Text → Result A

-- `failed` is an `Err` that `?` passes on, `panicked` a failed `expect`. `stuck` is no end of the
-- program: a loop of the model ran out of fuel.
pub data Outcome (A : Type 0) : Type 0 where
  done : A → Outcome A
  failed : Text → Outcome A
  panicked : Text → Outcome A
  stuck : Outcome A

abbrev pub Program : Type 0 → Type 0 → Type 0
Program S A = S → Outcome A × S

module _ {S : Type 0} where
  abbrev pub pure : {A : Type 0} → A → Program S A
  pure a s = (done a, s)

  abbrev pub fail : {A : Type 0} → Text → Program S A
  fail e s = (failed e, s)

  -- `?` behind `context`: an error is shown as the context.
  abbrev pub or_fail : {A : Type 0} → Text → Result A → Program S A
  or_fail context (ok a) = pure a
  or_fail context (err _) = fail context

  -- A value already computed, or an error of it.
  abbrev pub lift : {A : Type 0} → Outcome A → Program S A
  lift o s = (o, s)

  abbrev pub after : {A B : Type 0} → Outcome A × S → (A → Program S B) → Outcome B × S
  after (done a, s) f = f a s
  after (failed e, s) f = (failed e, s)
  after (panicked e, s) f = (panicked e, s)
  after (stuck, s) f = (stuck, s)

  infixl 5 ◌>>=◌ ◌>>◌
  abbrev pub ◌>>=◌ : {A B : Type 0} → Program S A → (A → Program S B) → Program S B
  ◌>>=◌ m f s = after (m s) f

  abbrev pub ◌>>◌ : {B : Type 0} → Program S (Unit {0}) → Program S B → Program S B
  m >> k = m >>= λ _. k

  abbrev pub caught : {A : Type 0} → Outcome A × S → Outcome (Result A) × S
  caught (done a, s) = (done (ok a), s)
  caught (failed e, s) = (done (err e), s)
  caught (panicked e, s) = (panicked e, s)
  caught (stuck, s) = (stuck, s)

  -- A `match` on a `Result`.
  abbrev pub catch : {A : Type 0} → Program S A → Program S (Result A)
  catch m s = caught (m s)

-- The program ended, with a value or an error.
abbrev pub IsSettled : {A : Type 0} → Outcome A → Type 0
IsSettled (done a) = Unit
IsSettled (failed e) = Unit
IsSettled (panicked e) = ⊥
IsSettled stuck = ⊥

-- It ended; with a panic only if this holds.
abbrev pub EndsIf : {A : Type 0} → Type 0 → Outcome A → Type 0
EndsIf Q (done a) = Unit
EndsIf Q (failed e) = Unit
EndsIf Q (panicked e) = Q
EndsIf Q stuck = ⊥

pub IsSettled-EndsIf : {A : Type 0} (Q : Type 0) (x : Outcome A) → IsSettled x → EndsIf Q x
IsSettled-EndsIf Q (done a) h = tt
IsSettled-EndsIf Q (failed e) h = tt
IsSettled-EndsIf Q (panicked e) h = absurd h
IsSettled-EndsIf Q stuck h = absurd h
