-- ===== src/Prelude/Keeps.antt =====
-- Programs that end and keep an invariant of the state, and the rules by which they are put
-- together.
use mathlib.Core.Bool.{Bool, true, false}
use mathlib.Core.Path.{◌≡◌, refl}
use sc_helper.Prelude.Lists.{Text}
use sc_helper.Prelude.Tests.{if◌then◌else◌}
use sc_helper.Prelude.Program.{
  Program, Result, ok, err, Outcome, done, failed, panicked, stuck, IsSettled, after, pure, fail,
  ◌>>=◌, catch, caught,
}

pub record Keeps {S A : Type 0} (I : S → Type 0) (m : Program S A) : Type 0 where
  pub apply : (s : S) → I s → IsSettled (m s).0 × I (m s).1

-- The same of one run.
abbrev pub Ends : {S A : Type 0} → (S → Type 0) → Outcome A × S → Type 0
Ends I r = IsSettled r.0 × I r.1

Ends-caught :
    {S : Type 0} (I : S → Type 0) {A : Type 0} (r : Outcome A × S) → Ends I r → Ends I (caught r)
Ends-caught I (done a, s) h = h
Ends-caught I (failed e, s) h = h
Ends-caught I (panicked e, s) h = h
Ends-caught I (stuck, s) h = h

module _ {S : Type 0} {I : S → Type 0} where
  pub Ends-after :
      {A B : Type 0} (r : Outcome A × S) (f : A → Program S B)
      → Ends I r
      → ((a : A) → Keeps I (f a))
      → Ends I (after r f)
  Ends-after (done a, s) f (_, h) k = (k a).apply s h
  Ends-after (failed e, s) f (_, h) k = (tt, h)
  Ends-after (panicked e, s) f (settled, _) k = absurd settled
  Ends-after (stuck, s) f (settled, _) k = absurd settled

  pub Keeps-bind :
      {A B : Type 0} {m : Program S A} {f : A → Program S B}
      → Keeps I m
      → ((a : A) → Keeps I (f a))
      → Keeps I (m >>= f)
  Keeps-bind {m = m} {f = f} km kf = record { apply = λ s h. Ends-after (m s) f (km.apply s h) kf }

  pub Keeps-pure : {A : Type 0} (a : A) → Keeps I (pure {S = S} a)
  Keeps-pure a = record { apply = λ s h. (tt, h) }

  pub Keeps-fail : {A : Type 0} (e : Text) → Keeps I (fail {S = S} {A = A} e)
  Keeps-fail e = record { apply = λ s h. (tt, h) }

  pub Keeps-if :
      {A : Type 0} (b : Bool) {m n : Program S A}
      → Keeps I m
      → Keeps I n
      → Keeps I (if b then m else n)
  Keeps-if true km kn = km
  Keeps-if false km kn = kn

  pub Keeps-catch : {A : Type 0} {m : Program S A} → Keeps I m → Keeps I (catch m)
  Keeps-catch {m = m} km = record { apply = λ s h. Ends-caught I (m s) (km.apply s h) }

-- A `match` on a call's result that builds a value has a value, where the call ends.
pub caught-done :
    {S A B : Type 0} (r : Outcome A × S) (g : Result A → B)
    → IsSettled r.0
    → (b : B) × ((after (caught r) (λ x. pure (g x))).0 ≡ done b)
caught-done (done a, s) g h = (g (ok a), refl)
caught-done (failed e, s) g h = (g (err e), refl)
caught-done (panicked e, s) g h = absurd h
caught-done (stuck, s) g h = absurd h
