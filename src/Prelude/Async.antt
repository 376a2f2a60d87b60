-- ===== src/Prelude/Async.antt =====
-- Asynchronous programs over a shared state: where they may be left for others, and where they take
-- and give back the one lock. A turn is carried out at once; between two turns others may run.
use mathlib.Core.Path.{◌≡◌, refl, ◌∙◌, ap}
use sc_helper.Prelude.Lists.{Text}
use sc_helper.Prelude.Tests.{if◌then◌else◌}
use mathlib.Core.Bool.{Bool, true, false}
use sc_helper.Prelude.Program
use sc_helper.Prelude.Program.{
  Program, Result, ok, err, Outcome, done, failed, panicked, stuck, after, caught,
}

-- `turn`: what it makes of the state, and how it goes on, both from the state before.
pub data Async (S A : Type 0) : Type 0 where
  over : Outcome A → Async S A
  turn : (S → S) → (S → Async S A) → Async S A
  lock : Async S A → Async S A
  unlock : Async S A → Async S A

module _ {S : Type 0} where
  -- Behind the end of a program, whatever it is.
  abbrev pub whatever : {A B : Type 0} → Async S A → (Outcome A → Async S B) → Async S B
  whatever (over o) f = f o
  whatever (turn e k) f = turn e (λ s. whatever (k s) f)
  whatever (lock m) f = lock (whatever m f)
  whatever (unlock m) f = unlock (whatever m f)

  abbrev pub on_value : {A B : Type 0} → (A → Async S B) → Outcome A → Async S B
  on_value f (done a) = f a
  on_value f (failed e) = over (failed e)
  on_value f (panicked e) = over (panicked e)
  on_value f stuck = over stuck

  abbrev pub pure : {A : Type 0} → A → Async S A
  pure a = over (done a)

  infixl 5 ◌>>=◌ ◌>>◌
  abbrev pub ◌>>=◌ : {A B : Type 0} → Async S A → (A → Async S B) → Async S B
  m >>= f = whatever m (on_value f)

  abbrev pub ◌>>◌ : {B : Type 0} → Async S (Unit {0}) → Async S B → Async S B
  m >> k = m >>= λ _. k

  abbrev pub caught_value : {A : Type 0} → Outcome A → Async S (Result A)
  caught_value (done a) = over (done (ok a))
  caught_value (failed e) = over (done (err e))
  caught_value (panicked e) = over (panicked e)
  caught_value stuck = over stuck

  -- A `match` on a `Result`.
  abbrev pub catch : {A : Type 0} → Async S A → Async S (Result A)
  catch m = whatever m caught_value

  -- `lock().await`, and the drop of its guard.
  abbrev pub acquire : Async S (Unit {0})
  acquire = lock (over (done tt))

  abbrev pub release : Async S (Unit {0})
  release = unlock (over (done tt))

  -- A program that is carried out at once.
  abbrev pub sync : {A : Type 0} → Program S A → Async S A
  sync m = turn (λ s. (m s).1) (λ s. over (m s).0)

  -- Alone on the state.
  abbrev pub alone : {A : Type 0} → Async S A → Program S A
  alone (over o) s = (o, s)
  alone (turn e k) s = alone (k s) (e s)
  alone (lock m) s = alone m s
  alone (unlock m) s = alone m s

  -- Alone, a program behind the end of another is that program after it.
  pub alone-whatever :
      {A B : Type 0} (m : Async S A) (f : Outcome A → Async S B) (s : S)
      → alone (whatever m f) s ≡ alone (f (alone m s).0) (alone m s).1
  alone-whatever (over o) f s = refl
  alone-whatever (turn e k) f s = alone-whatever (k s) f (e s)
  alone-whatever (lock m) f s = alone-whatever m f s
  alone-whatever (unlock m) f s = alone-whatever m f s

  pub alone-on_value :
      {A B : Type 0} (r : Outcome A × S) (f : A → Async S B)
      → alone (on_value f r.0) r.1 ≡ after r (λ a. alone (f a))
  alone-on_value (done a, s) f = refl
  alone-on_value (failed e, s) f = refl
  alone-on_value (panicked e, s) f = refl
  alone-on_value (stuck, s) f = refl

  pub alone-bind :
      {A B : Type 0} (m : Async S A) (f : A → Async S B) (s : S)
      → alone (m >>= f) s ≡ after (alone m s) (λ a. alone (f a))
  alone-bind m f s = alone-whatever m (on_value f) s ∙ alone-on_value (alone m s) f

  alone-caught_value : {A : Type 0} (r : Outcome A × S) → alone (caught_value r.0) r.1 ≡ caught r
  alone-caught_value (done a, s) = refl
  alone-caught_value (failed e, s) = refl
  alone-caught_value (panicked e, s) = refl
  alone-caught_value (stuck, s) = refl

  pub alone-catch : {A : Type 0} (m : Async S A) (s : S) → alone (catch m) s ≡ caught (alone m s)
  alone-catch m s = alone-whatever m caught_value s ∙ alone-caught_value (alone m s)

-- An asynchronous program that is, alone, this program; and the rules by which it is shown.
pub record IsAlone {S A : Type 0} (m : Async S A) (p : Program S A) : Type 0 where
  pub apply : (s : S) → alone m s ≡ p s

module _ {S : Type 0} where
  pub IsAlone-sync : {A : Type 0} (p : Program S A) → IsAlone (sync p) p
  IsAlone-sync p = record { apply = λ s. refl }

  pub IsAlone-pure : {A : Type 0} (a : A) → IsAlone {S = S} (pure a) (Program.pure a)
  IsAlone-pure a = record { apply = λ s. refl }

  -- The lock is of no account to a program alone.
  pub IsAlone-release : {A : Type 0} (a : A) → IsAlone {S = S} (release >> pure a) (Program.pure a)
  IsAlone-release a = record { apply = λ s. refl }

  pub IsAlone-fail :
      {A : Type 0} (e : Text) → IsAlone {S = S} {A = A} (over (failed e)) (Program.fail e)
  IsAlone-fail e = record { apply = λ s. refl }

  pub IsAlone-bind :
      {A B : Type 0} {m : Async S A} {p : Program S A} {f : A → Async S B} {g : A → Program S B}
      → IsAlone m p
      → ((a : A) → IsAlone (f a) (g a))
      → IsAlone (m >>= f) (Program.◌>>=◌ p g)
  IsAlone-bind {m = m} {p = p} {f = f} km kf = record {
    apply = λ s.
        alone-bind m f s
        ∙ ap (λ r. after r (λ a. alone (f a))) (km.apply s)
        ∙ (λ i. after (p s) (λ a d. (kf a).apply d i));
  }

  pub IsAlone-catch :
      {A : Type 0} {m : Async S A} {p : Program S A}
      → IsAlone m p
      → IsAlone (catch m) (Program.catch p)
  IsAlone-catch {m = m} km = record { apply = λ s. alone-catch m s ∙ ap caught (km.apply s) }

  pub IsAlone-if :
      {A : Type 0} (b : Bool) {m n : Async S A} {p q : Program S A}
      → IsAlone m p
      → IsAlone n q
      → IsAlone (if b then m else n) (if b then p else q)
  IsAlone-if true km kn = km
  IsAlone-if false km kn = kn
