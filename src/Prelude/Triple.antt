-- ===== src/Prelude/Triple.antt =====
-- Programs between two conditions: from `pre` they end, with a value and `post`, or with an error
-- and `bad`.
use mathlib.Core.Bool.{Bool, true, false}
use mathlib.Core.Path.{◌≡◌, refl}
use sc_helper.Prelude.Lists.{Text}
use sc_helper.Prelude.Tests.{if◌then◌else◌}
use sc_helper.Prelude.Program.{
  Program, Outcome, done, failed, panicked, stuck, after, pure, fail, ◌>>=◌, ◌>>◌,
}

abbrev pub Ensures : {S A : Type 0} → (A → S → Type 0) → (S → Type 0) → Outcome A × S → Type 0
Ensures post bad (done a, s) = post a s
Ensures post bad (failed e, s) = bad s
Ensures post bad (panicked e, s) = ⊥
Ensures post bad (stuck, s) = ⊥

pub record Meets {S A : Type 0} (pre : S → Type 0) (m : Program S A) (post : A → S → Type 0)
    (bad : S → Type 0) : Type 0 where
  pub apply : (s : S) → pre s → Ensures post bad (m s)

pub Ensures-weaken :
    {S A : Type 0} (bad : S → Type 0) (post post' : A → S → Type 0) (r : Outcome A × S)
    → ((a : A) (s : S) → post a s → post' a s)
    → Ensures post bad r
    → Ensures post' bad r
Ensures-weaken bad post post' (done a, s) g h = g a s h
Ensures-weaken bad post post' (failed e, s) g h = h
Ensures-weaken bad post post' (panicked e, s) g h = h
Ensures-weaken bad post post' (stuck, s) g h = h

module _ {S : Type 0} {bad : S → Type 0} where
  Ensures-after :
      {A B : Type 0} {mid : A → S → Type 0} {post : B → S → Type 0} (r : Outcome A × S)
      (f : A → Program S B)
      → Ensures mid bad r
      → ((a : A) → Meets (mid a) (f a) post bad)
      → Ensures post bad (after r f)
  Ensures-after (done a, s) f h k = (k a).apply s h
  Ensures-after (failed e, s) f h k = h
  Ensures-after (panicked e, s) f h k = h
  Ensures-after (stuck, s) f h k = h

  pub Meets-bind :
      {A B : Type 0} {pre : S → Type 0} {mid : A → S → Type 0} {post : B → S → Type 0}
      {m : Program S A} {f : A → Program S B}
      → Meets pre m mid bad
      → ((a : A) → Meets (mid a) (f a) post bad)
      → Meets pre (m >>= f) post bad
  Meets-bind {m = m} {f = f} km kf = record {
    apply = λ s h. Ensures-after (m s) f (km.apply s h) kf;
  }

  pub Meets-then :
      {B : Type 0} {pre mid : S → Type 0} {post : B → S → Type 0} {m : Program S (Unit {0})}
      {k : Program S B}
      → Meets pre m (λ _. mid) bad
      → Meets mid k post bad
      → Meets pre (m >> k) post bad
  Meets-then km kk = Meets-bind km (λ _. kk)

  pub Meets-weaken :
      {A : Type 0} {pre pre' : S → Type 0} {post post' : A → S → Type 0} {m : Program S A}
      → ((s : S) → pre' s → pre s)
      → ((a : A) (s : S) → post a s → post' a s)
      → Meets pre m post bad
      → Meets pre' m post' bad
  Meets-weaken {post = post} {post' = post'} {m = m} f g km = record {
    apply = λ s h. Ensures-weaken bad post post' (m s) g (km.apply s (f s h));
  }

  pub Meets-if :
      {A : Type 0} {pre : S → Type 0} {post : A → S → Type 0} (b : Bool) {m n : Program S A}
      → (b ≡ true → Meets pre m post bad)
      → (b ≡ false → Meets pre n post bad)
      → Meets pre (if b then m else n) post bad
  Meets-if true km kn = km refl
  Meets-if false km kn = kn refl

  pub Meets-pure :
      {A : Type 0} {pre : S → Type 0} {post : A → S → Type 0} (a : A)
      → ((s : S) → pre s → post a s)
      → Meets pre (pure a) post bad
  Meets-pure a h = record { apply = h }

  pub Meets-fail :
      {A : Type 0} {pre : S → Type 0} {post : A → S → Type 0} (e : Text)
      → ((s : S) → pre s → bad s)
      → Meets pre (fail {A = A} e) post bad
  Meets-fail e h = record { apply = h }
