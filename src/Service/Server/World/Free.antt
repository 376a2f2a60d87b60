-- ===== src/Service/Server/World/Free.antt =====
-- Programs that start and end without the lock, and the rules by which they are put together.
use sc_helper.Prelude.{Bool, true, false, if◌then◌else◌, Option, none, some, Text}
use sc_helper.Prelude.Program.{
  Program, Result, ok, err, Outcome, done, failed, panicked, stuck, IsSettled, EndsIf,
  IsSettled-EndsIf,
}
use sc_helper.Prelude.Keeps.{Keeps}
use sc_helper.Prelude.Async.{
  Async, over, whatever, on_value, caught_value, catch, pure, sync, acquire, release, ◌>>=◌, ◌>>◌,
}
use sc_helper.Ipc.Frame.{Stream}
use sc_helper.Service.State.{Daemon}
use sc_helper.Service.Server.World.Guard.{
  Own, whole, vacant, ending, Rely, Rely-refl, MayRelease, Guarded, Guarded-whatever,
}

-- At some end, without the lock; with a panic only if `Q`.
unfoldable pub Outside : {A : Type 0} → Type 0 → Option Own → Outcome A → Type 0
Outside Q none x = EndsIf Q x
Outside Q (some o) x = ⊥

-- So is a task, with the end of its connection.
unfoldable pub Closed : Type 0 → Option Own → Outcome (Outcome (Unit {0}) × Stream) → Type 0
Closed Q none (done (x, stream)) = EndsIf Q x
Closed Q _ _ = ⊥

-- With the lock and a supervisor that is right, with a value or an error.
unfoldable pub Inside : {A : Type 0} → Option Own → Outcome A → Type 0
Inside none x = ⊥
Inside (some whole) x = IsSettled x
Inside (some vacant) x = IsSettled x
Inside (some (ending c n)) x = ⊥

module _ (P : Text → Type 0) (Q : Type 0) where
  pub record IsFree {A : Type 0} (m : Async Daemon A) : Type 0 where
    pub apply : Guarded P (Outside Q) m none

module _ {P : Text → Type 0} {Q : Type 0} where
  pub IsFree-over : {A : Type 0} (x : Outcome A) → EndsIf Q x → IsFree P Q (over x)
  unfolding Guarded Outside
  IsFree-over x h = record { apply = h }

  pub IsFree-pure : {A : Type 0} (a : A) → IsFree P Q (pure a)
  IsFree-pure a = IsFree-over (done a) tt

  pub IsFree-sync :
      {A : Type 0} (p : Program Daemon A)
      → ((d : Daemon) → Keeps (Rely P d) p)
      → IsFree P Q (sync p)
  unfolding Guarded Outside
  IsFree-sync p keeps = record {
    apply = λ d. let r = (keeps d).apply d (Rely-refl P d) in (r.1, IsSettled-EndsIf Q (p d).0 r.0);
  }

  pub IsFree-turn :
      {A : Type 0} (p : Program Daemon A)
      → ((d : Daemon) → Rely P d (p d).1 × EndsIf Q (p d).0)
      → IsFree P Q (sync p)
  unfolding Guarded Outside
  IsFree-turn p relied = record { apply = relied }

  Outside-IsFree :
      {A B : Type 0} (f : Outcome A → Async Daemon B)
      → ((x : Outcome A) → EndsIf Q x → IsFree P Q (f x))
      → (o : Option Own) (x : Outcome A) → Outside Q o x
      → Guarded P (Outside Q) (f x) o
  unfolding Outside
  Outside-IsFree f kf none x h = (kf x h).apply
  Outside-IsFree f kf (some o) x h = absurd h

  pub IsFree-whatever :
      {A B : Type 0} {m : Async Daemon A} {f : Outcome A → Async Daemon B}
      → IsFree P Q m
      → ((x : Outcome A) → EndsIf Q x → IsFree P Q (f x))
      → IsFree P Q (whatever m f)
  IsFree-whatever {m = m} {f = f} km kf = record {
    apply = Guarded-whatever P (Outside Q) (Outside Q) f (Outside-IsFree f kf) m none km.apply;
  }

  value-IsFree :
      {A B : Type 0} (f : A → Async Daemon B)
      → ((a : A) → IsFree P Q (f a))
      → (x : Outcome A) → EndsIf Q x
      → IsFree P Q (on_value f x)
  value-IsFree f kf (done a) h = kf a
  value-IsFree f kf (failed e) h = IsFree-over (failed e) tt
  value-IsFree f kf (panicked e) h = IsFree-over (panicked e) h
  value-IsFree f kf stuck h = absurd h

  pub IsFree-bind :
      {A B : Type 0} {m : Async Daemon A} {f : A → Async Daemon B}
      → IsFree P Q m
      → ((a : A) → IsFree P Q (f a))
      → IsFree P Q (m >>= f)
  IsFree-bind km kf = IsFree-whatever km (value-IsFree _ kf)

  caught-IsFree :
      {A : Type 0} (x : Outcome A) → EndsIf Q x → IsFree P Q (caught_value {S = Daemon} x)
  caught-IsFree (done a) h = IsFree-over (done (ok a)) tt
  caught-IsFree (failed e) h = IsFree-over (done (err e)) tt
  caught-IsFree (panicked e) h = IsFree-over (panicked e) h
  caught-IsFree stuck h = absurd h

  pub IsFree-catch : {A : Type 0} {m : Async Daemon A} → IsFree P Q m → IsFree P Q (catch m)
  IsFree-catch km = IsFree-whatever km caught-IsFree

  pub IsFree-if :
      {A : Type 0} (b : Bool) {m n : Async Daemon A}
      → IsFree P Q m
      → IsFree P Q n
      → IsFree P Q (if b then m else n)
  IsFree-if true km kn = km
  IsFree-if false km kn = kn

-- A `match` on a call under the lock, which is held to the end of the arm.
module _ (P : Text → Type 0) (Q : Type 0) {A B : Type 0} (g : Result A → B) where
  abbrev HeldOn : Option Own → Outcome (Result A) → Type 0
  HeldOn none x = ⊥
  HeldOn (some o) (done r) = MayRelease P o
  HeldOn (some o) x = ⊥

  released-Guarded :
      (o : Option Own) (x : Outcome (Result A))
      → HeldOn o x
      → Guarded P (Outside Q) (on_value (λ r. release >> pure (g r)) x) o
  unfolding Guarded Outside
  released-Guarded none x h = absurd h
  released-Guarded (some o) (done r) h = (h, tt)
  released-Guarded (some o) (failed e) h = absurd h
  released-Guarded (some o) (panicked e) h = absurd h
  released-Guarded (some o) stuck h = absurd h

  caught-Guarded :
      (o : Option Own) (x : Outcome A)
      → Inside o x
      → Guarded P HeldOn (caught_value {S = Daemon} x) o
  unfolding Guarded Inside
  caught-Guarded none x h = absurd h
  caught-Guarded (some whole) (done a) h = tt
  caught-Guarded (some whole) (failed e) h = tt
  caught-Guarded (some whole) (panicked e) h = h
  caught-Guarded (some whole) stuck h = h
  caught-Guarded (some vacant) (done a) h = tt
  caught-Guarded (some vacant) (failed e) h = tt
  caught-Guarded (some vacant) (panicked e) h = h
  caught-Guarded (some vacant) stuck h = h
  caught-Guarded (some (ending c n)) x h = absurd h

  pub locked-IsFree :
      (m : Async Daemon A)
      → Guarded P Inside m (some whole)
      → IsFree P Q (acquire >> (catch m >>= λ r. release >> pure (g r)))
  unfolding Guarded
  locked-IsFree m h = record {
    apply =
        Guarded-whatever P HeldOn (Outside Q) (on_value (λ r. release >> pure (g r)))
          released-Guarded (catch m) (some whole)
          (Guarded-whatever P Inside HeldOn caught_value caught-Guarded m (some whole) h);
  }
