-- ===== src/Service/Server/World/Holder.antt =====
-- Who holds the lock, and what one turn makes of that.
use sc_helper.Prelude.{
  refl, ◌≡◌, ◌∙◌, Bool, true, false, List, [], ◌∷◌, Text, Option, none, some, arith,
}
use sc_helper.Prelude.Program.{Outcome}
use sc_helper.Prelude.Async.{Async}
use sc_helper.Service.State.{Daemon}
use sc_helper.Service.Server.Task.{Task}
use sc_helper.Service.Server.World.{Turn, turned, locks, unlocks, Turns, here, there}
use sc_helper.Service.Server.World.Guard.{
  Own, whole, vacant, Holds, Rely, Rely-Holds, Guarded, MayRelease,
}
use sc_helper.Service.Server.World.Free.{Closed}

module _ (P : Text → Type 0) (Q : Type 0) where
  -- No task holds the lock.
  unfoldable pub AreFree : List Task → Type 0
  AreFree [] = Unit
  AreFree (m ∷ ms) = Guarded P (Closed Q) m none × AreFree ms

  -- One of the tasks does, and knows this.
  pub data HasHolder (o : Own) : List Task → Type 0 where
    first :
        (m : Task) (ms : List Task)
        → Guarded P (Closed Q) m (some o)
        → AreFree ms
        → HasHolder o (m ∷ ms)
    later :
        (m : Task) (ms : List Task)
        → Guarded P (Closed Q) m none
        → HasHolder o ms
        → HasHolder o (m ∷ ms)

  -- What a turn of one program comes to, from a time without the lock.
  pub data Turned {A : Type 0} (post : Option Own → Outcome A → Type 0) (l : Bool) (d : Daemon)
      (l' : Bool) (d' : Daemon) (m : Async Daemon A) : Type 0 where
    went : l' ≡ l → Rely P d d' → Guarded P post m none → Turned post l d l' d' m
    took : l ≡ false → l' ≡ true → d' ≡ d → Guarded P post m (some whole) → Turned post l d l' d' m

  pub Turn-Turned :
      {A : Type 0} (post : Option Own → Outcome A → Type 0) {l l' : Bool} {d d' : Daemon}
      {m n : Async Daemon A}
      → Turn l d m l' d' n
      → Guarded P post m none
      → Turned post l d l' d' n
  unfolding Guarded
  Turn-Turned post {d = d} (turned e k) h = went refl (h d).0 (h d).1
  Turn-Turned post (locks m e) h = took e refl refl h
  Turn-Turned post (unlocks m) h = absurd h

  -- And from a time with it.
  pub data Held {A : Type 0} (post : Option Own → Outcome A → Type 0) (l' : Bool) (d' : Daemon)
      (m : Async Daemon A) : Type 0 where
    kept : (o : Own) → l' ≡ true → Holds P o d' → Guarded P post m (some o) → Held post l' d' m
    gave : l' ≡ false → Holds P whole d' → Guarded P post m none → Held post l' d' m

  pub released-whole : (o : Own) (d : Daemon) → MayRelease P o → Holds P o d → Holds P whole d
  released-whole whole d r h = h
  released-whole vacant d r h = h.0
  released-whole (Own.ending c n) d r h = absurd r

  pub Turn-Held :
      {A : Type 0} (post : Option Own → Outcome A → Type 0) (o : Own) {l l' : Bool} {d d' : Daemon}
      {m n : Async Daemon A}
      → l ≡ true
      → Turn l d m l' d' n
      → Holds P o d
      → Guarded P post m (some o)
      → Held post l' d' n
  unfolding Guarded
  Turn-Held post o {d = d} locked (turned e k) hd h = let r = h d hd in kept r.0 locked r.1.0 r.1.1
  Turn-Held post o locked (locks m e) hd h = absurd h
  Turn-Held post o {d = d} locked (unlocks m) hd h = gave refl (released-whole o d h.0 hd) h.1

  -- The same of a turn among tasks.
  pub data AllTurned (l : Bool) (d : Daemon) (l' : Bool) (d' : Daemon) (ms : List Task)
      : Type 0 where
    all_went : l' ≡ l → Rely P d d' → AreFree ms → AllTurned l d l' d' ms
    one_took : l ≡ false → l' ≡ true → d' ≡ d → HasHolder whole ms → AllTurned l d l' d' ms

  pub data AllHeld (l' : Bool) (d' : Daemon) (ms : List Task) : Type 0 where
    one_kept : (o : Own) → l' ≡ true → Holds P o d' → HasHolder o ms → AllHeld l' d' ms
    one_gave : l' ≡ false → Holds P whole d' → AreFree ms → AllHeld l' d' ms

  pub Turns-AllTurned :
      {l : Bool} {d : Daemon} {l' : Bool} {d' : Daemon} {ms ms' : List Task}
      → Turns l d ms l' d' ms'
      → AreFree ms
      → AllTurned l d l' d' ms'
  unfolding AreFree
  Turns-AllTurned (here ms t) (h, hs) = elim (Turn-Turned (Closed Q) t h) [
    | went e r g ↦ all_went e r (g, hs)
    | took e e' s g ↦ one_took e e' s (first _ ms g hs)
  ]
  Turns-AllTurned (there m ts) (h, hs) = elim (Turns-AllTurned ts hs) [
    | all_went e r g ↦ all_went e r (h, g)
    | one_took e e' s g ↦ one_took e e' s (later m _ h g)
  ]

  pub Turns-AllHeld :
      (o : Own) {l : Bool} {d : Daemon} {l' : Bool} {d' : Daemon} {ms ms' : List Task}
      → l ≡ true
      → Turns l d ms l' d' ms'
      → Holds P o d
      → HasHolder o ms
      → AllHeld l' d' ms'
  unfolding AreFree
  Turns-AllHeld o locked (here _ t) hd (first m ms h hs) =
      elim (Turn-Held (Closed Q) o locked t hd h) [
        | kept o' e hd' g ↦ one_kept o' e hd' (first _ ms g hs)
        | gave e hd' g ↦ one_gave e hd' (g, hs)
      ]
  Turns-AllHeld o locked (here _ t) hd (later m ms h hs) = elim (Turn-Turned (Closed Q) t h) [
    | went e r g ↦ one_kept o (e ∙ locked) (Rely-Holds P o r hd) (later _ ms g hs)
    | took e e' s g ↦ absurd (ground (arith, e, locked))
  ]
  Turns-AllHeld o locked (there _ ts) hd (first m ms h hs) = elim (Turns-AllTurned ts hs) [
    | all_went e r g ↦ one_kept o (e ∙ locked) (Rely-Holds P o r hd) (first m _ h g)
    | one_took e e' s g ↦ absurd (ground (arith, e, locked))
  ]
  Turns-AllHeld o locked (there _ ts) hd (later m ms h hs) =
      elim (Turns-AllHeld o locked ts hd hs) [
        | one_kept o' e hd' g ↦ one_kept o' e hd' (later m _ h g)
        | one_gave e hd' g ↦ one_gave e hd' (h, g)
      ]
