-- ===== src/Service/Server/World/Guard.antt =====
-- Programs that keep the supervisor right when others run between their turns: without the lock
-- they leave it alone, and with the lock they put it right before they give the lock back.
use sc_helper.Prelude.{ℕ, ◌≡◌, refl, ap, sym, ◌∙◌, ◌≤◌, Option, none, some, [], ◌∷◌, Text, arith}
use sc_helper.Prelude.Program.{Outcome}
use sc_helper.Prelude.Async.{Async, over, turn, lock, unlock, whatever}
use sc_helper.Service.Os.{time_floor}
use sc_helper.Service.State.{Daemon}
use sc_helper.Service.Core.Tracking.{outstanding, held, AreJustified, IsSound}

-- What the holder of the lock knows: the supervisor is sound; it is, and holds no child; or it
-- holds none, but this child is still to be ended, and the clock reads this much at least.
pub data Own : Type 0 where
  whole vacant : Own
  ending : (c n : ℕ) → Own

module _ (P : Text → Type 0) where
  pub record IsEnding (c n : ℕ) (d : Daemon) : Type 0 where
    pub released : d.supervisor.child ≡ none
    pub left : outstanding d.trace ≡ c ∷ []
    pub justified : AreJustified P d.trace
    pub late : n ≤ time_floor d.trace

  abbrev pub Holds : Own → Daemon → Type 0
  Holds whole d = IsSound P d
  Holds vacant d = IsSound P d × (d.supervisor.child ≡ none)
  Holds (ending c n) d = IsEnding c n d

  -- What a turn without the lock may do, as far as the supervisor is concerned.
  pub record Rely (d d' : Daemon) : Type 0 where
    pub child_stays : d'.supervisor.child ≡ d.supervisor.child
    pub left_stays : outstanding d'.trace ≡ outstanding d.trace
    pub justified_stays : AreJustified P d.trace → AreJustified P d'.trace
    pub time_passes : time_floor d.trace ≤ time_floor d'.trace

  pub Rely-refl : (d : Daemon) → Rely d d
  Rely-refl d = record {
    child_stays = refl;
    left_stays = refl;
    justified_stays = λ j. j;
    time_passes = omega arith;
  }

  pub Rely-trans : {d e f : Daemon} → Rely d e → Rely e f → Rely d f
  Rely-trans r q = record {
    child_stays = q.child_stays ∙ r.child_stays;
    left_stays = q.left_stays ∙ r.left_stays;
    justified_stays = λ j. q.justified_stays (r.justified_stays j);
    time_passes = omega (arith, r.time_passes, q.time_passes);
  }

  Rely-IsSound : {d d' : Daemon} → Rely d d' → IsSound P d → IsSound P d'
  Rely-IsSound r h = record {
    tracked = r.left_stays ∙ h.tracked ∙ ap held (sym r.child_stays);
    justified = r.justified_stays h.justified;
  }

  -- What the holder knows is not touched by the turns of others.
  pub Rely-Holds : (o : Own) {d d' : Daemon} → Rely d d' → Holds o d → Holds o d'
  Rely-Holds whole r h = Rely-IsSound r h
  Rely-Holds vacant r (h, e) = (Rely-IsSound r h, r.child_stays ∙ e)
  Rely-Holds (ending c n) r h = record {
    released = r.child_stays ∙ h.released;
    left = r.left_stays ∙ h.left;
    justified = r.justified_stays h.justified;
    late = omega (arith, h.late, r.time_passes);
  }

  -- With it the lock may be given back.
  abbrev pub MayRelease : Own → Type 0
  MayRelease (ending c n) = ⊥
  MayRelease _ = Unit

  module _ {A : Type 0} (post : Option Own → Outcome A → Type 0) where
    -- From a time when it does not hold the lock, or holds it and knows this, to an end as in
    -- `post`.
    unfoldable pub Guarded : Async Daemon A → Option Own → Type 0
    Guarded (over x) o = post o x
    Guarded (turn e k) none = (d : Daemon) → Rely d (e d) × Guarded (k d) none
    Guarded (turn e k) (some o) =
        (d : Daemon) → Holds o d → (o' : Own) × (Holds o' (e d) × Guarded (k d) (some o'))
    Guarded (lock m) none = Guarded m (some whole)
    Guarded (lock m) (some o) = ⊥
    Guarded (unlock m) none = ⊥
    Guarded (unlock m) (some o) = MayRelease o × Guarded m none

  module _ {A B : Type 0} (post : Option Own → Outcome A → Type 0)
      (post' : Option Own → Outcome B → Type 0) (f : Outcome A → Async Daemon B)
      (k : (o : Option Own) (x : Outcome A) → post o x → Guarded post' (f x) o) where
    -- Behind the end of a program.
    pub Guarded-whatever :
        (m : Async Daemon A) (o : Option Own) → Guarded post m o → Guarded post' (whatever m f) o
    unfolding Guarded
    Guarded-whatever (over x) o h = k o x h
    Guarded-whatever (turn e g) none h = λ d. ((h d).0, Guarded-whatever (g d) none (h d).1)
    Guarded-whatever (turn e g) (some o) h =
        λ d hd. let r = h d hd in (r.0, (r.1.0, Guarded-whatever (g d) (some r.0) r.1.1))
    Guarded-whatever (lock m) none h = Guarded-whatever m (some whole) h
    Guarded-whatever (lock m) (some o) h = absurd h
    Guarded-whatever (unlock m) none h = absurd h
    Guarded-whatever (unlock m) (some o) h = (h.0, Guarded-whatever m none h.1)
