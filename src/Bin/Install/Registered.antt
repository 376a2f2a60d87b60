-- ===== src/Bin/Install/Registered.antt =====
-- The registration, and the removal of an older one.
use sc_helper.Prelude.{◌≡◌, refl, Bool, true, false, List, Text, arith}
use sc_helper.Prelude.Program.{or_fail, ◌>>=◌}
use sc_helper.Prelude.Triple.{Meets, Meets-bind, Meets-then, Meets-pure}
use sc_helper.Bin.Files.{Status, ran, Calls, Files, status}
use sc_helper.Bin.Files.Known.{content_at, root_at, mode_at, refused_last}
use sc_helper.Bin.Install.{unload, unload_if}
use sc_helper.Bin.Install.Ready.{Plan, first_is, registered, IsReady, IsCareful, IsExcused}
use sc_helper.Bin.Install.Steps.{IsStable, call-Meets, say-Meets, is_file-Meets}
use sc_helper.Bin.Install.Laws.{careful}

module _ (fs : Files) (plan : Plan) where
  ask-Meets :
      (program : Text) (args : List Text)
      → first_is plan.verb args ≡ false
      → Meets (IsCareful plan) (status fs program args) (λ _. IsCareful plan) (IsExcused plan)
  unfolding IsCareful
  ask-Meets program args other = record {
    apply = λ t h. ((λ asked. absurd (ground (arith, asked, other))), h);
  }

  unload_if-Meets :
      (b : Bool) (notice program : Text) (args : List Text)
      → first_is plan.verb args ≡ false
      → Meets
          (IsCareful plan)
          (unload_if fs b notice program args)
          (λ _. IsCareful plan)
          (IsExcused plan)
  unfolding unload_if IsCareful
  unload_if-Meets false notice program args other = Meets-pure tt (λ t h. h)
  unload_if-Meets true notice program args other =
      Meets-then (say-Meets fs (careful plan) _)
        (Meets-bind (ask-Meets program args other) (λ _. Meets-pure tt (λ t h. h)))

  -- The removal of an older service is no registration.
  pub unload-Meets :
      (notice path program : Text) (args : List Text)
      → first_is plan.verb args ≡ false
      → Meets
          (IsCareful plan)
          (unload fs notice path program args)
          (λ _. IsCareful plan)
          (IsExcused plan)
  unfolding unload
  unload-Meets notice path program args other =
      Meets-bind (is_file-Meets fs (careful plan) path)
        (λ b. unload_if-Meets b notice program args other)

  abbrev pub Placed : Calls → Type 0
  Placed t = IsReady plan t × IsCareful plan t

  pub Placed-IsStable : IsStable Placed
  unfolding content_at root_at mode_at IsCareful
  Placed-IsStable = record {
    located_keeps = λ r t h. h;
    probed_keeps = λ p b t h. h;
    made_keeps = λ p r t h. h;
    inspected_keeps = λ p r t h. h;
    printed_keeps = λ l t h. h;
  }

  module _ (accepts : Status → Bool) where
    -- The service manager was asked, and everything is still in place.
    abbrev pub Registered : Calls → Type 0
    Registered t = (registered accepts plan.verb t ≡ true) × Placed t

    pub Registered-IsStable : IsStable Registered
    unfolding registered content_at root_at mode_at IsCareful
    Registered-IsStable = record {
      located_keeps = λ r t h. h;
      probed_keeps = λ p b t h. h;
      made_keeps = λ p r t h. h;
      inspected_keeps = λ p r t h. h;
      printed_keeps = λ l t h. h;
    }

    -- A call of the service manager once all is in place.
    pub run-Meets :
        (program : Text) (args : List Text) (context : Text)
        → Meets Placed
            ((status fs program args) >>= or_fail context)
            (λ s t.
              (s.success ≡ false → refused_last t ≡ true)
              × (first_is plan.verb args ≡ true
                  → accepts s ≡ true
                  → registered accepts plan.verb t ≡ true)
              × Placed t)
            (IsExcused plan)
    unfolding registered content_at root_at mode_at IsCareful
    run-Meets program args context =
        call-Meets (λ t. fs.status t program args) (ran program args) context
          (λ e t h. (((λ _. h.0), h.1), refl))
          (λ s t h. (
            (λ bad. rw bad refl),
            (λ first accepted. rw (first, accepted) refl),
            (h.0, ((λ _. h.0), h.1)),
          ))
