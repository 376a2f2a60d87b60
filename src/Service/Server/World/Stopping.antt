-- ===== src/Service/Server/World/Stopping.antt =====
-- `stop`, cut into turns: at its end the child is gone, whatever ran between its turns.
use sc_helper.Prelude.{
  ℕ, zero, suc, ◌+◌, ◌*◌, ◌≤◌, ◌<◌, ◌≡◌, refl, ap, sym, ◌∙◌, Bool-cases, inl, inr, leb, Option,
  none, some, ◌∷◌, Text, arith,
}
use sc_helper.Prelude.Program.{Outcome, done, failed, stuck, IsSettled}
use sc_helper.Prelude.Async.{Async, over, sync, on_value, ◌>>=◌}
use sc_helper.Service.Os.{
  Target, TryWait, exited, still_running, wait_failed, Event, tried, reaped, time_floor, Env,
  IsLawfulOs,
}
use sc_helper.Service.State.{Daemon, log, instant}
use sc_helper.Service.Core.{max_polls, grace_nanos, request_end}
use sc_helper.Service.Core.Tracking.{outstanding, remove, remove_only, held, AreJustified, IsSound}
use sc_helper.Service.Core.Turns.{patient, after_poll, poll_child, end_child, stop_turns}
use sc_helper.Service.Server.World.Guard.{Own, whole, vacant, ending, IsEnding, Holds, Guarded}

module _ (P : Text → Type 0) (env : Env) (L : IsLawfulOs env)
    (post : Option Own → Outcome (Unit {0}) → Type 0)
    (k : (x : Outcome (Unit {0})) → IsSettled x → post (some vacant) x) where
  abbrev Goes : Async Daemon (Unit {0}) → Own → Type 0
  Goes m o = Guarded P post m (some o)

  -- The child has been waited for, or given up on.
  ended-Holds :
      (c n : ℕ) (e : Event) (d : Daemon)
      → IsEnding P c n d
      → outstanding (e ∷ d.trace) ≡ remove c (outstanding d.trace)
      → (AreJustified P d.trace → AreJustified P (e ∷ d.trace))
      → Holds P vacant (log e d)
  ended-Holds c n e d h gone j = (
    record {
      tracked = gone ∙ ap (remove c) h.left ∙ remove_only c ∙ ap held (sym h.released);
      justified = j h.justified;
    },
    h.released,
  )

  patient-Guarded :
      (again : Async Daemon (Unit {0})) (deadline c now : ℕ)
      → (now < deadline → Goes again (ending c (now + 100_000_000)))
      → Goes (patient env again deadline c now) (ending c now)
  unfolding patient Guarded outstanding AreJustified time_floor
  patient-Guarded again deadline c now later = elim (Bool-cases (leb deadline now)) [
    | inl e ↦ rw e (λ d h. (
      ending c now,
      (
        record { released = h.released; left = h.left; justified = h.justified; late = h.late },
        λ d' h'. (vacant, (ended-Holds c now (reaped c) d' h' refl (λ j. j), k (done tt) tt)),
      ),
    ))
    | inr e ↦ rw e (λ d h. (
      ending c (now + 100_000_000),
      (
        record {
          released = h.released;
          left = h.left;
          justified = h.justified;
          late = ground arith;
        },
        later (ground (arith, e)),
      ),
    ))
  ]

  after_poll-Guarded :
      (again : Async Daemon (Unit {0})) (deadline c n : ℕ)
      → ((now : ℕ) → n ≤ now → now < deadline → Goes again (ending c (now + 100_000_000)))
      → (r : TryWait) (d : Daemon) → IsEnding P c n d
      → (o : Own) × (Holds P o (log (tried c r) d) × Goes (after_poll env again deadline c r) o)
  unfolding after_poll Guarded outstanding AreJustified time_floor
  after_poll-Guarded again deadline c n later exited d h =
      (vacant, (ended-Holds c n (tried c exited) d h refl (λ j. j), k (done tt) tt))
  after_poll-Guarded again deadline c n later (wait_failed e) d h =
      (vacant, (ended-Holds c n (tried c (wait_failed e)) d h refl (λ j. j), k (failed e) tt))
  after_poll-Guarded again deadline c n later still_running d h = (
    ending c n,
    (
      record { released = h.released; left = h.left; justified = h.justified; late = h.late },
      λ d' h'.
          let now = env.instant d'.trace in
          let in_time : n ≤ now = omega (arith, L.monotonic d'.trace, h'.late) in
          (
            ending c now,
            (
              record {
                released = h'.released;
                left = h'.left;
                justified = h'.justified;
                late = omega arith;
              },
              patient-Guarded again deadline c now (later now in_time),
            ),
          ),
    ),
  )

  poll_child-Guarded :
      (polls deadline c n : ℕ)
      → deadline ≤ n + polls * 100_000_000
      → Goes (poll_child env (suc polls) deadline c) (ending c n)
  unfolding poll_child Guarded
  poll_child-Guarded zero deadline c n h = λ d hd.
      after_poll-Guarded (over stuck) deadline c n (λ now a b. absurd (omega (arith, h, a, b)))
        (env.try_wait d.trace c) d hd
  poll_child-Guarded (suc polls) deadline c n h = λ d hd.
      after_poll-Guarded (poll_child env (suc polls) deadline c) deadline c n
        (λ now a b. poll_child-Guarded polls deadline c (now + 100_000_000) (omega (arith, h, a)))
        (env.try_wait d.trace c) d hd

  awaited-Guarded :
      (c : ℕ)
      → Goes
          (sync (instant env) >>= λ now. poll_child env max_polls (now + grace_nanos) c)
          (ending c 0)
  unfolding Guarded outstanding AreJustified time_floor
  awaited-Guarded c = λ d h.
      let now = env.instant d.trace in
      (
        ending c now,
        (
          record {
            released = h.released;
            left = h.left;
            justified = h.justified;
            late = omega arith;
          },
          poll_child-Guarded 50 (now + grace_nanos) c now (omega arith),
        ),
      )

  request_end-IsEnding :
      (target : Target) (c : ℕ) (d : Daemon)
      → IsEnding P c 0 d
      → ((request_end env target c d).0 ≡ done tt) × IsEnding P c 0 (request_end env target c d).1
  unfolding request_end outstanding AreJustified time_floor
  request_end-IsEnding target c d h = ground (arith, h)

  asked-Guarded :
      (target : Target) (c : ℕ) (x : Outcome (Unit {0}))
      → x ≡ done tt
      → Goes
          (on_value
            (λ _. sync (instant env) >>= λ now. poll_child env max_polls (now + grace_nanos) c)
            x)
          (ending c 0)
  asked-Guarded target c x e = rw e (awaited-Guarded c)

  end_child-Guarded :
      (target : Target) (child : Option ℕ) (d : Daemon)
      → d.supervisor.child ≡ child
      → IsSound P d
      → (o : Own) × (Holds P o (record d { supervisor = record { child = none } })
          × Goes (end_child env target child) o)
  unfolding end_child Guarded
  end_child-Guarded target none d e h = (
    vacant,
    ((record { tracked = h.tracked ∙ ap held e; justified = h.justified }, refl), k (done tt) tt),
  )
  end_child-Guarded target (some c) d e h = (
    ending c 0,
    (
      record {
        released = refl;
        left = h.tracked ∙ ap held e;
        justified = h.justified;
        late = omega arith;
      },
      λ d' h'.
          let asked = request_end-IsEnding target c d' h' in
          (ending c 0, (asked.1, asked-Guarded target c (request_end env target c d').0 asked.0)),
    ),
  )

  -- From a sound supervisor to one that is sound and holds no child, with success or an error.
  pub stop_turns-Guarded : (target : Target) → Goes (stop_turns env target) whole
  unfolding stop_turns Guarded
  stop_turns-Guarded target = λ d h. end_child-Guarded target d.supervisor.child d refl h
