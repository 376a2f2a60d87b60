-- ===== src/Service/Server/Setup/Bound.antt =====
-- What the trace says of the daemon's socket: that it is bound and has a mode, and that nothing
-- stood at its path when it was bound.
use sc_helper.Prelude.{
  ℕ, ◌≡◌, refl, Bool, true, false, ◌||◌, Option, none, some, [], ◌∷◌, ◌++◌, Text, codes,
  if◌then◌else◌, arith,
}
use sc_helper.Prelude.Program.{Result, ok, err, or_fail, ◌>>=◌}
use sc_helper.Prelude.Triple.{Ensures, Meets, Meets-bind, Meets-then, Meets-pure}
use sc_helper.Std.Text.{text_eq, text_eq_self}
use sc_helper.Service.Os.{Target, existed, removed, bound, permitted, Trace, Env}
use sc_helper.Service.State.{Daemon, log, exists, bind, set_permissions}
use sc_helper.Service.Core.Steady.{IsSteady}
use sc_helper.Service.Server.Setup.{socket_path, socket_mode, remove_stale, set_up}

unfoldable pub bound_at : Text → Trace → Bool
bound_at p [] = false
bound_at p (bound q (ok _) ∷ t) = let before = bound_at p t in text_eq p q || before
bound_at p (removed q (ok _) ∷ t) =
    let before = bound_at p t in if text_eq p q then false else before
bound_at p (_ ∷ t) = bound_at p t

unfoldable pub mode_of : Text → Trace → Option ℕ
mode_of p [] = none
mode_of p (permitted q mode (ok _) ∷ t) =
    let before = mode_of p t in if text_eq p q then some mode else before
mode_of p (bound q r ∷ t) = let before = mode_of p t in if text_eq p q then none else before
mode_of p (_ ∷ t) = mode_of p t

-- The system has told that nothing is there, or has removed it, and nothing was bound there since.
unfoldable pub clear_at : Text → Trace → Bool
clear_at p [] = false
clear_at p (existed q false ∷ t) = let before = clear_at p t in text_eq p q || before
clear_at p (removed q (ok _) ∷ t) = let before = clear_at p t in text_eq p q || before
clear_at p (bound q r ∷ t) = let before = clear_at p t in if text_eq p q then false else before
clear_at p (_ ∷ t) = clear_at p t

-- Whenever a socket was bound, nothing stood at its path.
unfoldable pub AreClear : Trace → Type 0
AreClear [] = Unit
AreClear (bound p r ∷ t) = (clear_at p t ≡ true) × AreClear t
AreClear (_ ∷ t) = AreClear t

abbrev pub IsListening : Text → Daemon → Type 0
IsListening path d =
    (bound_at path d.trace ≡ true) × (mode_of path d.trace ≡ some socket_mode) × AreClear d.trace

abbrev pub IsClear : Daemon → Type 0
IsClear d = AreClear d.trace

pub IsListening-IsSteady : (path : Text) → IsSteady (IsListening path)
unfolding bound_at mode_of AreClear
IsListening-IsSteady path = record {
  logs = λ e d other h. ground (arith, other, h);
  holds = λ c d h. h;
}

-- What the answers of the set-up's calls leave.
removed-IsClear :
    (path : Text) (r : Result (Unit {0})) (d : Daemon)
    → IsClear d
    → Ensures
        (λ _ s. (clear_at path s.trace ≡ true) × IsClear s)
        IsClear
        (or_fail (codes "removing stale socket " ++ path) r (log (removed path r) d))
unfolding clear_at AreClear
removed-IsClear path (ok a) d h = (rw (text_eq_self path) refl, h)
removed-IsClear path (err e) d h = h

bound-IsClear :
    (path : Text) (r : Result (Unit {0})) (d : Daemon)
    → clear_at path d.trace ≡ true
    → IsClear d
    → Ensures
        (λ _ s. (bound_at path s.trace ≡ true) × IsClear s)
        IsClear
        (or_fail (codes "binding " ++ path) r (log (bound path r) d))
unfolding bound_at AreClear
bound-IsClear path (ok a) d c h = (rw (text_eq_self path) refl, (c, h))
bound-IsClear path (err e) d c h = (c, h)

permitted-IsListening :
    (path : Text) (r : Result (Unit {0})) (d : Daemon)
    → bound_at path d.trace ≡ true
    → IsClear d
    → Ensures
        (λ _. IsListening path)
        IsClear
        (or_fail (codes "chmod 666 " ++ path) r (log (permitted path socket_mode r) d))
unfolding bound_at mode_of AreClear
permitted-IsListening path (ok a) d b h = (b, rw (text_eq_self path) refl, h)
permitted-IsListening path (err e) d b h = h

existed_clear_at :
    (path : Text) (b : Bool) (d : Daemon)
    → b ≡ false
    → clear_at path (existed path b ∷ d.trace) ≡ true
unfolding clear_at
existed_clear_at path false d e = rw (text_eq_self path) refl
existed_clear_at path true d e = absurd (ground (arith, e))

module _ (env : Env) where
  remove_stale-Meets :
      (path : Text) (b : Bool)
      → Meets
          (λ d. (b ≡ false → clear_at path d.trace ≡ true) × IsClear d)
          (remove_stale env path b)
          (λ _ d. (clear_at path d.trace ≡ true) × IsClear d)
          IsClear
  unfolding remove_stale
  remove_stale-Meets path true = record {
    apply = λ d h. removed-IsClear path (env.remove_file d.trace path) d h.1;
  }
  remove_stale-Meets path false = Meets-pure tt (λ d h. (h.0 refl, h.1))

  -- From a state in which each socket was bound where nothing stood, the set-up ends: with the
  -- socket bound, after what stood at its path was removed, and with mode 666; or with an error.
  pub set_up-Meets : (target : Target) → Meets IsClear (set_up env target) IsListening IsClear
  unfolding set_up socket_path AreClear
  set_up-Meets target =
      Meets-bind {mid = λ path. IsClear} {m = socket_path env target} (record { apply = λ d h. h })
        λ path.
          Meets-bind {mid = λ b d. (b ≡ false → clear_at path d.trace ≡ true) × IsClear d}
            {m = exists env path}
            (record { apply = λ d h. (existed_clear_at path (env.exists d.trace path) d, h) })
            λ stale. Meets-then (remove_stale-Meets path stale) (
              Meets-then {mid = λ d. (bound_at path d.trace ≡ true) × IsClear d}
                {m = bind env path >>= or_fail (codes "binding " ++ path)}
                (record { apply = λ d h. bound-IsClear path (env.bind d.trace path) d h.0 h.1 })
                (Meets-then {mid = IsListening path}
                  {m = set_permissions env path socket_mode
                    >>= or_fail (codes "chmod 666 " ++ path)}
                  (record {
                    apply = λ d h.
                        permitted-IsListening path (env.set_permissions d.trace path socket_mode) d
                          h.0 h.1;
                  })
                  (Meets-pure path (λ d h. h))))
