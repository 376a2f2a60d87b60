-- ===== src/Bin/Install/Perms.antt =====
-- The files given to root, one after the other.
use sc_helper.Prelude.{ℕ, ◌≡◌, ◌≢◌, refl, Bool, true, false, none, ◌∷◌, Text, arith}
use sc_helper.Prelude.Program.{ok}
use sc_helper.Prelude.Triple.{Meets, Meets-bind, Meets-then, Meets-pure, Meets-weaken}
use sc_helper.Std.Text.{text_eq, text_eq_self}
use sc_helper.Bin.Files.{Calls, Files, chowned, chmodded, inspected, is_file}
use sc_helper.Bin.Files.Known.{content_at, root_at, mode_at, IsSecured, IsLawfulFiles}
use sc_helper.Bin.Install.{executable, chown_root, chmod, secure, secure_if, secure_optional}
use sc_helper.Bin.Install.Ready.{Plan, IsGuarded, IsCareful, IsExcused}
use sc_helper.Bin.Install.Steps.{IsStable, call-Meets}

pub IsSecured-chowned :
    (mode : ℕ) (p q : Text) (t : Calls)
    → text_eq p q ≡ false
    → IsSecured mode p t
    → IsSecured mode p (chowned q (ok tt) ∷ t)
unfolding root_at mode_at
IsSecured-chowned mode p q t other (o, m) = (rw other o, m)

pub IsSecured-chmodded :
    (mode mode' : ℕ) (p q : Text) (t : Calls)
    → text_eq p q ≡ false
    → IsSecured mode p t
    → IsSecured mode p (chmodded q mode' (ok tt) ∷ t)
unfolding root_at mode_at
IsSecured-chmodded mode mode' p q t other (o, m) = (o, rw other m)

-- A condition that is kept when this file is given to root with this mode, and under which all
-- registrations were careful.
pub record Spares (plan : Plan) (path : Text) (mode : ℕ) (I : Calls → Type 0) : Type 0 where
  pub stable : IsStable I
  pub careful : (t : Calls) → I t → IsCareful plan t
  pub chown_keeps : (t : Calls) → I t → I (chowned path (ok tt) ∷ t)
  pub chmod_keeps : (t : Calls) → I t → I (chmodded path mode (ok tt) ∷ t)

module _ (fs : Files) (plan : Plan) where
  pub secure-Meets :
      {I : Calls → Type 0} (owner path : Text) (mode : ℕ)
      → Spares plan path mode I
      → Meets I (secure fs owner path mode) (λ _ t. IsSecured mode path t × I t) (IsExcused plan)
  unfolding secure chown_root chmod IsCareful root_at mode_at
  secure-Meets {I} owner path mode S =
      Meets-then {mid = λ t. (root_at path t ≡ true) × I t}
        (call-Meets (λ t. fs.chown t path) (chowned path) _ (λ e t h. (S.careful t h, refl))
          (λ a t h. (rw (text_eq_self path) refl, S.chown_keeps t h)))
        (Meets-then {mid = λ t. (root_at path t ≡ true) × I t}
          (call-Meets (λ t. fs.metadata t path) (inspected path) _
            (λ e t h. (S.careful t h.1, refl))
            (λ a t h. (h.0, S.stable.inspected_keeps path (ok a) t h.1)))
          (call-Meets (λ t. fs.set_permissions t path mode) (chmodded path mode) _
            (λ e t h. (S.careful t h.1, refl))
            (λ a t h. ((h.0, rw (text_eq_self path) refl), S.chmod_keeps t h.1))))

  module _ (lawful : IsLawfulFiles fs) where
    -- What `is_file` has found of the file.
    abbrev Found : (Calls → Type 0) → Text → Bool → Calls → Type 0
    Found I path b t = (content_at path t ≢ none → b ≡ true) × I t

    Found-Meets :
        {I : Calls → Type 0} (path : Text)
        → IsStable I
        → Meets I (is_file fs path) (Found I path) (IsExcused plan)
    unfolding content_at
    Found-Meets path K = record {
      apply = λ t h. (lawful.is_file_put t path, K.probed_keeps path _ t h);
    }

    secure_if-Meets :
        {I : Calls → Type 0} (owner path : Text) (b : Bool)
        → Spares plan path executable I
        → Meets
            (Found I path b)
            (secure_if fs b owner path)
            (λ _ t. IsGuarded path t × I t)
            (IsExcused plan)
    unfolding secure_if
    secure_if-Meets owner path true S =
        Meets-weaken (λ t h. h.1) (λ _ t h. ((λ put. h.0), h.1))
          (secure-Meets owner path executable S)
    secure_if-Meets owner path false S =
        Meets-pure tt (λ t h. ((λ put. absurd (ground (arith, h.0 put))), h.1))

    pub secure_optional-Meets :
        {I : Calls → Type 0} (owner path : Text)
        → Spares plan path executable I
        → Meets I (secure_optional fs owner path) (λ _ t. IsGuarded path t × I t) (IsExcused plan)
    unfolding secure_optional
    secure_optional-Meets owner path S =
        Meets-bind (Found-Meets path S.stable) (λ b. secure_if-Meets owner path b S)
