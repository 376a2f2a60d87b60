-- ===== src/Bin/Install/Steps.antt =====
-- How the calls of the installers end, between conditions on the trace.
use sc_helper.Prelude.{refl, arith, ℕ, ◌≡◌, ◌≢◌, Bool, true, false, Option, none, ◌∷◌, Text}
use sc_helper.Prelude.Program.{or_fail, Result, ok, err, done, ◌>>=◌}
use sc_helper.Prelude.Triple.{Meets, Ensures, Meets-bind, Meets-then, Meets-pure, Meets-fail}
use sc_helper.Std.Path.{join}
use sc_helper.Bin.Files.{
  Call, located, probed_file, made_dir, inspected, printed, Calls, Files, say, is_file,
}
use sc_helper.Bin.Files.Known.{refused_last, Content, content_at, root_at, mode_at, IsSecured}
use sc_helper.Bin.Install.{
  executable, missing, without_mihomo, without_ping, helper_name, mihomo_name, ping_name,
  require_helper, warn_unless, check_optional, check_payload, make_dir,
}

-- A condition that calls with no effect on the files keep.
pub record IsStable (I : Calls → Type 0) : Type 0 where
  pub located_keeps : (r : Result Text) (t : Calls) → I t → I (located r ∷ t)
  pub probed_keeps : (p : Text) (b : Bool) (t : Calls) → I t → I (probed_file p b ∷ t)
  pub made_keeps : (p : Text) (r : Result (Unit {0})) (t : Calls) → I t → I (made_dir p r ∷ t)
  pub inspected_keeps : (p : Text) (r : Result (Unit {0})) (t : Calls) → I t → I (inspected p r ∷ t)
  pub printed_keeps : (l : Text) (t : Calls) → I t → I (printed l ∷ t)

pub both : {I J : Calls → Type 0} → IsStable I → IsStable J → IsStable (λ t. I t × J t)
both K L = record {
  located_keeps = λ r t h. (K.located_keeps r t h.0, L.located_keeps r t h.1);
  probed_keeps = λ p b t h. (K.probed_keeps p b t h.0, L.probed_keeps p b t h.1);
  made_keeps = λ p r t h. (K.made_keeps p r t h.0, L.made_keeps p r t h.1);
  inspected_keeps = λ p r t h. (K.inspected_keeps p r t h.0, L.inspected_keeps p r t h.1);
  printed_keeps = λ l t h. (K.printed_keeps l t h.0, L.printed_keeps l t h.1);
}

pub content : (path : Text) (c : Option Content) → IsStable (λ t. content_at path t ≡ c)
unfolding content_at
content path c = record {
  located_keeps = λ r t h. h;
  probed_keeps = λ p b t h. h;
  made_keeps = λ p r t h. h;
  inspected_keeps = λ p r t h. h;
  printed_keeps = λ l t h. h;
}

pub secured : (mode : ℕ) (path : Text) → IsStable (IsSecured mode path)
unfolding root_at mode_at
secured mode path = record {
  located_keeps = λ r t h. h;
  probed_keeps = λ p b t h. h;
  made_keeps = λ p r t h. h;
  inspected_keeps = λ p r t h. h;
  printed_keeps = λ l t h. h;
}

pub guarded : (path : Text) → IsStable (λ t. content_at path t ≢ none → IsSecured executable path t)
unfolding content_at root_at mode_at
guarded path = record {
  located_keeps = λ r t h. h;
  probed_keeps = λ p b t h. h;
  made_keeps = λ p r t h. h;
  inspected_keeps = λ p r t h. h;
  printed_keeps = λ l t h. h;
}

answered-Ensures :
    {A : Type 0} (bad : Calls → Type 0) (J : A → Calls → Type 0) (c : Result A → Call)
    (context : Text) (r : Result A) (t : Calls)
    → ((e : Text) → bad (c (err e) ∷ t))
    → ((a : A) → J a (c (ok a) ∷ t))
    → Ensures J bad (or_fail context r (c r ∷ t))
answered-Ensures bad J c context (ok a) t g f = f a
answered-Ensures bad J c context (err e) t g f = g e

module _ {I bad : Calls → Type 0} {A : Type 0} {J : A → Calls → Type 0} where
  -- A call that answers by a result, with `?` behind it.
  pub call-Meets :
      (q : Calls → Result A) (c : Result A → Call) (context : Text)
      → ((e : Text) (t : Calls) → I t → bad (c (err e) ∷ t))
      → ((a : A) (t : Calls) → I t → J a (c (ok a) ∷ t))
      → Meets I ((λ t. (done (q t), c (q t) ∷ t)) >>= or_fail context) J bad
  call-Meets q c context g f = record {
    apply = λ t h. answered-Ensures bad J c context (q t) t (λ e. g e t h) (λ a. f a t h);
  }

module _ (fs : Files) {I bad : Calls → Type 0} (K : IsStable I) where
  pub say-Meets : (line : Text) → Meets I (say line) (λ _. I) bad
  say-Meets line = record { apply = λ t h. K.printed_keeps line t h }

  pub is_file-Meets : (p : Text) → Meets I (is_file fs p) (λ _. I) bad
  is_file-Meets p = record { apply = λ t h. K.probed_keeps p _ t h }

  warn_unless-Meets : (b : Bool) (line : Text) → Meets I (warn_unless b line) (λ _. I) bad
  unfolding warn_unless
  warn_unless-Meets true line = Meets-pure tt (λ t h. h)
  warn_unless-Meets false line = say-Meets line

  check_optional-Meets :
      (name path consequence : Text)
      → Meets I (check_optional fs name path consequence) (λ _. I) bad
  unfolding check_optional
  check_optional-Meets name path consequence =
      Meets-bind (is_file-Meets path) (λ b. warn_unless-Meets b (missing name path consequence))

-- The steps that may give up, at a refusal.
module _ (fs : Files) {I bad : Calls → Type 0} (K : IsStable I)
    (gives_up : (t : Calls) → I t → refused_last t ≡ true → bad t) where
  pub make_dir-Meets : (dir : Text) → Meets I (make_dir fs dir) (λ _. I) bad
  unfolding make_dir
  make_dir-Meets dir =
      call-Meets (λ t. fs.create_dir_all t dir) (made_dir dir) _
        (λ e t h. gives_up _ (K.made_keeps dir (err e) t h) refl)
        (λ a t h. K.made_keeps dir (ok a) t h)

  looked_false :
      (p : Text) (b : Bool) (t : Calls) → b ≡ false → refused_last (probed_file p b ∷ t) ≡ true
  looked_false p false t e = refl
  looked_false p true t e = absurd (ground (arith, e))

  looked-Meets :
      (p : Text) → Meets I (is_file fs p) (λ b t. (b ≡ false → refused_last t ≡ true) × I t) bad
  looked-Meets p = record {
    apply = λ t h. (looked_false p (fs.is_file t p) t, K.probed_keeps p _ t h);
  }

  require_helper-Meets :
      (path : Text) (b : Bool)
      → Meets (λ t. (b ≡ false → refused_last t ≡ true) × I t) (require_helper path b) (λ _. I) bad
  unfolding require_helper
  require_helper-Meets path true = Meets-pure tt (λ t h. h.1)
  require_helper-Meets path false = Meets-fail _ (λ t h. gives_up t h.1 (h.0 refl))

  pub check_payload-Meets : (payload : Text) → Meets I (check_payload fs payload) (λ _. I) bad
  unfolding check_payload
  check_payload-Meets payload = Meets-bind (looked-Meets (join payload helper_name)) λ b.
      Meets-then (require_helper-Meets (join payload helper_name) b) (
        Meets-then (check_optional-Meets fs K mihomo_name (join payload mihomo_name) without_mihomo)
          (check_optional-Meets fs K ping_name (join payload ping_name) without_ping))
