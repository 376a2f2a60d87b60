-- ===== src/Bin/Install/Laws.antt =====
-- The steps of the installers, one by one, towards the registration.
use sc_helper.Prelude.{◌≡◌, refl, Bool, true, false, Text}
use sc_helper.Prelude.Triple.{Meets, Meets-bind, Meets-then, Meets-pure}
use sc_helper.Std.Path.{join}
use sc_helper.Std.Text.{text_eq, text_eq_self}
use sc_helper.Bin.Files.{Calls, Files, copied, wrote}
use sc_helper.Bin.Files.Known.{content_at}
use sc_helper.Bin.Install.{helper_name, copy_file, copy_if, copy_optional, write_unit}
use sc_helper.Bin.Install.Ready.{Plan, IsCopied, IsWritten, IsCareful, IsExcused, IsApart}
use sc_helper.Bin.Install.Steps.{IsStable, both, content, call-Meets, say-Meets, is_file-Meets}

module _ (plan : Plan) where
  abbrev pub Careful : Calls → Type 0
  Careful = IsCareful plan

  -- The stages: the helper copied, the description written.
  abbrev pub Copied : Calls → Type 0
  Copied t = IsCopied plan t × Careful t

  abbrev pub Written : Calls → Type 0
  Written t = IsWritten plan t × Copied t

  pub careful : IsStable Careful
  unfolding IsCareful
  careful = record {
    located_keeps = λ r t h. h;
    probed_keeps = λ p b t h. h;
    made_keeps = λ p r t h. h;
    inspected_keeps = λ p r t h. h;
    printed_keeps = λ l t h. h;
  }

  pub Copied-IsStable : IsStable Copied
  Copied-IsStable = both (content plan.helper _) careful

  pub Written-IsStable : IsStable Written
  Written-IsStable = both (content plan.unit _) Copied-IsStable

module _ (fs : Files) (plan : Plan) where
  pub copy_helper-Meets :
      Meets
        (Careful plan)
        (copy_file fs helper_name (join plan.payload helper_name) plan.helper)
        (λ _. Copied plan)
        (IsExcused plan)
  unfolding copy_file content_at IsCareful
  copy_helper-Meets =
      Meets-then
        (call-Meets (λ t. fs.copy t (join plan.payload helper_name) plan.helper)
          (copied (join plan.payload helper_name) plan.helper) _ (λ e t h. (h, refl))
          (λ a t h. (rw (text_eq_self plan.helper) refl, h)))
        (say-Meets fs (Copied-IsStable plan) _)

  -- The copy of another program leaves the helper's in place.
  copy_other-Meets :
      (b : Bool) (name src dst : Text)
      → text_eq plan.helper dst ≡ false
      → Meets (Copied plan) (copy_if fs b name src dst) (λ _. Copied plan) (IsExcused plan)
  unfolding copy_if copy_file content_at IsCareful
  copy_other-Meets false name src dst other = Meets-pure tt (λ t h. h)
  copy_other-Meets true name src dst other =
      Meets-then
        (call-Meets (λ t. fs.copy t src dst) (copied src dst) _ (λ e t h. (h.1, refl))
          (λ a t h. (rw other h.0, h.1)))
        (say-Meets fs (Copied-IsStable plan) _)

  pub copy_optional-Meets :
      (name src dst : Text)
      → text_eq plan.helper dst ≡ false
      → Meets (Copied plan) (copy_optional fs name src dst) (λ _. Copied plan) (IsExcused plan)
  unfolding copy_optional
  copy_optional-Meets name src dst other =
      Meets-bind (is_file-Meets fs (Copied-IsStable plan) src)
        (λ b. copy_other-Meets b name src dst other)

  pub write_unit-Meets :
      (apart : IsApart plan) (what : Text)
      → Meets
          (Copied plan)
          (write_unit fs what plan.unit plan.unit_text)
          (λ _. Written plan)
          (IsExcused plan)
  unfolding write_unit content_at IsCareful
  write_unit-Meets apart what =
      Meets-then
        (call-Meets (λ t. fs.write t plan.unit plan.unit_text) (wrote plan.unit plan.unit_text) _
          (λ e t h. (h.1, refl))
          (λ a t h. (rw (text_eq_self plan.unit) refl, (rw apart.helper_unit h.0, h.1))))
        (say-Meets fs (Written-IsStable plan) _)
