-- ===== src/Bin/Uninstall/Removed.antt =====
-- The removals of the uninstallers.
use sc_helper.Prelude.{◌≡◌, inl, inr, Bool, true, false, List, ◌∷◌, Text, arith}
use sc_helper.Prelude.Program.{Result, ok, err}
use sc_helper.Std.Text.{text_eq_self}
use sc_helper.Bin.Files.{Calls, existed, removed_file, removed_dir}
use sc_helper.Bin.Uninstall.Account.{gone_at, refused_at, failures, IsHandled, IsCleared}
use sc_helper.Bin.Uninstall.Laws.{Counted, Tallied, tally}

module _ (verb unit : Text) where
  pub IsHandled-existed :
      (p q : Text) (b : Bool) (t : Calls)
      → IsHandled verb unit p t
      → IsHandled verb unit p (existed q b ∷ t)
  unfolding gone_at refused_at failures
  IsHandled-existed p q true t h = h
  IsHandled-existed p q false t (inl gone) = inl (ground (arith, gone))
  IsHandled-existed p q false t (inr h) = inr h

  pub IsHandled-removed_dir :
      (p d : Text) (r : Result (Unit {0})) (t : Calls)
      → IsHandled verb unit p t
      → IsHandled verb unit p (removed_dir d r ∷ t)
  unfolding gone_at refused_at failures
  IsHandled-removed_dir p d (ok _) t (inl gone) = inl (ground (arith, gone))
  IsHandled-removed_dir p d (ok _) t (inr h) = inr h
  IsHandled-removed_dir p d (err e) t (inl gone) = inl gone
  IsHandled-removed_dir p d (err e) t (inr h) = inr (ground (arith, h.0), ground arith)

  pub IsHandled-removed_file :
      (p q : Text) (r : Result (Unit {0})) (t : Calls)
      → IsHandled verb unit p t
      → IsHandled verb unit p (removed_file q r ∷ t)
  unfolding gone_at refused_at failures
  IsHandled-removed_file p q (ok _) t (inl gone) = inl (ground (arith, gone))
  IsHandled-removed_file p q (ok _) t (inr h) = inr h
  IsHandled-removed_file p q (err e) t (inl gone) = inl gone
  IsHandled-removed_file p q (err e) t (inr h) = inr (ground (arith, h.0), ground (arith, h.1))

  pub unit_removed :
      (errors : List Text) (r : Result (Unit {0})) (t : Calls)
      → Counted verb unit errors t
      → Tallied verb unit errors r (removed_file unit r ∷ t)
        × IsHandled verb unit unit (removed_file unit r ∷ t)
  unfolding tally gone_at refused_at failures
  unit_removed errors (ok _) t h = (h, inl (ground (arith, text_eq_self unit)))
  unit_removed errors (err e) t h = (
    ground (arith, text_eq_self unit, h),
    inr (ground (arith, text_eq_self unit), ground (arith, text_eq_self unit)),
  )

  pub dir_removed :
      (dir : Text) (errors : List Text) (r : Result (Unit {0})) (t : Calls)
      → Counted verb unit errors t
      → IsHandled verb unit unit t
      → Tallied verb unit errors r (removed_dir dir r ∷ t)
        × IsCleared verb unit dir (removed_dir dir r ∷ t)
  unfolding tally gone_at refused_at failures
  dir_removed dir errors (ok a) t h u =
      (h, (IsHandled-removed_dir unit dir (ok a) t u, λ p under. inl (ground (arith, under))))
  dir_removed dir errors (err e) t h u = (
    ground (arith, h),
    (
      IsHandled-removed_dir unit dir (err e) t u,
      λ p under. inr (ground (arith, under), ground arith),
    ),
  )

  pub unit_absent :
      (b : Bool) (t : Calls) → b ≡ false → IsHandled verb unit unit (existed unit b ∷ t)
  unfolding gone_at
  unit_absent true t h = absurd (ground (arith, h))
  unit_absent false t h = inl (ground (arith, text_eq_self unit))

  pub dir_absent :
      (dir : Text) (b : Bool) (t : Calls)
      → b ≡ false
      → IsHandled verb unit unit t
      → IsCleared verb unit dir (existed dir b ∷ t)
  unfolding gone_at
  dir_absent dir true t h u = absurd (ground (arith, h))
  dir_absent dir false t h u =
      (IsHandled-existed unit dir false t u, λ p under. inl (ground (arith, under)))
