-- ===== src/Bin/Uninstall/Laws.antt =====
-- The steps of the uninstallers: each keeps the number of the errors right, and leaves nothing
-- unsaid.
use sc_helper.Prelude.{
  ℕ, suc, ◌≡◌, refl, true, List, [], ◌∷◌, ◌++◌, Text, arith, length, length-append, codes,
}
use sc_helper.Prelude.Program.{Result, ok, err}
use sc_helper.Prelude.Triple.{Meets, Meets-bind, Meets-then, Meets-if, Meets-pure}
use sc_helper.Bin.Files.{Calls, Files, ran, printed, say, status}
use sc_helper.Bin.Install.Ready.{first_is}
use sc_helper.Bin.Uninstall.{push, report_stop, report_removal, stop_service}
use sc_helper.Bin.Uninstall.Account.{gone_at, refused_at, failures, IsHandled}

abbrev pub Never : Calls → Type 0
Never t = ⊥

unfoldable pub tally : {A : Type 0} → List Text → Result A → ℕ
tally errors (ok _) = length errors
tally errors (err _) = suc (length errors)

length-push : (errors : List Text) (e : Text) → length (push errors e) ≡ suc (length errors)
length-push errors e = ground (arith, length-append errors (e ∷ []))

-- A line may be printed under this condition.
abbrev pub IsQuiet : (Calls → Type 0) → Type 0
IsQuiet J = (line : Text) (t : Calls) → J t → J (printed line ∷ t)

pub line-Meets : {J : Calls → Type 0} (line : Text) → IsQuiet J → Meets J (say line) (λ _. J) Never
line-Meets line quiet = record { apply = λ t h. quiet line t h }

module _ (verb unit : Text) where
  abbrev pub Counted : List Text → Calls → Type 0
  Counted errors t = length errors ≡ failures verb unit t

  abbrev pub Tallied : {A : Type 0} → List Text → Result A → Calls → Type 0
  Tallied errors r t = tally errors r ≡ failures verb unit t

  pub IsHandled-printed : (p : Text) → IsQuiet (IsHandled verb unit p)
  unfolding gone_at refused_at failures
  IsHandled-printed p line t h = h

  report_stop_service-Meets :
      (name before after : Text) (errors : List Text) (r : _)
      → Meets (Tallied errors r) (report_stop name before after errors r) Counted Never
  unfolding report_stop tally failures
  report_stop_service-Meets name before after errors (ok s) =
      Meets-then
        (Meets-if s.success (λ _. line-Meets _ (λ l t h. h)) (λ _. line-Meets _ (λ l t h. h)))
        (Meets-pure errors (λ t h. h))
  report_stop_service-Meets name before after errors (err e) =
      Meets-pure _ (λ t h. ground (arith, h, length-push errors (name ++ codes ": " ++ e)))

  pub report_removal-Meets :
      {J : Calls → Type 0} (what removed : Text) (errors : List Text) (r : _)
      → IsQuiet J
      → Meets
          (λ t. Tallied errors r t × J t)
          (report_removal what removed errors r)
          (λ e t. Counted e t × J t)
          Never
  unfolding report_removal tally failures
  report_removal-Meets what removed errors (ok a) quiet =
      Meets-then (line-Meets _ (λ l t h. (h.0, quiet l t h.1))) (Meets-pure errors (λ t h. h))
  report_removal-Meets what removed errors (err e) quiet = Meets-pure _ (λ t h.
      (ground (arith, h.0, length-push errors (codes "rm " ++ what ++ codes ": " ++ e)), h.1))

  stopped_tally :
      (program : Text) (args errors : List Text) (r : _) (t : Calls)
      → first_is verb args ≡ true
      → Counted errors t
      → Tallied errors r (ran program args r ∷ t)
  unfolding tally failures
  stopped_tally program args errors (ok s) t first h = h
  stopped_tally program args errors (err e) t first h = rw (first, h) refl

  module _ (fs : Files) where
    pub stop_service-Meets :
        (name before after program : Text) (args errors : List Text)
        → first_is verb args ≡ true
        → Meets
            (Counted errors)
            (stop_service fs name before after program args errors)
            Counted
            Never
    unfolding stop_service
    stop_service-Meets name before after program args errors first =
        Meets-bind {mid = Tallied errors} {m = status fs program args}
          (record {
            apply = λ t h. stopped_tally program args errors (fs.status t program args) t first h;
          })
          (report_stop_service-Meets name before after errors)
