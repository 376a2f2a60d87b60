-- ===== src/Bin/Uninstall/Cleared.antt =====
-- What the uninstallers have cleared when they print their last line.
use sc_helper.Prelude.{
  ◌≡◌, refl, Bool, true, false, List, [], ◌∷◌, Text, arith, length, codes, some,
}
use sc_helper.Prelude.Program.{Result, ok, err}
use sc_helper.Prelude.Triple.{Meets, Meets-bind, Meets-then, Meets-pure}
use sc_helper.Std.Text.{text_eq}
use sc_helper.Bin.Files.{Calls, Files, removed_file, exists, remove_file, remove_dir_all}
use sc_helper.Bin.Uninstall.{
  warn_all, summary, finish, remove_unit_if, remove_unit, remove_dir_if, remove_install_dir,
  remove_socket_if, remove_socket,
}
use sc_helper.Bin.Uninstall.Account.{failures, last_line, IsHandled, IsCleared}
use sc_helper.Bin.Uninstall.Laws.{
  Never, IsQuiet, line-Meets, Counted, Tallied, IsHandled-printed, report_removal-Meets,
}
use sc_helper.Bin.Uninstall.Removed.{
  IsHandled-existed, IsHandled-removed_file, unit_removed, dir_removed, unit_absent, dir_absent,
}

module _ (verb unit : Text) where
  abbrev HandledUnit : Calls → Type 0
  HandledUnit = IsHandled verb unit unit

  -- The errors are counted, and the unit is handled.
  abbrev pub UnitDone : List Text → Calls → Type 0
  UnitDone errors t = Counted verb unit errors t × HandledUnit t

  abbrev pub AllDone : Text → List Text → Calls → Type 0
  AllDone dir errors t = Counted verb unit errors t × IsCleared verb unit dir t

  -- What holds at the end.
  abbrev pub IsUninstalled : Text → Calls → Type 0
  IsUninstalled dir t =
      (last_line t ≡ some (summary (failures verb unit t))) × IsCleared verb unit dir t

  IsCleared-printed : (dir : Text) → IsQuiet (IsCleared verb unit dir)
  IsCleared-printed dir line t h = (
    IsHandled-printed verb unit unit line t h.0,
    λ p under. IsHandled-printed verb unit p line t (h.1 p under),
  )

  all_quiet : (dir : Text) (errors : List Text) → IsQuiet (AllDone dir errors)
  unfolding failures
  all_quiet dir errors line t h = (h.0, IsCleared-printed dir line t h.1)

  module _ (fs : Files) where
    remove_unit_if-Meets :
        (what removed : Text) (errors : List Text) (b : Bool)
        → Meets
            (λ t. (b ≡ false → HandledUnit t) × Counted verb unit errors t)
            (remove_unit_if fs what removed unit errors b)
            UnitDone
            Never
    unfolding remove_unit_if
    remove_unit_if-Meets what removed errors true =
        Meets-bind {mid = λ r t. Tallied verb unit errors r t × HandledUnit t}
          {m = remove_file fs unit}
          (record { apply = λ t h. unit_removed verb unit errors (fs.remove_file t unit) t h.1 })
          (λ r.
            report_removal-Meets verb unit what removed errors r (IsHandled-printed verb unit unit))
    remove_unit_if-Meets what removed errors false = Meets-pure errors (λ t h. (h.1, h.0 refl))

    pub remove_unit-Meets :
        (what removed : Text) (errors : List Text)
        → Meets (Counted verb unit errors) (remove_unit fs what removed unit errors) UnitDone Never
    unfolding remove_unit failures
    remove_unit-Meets what removed errors =
        Meets-bind {mid = λ b t. (b ≡ false → HandledUnit t) × Counted verb unit errors t}
          {m = exists fs unit}
          (record { apply = λ t h. (unit_absent verb unit (fs.exists t unit) t, h) })
          (remove_unit_if-Meets what removed errors)

    remove_dir_if-Meets :
        (dir : Text) (errors : List Text) (b : Bool)
        → Meets
            (λ t. (b ≡ false → IsCleared verb unit dir t) × UnitDone errors t)
            (remove_dir_if fs dir errors b)
            (AllDone dir)
            Never
    unfolding remove_dir_if
    remove_dir_if-Meets dir errors true =
        Meets-bind {mid = λ r t. Tallied verb unit errors r t × IsCleared verb unit dir t}
          {m = remove_dir_all fs dir}
          (record {
            apply = λ t h. dir_removed verb unit dir errors (fs.remove_dir_all t dir) t h.1.0 h.1.1;
          })
          (λ r.
            report_removal-Meets verb unit (codes "install dir") (codes "install dir") errors r
              (IsCleared-printed dir))
    remove_dir_if-Meets dir errors false = Meets-pure errors (λ t h. (h.1.0, h.0 refl))

    pub remove_install_dir-Meets :
        (dir : Text) (errors : List Text)
        → Meets (UnitDone errors) (remove_install_dir fs dir errors) (AllDone dir) Never
    unfolding remove_install_dir failures
    remove_install_dir-Meets dir errors =
        Meets-bind {mid = λ b t. (b ≡ false → IsCleared verb unit dir t) × UnitDone errors t}
          {m = exists fs dir}
          (record {
            apply = λ t h.
                let b = fs.exists t dir in
                (
                  (λ absent. dir_absent verb unit dir b t absent h.1),
                  (h.0, IsHandled-existed verb unit unit dir b t h.1),
                );
          })
          (remove_dir_if-Meets dir errors)

    -- The socket's removal is not counted.
    socket_removed :
        (dir socket : Text) (errors : List Text) (r : Result (Unit {0})) (t : Calls)
        → text_eq unit socket ≡ false
        → AllDone dir errors t
        → AllDone dir errors (removed_file socket r ∷ t)
    unfolding failures
    socket_removed dir socket errors (ok a) t other h = (
      h.0,
      (
        IsHandled-removed_file verb unit unit socket (ok a) t h.1.0,
        λ p under. IsHandled-removed_file verb unit p socket (ok a) t (h.1.1 p under),
      ),
    )
    socket_removed dir socket errors (err e) t other h = (
      ground (arith, other, h.0),
      (
        IsHandled-removed_file verb unit unit socket (err e) t h.1.0,
        λ p under. IsHandled-removed_file verb unit p socket (err e) t (h.1.1 p under),
      ),
    )

    remove_socket_if-Meets :
        (dir socket : Text) (errors : List Text) (b : Bool)
        → text_eq unit socket ≡ false
        → Meets (AllDone dir errors) (remove_socket_if fs socket b) (λ _. AllDone dir errors) Never
    unfolding remove_socket_if
    remove_socket_if-Meets dir socket errors true other =
        Meets-bind {mid = λ _. AllDone dir errors} {m = remove_file fs socket}
          (record {
            apply = λ t h. socket_removed dir socket errors (fs.remove_file t socket) t other h;
          })
          (λ _. Meets-pure tt (λ t h. h))
    remove_socket_if-Meets dir socket errors false other = Meets-pure tt (λ t h. h)

    pub remove_socket-Meets :
        (dir socket : Text) (errors : List Text)
        → text_eq unit socket ≡ false
        → Meets (AllDone dir errors) (remove_socket fs socket) (λ _. AllDone dir errors) Never
    unfolding remove_socket failures
    remove_socket-Meets dir socket errors other =
        Meets-bind {mid = λ _. AllDone dir errors} {m = exists fs socket}
          (record {
            apply = λ t h.
                let b = fs.exists t socket in
                (
                  h.0,
                  (
                    IsHandled-existed verb unit unit socket b t h.1.0,
                    λ p under. IsHandled-existed verb unit p socket b t (h.1.1 p under),
                  ),
                );
          })
          (λ b. remove_socket_if-Meets dir socket errors b other)

  warn_all-Meets :
      {J : Calls → Type 0} (errors : List Text)
      → IsQuiet J
      → Meets J (warn_all errors) (λ _. J) Never
  unfolding warn_all
  warn_all-Meets [] quiet = Meets-pure tt (λ t h. h)
  warn_all-Meets (e ∷ errors) quiet = Meets-then (line-Meets _ quiet) (warn_all-Meets errors quiet)

  pub finish-Meets :
      (dir : Text) (errors : List Text)
      → Meets (AllDone dir errors) (finish errors) (λ _. IsUninstalled dir) Never
  unfolding finish failures
  finish-Meets dir errors = Meets-then (warn_all-Meets errors (all_quiet dir errors)) (record {
    apply = λ t h. (rw h.0 refl, IsCleared-printed dir (summary (length errors)) t h.1);
  })
