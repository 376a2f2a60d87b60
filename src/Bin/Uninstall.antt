-- ===== src/Bin/Uninstall.antt =====
-- src/bin/sc_helper_uninstall.rs: the uninstallers for macOS and Linux. What the two share stands
-- in one section, with the words in which their messages differ as parameters. The errors gathered
-- so far are an argument and a result of each step.
pub mod Account
pub mod Laws
pub mod Removed
pub mod Cleared
pub mod Macos
pub mod Linux
use sc_helper.Prelude.{
  ℕ, zero, suc, Bool, true, false, List, [], ◌∷◌, ◌++◌, Text, codes, length, if◌then◌else◌,
}
use sc_helper.Prelude.Program.{Program, Result, ok, err, pure, ◌>>=◌, ◌>>◌}
use sc_helper.Std.Text.{decimal}
use sc_helper.Bin.Files.{Status, Calls, Files, say, exists, remove_file, remove_dir_all, status}

abbrev pub tag : Text
tag = codes "[sc-helper-uninstall] "

-- `errors.push(..)`
abbrev pub push : List Text → Text → List Text
push errors e = errors ++ (e ∷ [])

-- What follows the command that stops the service: its words, and what stands around the status.
report_stop : (name before after : Text) → List Text → Result Status → Program Calls (List Text)
report_stop name before after errors (ok s) = do
  if s.success
      then say (tag ++ name ++ codes " OK")
      else say (tag ++ name ++ before ++ s.shown ++ after)
  pure errors
report_stop name before after errors (err e) = pure (push errors (name ++ codes ": " ++ e))

unfoldable pub report_removal :
    (what removed : Text) → List Text → Result (Unit {0}) → Program Calls (List Text)
report_removal what removed errors (ok _) = do say (tag ++ codes "removed " ++ removed); pure errors
report_removal what removed errors (err e) =
    pure (push errors (codes "rm " ++ what ++ codes ": " ++ e))

warn_all : List Text → Program Calls (Unit {0})
warn_all [] = pure tt
warn_all (e ∷ errors) = do say (tag ++ codes "WARN: " ++ e); warn_all errors

-- The last line, by the number of the errors.
unfoldable pub summary : ℕ → Text
summary zero = tag ++ codes "done"
summary (suc n) = tag ++ codes "done with " ++ decimal (suc n) ++ codes " warning(s)"

unfoldable pub finish : List Text → Program Calls (Unit {0})
unfolding warn_all summary
finish errors = do warn_all errors; say (summary (length errors))

module _ (fs : Files) where
  unfoldable pub stop_service :
      (name before after program : Text) → List Text → List Text → Program Calls (List Text)
  unfolding report_stop
  stop_service name before after program args errors = do
    r ← status fs program args
    report_stop name before after errors r

  remove_unit_if : (what removed path : Text) → List Text → Bool → Program Calls (List Text)
  unfolding report_removal
  remove_unit_if what removed path errors true = do
    r ← remove_file fs path
    report_removal what removed errors r
  remove_unit_if what removed path errors false = pure errors

  unfoldable pub remove_unit : (what removed path : Text) → List Text → Program Calls (List Text)
  unfolding remove_unit_if
  remove_unit what removed path errors = do
    found ← exists fs path
    remove_unit_if what removed path errors found

  remove_dir_if : Text → List Text → Bool → Program Calls (List Text)
  unfolding report_removal
  remove_dir_if path errors true = do
    r ← remove_dir_all fs path
    report_removal (codes "install dir") (codes "install dir") errors r
  remove_dir_if path errors false = pure errors

  unfoldable pub remove_install_dir : Text → List Text → Program Calls (List Text)
  unfolding remove_dir_if
  remove_install_dir path errors = do found ← exists fs path; remove_dir_if path errors found

  remove_socket_if : Text → Bool → Program Calls (Unit {0})
  remove_socket_if path true = do _ ← remove_file fs path; pure tt
  remove_socket_if path false = pure tt

  unfoldable pub remove_socket : Text → Program Calls (Unit {0})
  unfolding remove_socket_if
  remove_socket path = do found ← exists fs path; remove_socket_if path found
