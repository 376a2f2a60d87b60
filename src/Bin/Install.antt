-- ===== src/Bin/Install.antt =====
-- src/bin/sc_helper_install.rs: the installers for macOS and Linux. What the two share stands in
-- one section, with the words in which their messages differ as parameters.
pub mod Plist
pub mod Unit
pub mod Steps
pub mod Ready
pub mod Perms
pub mod Laws
pub mod Placed
pub mod Registered
pub mod Macos
pub mod Linux
use sc_helper.Prelude.{
  ℕ, zero, suc, ◌+◌, ◌/◌, ◌%◌, ltb, Bool, true, false, Option, none, some, List, [], ◌∷◌, ◌++◌,
  Text, codes, if◌then◌else◌,
}
use sc_helper.Prelude.Program.{or_fail, Program, Result, ok, err, pure, fail, ◌>>=◌, ◌>>◌}
use sc_helper.Std.Path.{join, parent}
use sc_helper.Bin.Files.{
  Calls, Files, say, current_exe, is_file, create_dir_all, copy, write, chown, metadata,
  set_permissions, status,
}

octal_onto : ℕ → ℕ → Text → Text
octal_onto zero n out = out
octal_onto (suc fuel) n out =
    let more = octal_onto fuel (n / 8) ((b'0' + n % 8) ∷ out) in
    if ltb n 8 then (b'0' + n) ∷ out else more

-- `{:o}` of a `u32`, which has eleven digits at most.
octal : ℕ → Text
unfolding octal_onto
octal n = octal_onto 11 n []

abbrev pub tag : Text
tag = codes "[sc-helper-install] "

abbrev pub helper_name : Text
helper_name = codes "sc-helper"

abbrev pub mihomo_name : Text
mihomo_name = codes "sc-mihomo"

abbrev pub ping_name : Text
ping_name = codes "sc-helper-ping"

-- 0o755 and 0o644
abbrev pub executable : ℕ
executable = 493

abbrev pub readable : ℕ
readable = 420

-- `me.parent().ok_or_else(..)?`
payload_dir : Option Text → Program Calls Text
payload_dir none = fail (codes "current exe has no parent dir")
payload_dir (some dir) = pure dir

abbrev pub without_mihomo : Text
without_mihomo = codes "helper will start but StartMihomo will fail until it's added"

abbrev pub without_ping : Text
without_ping = codes "support diagnostics will be unavailable"

abbrev pub missing : (name path consequence : Text) → Text
missing name path consequence =
    tag ++ codes "WARN: " ++ name ++ codes " missing at " ++ path ++ codes "; " ++ consequence

-- `if !src_helper.is_file() { bail!(..) }`
require_helper : Text → Bool → Program Calls (Unit {0})
require_helper path true = pure tt
require_helper path false = fail (codes "expected sibling binary sc-helper at " ++ path)

warn_unless : Bool → Text → Program Calls (Unit {0})
warn_unless true line = pure tt
warn_unless false line = say line

module _ (fs : Files) where
  unfoldable pub locate : Program Calls Text
  unfolding payload_dir
  locate = do
    r ← current_exe fs
    me ← or_fail (codes "locating own binary") r
    payload_dir (parent me)

  unfoldable pub check_optional : (name path consequence : Text) → Program Calls (Unit {0})
  unfolding warn_unless
  check_optional name path consequence = do
    have ← is_file fs path
    warn_unless have (missing name path consequence)

  unfoldable pub check_payload : Text → Program Calls (Unit {0})
  unfolding require_helper
  check_payload payload = do
    have ← is_file fs (join payload helper_name)
    require_helper (join payload helper_name) have
    check_optional mihomo_name (join payload mihomo_name) without_mihomo
    check_optional ping_name (join payload ping_name) without_ping

  unfoldable pub make_dir : Text → Program Calls (Unit {0})
  make_dir install_dir = do
    r ← create_dir_all fs install_dir
    or_fail (codes "mkdir -p " ++ install_dir) r

  unfoldable pub copy_file : Text → Text → Text → Program Calls (Unit {0})
  copy_file name src dst = do
    r ← copy fs src dst
    or_fail (codes "copy " ++ src ++ codes " → " ++ dst) r
    say (tag ++ codes "copied " ++ name)

  copy_if : Bool → (name src dst : Text) → Program Calls (Unit {0})
  copy_if true name src dst = copy_file name src dst
  copy_if false name src dst = pure tt

  unfoldable pub copy_optional : (name src dst : Text) → Program Calls (Unit {0})
  unfolding copy_if
  copy_optional name src dst = do have ← is_file fs src; copy_if have name src dst

  unfoldable pub copy_payload : Text → Text → Program Calls (Unit {0})
  copy_payload payload install_dir = do
    copy_file helper_name (join payload helper_name) (join install_dir helper_name)
    copy_optional mihomo_name (join payload mihomo_name) (join install_dir mihomo_name)
    copy_optional ping_name (join payload ping_name) (join install_dir ping_name)

  unfoldable pub write_unit : (what path body : Text) → Program Calls (Unit {0})
  write_unit what path body = do
    r ← write fs path body
    or_fail (codes "writing " ++ path) r
    say (tag ++ codes "wrote " ++ what)

  -- `chown_root`, `chown_root_wheel`
  unfoldable pub chown_root : (owner path : Text) → Program Calls (Unit {0})
  chown_root owner path = do
    r ← chown fs path
    or_fail (codes "chown " ++ owner ++ codes " " ++ path) r

  unfoldable pub chmod : Text → ℕ → Program Calls (Unit {0})
  unfolding octal
  chmod path mode = do
    r ← metadata fs path
    or_fail (codes "stat " ++ path) r
    q ← set_permissions fs path mode
    or_fail (codes "chmod " ++ octal mode ++ codes " " ++ path) q

  -- A `chown` and a `chmod`.
  unfoldable pub secure : (owner path : Text) → ℕ → Program Calls (Unit {0})
  secure owner path mode = do chown_root owner path; chmod path mode

  secure_if : Bool → (owner path : Text) → Program Calls (Unit {0})
  secure_if true owner path = secure owner path executable
  secure_if false owner path = pure tt

  unfoldable pub secure_optional : (owner path : Text) → Program Calls (Unit {0})
  unfolding secure_if
  secure_optional owner path = do have ← is_file fs path; secure_if have owner path

  unfoldable pub set_perms : (owner install_dir unit_path : Text) → Program Calls (Unit {0})
  set_perms owner install_dir unit_path = do
    secure owner (join install_dir helper_name) executable
    secure_optional owner (join install_dir mihomo_name)
    secure_optional owner (join install_dir ping_name)
    secure owner unit_path readable
    say (tag ++ codes "perms set")

  unload_if : Bool → (notice program : Text) → List Text → Program Calls (Unit {0})
  unload_if false notice program args = pure tt
  unload_if true notice program args = do say (tag ++ notice); _ ← status fs program args; pure tt

  unfoldable pub unload : (notice unit_path program : Text) → List Text → Program Calls (Unit {0})
  unfolding unload_if
  unload notice unit_path program args = do
    installed ← is_file fs unit_path
    unload_if installed notice program args
