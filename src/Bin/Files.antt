-- ===== src/Bin/Files.antt =====
-- The system as the installer and the uninstaller meet it: what they ask is a trace of calls,
-- newest first, and an environment answers each call from the trace before it.
pub mod Known
use sc_helper.Prelude.{ℕ, Bool, Option, none, some, List, ◌∷◌, Text, codes, ◌++◌}
use sc_helper.Prelude.Program.{Program, Result, ok, err, Outcome, done, failed, pure, fail, ◌>>=◌}

-- `ExitStatus`: whether it is a success, and its `{}` form.
pub record Status : Type 0 where
  pub success : Bool
  pub shown : Text

pub data Call : Type 0 where
  located : Result Text → Call
  probed_file : Text → Bool → Call
  existed : Text → Bool → Call
  made_dir : Text → Result (Unit {0}) → Call
  -- source, destination
  copied : Text → Text → Result (Unit {0}) → Call
  -- path, contents
  wrote : Text → Text → Result (Unit {0}) → Call
  -- `chown` to uid 0 and gid 0
  chowned : Text → Result (Unit {0}) → Call
  inspected : Text → Result (Unit {0}) → Call
  chmodded : Text → ℕ → Result (Unit {0}) → Call
  removed_file : Text → Result (Unit {0}) → Call
  removed_dir : Text → Result (Unit {0}) → Call
  ran : Text → List Text → Result Status → Call
  -- a line on stderr
  printed : Text → Call

abbrev pub Calls : Type 0
Calls = List Call

pub record Files : Type 0 where
  pub current_exe : Calls → Result Text
  pub is_file : Calls → Text → Bool
  pub exists : Calls → Text → Bool
  pub create_dir_all : Calls → Text → Result (Unit {0})
  pub copy : Calls → Text → Text → Result (Unit {0})
  pub write : Calls → Text → Text → Result (Unit {0})
  pub chown : Calls → Text → Result (Unit {0})
  pub metadata : Calls → Text → Result (Unit {0})
  pub set_permissions : Calls → Text → ℕ → Result (Unit {0})
  pub remove_file : Calls → Text → Result (Unit {0})
  pub remove_dir_all : Calls → Text → Result (Unit {0})
  pub status : Calls → Text → List Text → Result Status

-- `eprintln!`
abbrev pub say : Text → Program Calls (Unit {0})
say line t = (done tt, printed line ∷ t)

module _ (fs : Files) where
  abbrev pub current_exe : Program Calls (Result Text)
  current_exe t = let r = fs.current_exe t in (done r, located r ∷ t)

  abbrev pub is_file : Text → Program Calls Bool
  is_file p t = let r = fs.is_file t p in (done r, probed_file p r ∷ t)

  abbrev pub exists : Text → Program Calls Bool
  exists p t = let r = fs.exists t p in (done r, existed p r ∷ t)

  abbrev pub create_dir_all : Text → Program Calls (Result (Unit {0}))
  create_dir_all p t = let r = fs.create_dir_all t p in (done r, made_dir p r ∷ t)

  abbrev pub copy : Text → Text → Program Calls (Result (Unit {0}))
  copy src dst t = let r = fs.copy t src dst in (done r, copied src dst r ∷ t)

  abbrev pub write : Text → Text → Program Calls (Result (Unit {0}))
  write p body t = let r = fs.write t p body in (done r, wrote p body r ∷ t)

  abbrev pub chown : Text → Program Calls (Result (Unit {0}))
  chown p t = let r = fs.chown t p in (done r, chowned p r ∷ t)

  abbrev pub metadata : Text → Program Calls (Result (Unit {0}))
  metadata p t = let r = fs.metadata t p in (done r, inspected p r ∷ t)

  abbrev pub set_permissions : Text → ℕ → Program Calls (Result (Unit {0}))
  set_permissions p mode t = let r = fs.set_permissions t p mode in (done r, chmodded p mode r ∷ t)

  abbrev pub remove_file : Text → Program Calls (Result (Unit {0}))
  remove_file p t = let r = fs.remove_file t p in (done r, removed_file p r ∷ t)

  abbrev pub remove_dir_all : Text → Program Calls (Result (Unit {0}))
  remove_dir_all p t = let r = fs.remove_dir_all t p in (done r, removed_dir p r ∷ t)

  abbrev pub status : Text → List Text → Program Calls (Result Status)
  status program args t = let r = fs.status t program args in (done r, ran program args r ∷ t)
