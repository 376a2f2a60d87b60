-- ===== src/BuildScript.antt =====
-- build.rs: what the build tells cargo, the commit that `GetVersion` reports and the files to
-- watch.
pub mod Laws
use sc_helper.Prelude.{
  Bool, true, false, Option, none, some, List, [], ◌∷◌, ◌++◌, Text, codes, if◌then◌else◌,
}
use sc_helper.Prelude.Program.{Result, ok, err}
use sc_helper.Std.Text.{trim}
use sc_helper.Service.Os.{Output}

-- The machine that builds: whether a path is a directory, what a command gives, and a directory's
-- entries, each an error or a path, which is none if it is not Unicode.
pub record Machine : Type 0 where
  pub is_dir : Text → Bool
  pub output : Text → List Text → Result Output
  pub read_dir : Text → Result (List (Result (Option Text)))

abbrev pub git_args : List Text
git_args = codes "rev-parse" ∷ codes "--short=12" ∷ codes "HEAD" ∷ []

-- The `match` on what git gives.
unfoldable pub commit_of : Result Output → Text
commit_of (ok out) = if out.success then trim out.stdout else codes "unknown"
commit_of (err e) = codes "unknown"

unfoldable pub sha : Machine → Text
sha machine =
    if machine.is_dir (codes ".git")
    then commit_of (machine.output (codes "git") git_args)
    else codes "unknown"

abbrev pub sha_line : Text → Text
sha_line commit = codes "cargo:rustc-env=SC_HELPER_BUILD_SHA=" ++ commit

abbrev pub watch_line : Text → Text
watch_line path = codes "cargo:rerun-if-changed=" ++ path

-- The loop over the entries; `flatten` leaves the errors out.
unfoldable pub watched : List (Result (Option Text)) → List Text
watched [] = []
watched (ok (some path) ∷ entries) = watch_line path ∷ watched entries
watched (ok none ∷ entries) = watched entries
watched (err e ∷ entries) = watched entries

unfoldable pub heads_of : Result (List (Result (Option Text))) → List Text
heads_of (ok entries) = watched entries
heads_of (err e) = []

-- The lines printed.
unfoldable pub main : Machine → List Text
main machine =
    sha_line (sha machine)
    ∷ watch_line (codes ".git/HEAD")
    ∷ (if machine.is_dir (codes ".git/refs/heads")
        then heads_of (machine.read_dir (codes ".git/refs/heads"))
        else [])
