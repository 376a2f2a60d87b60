-- ===== src/Tests/Building.antt =====
-- A build in a checkout with two branches, of which git knows the commit.
use sc_helper.Prelude.{true, some, none, [], ◌∷◌, ◌++◌, Text, List, Option, codes}
use sc_helper.Prelude.Program.{Result, ok, err}
use sc_helper.BuildScript.{Machine}

abbrev commit : Text
commit = codes "0123456789ab"

abbrev branch : Text
branch = codes ".git/refs/heads/main"

abbrev branches : List (Result (Option Text))
branches = err (codes "gone") ∷ ok none ∷ ok (some branch) ∷ []

abbrev machine : Machine
machine = record {
  is_dir = λ path. true;
  output = λ program args. ok (record {
    status = codes "exit status: 0";
    success = true;
    stdout = commit ++ codes "\n";
    stderr = [];
  });
  read_dir = λ path. ok branches;
}
