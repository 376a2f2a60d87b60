-- ===== src/BuildScript/Laws.antt =====
-- What the build learns from a checkout.
use sc_helper.Prelude.{◌≡◌, true, Option, List, ◌++◌, Text, codes}
use mathlib.Core.List.{Memᴰ}
use mathlib.Core.List.Memᴰ
use sc_helper.Prelude.Program.{Result, ok}
use sc_helper.Service.Os.{Output}
use sc_helper.BuildScript.{Machine, git_args}

-- A checkout in which git knows the commit, with these entries of `.git/refs/heads`.
pub record IsCheckout (machine : Machine) (commit : Text) (entries : List (Result (Option Text)))
    : Type 0 where
  pub out : Output
  pub is_there : machine.is_dir (codes ".git") ≡ true
  pub git_runs : machine.output (codes "git") git_args ≡ ok out
  pub git_succeeds : out.success ≡ true
  pub git_prints : out.stdout ≡ commit ++ codes "\n"
  pub has_heads : machine.is_dir (codes ".git/refs/heads") ≡ true
  pub heads_read : machine.read_dir (codes ".git/refs/heads") ≡ ok entries
