-- ===== src/Refs/Tests.antt =====
-- A branch that is made and one that is deleted.
use gitus.Prelude.{codes, Bytes, some, [], ◌∷◌, has_prefix, trim_left, is_space, ◌≡◌, refl}
use gitus.Prelude.{trim_space}
use gitus.Git.{Git, output, failure, ok, run_git_command, succeeds}
use gitus.Git.Quiet.{Only}
use gitus.Refs.{create_ref, delete_branch, head_name, ref_name_problem, ref_exists}
use gitus.Refs.Guarded.{
  CreatesOnly, create_ref-CreatesOnly, DeletesBranch, delete_branch-DeletesBranch,
}

abbrev unquoted : Bytes → Bytes
unquoted s = s

-- A repository in which every command succeeds, but the one that looks for the new branch.
abbrev without_new : Git
without_new [] c = output []
without_new (d ∷ []) c = failure (codes "exit status 1") [] []
without_new (d ∷ e ∷ l) c = output (codes "4b82")

new_branch_made :
    (create_ref unquoted
      (codes "refs/heads/new")
      (codes "branch")
      (codes "new")
      (codes "main")
      without_new
      []).0
    ≡ ok tt
unfolding create_ref ref_name_problem ref_exists run_git_command succeeds has_prefix trim_space
    trim_left is_space
new_branch_made = refl

create_ref-CreatesOnly_example :
    CreatesOnly without_new (codes "refs/heads/new") (codes "new") (codes "main") [] (
      create_ref unquoted
        (codes "refs/heads/new")
        (codes "branch")
        (codes "new")
        (codes "main")
        without_new
        [])
create_ref-CreatesOnly_example =
    create_ref-CreatesOnly unquoted (codes "refs/heads/new") (codes "branch") (codes "new")
      (codes "main") without_new []

delete_branch-DeletesBranch_example :
    Only
      (DeletesBranch (head_name (trim_space (codes "ref: refs/heads/main\n"))) (codes "old"))
      (delete_branch unquoted (some (codes "ref: refs/heads/main\n")) (codes "old"))
delete_branch-DeletesBranch_example =
    delete_branch-DeletesBranch unquoted (codes "ref: refs/heads/main\n") (codes "old")
