-- ===== src/Merge/Tests.antt =====
-- Merges with every answer of git given.
use gitus.Prelude.{◌∷◌, codes, [], refl, ◌≡◌, Bytes}
use gitus.Prelude.{trim_space, trim_left, is_space, beq}
use gitus.Git.{Git, output, failure, ok, run_git_command}
use gitus.Merge.{
  MergeRequest, merge, merge_method_merge, merge_method_squash, valid_merge_method, merged_commit,
  merge_commit, squash_commit, write_merge_tree,
}
use gitus.Merge.Branch.{MovesAtMost, merge-MovesAtMost}

-- A repository in which every command succeeds.
abbrev agreeing : Git
agreeing = λ l c. output (codes "4b82")

abbrev request : Bytes → MergeRequest
request method = record {
  remote = codes "ns:fork";
  remote_branch = codes "topic";
  local_branch = codes "main";
  method = method;
  name = codes "ann";
  email = codes "a@b";
  message = [];
}

merge-MovesAtMost_example :
    MovesAtMost
      (request merge_method_merge)
      agreeing
      []
      (merge (request merge_method_merge) agreeing [])
merge-MovesAtMost_example = merge-MovesAtMost (request merge_method_merge) agreeing []

merge_succeeds : (merge (request merge_method_merge) agreeing []).0 ≡ ok tt
unfolding merge valid_merge_method merged_commit merge_commit write_merge_tree run_git_command beq
    trim_space trim_left is_space
merge_succeeds = refl

squash_succeeds : (merge (request merge_method_squash) agreeing []).0 ≡ ok tt
unfolding merge valid_merge_method merged_commit squash_commit write_merge_tree run_git_command beq
    trim_space trim_left is_space
squash_succeeds = refl

-- The fetch succeeds and merge-tree finds no such branch.
abbrev without_branch : Git
without_branch [] c = output []
without_branch (d ∷ l) c =
    failure (codes "exit status 128") [] (codes "merge-tree: topic - not something we can merge")

nothing_left : trim_space [] ≡ []
unfolding trim_space trim_left
nothing_left = refl
