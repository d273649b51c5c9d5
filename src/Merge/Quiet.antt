-- ===== src/Merge/Quiet.antt =====
-- Between the fetch and the last command, a merge updates no reference.
use gitus.Prelude.{refl, Bytes, List, [], ◌∷◌, false, true, Bool, beq, mem}
use gitus.Git.{command, run_git_command}
use gitus.Git.Quiet.{
  LeavesRefs, Only, Only_bind, Only_return, Only_fail, Only_if, run_git_command-Only, succeeds-Only,
  recover-Only,
}
use gitus.Merge.{
  MergeRequest, merged_commit, write_merge_tree, merge_commit, squash_commit, author_of,
  copy_commit_author, replay_commit, replay, rebase_commits, rebased, is_ancestor, cannot_rebase,
  empty_tree_oid, split_n, fields, provider_full_name, merge_method_merge, merge_method_squash,
  merge_method_rebase,
}

abbrev run-LeavesRefs :
    (env args : List Bytes)
    → LeavesRefs (command env args)
    → Only LeavesRefs (run_git_command env args)
run-LeavesRefs env args p = run_git_command-Only LeavesRefs env args p

write_merge_tree-LeavesRefs :
    (base provider merge_base : Bytes) → Only LeavesRefs (write_merge_tree base provider merge_base)
unfolding write_merge_tree mem beq
write_merge_tree-LeavesRefs b p m = run-LeavesRefs _ _ refl

author_of-LeavesRefs :
    (commit_id : Bytes) (parts : List Bytes) → Only LeavesRefs (author_of commit_id parts)
author_of-LeavesRefs i (a ∷ b ∷ c ∷ d ∷ []) = Only_return LeavesRefs _
author_of-LeavesRefs i [] = Only_fail LeavesRefs _
author_of-LeavesRefs i (a ∷ []) = Only_fail LeavesRefs _
author_of-LeavesRefs i (a ∷ b ∷ []) = Only_fail LeavesRefs _
author_of-LeavesRefs i (a ∷ b ∷ c ∷ []) = Only_fail LeavesRefs _
author_of-LeavesRefs i (a ∷ b ∷ c ∷ d ∷ e ∷ s) = Only_fail LeavesRefs _

copy_commit_author-LeavesRefs : (commit_id : Bytes) → Only LeavesRefs (copy_commit_author commit_id)
unfolding copy_commit_author mem beq
copy_commit_author-LeavesRefs i =
    Only_bind LeavesRefs _ _ (run-LeavesRefs _ _ refl)
      λ out. author_of-LeavesRefs i (split_n 0 3 out)

cannot_rebase-LeavesRefs : (commit_id e : Bytes) → Only LeavesRefs (cannot_rebase commit_id e)
unfolding mem beq
cannot_rebase-LeavesRefs i e =
    Only_bind LeavesRefs _ _
      (recover-Only LeavesRefs _ _ (run-LeavesRefs _ _ refl) λ x. Only_return LeavesRefs [])
      λ short. Only_fail LeavesRefs _

replay_commit-LeavesRefs :
    (name email tip commit_id : Bytes) → Only LeavesRefs (replay_commit name email tip commit_id)
unfolding replay_commit mem beq
replay_commit-LeavesRefs n m t i = Only_bind LeavesRefs _ _ (run-LeavesRefs _ _ refl) λ tip_tree.
    Only_bind LeavesRefs _ _
      (recover-Only LeavesRefs _ _ (run-LeavesRefs _ _ refl)
        λ e. Only_return LeavesRefs empty_tree_oid)
      λ merge_base.
        Only_bind LeavesRefs _ _
          (recover-Only LeavesRefs _ _ (write_merge_tree-LeavesRefs t i merge_base)
            (cannot_rebase-LeavesRefs i))
          λ tree_id. Only_if LeavesRefs (beq tree_id tip_tree) _ _ (Only_return LeavesRefs t) (
            Only_bind LeavesRefs _ _ (copy_commit_author-LeavesRefs i)
              λ author. run-LeavesRefs _ _ refl)

replay-LeavesRefs :
    (name email tip : Bytes) (cs : List Bytes) → Only LeavesRefs (replay name email tip cs)
unfolding replay
replay-LeavesRefs n m t [] = Only_return LeavesRefs t
replay-LeavesRefs n m t (c ∷ cs) =
    Only_bind LeavesRefs _ _ (replay_commit-LeavesRefs n m t c)
      λ next. replay-LeavesRefs n m next cs

rebased-LeavesRefs : (r : MergeRequest) (b : Bool) → Only LeavesRefs (rebased r b)
unfolding rebased rebase_commits mem beq
rebased-LeavesRefs r true = run-LeavesRefs _ _ refl
rebased-LeavesRefs r false =
    Only_bind LeavesRefs _ _ (run-LeavesRefs _ _ refl)
      λ out. replay-LeavesRefs r.name r.email r.local_branch (fields out)

pub merged_commit-LeavesRefs : (r : MergeRequest) → Only LeavesRefs (merged_commit r)
unfolding merged_commit merge_commit squash_commit is_ancestor mem beq
merged_commit-LeavesRefs r =
    Only_if LeavesRefs (beq r.method merge_method_merge) _ _
      (Only_bind LeavesRefs _ _
        (write_merge_tree-LeavesRefs r.local_branch (provider_full_name r) [])
        λ tree. run-LeavesRefs _ _ refl)
      (Only_if LeavesRefs (beq r.method merge_method_squash) _ _
        (Only_bind LeavesRefs _ _
          (write_merge_tree-LeavesRefs r.local_branch (provider_full_name r) [])
          λ tree. run-LeavesRefs _ _ refl)
        (Only_if LeavesRefs (beq r.method merge_method_rebase) _ _
          (Only_bind LeavesRefs _ _ (succeeds-Only LeavesRefs _ refl) (rebased-LeavesRefs r))
          (Only_return LeavesRefs [])))
