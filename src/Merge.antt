-- ===== src/Merge.antt =====
-- pkg/gitlib/merge.go: the merge of a branch of another repository into a branch of this one.
pub mod Quiet
pub mod Origin
pub mod Branch
pub mod Conflicts
mod Tests
use gitus.Prelude.{
  ℕ, Bool, Bytes, List, Option, [], codes, none, some, ◌∷◌, ◌++◌, true, false, beq, any, cut,
  is_space, if◌then◌else◌, is_empty, not, suc, zero,
}
use gitus.Git.{
  Script, Git, Log, Result, ok, err, Answer, output, failure, run_git_command, command, Command,
  return, fail, after, ◌>>=◌, ◌>>◌, recover, succeeds,
}

abbrev pub merge_method_merge : Bytes
merge_method_merge = codes "merge"

abbrev pub merge_method_squash : Bytes
merge_method_squash = codes "squash"

abbrev pub merge_method_rebase : Bytes
merge_method_rebase = codes "rebase"

abbrev pub merge_methods : List Bytes
merge_methods = merge_method_merge ∷ merge_method_squash ∷ merge_method_rebase ∷ []

unfoldable pub valid_merge_method : Bytes → Bool
unfolding beq
valid_merge_method method = any (λ m. beq m method) merge_methods

abbrev pub empty_tree_oid : Bytes
empty_tree_oid = codes "4b825dc642cb6eb9a060e54bf8d69288fbee4904"

abbrev pub commit_identity : Bytes → Bytes → List Bytes
commit_identity name email =
    (codes "GIT_AUTHOR_NAME=" ++ name)
    ∷ (codes "GIT_AUTHOR_EMAIL=" ++ email)
    ∷ (codes "GIT_COMMITTER_NAME=" ++ name)
    ∷ (codes "GIT_COMMITTER_EMAIL=" ++ email)
    ∷ []

abbrev pub merge_base_option : Bytes → List Bytes
merge_base_option [] = []
merge_base_option (c ∷ s) = (codes "--merge-base=" ++ (c ∷ s)) ∷ []

unfoldable pub write_merge_tree : Bytes → Bytes → Bytes → Script Bytes
write_merge_tree base provider merge_base = run_git_command [] (
    codes "merge-tree"
    ∷ codes "--write-tree"
    ∷ (merge_base_option merge_base ++ (base ∷ provider ∷ [])))

-- The arguments of `git commit-tree` with a parent.
abbrev pub commit_tree_args : Bytes → Bytes → Bytes → List Bytes
commit_tree_args tree_id message parent =
    codes "commit-tree" ∷ tree_id ∷ codes "-m" ∷ message ∷ codes "-p" ∷ parent ∷ []

abbrev pub merge_commit_args : Bytes → Bytes → Bytes → Bytes → List Bytes
merge_commit_args tree_id message local_branch provider_full_name =
    commit_tree_args tree_id message local_branch ++ (codes "-p" ∷ provider_full_name ∷ [])

unfoldable pub merge_commit : Bytes → Bytes → Bytes → Bytes → Bytes → Script Bytes
merge_commit local_branch provider_full_name message name email = do
  tree_id ← write_merge_tree local_branch provider_full_name []
  run_git_command (commit_identity name email)
      (merge_commit_args tree_id message local_branch provider_full_name)

unfoldable pub squash_commit : Bytes → Bytes → Bytes → Bytes → Bytes → Script Bytes
squash_commit local_branch provider_full_name message name email = do
  tree_id ← write_merge_tree local_branch provider_full_name []
  run_git_command (commit_identity name email) (commit_tree_args tree_id message local_branch)

unfoldable pub is_ancestor : Bytes → Bytes → Script Bool
unfolding succeeds
is_ancestor ancestor descendant =
    succeeds (codes "merge-base" ∷ codes "--is-ancestor" ∷ ancestor ∷ descendant ∷ [])

-- strings.SplitN(s, sep, n + 1): the parts before the first `n` separators, and the rest.
abbrev pieces_from : (Bytes → List Bytes) → Bytes × Option Bytes → List Bytes
pieces_from f (a, none) = a ∷ []
pieces_from f (a, some s) = a ∷ f s

abbrev pub split_n : ℕ → ℕ → Bytes → List Bytes
unfolding cut
split_n sep zero s = s ∷ []
split_n sep (suc n) s = pieces_from (split_n sep n) (cut sep s)

-- The variables for the author, and the message.
abbrev pub author_of : Bytes → List Bytes → Script (List Bytes × Bytes)
author_of commit_id (a ∷ b ∷ c ∷ message ∷ []) = return (
  (codes "GIT_AUTHOR_NAME=" ++ a)
      ∷ (codes "GIT_AUTHOR_EMAIL=" ++ b)
      ∷ (codes "GIT_AUTHOR_DATE=" ++ c)
      ∷ [],
  message,
)
author_of commit_id parts = fail (codes "unexpected commit metadata for " ++ commit_id)

unfoldable pub copy_commit_author : Bytes → Script (List Bytes × Bytes)
copy_commit_author commit_id = do
  out ←
      run_git_command []
        (codes "show" ∷ codes "-s" ∷ codes "--format=%an%x00%ae%x00%aI%x00%B" ∷ commit_id ∷ [])
  author_of commit_id (split_n 0 3 out)

-- strings.Fields
abbrev pub add_word : Bytes × List Bytes → List Bytes
add_word ([], ws) = ws
add_word (c ∷ w, ws) = (c ∷ w) ∷ ws

abbrev pub fields_from : Bytes → Bytes × List Bytes
unfolding is_space
fields_from [] = ([], [])
fields_from (c ∷ s) =
    let r = fields_from s in if is_space c then ([], add_word r) else (c ∷ r.0, r.1)

unfoldable pub fields : Bytes → List Bytes
fields s = add_word (fields_from s)

abbrev pub rev_parse : List Bytes → Script Bytes
rev_parse args = run_git_command [] (codes "rev-parse" ∷ args)

abbrev pub cannot_rebase : Bytes → Bytes → Script Bytes
cannot_rebase commit_id e = do
  short ← recover (rev_parse (codes "--short" ∷ commit_id ∷ [])) (λ x. return [])
  fail (codes "cannot rebase commit " ++ (short ++ (codes ": " ++ e)))

abbrev pub committer : Bytes → Bytes → List Bytes
committer name email =
    (codes "GIT_COMMITTER_NAME=" ++ name) ∷ (codes "GIT_COMMITTER_EMAIL=" ++ email) ∷ []

-- One round of the loop of rebaseCommits: the new tip.
unfoldable pub replay_commit : Bytes → Bytes → Bytes → Bytes → Script Bytes
unfolding write_merge_tree copy_commit_author beq
replay_commit name email tip commit_id = do
  tip_tree ← rev_parse ((tip ++ codes "^{tree}") ∷ [])
  merge_base ← recover (rev_parse ((commit_id ++ codes "^") ∷ [])) (λ e. return empty_tree_oid)
  tree_id ← recover (write_merge_tree tip commit_id merge_base) (cannot_rebase commit_id)
  if beq tree_id tip_tree then return tip else (do
    author ← copy_commit_author commit_id
    run_git_command (author.0 ++ committer name email) (commit_tree_args tree_id author.1 tip))

unfoldable pub replay : Bytes → Bytes → Bytes → List Bytes → Script Bytes
unfolding replay_commit
replay name email tip [] = return tip
replay name email tip (c ∷ cs) = do next ← replay_commit name email tip c; replay name email next cs

unfoldable pub rebase_commits : Bytes → Bytes → Bytes → Bytes → Script Bytes
unfolding replay fields
rebase_commits local_branch provider_full_name name email = do
  out ← run_git_command [] (
      codes "rev-list"
      ∷ codes "--reverse"
      ∷ codes "--no-merges"
      ∷ (local_branch ++ (codes ".." ++ provider_full_name))
      ∷ [])
  replay name email local_branch (fields out)

pub record MergeRequest : Type 0 where
  pub remote : Bytes
  pub remote_branch : Bytes
  pub local_branch : Bytes
  pub method : Bytes
  pub name : Bytes
  pub email : Bytes
  pub message : Bytes

abbrev pub provider_full_name : MergeRequest → Bytes
provider_full_name r = r.remote ++ (codes "/" ++ r.remote_branch)

abbrev pub from_to : MergeRequest → Bytes
from_to r = codes ": from " ++ (provider_full_name r ++ (codes " to " ++ r.local_branch))

abbrev pub message_or : MergeRequest → Bytes → Bytes
message_or r [] = r.method ++ from_to r
message_or r (c ∷ s) = c ∷ s

unfoldable pub rebased : MergeRequest → Bool → Script Bytes
unfolding rebase_commits
rebased r true = rev_parse (provider_full_name r ∷ [])
rebased r false = rebase_commits r.local_branch (provider_full_name r) r.name r.email

-- The commit that the branch is moved to; of none when no case of the switch applies.
unfoldable pub merged_commit : MergeRequest → Script Bytes
unfolding merge_commit squash_commit is_ancestor rebased beq
merged_commit r =
    if beq r.method merge_method_merge
    then merge_commit r.local_branch (provider_full_name r) (codes "merge" ++ from_to r) r.name
        r.email
    else if beq r.method merge_method_squash
    then squash_commit r.local_branch (provider_full_name r) (message_or r r.message) r.name r.email
    else if beq r.method merge_method_rebase
    then (is_ancestor r.local_branch (provider_full_name r) >>= rebased r)
    else return []

abbrev pub update_ref_args : Bytes → Bytes → List Bytes
update_ref_args local_branch commit_id =
    codes "update-ref" ∷ (codes "refs/heads/" ++ local_branch) ∷ commit_id ∷ []

abbrev pub fetch_args : MergeRequest → List Bytes
fetch_args r = codes "fetch" ∷ codes "--" ∷ r.remote ∷ r.remote_branch ∷ []

abbrev pub move_branch : MergeRequest → Bytes → Script (Unit {0})
move_branch r [] = fail (codes "merge produced no commit")
move_branch r (c ∷ s) = run_git_command [] (update_ref_args r.local_branch (c ∷ s)) >> return tt

unfoldable pub merge : MergeRequest → Script (Unit {0})
unfolding valid_merge_method merged_commit
merge r =
    if valid_merge_method r.method
    then (do
      out ← run_git_command [] (fetch_args r)
      commit_id ← merged_commit r
      move_branch r commit_id)
    else fail (codes "unknown merge method: " ++ r.method)
