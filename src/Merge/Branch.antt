-- ===== src/Merge/Branch.antt =====
-- When the branch is moved by a merge, and to what.
use gitus.Prelude.{
  ◌≡◌, ◌⊎◌, inl, inr, refl, Bytes, List, [], ◌∷◌, ◌++◌, false, true, Bool, codes, beq, sym, ◌∙◌, ap,
  if◌then◌else◌, ◌≢◌, subst, ℕ,
}
use gitus.Git.{
  Command, Script, Git, Log, Result, ok, err, command, answered, return, fail, after,
  run_git_command, ◌>>=◌,
}
use gitus.Git.Quiet.{IsError, Adds, bind-ok, Adds-refl}
use gitus.Merge.{
  MergeRequest, merge, merged_commit, write_merge_tree, merge_commit_args, merge_commit,
  squash_commit, move_branch, fetch_args, valid_merge_method, commit_tree_args, commit_identity,
  provider_full_name, from_to, message_or, merge_method_merge, merge_method_squash,
}
use gitus.Git.Quiet.{LeavesRefs}
use gitus.Merge.Quiet.{merged_commit-LeavesRefs}
use gitus.Merge.Origin.{Origin, IsAnswer, merged_commit-Gives}

not_empty : (c : ℕ) (s : Bytes) → c ∷ s ≢ []
not_empty c s h = cc

abbrev pub without_output : Result Bytes → Result (Unit {0})
without_output (ok s) = ok tt
without_output (err e) = err e

abbrev pub update_ref : MergeRequest → Bytes → Command
update_ref r commit_id =
    command [] (codes "update-ref" ∷ (codes "refs/heads/" ++ r.local_branch) ∷ commit_id ∷ [])

-- The fetch of the other repository's branch.
abbrev pub fetching : MergeRequest → Command
fetching r = command [] (codes "fetch" ∷ codes "--" ∷ r.remote ∷ r.remote_branch ∷ [])

-- Nothing was run, or the fetch and then commands that update no reference.
abbrev pub FetchesAtMost : MergeRequest → Log → Log → Type 0
FetchesAtMost r l k = (k ≡ l) ⊎ Adds LeavesRefs (fetching r ∷ l) k

-- What a merge leaves of a result and a log: it has fetched at most and there is an error, or the
-- branch is set by one last command, whose answer decides what is returned.
abbrev pub MovesAtMost : MergeRequest → Git → Log → Result (Unit {0}) × Log → Type 0
MovesAtMost r g l x =
    (FetchesAtMost r l x.1 × IsError x.0)
    ⊎ ((commit_id : Bytes) × (k : Log) × (commit_id ≢ [])
        × ((commit_id ≡ r.local_branch) ⊎ IsAnswer g commit_id)
        × Adds LeavesRefs (fetching r ∷ l) k
        × (x ≡ (
          without_output
              (answered (update_ref r commit_id).arguments (g k (update_ref r commit_id))),
          update_ref r commit_id ∷ k,
        )))

run-result :
    (g : Git) (l : Log) (x : Result Bytes) → after g (λ a. return tt) (x, l) ≡ (without_output x, l)
run-result g l (ok s) = refl
run-result g l (err e) = refl

move_branch-MovesAtMost :
    (r : MergeRequest) (g : Git) (l k : Log) (commit_id : Bytes)
    → Origin g r.local_branch commit_id
    → Adds LeavesRefs (fetching r ∷ l) k
    → MovesAtMost r g l (move_branch r commit_id g k)
unfolding run_git_command
move_branch-MovesAtMost r g l k [] o p = inl (inr p, (_, refl))
move_branch-MovesAtMost r g l k (c ∷ s) (inl h) p = absurd (not_empty c s h)
move_branch-MovesAtMost r g l k (c ∷ s) (inr o) p =
    inr (c ∷ s, k, not_empty c s, o, p, run-result g (update_ref r (c ∷ s) ∷ k) _)

after-MovesAtMost :
    {A : Type 0} (r : MergeRequest) (g : Git) (l : Log) (f : A → Script (Unit {0}))
    (x : Result A × Log)
    → FetchesAtMost r l x.1
    → ((a : A) → x.0 ≡ ok a → MovesAtMost r g l (f a g x.1))
    → MovesAtMost r g l (after g f x)
after-MovesAtMost r g l f (ok a, k) p q = q a refl
after-MovesAtMost r g l f (err e, k) p q = inl (p, (e, refl))

checked-MovesAtMost :
    (r : MergeRequest) (g : Git) (l : Log) (b : Bool) (m : Script (Unit {0})) (e : Bytes)
    → MovesAtMost r g l (m g l)
    → MovesAtMost r g l ((if b then m else fail e) g l)
checked-MovesAtMost r g l true m e p = p
checked-MovesAtMost r g l false m e p = inl (inl refl, (e, refl))

-- Whatever git answers, a merge runs nothing, or first a fetch of the other branch and then commands
-- that update no reference. Either it ends so with an error, or one more command, the last, sets the
-- local branch, and success is reported if and only if that command succeeds. What the branch is set
-- to is not empty: it is git's answer to a commit-tree or a rev-parse, or the name of the branch.
pub merge-MovesAtMost : (r : MergeRequest) (g : Git) (l : Log) → MovesAtMost r g l (merge r g l)
unfolding merge run_git_command
merge-MovesAtMost r g l =
    let k = fetching r ∷ l in
    checked-MovesAtMost r g l (valid_merge_method r.method) _ _ (
      after-MovesAtMost r g l (λ out. merged_commit r >>= move_branch r)
        (run_git_command [] (fetch_args r) g l) (inr (Adds-refl LeavesRefs k))
        λ out x.
          let p = (merged_commit-LeavesRefs r).adds g k in
          after-MovesAtMost r g l (move_branch r) (merged_commit r g k) (inr p) λ c h.
            move_branch-MovesAtMost r g l (merged_commit r g k).1 c
              ((merged_commit-Gives g r).gives k c h) p)

abbrev pub merge_tree_args : MergeRequest → List Bytes
merge_tree_args r =
    codes "merge-tree" ∷ codes "--write-tree" ∷ r.local_branch ∷ provider_full_name r ∷ []

-- The log and git's answers when a branch is set to one new commit on the merged tree.
abbrev pub CommitsMergedTree : (Bytes → List Bytes) → MergeRequest → Git → Log → Log → Type 0
CommitsMergedTree commit_args r g l k =
    (tree : Bytes) × (commit_id : Bytes) × (let fetched = command [] (fetch_args r) ∷ l in
      let merged = command [] (merge_tree_args r) ∷ fetched in
      let commits = command (commit_identity r.name r.email) (commit_args tree) in
      (answered (merge_tree_args r) (g fetched (command [] (merge_tree_args r))) ≡ ok tree)
      × (answered (commit_args tree) (g merged commits) ≡ ok commit_id)
      × (k ≡ update_ref r commit_id ∷ commits ∷ merged))

move_branch-ok :
    (r : MergeRequest) (g : Git) (l : Log) (commit_id : Bytes)
    → (move_branch r commit_id g l).0 ≡ ok tt
    → (move_branch r commit_id g l).1 ≡ update_ref r commit_id ∷ l
unfolding run_git_command
move_branch-ok r g l [] h = cc
move_branch-ok r g l (c ∷ s) h = ap (λ x. x.1) (run-result g (update_ref r (c ∷ s) ∷ l) _)

abbrev new_commit : (Bytes → List Bytes) → MergeRequest → Script Bytes
new_commit args r = write_merge_tree r.local_branch (provider_full_name r) [] >>= λ tree.
    run_git_command (commit_identity r.name r.email) (args tree)

-- Fetching, one commit of the merged tree, and the move of the branch.
abbrev in_one_commit : (Bytes → List Bytes) → MergeRequest → Script (Unit {0})
in_one_commit args r =
    run_git_command [] (fetch_args r) >>= λ out. new_commit args r >>= move_branch r

in_one_commit-ok :
    (args : Bytes → List Bytes) (r : MergeRequest) (g : Git) (l : Log)
    → (in_one_commit args r g l).0 ≡ ok tt
    → CommitsMergedTree args r g l (in_one_commit args r g l).1
unfolding run_git_command write_merge_tree
in_one_commit-ok args r g l h =
    let k = (run_git_command [] (fetch_args r) g l).1 in
    let fetched =
      bind-ok (run_git_command [] (fetch_args r)) (λ out. new_commit args r >>= move_branch r) g l
        tt h in
    let h' = sym (ap (λ x. x.0) fetched.2) ∙ h in
    let committed = bind-ok (new_commit args r) (move_branch r) g k tt h' in
    let h'' = sym (ap (λ x. x.0) committed.2) ∙ h' in
    let merged =
      bind-ok (write_merge_tree r.local_branch (provider_full_name r) [])
        (λ tree. run_git_command (commit_identity r.name r.email) (args tree)) g k committed.0
        committed.1 in
    (
      merged.0,
      committed.0,
      (
        merged.1,
        sym (ap (λ x. x.0) merged.2) ∙ committed.1,
        ap (λ x. x.1) fetched.2
            ∙ (ap (λ x. x.1) committed.2
                ∙ (move_branch-ok r g (new_commit args r g k).1 committed.0 h''
                    ∙ ap (λ x. update_ref r committed.0 ∷ x.1) merged.2)),
      ),
    )

abbrev pub merge_args : MergeRequest → Bytes → List Bytes
merge_args r tree =
    merge_commit_args tree (codes "merge" ++ from_to r) r.local_branch (provider_full_name r)

abbrev pub squash_args : MergeRequest → Bytes → List Bytes
squash_args r tree = commit_tree_args tree (message_or r r.message) r.local_branch

merge-in_one_commit :
    (r : MergeRequest) → r.method ≡ merge_method_merge → merge r ≡ in_one_commit (merge_args r) r
unfolding merge valid_merge_method merged_commit merge_commit beq
merge-in_one_commit r h = rw (h) refl

squash-in_one_commit :
    (r : MergeRequest) → r.method ≡ merge_method_squash → merge r ≡ in_one_commit (squash_args r) r
unfolding merge valid_merge_method merged_commit squash_commit beq
squash-in_one_commit r h = rw (h) refl

-- A merge that succeeds with the method for a merge commit has set the branch to what git answered
-- for a commit of the merged tree, with the local branch and the fetched branch as its parents and
-- the merging user as author and committer.
pub merge-TwoParents :
    (r : MergeRequest) (g : Git) (l : Log)
    → r.method ≡ merge_method_merge
    → (merge r g l).0 ≡ ok tt
    → CommitsMergedTree (merge_args r) r g l (merge r g l).1
merge-TwoParents r g l h =
    subst (λ m. (m g l).0 ≡ ok tt → CommitsMergedTree (merge_args r) r g l (m g l).1)
      (sym (merge-in_one_commit r h)) (in_one_commit-ok (merge_args r) r g l)

-- A merge that succeeds by squashing has set the branch to what git answered for a commit of the
-- merged tree whose only parent is the local branch, with the given message, or a default for an
-- empty one, and the merging user as author and committer.
pub merge-OneParent :
    (r : MergeRequest) (g : Git) (l : Log)
    → r.method ≡ merge_method_squash
    → (merge r g l).0 ≡ ok tt
    → CommitsMergedTree (squash_args r) r g l (merge r g l).1
merge-OneParent r g l h =
    subst (λ m. (m g l).0 ≡ ok tt → CommitsMergedTree (squash_args r) r g l (m g l).1)
      (sym (squash-in_one_commit r h)) (in_one_commit-ok (squash_args r) r g l)
