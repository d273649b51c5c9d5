-- ===== src/Merge/Origin.antt =====
-- Where the text comes from that a merge sets the branch to.
use gitus.Prelude.{
  ◌≡◌, ◌⊎◌, inl, inr, refl, Bytes, List, [], ◌∷◌, false, true, Bool, codes, beq, sym, ◌∙◌, ap,
  if◌then◌else◌, mem, subst, ◌++◌,
}
use gitus.Git.{
  Script, Git, Log, Result, ok, err, command, answered, return, run_git_command, ◌>>=◌, first_word,
  recover,
}
use gitus.Git.Quiet.{bind-ok}
use gitus.Merge.{
  MergeRequest, merged_commit, merge_commit, squash_commit, replay_commit, replay, rebase_commits,
  rebased, fields, is_ancestor, provider_full_name, merge_method_merge, merge_method_squash,
  merge_method_rebase, rev_parse, write_merge_tree, commit_identity, empty_tree_oid,
  merge_commit_args, cannot_rebase, from_to, commit_tree_args, copy_commit_author, committer,
  message_or,
}

-- The text is git's answer to a commit-tree or to a rev-parse.
abbrev pub IsAnswer : Git → Bytes → Type 0
IsAnswer g s =
    (l : Log) × (env : List Bytes) × (args : List Bytes) × (mem (first_word args)
        (codes "commit-tree" ∷ codes "rev-parse" ∷ [])
      ≡ true)
    × (answered args (g l (command env args)) ≡ ok s)

-- It is empty, the name of the branch, or an answer.
abbrev pub Origin : Git → Bytes → Bytes → Type 0
Origin g branch s = (s ≡ []) ⊎ (s ≡ branch) ⊎ IsAnswer g s

text_or : Bytes → Result Bytes → Bytes
text_or d (ok s) = s
text_or d (err e) = d

ok_inj : (s t : Bytes) → ok s ≡ ok t → s ≡ t
unfolding text_or
ok_inj s t h = ap (text_or s) h

module _ (g : Git) (branch : Bytes) where
  -- Whatever the script returns has such an origin.
  pub record Gives (m : Script Bytes) : Type 0 where
    pub gives : (l : Log) (s : Bytes) → (m g l).0 ≡ ok s → Origin g branch s

  Gives-bind :
      {A : Type 0} (m : Script A) (f : A → Script Bytes) → ((a : A) → Gives (f a)) → Gives (m >>= f)
  Gives-bind m f q = record {
    gives = λ l s h.
        let r = bind-ok m f g l s h in (q r.0).gives (m g l).1 s (sym (ap (λ x. x.0) r.2) ∙ h);
  }

  Gives-then :
      (m : Script Bytes) (f : Bytes → Script Bytes)
      → Gives m
      → ((s : Bytes) → Origin g branch s → Gives (f s))
      → Gives (m >>= f)
  Gives-then m f p q = record {
    gives = λ l s h.
        let r = bind-ok m f g l s h in
        (q r.0 (p.gives l r.0 r.1)).gives (m g l).1 s (sym (ap (λ x. x.0) r.2) ∙ h);
  }

  same_origin : (s t : Bytes) → Origin g branch s → ok s ≡ ok t → Origin g branch t
  same_origin s t o h = subst (Origin g branch) (ok_inj s t h) o

  Gives-return : (s : Bytes) → Origin g branch s → Gives (return s)
  Gives-return s o = record { gives = λ l t h. same_origin s t o h }

  Gives-if : (b : Bool) (m k : Script Bytes) → Gives m → Gives k → Gives (if b then m else k)
  Gives-if true m k p q = p
  Gives-if false m k p q = q

  run-Gives :
      (env args : List Bytes)
      → mem (first_word args) (codes "commit-tree" ∷ codes "rev-parse" ∷ []) ≡ true
      → Gives (run_git_command env args)
  unfolding run_git_command
  run-Gives env args w = record { gives = λ l s h. inr (inr (l, env, args, w, h)) }

  replay_commit-Gives :
      (name email tip commit_id : Bytes)
      → Origin g branch tip
      → Gives (replay_commit name email tip commit_id)
  unfolding replay_commit mem beq
  replay_commit-Gives n m t i o = Gives-bind (rev_parse ((t ++ codes "^{tree}") ∷ [])) _ λ tip_tree.
      Gives-bind (recover (rev_parse ((i ++ codes "^") ∷ [])) (λ e. return empty_tree_oid)) _
        λ merge_base.
          Gives-bind (recover (write_merge_tree t i merge_base) (cannot_rebase i)) _ λ tree_id.
            Gives-if (beq tree_id tip_tree) _ _ (Gives-return t o) (
              Gives-bind (copy_commit_author i) _ λ author.
                run-Gives (author.0 ++ committer n m) (commit_tree_args tree_id author.1 t) refl)

  replay-Gives :
      (name email tip : Bytes) (cs : List Bytes)
      → Origin g branch tip
      → Gives (replay name email tip cs)
  unfolding replay
  replay-Gives n m t [] o = Gives-return t o
  replay-Gives n m t (c ∷ cs) o =
      Gives-then (replay_commit n m t c) _ (replay_commit-Gives n m t c o)
        λ next p. replay-Gives n m next cs p

module _ (g : Git) (r : MergeRequest) where
  rebased-Gives : (b : Bool) → Gives g r.local_branch (rebased r b)
  unfolding rebased rebase_commits mem beq
  rebased-Gives true =
      run-Gives g r.local_branch [] (codes "rev-parse" ∷ provider_full_name r ∷ []) refl
  rebased-Gives false =
      Gives-bind g r.local_branch
        (run_git_command [] (
          codes "rev-list"
          ∷ codes "--reverse"
          ∷ codes "--no-merges"
          ∷ (r.local_branch ++ (codes ".." ++ provider_full_name r))
          ∷ []))
        _
        λ out.
          replay-Gives g r.local_branch r.name r.email r.local_branch (fields out) (inr (inl refl))

  pub merged_commit-Gives : Gives g r.local_branch (merged_commit r)
  unfolding merged_commit merge_commit squash_commit mem beq
  merged_commit-Gives =
      let b = r.local_branch in
      let tree = write_merge_tree b (provider_full_name r) [] in
      Gives-if g b (beq r.method merge_method_merge) _ _
        (Gives-bind g b tree _ λ t.
          run-Gives g b (commit_identity r.name r.email)
            (merge_commit_args t (codes "merge" ++ from_to r) b (provider_full_name r)) refl)
        (Gives-if g b (beq r.method merge_method_squash) _ _
          (Gives-bind g b tree _ λ t.
            run-Gives g b (commit_identity r.name r.email)
              (commit_tree_args t (message_or r r.message) b) refl)
          (Gives-if g b (beq r.method merge_method_rebase) _ _
            (Gives-bind g b (is_ancestor b (provider_full_name r)) _ rebased-Gives)
            (Gives-return g b [] (inl refl))))
