-- ===== src/Refs/Guarded.antt =====
-- References are created only where there is none, and deleted never under HEAD.
use gitus.Prelude.{
  ◌≡◌, ◌⊎◌, inl, inr, refl, Bytes, Bool, true, false, [], ◌∷◌, ◌++◌, codes, beq, has_prefix, some,
  trim_space, if◌then◌else◌, not, ℕ, ◌≢◌, ◌↔◌, Bool-cases, mem, is_empty,
}
use gitus.Git.{
  Command, Script, command, Git, Log, Result, run_git_command, Answer, is_output, answered, ok, err,
  succeeds,
}
use gitus.Git.Quiet.{
  Only, Only_bind, Only_return, Only_fail, run_git_command-Only, succeeds-Only, recover-Only, Adds,
  IsError, answered-cases, Adds-refl,
}
use gitus.Git.Quiet.{LeavesRefs}
use gitus.Refs.{
  Quoting, create_ref, ref_exists, refuse_if, delete_ref, delete_branch, head_branch, head_name,
  heads, invalid_name,
}

-- The commands of a reference that is made, written out: the first one's check, the search for a
-- reference of the name, the commit of the target, and the update, whose empty old value asks git for
-- there being no such reference.
abbrev pub checking : Bytes → Command
checking f = command [] (codes "check-ref-format" ∷ f ∷ [])

abbrev pub finding : Bytes → Command
finding f = command [] (codes "rev-parse" ∷ codes "--verify" ∷ codes "--quiet" ∷ f ∷ [])

abbrev pub resolving : Bytes → Command
resolving t =
    command []
      (codes "rev-parse" ∷ codes "--verify" ∷ codes "--quiet" ∷ (t ++ codes "^{commit}") ∷ [])

abbrev pub updating : Bytes → Bytes → Command
updating f commit_id = command [] (codes "update-ref" ∷ f ∷ commit_id ∷ [] ∷ [])

-- What creating a reference leaves of a result and a log. Either it fails and no reference is updated;
-- or the name has no dash in front and is one for git, git knows no reference of it and gives a commit
-- for the target, and the last command sets the reference to that commit if there still is none, and
-- decides on success.
pub record IsMade (g : Git) (f n t : Bytes) (l : Log) (x : Result (Unit {0}) × Log) : Type 0 where
  pub commit_id : Bytes
  pub is_commit : commit_id ≢ []
  pub no_dash : has_prefix n (codes "-") ≡ false
  pub valid : is_output (g l (checking f)) ≡ true
  pub absent : is_output (g (checking f ∷ l) (finding f)) ≡ false
  pub target :
      answered (resolving t).arguments (g (finding f ∷ checking f ∷ l) (resolving t)) ≡ ok commit_id
  pub log : x.1 ≡ updating f commit_id ∷ resolving t ∷ finding f ∷ checking f ∷ l
  pub succeeded :
      (x.0 ≡ ok tt)
      ↔ (is_output (g (resolving t ∷ finding f ∷ checking f ∷ l) (updating f commit_id)) ≡ true)

abbrev pub CreatesOnly : Git → Bytes → Bytes → Bytes → Log → Result (Unit {0}) × Log → Type 0
CreatesOnly g f n t l x = (Adds LeavesRefs l x.1 × IsError x.0) ⊎ IsMade g f n t l x

refuse_if-Only : (P : Command → Type 0) (b : Bool) (e : Bytes) → Only P (refuse_if b e)
refuse_if-Only P true e = Only_fail P e
refuse_if-Only P false e = Only_return P tt

append-nonempty : (s : Bytes) (c : ℕ) (t : Bytes) → is_empty (s ++ (c ∷ t)) ≡ false
append-nonempty [] c t = refl
append-nonempty (d ∷ s) c t = refl

invalid_name-nonempty : (q : Quoting) (n : Bytes) → is_empty (invalid_name q n) ≡ false
invalid_name-nonempty q n = append-nonempty (q n) _ _

module _ (q : Quoting) (f k n t : Bytes) (g : Git) (l : Log) where
  abbrev Made : Type 0
  Made = CreatesOnly g f n t l (create_ref q f k n t g l)

  module _ (x1 : Bytes) (h0 : has_prefix n (codes "-") ≡ false)
      (h1 : answered (checking f).arguments (g l (checking f)) ≡ ok x1)
      (v : is_output (g l (checking f)) ≡ true) where
    module _ (h2 : is_output (g (checking f ∷ l) (finding f)) ≡ false) where
      module _ (c : ℕ) (s : Bytes)
          (h3 : answered (resolving t).arguments (g (finding f ∷ checking f ∷ l) (resolving t))
            ≡ ok (c ∷ s)) where
        abbrev last_answer : Answer
        last_answer = g (resolving t ∷ finding f ∷ checking f ∷ l) (updating f (c ∷ s))

        abbrev last_result : Result Bytes
        last_result = answered (updating f (c ∷ s)).arguments last_answer

        made :
            {x : Result (Unit {0}) × Log}
            → x.1 ≡ updating f (c ∷ s) ∷ resolving t ∷ finding f ∷ checking f ∷ l
            → (x.0 ≡ ok tt) ↔ (is_output last_answer ≡ true)
            → CreatesOnly g f n t l x
        made p q = inr (record {
          commit_id = c ∷ s;
          is_commit = λ h. cc;
          no_dash = h0;
          valid = v;
          absent = h2;
          target = h3;
          log = p;
          succeeded = q;
        })

        made-updating : Made
        unfolding create_ref run_git_command succeeds
        made-updating = elim (answered-cases (updating f (c ∷ s)).arguments last_answer) [
          | inl (o, u, h4) ↦ rw (h0, h1, h2, h3, h4) (made refl (λ x. u, λ x. refl))
          | inr (e, u, h4) ↦ rw (h0, h1, h2, h3, h4) (made refl (λ x. cc, λ x. cc))
        ]

      made-resolving :
          (r : Result Bytes)
          → answered (resolving t).arguments (g (finding f ∷ checking f ∷ l) (resolving t)) ≡ r
          → Made
      unfolding create_ref run_git_command succeeds mem beq
      made-resolving (ok (c ∷ s)) h3 = made-updating c s h3
      made-resolving (ok []) h3 =
          rw (h0, h1, h2, h3)
            (inl (
              (resolving t ∷ finding f ∷ checking f ∷ [], refl, (refl, (refl, (refl, tt)))),
              (_, refl),
            ))
      made-resolving (err e) h3 =
          rw (h0, h1, h2, h3)
            (inl (
              (resolving t ∷ finding f ∷ checking f ∷ [], refl, (refl, (refl, (refl, tt)))),
              (_, refl),
            ))

    made-finding : (b : Bool) → is_output (g (checking f ∷ l) (finding f)) ≡ b → Made
    unfolding create_ref run_git_command succeeds mem beq
    made-finding true h2 =
        rw (h0, h1, h2) (inl ((finding f ∷ checking f ∷ [], refl, (refl, (refl, tt))), (_, refl)))
    made-finding false h2 = made-resolving h2 _ refl

  made-checking : has_prefix n (codes "-") ≡ false → Made
  unfolding create_ref run_git_command mem beq
  made-checking h0 = elim (answered-cases (checking f).arguments (g l (checking f))) [
    | inl (o, v, h1) ↦ made-finding o h0 h1 v _ refl
    | inr (e, v, h1) ↦
        rw (h0, h1, invalid_name-nonempty q n)
          (inl ((checking f ∷ [], refl, (refl, tt)), (_, refl)))
  ]

  -- Whatever git answers, creating a reference either fails and updates no reference, or the name has
  -- no dash in front and is valid for git, git has no reference of it, and the last command sets that
  -- reference to the commit that git gives for the target, under the condition that there still is
  -- none; creating it then succeeds exactly if that command does.
  pub create_ref-CreatesOnly : CreatesOnly g f n t l (create_ref q f k n t g l)
  unfolding create_ref
  create_ref-CreatesOnly = elim (Bool-cases (has_prefix n (codes "-"))) [
    | inl h ↦ rw (h, invalid_name-nonempty q n) (inl (Adds-refl LeavesRefs l, (_, refl)))
    | inr h ↦ made-checking h
  ]

-- A command that updates no reference, or deletes a branch that HEAD is not on.
abbrev pub DeletesBranch : Bytes → Bytes → Command → Type 0
DeletesBranch head name c =
    LeavesRefs c
    ⊎ ((c ≡ command [] (codes "update-ref" ∷ codes "-d" ∷ (codes "refs/heads/" ++ name) ∷ []))
        × (beq head name ≡ false))

delete_ref-DeletesBranch :
    (q : Quoting) (head name : Bytes)
    → beq head name ≡ false
    → Only (DeletesBranch head name) (delete_ref q (heads ++ name) (codes "branch") name)
unfolding delete_ref ref_exists beq mem
delete_ref-DeletesBranch q h n p =
    let P = DeletesBranch h n in
    Only_bind P _ _
      (succeeds-Only P (codes "rev-parse" ∷ codes "--verify" ∷ codes "--quiet" ∷ (heads ++ n) ∷ [])
        (inl refl))
      λ exists.
        Only_bind P _ _
          (refuse_if-Only P (not exists)
            (codes "branch" ++ (codes " " ++ (q n ++ codes " does not exist"))))
          λ x.
            recover-Only P _ _
              (Only_bind P _ _ (run_git_command-Only P _ _ (inr (refl, p))) λ y. Only_return P tt)
              λ e.
                Only_fail P
                  (codes "branch" ++ (codes " " ++ (q n ++ (codes " cannot be deleted: " ++ e))))

split-Only :
    {A : Type 0} (P : Command → Type 0) (b : Bool) (m k : Script A)
    → (b ≡ true → Only P m)
    → (b ≡ false → Only P k)
    → Only P (if b then m else k)
split-Only P true m k p q = p refl
split-Only P false m k p q = q refl

-- Whatever git answers, deleting a branch asks for no other update of a reference than the deletion
-- of that branch, and not for that when HEAD is on it.
pub delete_branch-DeletesBranch :
    (q : Quoting) (head_file name : Bytes)
    → Only
        (DeletesBranch (head_name (trim_space head_file)) name)
        (delete_branch q (some head_file) name)
unfolding delete_branch head_branch
delete_branch-DeletesBranch q s n =
    let head = head_name (trim_space s) in
    split-Only (DeletesBranch head n) (beq head n) _ _ (λ p. Only_fail (DeletesBranch head n) _)
      (delete_ref-DeletesBranch q head n)
