-- ===== src/Refs.antt =====
-- pkg/gitlib/refs.go: creating and deleting branches and tags. The file HEAD is a parameter, `none`
-- when it cannot be read.
pub mod Guarded
mod Tests
use gitus.Prelude.{
  Bool, Bytes, Option, [], codes, none, some, ◌∷◌, ◌++◌, true, false, if◌then◌else◌, is_empty, not,
  drop, length, List,
}
use gitus.Prelude.{beq, has_prefix, trim_space}
use gitus.Git.{
  Script, Git, Log, Result, ok, err, run_git_command, succeeds, return, fail, recover, ◌>>=◌, ◌>>◌,
}

-- The bytes of the message that Go's `%q` gives for a name.
abbrev pub Quoting : Type 0
Quoting = Bytes → Bytes

abbrev pub heads : Bytes
heads = codes "refs/heads/"

abbrev pub tags : Bytes
tags = codes "refs/tags/"

-- strings.TrimPrefix, for a text that has the prefix.
abbrev pub head_name : Bytes → Bytes
unfolding has_prefix
head_name s =
    if has_prefix s (codes "ref: refs/heads/")
    then drop (length (codes "ref: refs/heads/")) s
    else []

-- The branch that HEAD points at; a detached HEAD is on no branch.
unfoldable pub head_branch : Option Bytes → Script Bytes
unfolding trim_space
head_branch none = fail (codes "HEAD cannot be read")
head_branch (some s) = return (head_name (trim_space s))

abbrev pub invalid_name : Quoting → Bytes → Bytes
invalid_name q name = q name ++ codes " is not a valid name"

-- What is wrong with a name; empty when it can be used.
unfoldable pub ref_name_problem : Quoting → Bytes → Bytes → Script Bytes
unfolding has_prefix
ref_name_problem q full_name name =
    if has_prefix name (codes "-")
    then return (invalid_name q name)
    else recover (run_git_command [] (codes "check-ref-format" ∷ full_name ∷ []) >> return [])
        λ e. return (invalid_name q name)

unfoldable pub ref_exists : Bytes → Script Bool
unfolding succeeds
ref_exists ref = succeeds (codes "rev-parse" ∷ codes "--verify" ∷ codes "--quiet" ∷ ref ∷ [])

abbrev pub refuse_if : Bool → Bytes → Script (Unit {0})
refuse_if true e = fail e
refuse_if false e = return tt

abbrev pub new_ref_args : Bytes → Bytes → List Bytes
new_ref_args full_name commit_id = codes "update-ref" ∷ full_name ∷ commit_id ∷ [] ∷ []

abbrev pub cannot_create : Quoting → Bytes → Bytes → Bytes → Bytes
cannot_create q kind name why =
    kind ++ (codes " " ++ (q name ++ (codes " cannot be created: " ++ why)))

-- `rev-parse --verify`, whose failure and whose empty output are the same here.
abbrev pub commit_of : Bytes → Script Bytes
commit_of target =
    recover
      (run_git_command [] (
        codes "rev-parse"
        ∷ codes "--verify"
        ∷ codes "--quiet"
        ∷ (target ++ codes "^{commit}")
        ∷ []))
      λ e. return []

abbrev pub point_new_ref : Quoting → Bytes → Bytes → Bytes → Bytes → Bytes → Script (Unit {0})
point_new_ref q full_name kind name target [] =
    fail (cannot_create q kind name (q target ++ codes " does not resolve to a commit"))
point_new_ref q full_name kind name target (c ∷ s) =
    recover (run_git_command [] (new_ref_args full_name (c ∷ s)) >> return tt)
      λ e. fail (cannot_create q kind name e)

unfoldable pub create_ref : Quoting → Bytes → Bytes → Bytes → Bytes → Script (Unit {0})
unfolding ref_name_problem ref_exists
create_ref q full_name kind name target = do
  problem ← ref_name_problem q full_name name
  refuse_if (not (is_empty problem)) (kind ++ (codes " " ++ problem))
  exists ← ref_exists full_name
  refuse_if exists (kind ++ (codes " " ++ (q name ++ codes " already exists")))
  commit_id ← commit_of target
  point_new_ref q full_name kind name target commit_id

abbrev pub delete_ref_args : Bytes → List Bytes
delete_ref_args full_name = codes "update-ref" ∷ codes "-d" ∷ full_name ∷ []

unfoldable pub delete_ref : Quoting → Bytes → Bytes → Bytes → Script (Unit {0})
unfolding ref_exists
delete_ref q full_name kind name = do
  exists ← ref_exists full_name
  refuse_if (not exists) (kind ++ (codes " " ++ (q name ++ codes " does not exist")))
  recover (run_git_command [] (delete_ref_args full_name) >> return tt)
      λ e. fail (kind ++ (codes " " ++ (q name ++ (codes " cannot be deleted: " ++ e))))

unfoldable pub create_branch : Quoting → Bytes → Bytes → Script (Unit {0})
unfolding create_ref
create_branch q name target = create_ref q (heads ++ name) (codes "branch") name target

unfoldable pub delete_branch : Quoting → Option Bytes → Bytes → Script (Unit {0})
unfolding head_branch delete_ref beq
delete_branch q head_file name = do
  head ← head_branch head_file
  if beq head name
      then fail (
          codes "branch "
          ++ (q name ++ codes " is the branch HEAD points at and cannot be deleted"))
      else delete_ref q (heads ++ name) (codes "branch") name

unfoldable pub create_tag : Quoting → Bytes → Bytes → Script (Unit {0})
unfolding create_ref
create_tag q name target = create_ref q (tags ++ name) (codes "tag") name target

unfoldable pub delete_tag : Quoting → Bytes → Script (Unit {0})
unfolding delete_ref
delete_tag q name = delete_ref q (tags ++ name) (codes "tag") name

unfoldable pub resolve_remote_branch_tip : Bytes → Bytes → Script Bytes
resolve_remote_branch_tip remote_name branch = run_git_command [] (
    codes "rev-parse"
    ∷ codes "--verify"
    ∷ (codes "refs/remotes/" ++ (remote_name ++ (codes "/" ++ branch)))
    ∷ [])
