-- ===== src/Merge/Conflicts.antt =====
-- pkg/gitlib/merge.go: the check for conflicts ahead of a merge, and its reader of the output of
-- `git merge-tree -z`. An index out of range is a panic.
pub mod Output
use gitus.Prelude.{
  ℕ, Bool, Bytes, List, Option, [], codes, none, some, ◌∷◌, ◌++◌, true, false, zero, suc, Run, done,
  panics, no_fuel, ◌>>=◌, is_empty, if◌then◌else◌, length, leb, ltb, ◌==◌, ◌-◌,
}
use gitus.Prelude.{cut, split, trim_space, contains}
use gitus.Readers.{Int64, plus, minus, digits}
use gitus.Git.{Git, Log, Result, Script, Answer, output, failure, ok, err, is_output, command}

pub record ConflictedFileInfo : Type 0 where
  pub mode : Int64
  pub object_id : Bytes
  pub stage : Int64
  pub file_name : Bytes

pub record InformationalMessage : Type 0 where
  pub path : List Bytes
  pub type_name : Bytes
  pub message : Bytes

-- Without the names of the branches, which are copied from the arguments.
pub record MergeCheckResult : Type 0 where
  pub successful : Bool
  pub toplevel_tree_oid : Bytes
  pub file_info : List ConflictedFileInfo
  pub messages : List InformationalMessage

-- strconv.Atoi with its error dropped: 0 for a text that is no number, the bound for one that is out
-- of range.
abbrev pub clamped : (ℕ → Int64) → ℕ → Option ℕ → Int64
clamped f bound none = plus 0
clamped f bound (some n) = f (if leb n bound then n else bound)

unfoldable pub atoi : Bytes → Int64
atoi [] = plus 0
atoi (c ∷ s) =
    if c == b'-'
    then clamped minus 9223372036854775808 (digits s)
    else if c == b'+'
    then clamped plus 9223372036854775807 (digits s)
    else clamped plus 9223372036854775807 (digits (c ∷ s))

-- `ss[1]`
abbrev pub second : Option Bytes → Run Bytes
second none = panics
second (some s) = done s

-- `ss = strings.SplitN(subj, "\x00", 2); subj = ss[1]`: ss[0] and the rest.
unfoldable pub field : Bytes → Run (Bytes × Bytes)
unfolding cut
field subj = let r = cut 0 subj in second r.1 >>= λ rest. done (r.0, rest)

-- `mode object stage` and the name.
abbrev pub file_of : Bytes → List Bytes → Bytes × List Bytes → Run ConflictedFileInfo
unfolding atoi
file_of mode (oid ∷ stage ∷ more) (before, name ∷ names) =
    done (record { mode = atoi mode; object_id = oid; stage = atoi stage; file_name = name })
file_of mode pieces names = panics

abbrev pub file_from : Bytes → Run ConflictedFileInfo
unfolding file_of split
file_from s = let t = split 9 s in let m = split 32 t.0 in file_of m.0 m.1 t

-- The loop over the conflicted files, up to an empty text: the files and the rest.
abbrev pub files_next :
    (Bytes → Run (List ConflictedFileInfo × Bytes))
    → Bytes × Bytes
    → Run (List ConflictedFileInfo × Bytes)
unfolding file_from
files_next more ([], rest) = done ([], rest)
files_next more (c ∷ s, rest) = do f ← file_from (c ∷ s); r ← more rest; done (f ∷ r.0, r.1)

unfoldable pub read_files : ℕ → Bytes → Run (List ConflictedFileInfo × Bytes)
unfolding field files_next
read_files zero subj = no_fuel
read_files (suc fuel) subj = field subj >>= files_next (read_files fuel)

-- `for range pathnum`, which a negative number does not enter.
abbrev pub count_of : Int64 → ℕ
count_of (plus n) = n
count_of (minus n) = 0

unfoldable pub read_paths : ℕ → Bytes → Run (List Bytes × Bytes)
unfolding field
read_paths zero subj = done ([], subj)
read_paths (suc n) subj = do p ← field subj; r ← read_paths n p.1; done (p.0 ∷ r.0, r.1)

unfoldable pub read_message : Bytes → Run (InformationalMessage × Bytes)
unfolding field read_paths atoi
read_message subj = do
  n ← field subj
  p ← read_paths (count_of (atoi n.0)) n.1
  t ← field p.1
  m ← field t.1
  done (record { path = p.0; type_name = t.0; message = m.0 }, m.1)

unfoldable pub read_messages : ℕ → Bytes → Run (List InformationalMessage)
unfolding read_message
read_messages fuel [] = done []
read_messages zero (c ∷ s) = no_fuel
read_messages (suc fuel) (c ∷ s) = do
  m ← read_message (c ∷ s)
  ms ← read_messages fuel m.1
  done (m.0 ∷ ms)

abbrev pub conflicts_from : Bytes → Bytes → Run MergeCheckResult
unfolding read_files read_messages
conflicts_from oid [] =
    done (record { successful = true; toplevel_tree_oid = oid; file_info = []; messages = [] })
conflicts_from oid (c ∷ s) = do
  f ← read_files (suc (length (c ∷ s))) (c ∷ s)
  m ← read_messages (length f.1) f.1
  done (record { successful = false; toplevel_tree_oid = oid; file_info = f.0; messages = m })

-- Each round of a loop reads a byte at least, so the length of the text is fuel enough.
unfoldable pub parse_merge_check_z_result : Bytes → Run MergeCheckResult
unfolding field conflicts_from
parse_merge_check_z_result s = field s >>= λ r. conflicts_from r.0 r.1

abbrev pub stdout_of : Answer → Bytes
stdout_of (output s) = s
stdout_of (failure text stdout stderr) = stdout

abbrev pub with_status : Bool → MergeCheckResult → MergeCheckResult
with_status b r = record r { successful = b }

abbrev pub checked : Answer → Run MergeCheckResult
unfolding parse_merge_check_z_result trim_space
checked a = parse_merge_check_z_result (trim_space (stdout_of a)) >>= λ r.
    done (with_status (is_output a) r)

abbrev pub fetch_for_check : Bytes → Bytes → List Bytes
fetch_for_check remote branch = codes "fetch" ∷ remote ∷ branch ∷ []

abbrev pub merge_tree_z : Bytes → Bytes → Bytes → List Bytes
merge_tree_z local_branch remote branch =
    codes "merge-tree" ∷ codes "-z" ∷ local_branch ∷ (remote ++ (codes "/" ++ branch)) ∷ []

-- After the fetch: an error, or the check.
abbrev pub conflict_check :
    Bytes → Bytes → Bytes → Answer → Git → Log → Result (Run MergeCheckResult) × Log
unfolding checked
conflict_check local_branch remote branch (failure text stdout stderr) g l =
    (err (text ++ (codes ": " ++ stderr)), l)
conflict_check local_branch remote branch (output s) g l =
    let c = command [] (merge_tree_z local_branch remote branch) in (ok (checked (g l c)), c ∷ l)

unfoldable pub check_branch_merge_conflict : Bytes → Bytes → Bytes → Script (Run MergeCheckResult)
unfolding conflict_check
check_branch_merge_conflict local_branch remote branch = λ g l.
    let c = command [] (fetch_for_check remote branch) in
    conflict_check local_branch remote branch (g l c) g (c ∷ l)

abbrev pub target_added : Answer → Result (Unit {0})
unfolding contains
target_added (output s) = ok tt
target_added (failure text stdout stderr) =
    if contains stderr (codes "already exists") then ok tt else err text

unfoldable pub set_up_merge_target : Bytes → Bytes → Script (Unit {0})
unfolding target_added
set_up_merge_target provider_name provider_path = λ g l.
    let c = command [] (codes "remote" ∷ codes "add" ∷ provider_name ∷ provider_path ∷ []) in
    (target_added (g l c), c ∷ l)
