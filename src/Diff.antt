-- ===== src/Diff.antt =====
-- pkg/gitlib/diff.go and the line reader of pkg/gitlib/linereader.go: the reader of git's diffs.
pub mod Patterns
pub mod Sections
pub mod Files
pub mod Headers
pub mod Total
mod Tests
use gitus.Prelude.{
  ℕ, Bool, Bytes, List, [], ◌∷◌, ◌++◌, Option, none, some, true, false, if◌then◌else◌, Run, done,
  panics, no_fuel, codes, zero, suc, beq, contains, length, trim_space, ◌+◌, ◌==◌, ◌>>=◌, not, ◌%◌,
  ◌&&◌,
}
use gitus.Diff.Patterns.{
  header_match, HeaderMatch, keyword_match, index_match, file_match, LineHeader, line_match,
  old_file, new_file,
}

abbrev pub diff_index : ℕ
diff_index = 11

abbrev pub append_line : ℕ
append_line = 1

abbrev pub delete_line : ℕ
delete_line = 2

abbrev pub same_line : ℕ
same_line = 4

pub record AnnotatedLine : Type 0 where
  pub type : ℕ
  pub f1_line_num : ℕ
  pub f2_line_num : ℕ
  pub line : Bytes

pub record DiffItemHeaderItem : Type 0 where
  pub type : ℕ
  pub args : List Bytes

pub record DiffItemPatch : Type 0 where
  pub l_start : ℕ
  pub l_line_count : ℕ
  pub r_start : ℕ
  pub r_line_count : ℕ
  pub context_line : Bytes
  pub line_list : List AnnotatedLine

pub record DiffItem : Type 0 where
  pub file1 : Bytes
  pub file2 : Bytes
  pub header : List DiffItemHeaderItem
  pub patch_list : List DiffItemPatch

pub record Diff : Type 0 where
  pub commit_hash : Bytes
  pub item_list : List DiffItem

-- The first group of the pattern is the keyword with its value, which none of the ten cases names.
abbrev pub command_type : Bytes → ℕ
unfolding beq
command_type s =
    if beq s (codes "old mode")
    then 1
    else if beq s (codes "new mode")
    then 2
    else if beq s (codes "deleted file mode")
    then 3
    else if beq s (codes "new file mode")
    then 4
    else if beq s (codes "copy from")
    then 5
    else if beq s (codes "copy to")
    then 6
    else if beq s (codes "rename from")
    then 7
    else if beq s (codes "rename to")
    then 8
    else if beq s (codes "similarity index")
    then 9
    else if beq s (codes "dissimilarity index")
    then 10
    else 0

-- `matchres[2:3]` is the second group, and `matchres[3:]` the third to the sixth.
abbrev pub header_item : HeaderMatch → DiffItemHeaderItem
unfolding command_type
header_item (keyword_match keyword value) = record {
  type = command_type (keyword ++ (b' ' ∷ value));
  args = keyword ∷ [];
}
header_item (index_match a b) = record { type = diff_index; args = [] ∷ a ∷ b ∷ [] ∷ [] }

abbrev pub item_of_match : Option HeaderMatch → Option DiffItemHeaderItem
unfolding header_item
item_of_match none = none
item_of_match (some m) = some (header_item m)

unfoldable pub parse_git_diff_header_item : Bytes → Option DiffItemHeaderItem
unfolding item_of_match header_match
parse_git_diff_header_item s = item_of_match (header_match s)

-- The lines of a text, each with its line feed. What follows the last line feed comes with the error
-- at the end of the file, and is dropped by all who read it.
unfoldable pub lines_from : Bytes → Bytes → List Bytes
lines_from line [] = []
lines_from line (c ∷ s) =
    let next = (line ++ (c ∷ [])) ∷ lines_from [] s in
    let more = lines_from (line ++ (c ∷ [])) s in if c == 10 then next else more

-- The reader is the list of the lines to come; to unread a line is to put it in front.
abbrev pub header_rest :
    List Bytes
    → Bytes
    → List DiffItemHeaderItem × List Bytes
    → Option DiffItemHeaderItem
    → List DiffItemHeaderItem × List Bytes
header_rest ls l r none = ([], l ∷ ls)
header_rest ls l r (some i) = (i ∷ r.0, r.1)

unfoldable pub read_header : List Bytes → List DiffItemHeaderItem × List Bytes
unfolding parse_git_diff_header_item
read_header [] = ([], [])
read_header (l ∷ ls) = let r = read_header ls in header_rest ls l r (parse_git_diff_header_item l)

-- An int64 counter, by its 64 bits.
abbrev pub next_line : ℕ → ℕ
next_line n = (n + 1) % 18446744073709551616

abbrev pub Body : Type 0
Body = List AnnotatedLine × List Bytes

abbrev pub add_line : AnnotatedLine → Run Body → Run Body
add_line a r = r >>= (λ b. done (a ∷ b.0, b.1))

abbrev pub annotated : ℕ → ℕ → ℕ → Bytes → AnnotatedLine
annotated t f1 f2 content = record { type = t; f1_line_num = f1; f2_line_num = f2; line = content }

-- The lines of one patch, from the numbers of the next lines of the two files.
unfoldable pub read_patch_lines : ℕ → ℕ → List Bytes → Run Body
read_patch_lines f1 f2 [] = done ([], [])
read_patch_lines f1 f2 ([] ∷ ls) = panics
read_patch_lines f1 f2 ((c ∷ content) ∷ ls) =
    let skipped = read_patch_lines f1 f2 ls in
    let same =
      add_line (annotated same_line f1 f2 content)
        (read_patch_lines (next_line f1) (next_line f2) ls) in
    let added =
      add_line (annotated append_line f1 f2 content) (read_patch_lines f1 (next_line f2) ls) in
    let deleted =
      add_line (annotated delete_line f1 f2 content) (read_patch_lines (next_line f1) f2 ls) in
    if c == b'\\'
    then skipped
    else if not (c == b' ') && not (c == b'-') && not (c == b'+')
    then done ([], (c ∷ content) ∷ ls)
    else if c == b' '
    then same
    else if c == b'+'
    then added
    else deleted

abbrev pub patch_of : LineHeader → List AnnotatedLine → DiffItemPatch
patch_of h lines = record {
  l_start = h.l_start;
  l_line_count = h.l_line_count;
  r_start = h.r_start;
  r_line_count = h.r_line_count;
  context_line = h.context_line;
  line_list = lines;
}

abbrev pub Patches : Type 0
Patches = List DiffItemPatch × List Bytes

-- The next patch, when the line is its header.
abbrev pub patches_from :
    (List Bytes → Run Patches) → Bytes → List Bytes → Option LineHeader → Run Patches
unfolding read_patch_lines
patches_from more l ls none = done ([], l ∷ ls)
patches_from more l ls (some h) =
    read_patch_lines h.l_start h.r_start ls
    >>= (λ b. more b.1 >>= (λ r. done (patch_of h b.0 ∷ r.0, r.1)))

unfoldable pub read_patches : ℕ → List Bytes → Run Patches
unfolding patches_from line_match
read_patches zero ls = no_fuel
read_patches (suc n) [] = done ([], [])
read_patches (suc n) (l ∷ ls) = patches_from (read_patches n) l ls (line_match l)

-- `none` is ErrInvalidFormat.
abbrev pub Items : Type 0
Items = Run (Option (List DiffItem))

abbrev pub item_added : DiffItem → Option (List DiffItem) → Option (List DiffItem)
item_added i none = none
item_added i (some is) = some (i ∷ is)

abbrev pub with_file2 :
    (List Bytes → Items) → ℕ → List DiffItemHeaderItem → Bytes → List Bytes → Option Bytes → Items
unfolding read_patches
with_file2 more n header file1 ls none = done none
with_file2 more n header file1 ls (some file2) = read_patches n ls >>= (λ p. more p.1 >>= (λ is.
    done
      (item_added (record { file1 = file1; file2 = file2; header = header; patch_list = p.0 }) is)))

-- The end of the text in front of a file's name ends the loop, without the file.
abbrev pub with_file1 :
    (List Bytes → Items) → ℕ → List DiffItemHeaderItem → List Bytes → Option Bytes → Items
unfolding with_file2 file_match
with_file1 more n header ls none = done none
with_file1 more n header [] (some file1) = done (some [])
with_file1 more n header (l ∷ ls) (some file1) =
    with_file2 more n header file1 ls (file_match new_file l)

abbrev pub with_header : (List Bytes → Items) → ℕ → List DiffItemHeaderItem × List Bytes → Items
unfolding with_file1 file_match
with_header more n (header, []) = done (some [])
with_header more n (header, l ∷ ls) = with_file1 more n header ls (file_match old_file l)

-- The files, each behind its `diff --git` line. The second bound is that of the patches of a file.
unfoldable pub read_items : ℕ → ℕ → List Bytes → Items
unfolding with_header read_header
read_items zero n ls = no_fuel
read_items (suc k) n [] = done (some [])
read_items (suc k) n (l ∷ ls) = with_header (read_items k n) n (read_header ls)

pub data Parsed : Type 0 where
  -- there is no line at all
  end_of_file : Parsed
  invalid_format : Parsed
  diff_of : Diff → Parsed

abbrev pub parsed : Bytes → Option (List DiffItem) → Parsed
unfolding trim_space
parsed l none = invalid_format
parsed l (some is) = diff_of (record { commit_hash = trim_space l; item_list = is })

abbrev pub parse_lines : List Bytes → Run Parsed
unfolding read_items parsed
parse_lines [] = done end_of_file
parse_lines (l ∷ ls) = let n = suc (length ls) in read_items n n ls >>= (λ is. done (parsed l is))

unfoldable pub parse_git_diff : Bytes → Run Parsed
unfolding lines_from parse_lines
parse_git_diff s = parse_lines (lines_from [] s)

-- What git diff-tree did: its output, or that it failed with a text of errors.
pub data DiffTree : Type 0 where
  diff_output : Bytes → DiffTree
  diff_failure : Bytes → DiffTree

pub data DiffAnswer : Type 0 where
  dubious_ownership : DiffAnswer
  git_error : DiffAnswer
  -- the error of the parser is dropped, so the diff may be nil
  answered : Option Diff → DiffAnswer

abbrev pub diff_or_nil : Parsed → DiffAnswer
diff_or_nil (diff_of d) = answered (some d)
diff_or_nil end_of_file = answered none
diff_or_nil invalid_format = answered none

unfoldable pub get_diff : DiffTree → Run DiffAnswer
unfolding parse_git_diff contains
get_diff (diff_failure e) =
    done (if contains e (codes "dubious ownership") then dubious_ownership else git_error)
get_diff (diff_output s) = parse_git_diff s >>= (λ p. done (diff_or_nil p))
