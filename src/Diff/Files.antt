-- ===== src/Diff/Files.antt =====
-- A diff of several files is read back.
use gitus.Prelude.{
  ℕ, Bytes, List, [], ◌∷◌, ◌++◌, ◌≡◌, refl, arith, done, All, length, none, some, map, append_assoc,
  ap, ◌∙◌, trim_space, ◌+◌, ◌<◌, ◌==◌, ◌≤◌, false, length-append, suc, ◌>>=◌, zero,
}
use gitus.Diff.{
  lines_from, read_header, read_items, parse_lines, parse_git_diff, parse_git_diff_header_item,
  DiffItemHeaderItem, DiffItem, diff_of, line_match, file_match, old_file, new_file, parsed,
}
use gitus.Diff.Sections.{
  Hunk, IsHunk, hunk_lines, patch_of_hunk, Ahead, NoMark, read_patches-hunk_lines, marked_line,
}
use gitus.Diff.Patterns.{line_match, file_match, old_file, new_file}

-- A line of the header, and what it is read as.
pub record HeaderLine : Type 0 where
  pub text : Bytes
  pub item : DiffItemHeaderItem

pub record Section : Type 0 where
  pub first : Bytes
  pub header : List HeaderLine
  pub line1 : Bytes
  pub file1 : Bytes
  pub line2 : Bytes
  pub file2 : Bytes
  pub hunks : List Hunk

abbrev pub IsRead : HeaderLine → Type 0
IsRead h = parse_git_diff_header_item h.text ≡ some h.item

pub record IsSection (s : Section) : Type 0 where
  pub no_mark : NoMark s.first
  pub no_patch : line_match s.first ≡ none
  pub header_read : All IsRead s.header
  pub no_header : parse_git_diff_header_item s.line1 ≡ none
  pub file1_read : file_match old_file s.line1 ≡ some s.file1
  pub file2_read : file_match new_file s.line2 ≡ some s.file2
  pub hunks_read : All IsHunk s.hunks

abbrev pub texts : List HeaderLine → List Bytes
texts hs = map (λ h. h.text) hs

abbrev pub section_lines : Section → List Bytes → List Bytes
section_lines s rest = s.first ∷ (texts s.header ++ (s.line1 ∷ s.line2 ∷ hunk_lines s.hunks rest))

abbrev pub file_lines : List Section → List Bytes
file_lines [] = []
file_lines (s ∷ ss) = section_lines s (file_lines ss)

abbrev pub item_of_section : Section → DiffItem
item_of_section s = record {
  file1 = s.file1;
  file2 = s.file2;
  header = map (λ h. h.item) s.header;
  patch_list = map patch_of_hunk s.hunks;
}

read_header-texts :
    (hs : List HeaderLine) (l : Bytes) (ls : List Bytes)
    → All IsRead hs
    → parse_git_diff_header_item l ≡ none
    → read_header (texts hs ++ (l ∷ ls)) ≡ (map (λ h. h.item) hs, l ∷ ls)
unfolding read_header
read_header-texts [] l ls a n = rw n refl
read_header-texts (h ∷ hs) l ls a n = rw (a.0, read_header-texts hs l ls a.1 n) refl

file_lines-Ahead : (ss : List Section) → All IsSection ss → Ahead (file_lines ss)
file_lines-Ahead [] a = tt
file_lines-Ahead (s ∷ ss) a = (a.0.no_mark, a.0.no_patch)

read_items-file_lines :
    (k n : ℕ) (ss : List Section)
    → length ss < k
    → All (λ s. length s.hunks < n) ss
    → All IsSection ss
    → read_items k n (file_lines ss) ≡ done (some (map item_of_section ss))
unfolding read_items
read_items-file_lines zero n ss h b a = absurd (omega arith)
read_items-file_lines (suc k) n [] h b a = refl
read_items-file_lines (suc k) n (s ∷ ss) h b a =
    rw
      (
        read_header-texts s.header s.line1 (s.line2 ∷ hunk_lines s.hunks (file_lines ss))
            a.0.header_read a.0.no_header,
        a.0.file1_read,
        a.0.file2_read,
        read_patches-hunk_lines n s.hunks (file_lines ss) b.0 a.0.hunks_read
            (file_lines-Ahead ss a.1),
        read_items-file_lines k n ss (omega arith) b.1 a.1,
      )
      refl

-- The bounds on the loops.
length-hunk_lines :
    (hs : List Hunk) (rest : List Bytes) → length hs + length rest ≤ length (hunk_lines hs rest)
length-hunk_lines [] rest = omega arith
length-hunk_lines (h ∷ hs) rest =
    omega (
      arith,
      length-hunk_lines hs rest,
      length-append (map marked_line h.body) (hunk_lines hs rest),
    )

length-section_lines :
    (s : Section) (rest : List Bytes) → length s.hunks + length rest < length (section_lines s rest)
length-section_lines s rest = omega (
  arith,
  length-hunk_lines s.hunks rest,
  length-append (texts s.header) (s.line1 ∷ s.line2 ∷ hunk_lines s.hunks rest),
)

length-file_lines : (ss : List Section) → length ss ≤ length (file_lines ss)
length-file_lines [] = omega arith
length-file_lines (s ∷ ss) =
    omega (arith, length-file_lines ss, length-section_lines s (file_lines ss))

hunks-file_lines :
    (n : ℕ) (ss : List Section) → length (file_lines ss) < n → All (λ s. length s.hunks < n) ss
hunks-file_lines n [] h = tt
hunks-file_lines n (s ∷ ss) h = (
  omega (arith, length-section_lines s (file_lines ss)),
  hunks-file_lines n ss (omega (arith, length-section_lines s (file_lines ss))),
)

-- A line with its line feed at the end and nowhere else.
abbrev pub EndsLine : Bytes → Type 0
EndsLine [] = ⊥
EndsLine (c ∷ []) = c ≡ 10
EndsLine (c ∷ d ∷ s) = ((c == 10) ≡ false) × EndsLine (d ∷ s)

abbrev pub text_of : List Bytes → Bytes
text_of [] = []
text_of (l ∷ ls) = l ++ text_of ls

lines_from-line :
    (line l rest : Bytes)
    → EndsLine l
    → lines_from line (l ++ rest) ≡ (line ++ l) ∷ lines_from [] rest
unfolding lines_from
lines_from-line line [] rest h = absurd h
lines_from-line line (c ∷ []) rest h = rw h refl
lines_from-line line (c ∷ d ∷ s) rest h = rw h.0 (
    lines_from-line (line ++ (c ∷ [])) (d ∷ s) rest h.1
    ∙ ap (λ x. x ∷ lines_from [] rest) (append_assoc line (c ∷ []) (d ∷ s)))

lines_from-text_of : (ls : List Bytes) → All EndsLine ls → lines_from [] (text_of ls) ≡ ls
unfolding lines_from
lines_from-text_of [] a = refl
lines_from-text_of (l ∷ ls) a =
    lines_from-line [] l (text_of ls) a.0 ∙ ap (◌∷◌ l) (lines_from-text_of ls a.1)

-- A text of a commit's line and the sections of files is read as the commit and one item for each
-- section in order, with its two names, its header and its patches, whose lines are numbered from the
-- starts that the patch's header gives: a line that both files have counts in both, an added line in
-- the second and a deleted one in the first, and `\ No newline` in neither. Each line ends with its
-- only line feed, and the section's lines are ones that the patterns of the code recognise.
pub parse_git_diff-text_of :
    (commit : Bytes) (ss : List Section)
    → All EndsLine (commit ∷ file_lines ss)
    → All IsSection ss
    → parse_git_diff (text_of (commit ∷ file_lines ss))
      ≡ done
          (diff_of (record { commit_hash = trim_space commit; item_list = map item_of_section ss }))
unfolding parse_git_diff parse_lines
parse_git_diff-text_of commit ss e a =
    let n = suc (length (file_lines ss)) in
    ap parse_lines (lines_from-text_of (commit ∷ file_lines ss) e)
    ∙ ap (λ r. r >>= (λ is. done (parsed commit is)))
        (read_items-file_lines n n ss (omega (arith, length-file_lines ss))
          (hunks-file_lines n ss (omega arith)) a)
