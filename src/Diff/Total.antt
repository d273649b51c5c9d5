-- ===== src/Diff/Total.antt =====
-- The reader of diffs ends.
use gitus.Prelude.{
  ℕ, Bytes, List, [], ◌∷◌, ◌++◌, ◌≡◌, refl, arith, Run, done, All, length, Option, none, some,
  Bool-cases, ◌<◌, ◌≤◌, Option-cases, suc, ◌==◌, inl, zero, inr, not, ◌&&◌,
}
use gitus.Diff.{
  lines_from, read_header, read_patch_lines, read_patches, read_items, parse_lines, parse_git_diff,
  DiffItemHeaderItem, DiffItem, Parsed, AnnotatedLine, Body, Items, with_file1, with_file2,
  with_header, add_line, file_match, item_added, line_match, parse_git_diff_header_item, new_file,
  old_file, patch_of, annotated, same_line, next_line, append_line, delete_line, end_of_file,
  parsed,
}
use gitus.Diff.Patterns.{file_match, line_match, new_file, old_file}

abbrev pub IsLine : Bytes → Type 0
IsLine [] = ⊥
IsLine (c ∷ s) = Unit

append-IsLine : (s : Bytes) (c : ℕ) → IsLine (s ++ (c ∷ []))
append-IsLine [] c = tt
append-IsLine (b ∷ s) c = tt

lines_from-IsLine : (line s : Bytes) → All IsLine (lines_from line s)
unfolding lines_from
lines_from-IsLine line [] = tt
lines_from-IsLine line (c ∷ s) = elim (Bool-cases (c == 10)) [
  | inl h ↦ rw h (append-IsLine line c, lines_from-IsLine [] s)
  | inr h ↦ rw h (lines_from-IsLine (line ++ (c ∷ [])) s)
]

-- A reader gives a result, and leaves at most so many lines.
abbrev Reads {ℓ} : {A : Type ℓ} → ℕ → Run (A × List Bytes) → Type ℓ
Reads {A = A} n m = (r : A × List Bytes) × (m ≡ done r) × (length r.1 ≤ n) × All IsLine r.1

add_line-Reads :
    (n : ℕ) (a : AnnotatedLine) (m : Run Body) → Reads n m → Reads (suc n) (add_line a m)
add_line-Reads n a m r = ((a ∷ r.0.0, r.0.1), rw r.1 refl, omega arith, r.3)

later : (n : ℕ) (m : Run Body) → Reads n m → Reads (suc n) m
later n m r = (r.0, r.1, omega arith, r.3)

read_patch_lines-Reads :
    (f1 f2 : ℕ) (ls : List Bytes) → All IsLine ls → Reads (length ls) (read_patch_lines f1 f2 ls)
unfolding read_patch_lines
read_patch_lines-Reads f1 f2 [] a = (([], []), refl, omega arith, tt)
read_patch_lines-Reads f1 f2 ([] ∷ ls) a = absurd a.0
read_patch_lines-Reads f1 f2 ((c ∷ s) ∷ ls) a = elim (Bool-cases (c == b'\\')) [
  | inl h ↦
      rw h (later (length ls) (read_patch_lines f1 f2 ls) (read_patch_lines-Reads f1 f2 ls a.1))
  | inr h ↦ elim (Bool-cases (not (c == b' ') && not (c == b'-') && not (c == b'+'))) [
    | inl k ↦ rw (h, k) (([], (c ∷ s) ∷ ls), refl, omega arith, a)
    | inr k ↦ elim (Bool-cases (c == b' ')) [
      | inl e ↦
          rw (h, k, e)
            (add_line-Reads (length ls) (annotated same_line f1 f2 s)
              (read_patch_lines (next_line f1) (next_line f2) ls)
              (read_patch_lines-Reads (next_line f1) (next_line f2) ls a.1))
      | inr e ↦ elim (Bool-cases (c == b'+')) [
        | inl p ↦
            rw (h, k, e, p)
              (add_line-Reads (length ls) (annotated append_line f1 f2 s)
                (read_patch_lines f1 (next_line f2) ls)
                (read_patch_lines-Reads f1 (next_line f2) ls a.1))
        | inr p ↦
            rw (h, k, e, p)
              (add_line-Reads (length ls) (annotated delete_line f1 f2 s)
                (read_patch_lines (next_line f1) f2 ls)
                (read_patch_lines-Reads (next_line f1) f2 ls a.1))
      ]
    ]
  ]
]

read_patches-Reads :
    (n : ℕ) (ls : List Bytes)
    → length ls < n
    → All IsLine ls
    → Reads (length ls) (read_patches n ls)
unfolding read_patches
read_patches-Reads zero ls h a = absurd (omega arith)
read_patches-Reads (suc n) [] h a = (([], []), refl, omega arith, tt)
read_patches-Reads (suc n) (l ∷ ls) h a = elim (Option-cases (line_match l)) [
  | inl e ↦ rw e (([], l ∷ ls), refl, omega arith, a)
  | inr e ↦
      let b = read_patch_lines-Reads e.0.l_start e.0.r_start ls a.1 in
      let r = read_patches-Reads n b.0.1 (omega arith) b.3 in
      rw (e.1, b.1, r.1) ((patch_of e.0 b.0.0 ∷ r.0.0, r.0.1), refl, omega arith, r.3)
]

read_header-le :
    (ls : List Bytes)
    → All IsLine ls
    → (length (read_header ls).1 ≤ length ls) × All IsLine (read_header ls).1
unfolding read_header
read_header-le [] a = (omega arith, tt)
read_header-le (l ∷ ls) a = elim (Option-cases (parse_git_diff_header_item l)) [
  | inl e ↦ rw e (omega arith, a)
  | inr e ↦ let r = read_header-le ls a.1 in rw (e.1) (omega arith, r.1)
]

Ends : Items → Type 0
Ends m = (o : Option (List DiffItem)) × (m ≡ done o)

module _ (k n : ℕ)
    (more : (ls : List Bytes)
      → length ls < k
      → length ls < n
      → All IsLine ls
      → Ends (read_items k n ls)) where
  with_file2-Ends :
      (header : List DiffItemHeaderItem) (file1 : Bytes) (ls : List Bytes) (o : Option Bytes)
      → length ls < k
      → length ls < n
      → All IsLine ls
      → Ends (with_file2 (read_items k n) n header file1 ls o)
  unfolding Ends with_file2
  with_file2-Ends header file1 ls none h j a = (none, refl)
  with_file2-Ends header file1 ls (some file2) h j a =
      let p = read_patches-Reads n ls j a in
      let r = more p.0.1 (omega arith) (omega arith) p.3 in
      rw (p.1, r.1)
        (
          item_added (record { file1 = file1; file2 = file2; header = header; patch_list = p.0.0 })
              r.0,
          refl,
        )

  with_file1-Ends :
      (header : List DiffItemHeaderItem) (ls : List Bytes) (o : Option Bytes)
      → length ls < k
      → length ls < n
      → All IsLine ls
      → Ends (with_file1 (read_items k n) n header ls o)
  unfolding Ends with_file1
  with_file1-Ends header ls none h j a = (none, refl)
  with_file1-Ends header [] (some f) h j a = (some [], refl)
  with_file1-Ends header (l ∷ ls) (some f) h j a =
      with_file2-Ends header f ls (file_match new_file l) (omega arith) (omega arith) a.1

  with_header-Ends :
      (r : List DiffItemHeaderItem × List Bytes)
      → length r.1 ≤ k
      → length r.1 ≤ n
      → All IsLine r.1
      → Ends (with_header (read_items k n) n r)
  unfolding Ends with_header
  with_header-Ends (header, []) h j a = (some [], refl)
  with_header-Ends (header, l ∷ ls) h j a =
      with_file1-Ends header ls (file_match old_file l) (omega arith) (omega arith) a.1

read_items-Ends :
    (k n : ℕ) (ls : List Bytes)
    → length ls < k
    → length ls < n
    → All IsLine ls
    → Ends (read_items k n ls)
unfolding Ends read_items
read_items-Ends zero n ls h j a = absurd (omega arith)
read_items-Ends (suc k) n [] h j a = (some [], refl)
read_items-Ends (suc k) n (l ∷ ls) h j a =
    let r = read_header-le ls a.1 in
    with_header-Ends k n (read_items-Ends k n) (read_header ls) (omega arith) (omega arith) r.1

parse_lines-Ends : (ls : List Bytes) → All IsLine ls → (p : Parsed) × (parse_lines ls ≡ done p)
unfolding parse_lines Ends
parse_lines-Ends [] a = (end_of_file, refl)
parse_lines-Ends (l ∷ ls) a =
    let n = suc (length ls) in
    let r = read_items-Ends n n ls (omega arith) (omega arith) a.1 in (parsed l r.0, rw r.1 refl)

-- Reading a diff ends with a result for every text: it does not panic, and the bounds on its loops
-- are never met.
pub parse_git_diff_total : (s : Bytes) → (p : Parsed) × (parse_git_diff s ≡ done p)
unfolding parse_git_diff
parse_git_diff_total s = parse_lines-Ends (lines_from [] s) (lines_from-IsLine [] s)
