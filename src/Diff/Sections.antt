-- ===== src/Diff/Sections.antt =====
-- The sections of a diff are read back.
use gitus.Prelude.{
  ℕ, Bool, Bytes, List, [], ◌∷◌, ◌++◌, ◌≡◌, refl, arith, done, All, length, none, some, map, false,
  suc, ◌<◌, ◌==◌, zero, ◌||◌, ◌+◌, ◌%◌,
}
use gitus.Diff.{
  read_patch_lines, read_patches, DiffItemPatch, AnnotatedLine, LineHeader, line_match, patch_of,
  annotated, same_line, append_line, delete_line,
}
use gitus.Diff.Patterns.{LineHeader, line_match}

-- A line of a patch, by its mark.
pub data Marked : Type 0 where
  same added deleted : Bytes → Marked
  -- `\ No newline at end of file`
  no_newline : Bytes → Marked

abbrev pub marked_line : Marked → Bytes
marked_line (same s) = b' ' ∷ s
marked_line (added s) = b'+' ∷ s
marked_line (deleted s) = b'-' ∷ s
marked_line (no_newline s) = b'\\' ∷ s

-- The lines with their numbers: a line that both files have counts in both. A number is kept
-- in the 64 bits of an int64.
abbrev pub following : ℕ → ℕ
following n = (n + 1) % 18446744073709551616

abbrev pub numbered : ℕ → ℕ → List Marked → List AnnotatedLine
numbered f1 f2 [] = []
numbered f1 f2 (same s ∷ ms) =
    annotated same_line f1 f2 s ∷ numbered (following f1) (following f2) ms
numbered f1 f2 (added s ∷ ms) = annotated append_line f1 f2 s ∷ numbered f1 (following f2) ms
numbered f1 f2 (deleted s ∷ ms) = annotated delete_line f1 f2 s ∷ numbered (following f1) f2 ms
numbered f1 f2 (no_newline s ∷ ms) = numbered f1 f2 ms

-- A line that is none of a patch.
abbrev pub is_mark : ℕ → Bool
is_mark c = c == b'\\' || c == b' ' || c == b'-' || c == b'+'

abbrev pub NoMark : Bytes → Type 0
NoMark [] = ⊥
NoMark (c ∷ s) = is_mark c ≡ false

abbrev pub Stops : List Bytes → Type 0
Stops [] = Unit
Stops (l ∷ ls) = NoMark l

stop : (f1 f2 : ℕ) (ls : List Bytes) → Stops ls → read_patch_lines f1 f2 ls ≡ done ([], ls)
unfolding read_patch_lines
stop f1 f2 [] h = refl
stop f1 f2 ([] ∷ ls) h = absurd h
stop f1 f2 ((c ∷ s) ∷ ls) h = ground arith

read_patch_lines-numbered :
    (f1 f2 : ℕ) (ms : List Marked) (rest : List Bytes)
    → Stops rest
    → read_patch_lines f1 f2 (map marked_line ms ++ rest) ≡ done (numbered f1 f2 ms, rest)
unfolding read_patch_lines
read_patch_lines-numbered f1 f2 [] rest h = stop f1 f2 rest h
read_patch_lines-numbered f1 f2 (same s ∷ ms) rest h =
    rw (read_patch_lines-numbered (following f1) (following f2) ms rest h) refl
read_patch_lines-numbered f1 f2 (added s ∷ ms) rest h =
    rw (read_patch_lines-numbered f1 (following f2) ms rest h) refl
read_patch_lines-numbered f1 f2 (deleted s ∷ ms) rest h =
    rw (read_patch_lines-numbered (following f1) f2 ms rest h) refl
read_patch_lines-numbered f1 f2 (no_newline s ∷ ms) rest h =
    read_patch_lines-numbered f1 f2 ms rest h

pub record Hunk : Type 0 where
  pub title : Bytes
  pub head : LineHeader
  pub body : List Marked

abbrev pub IsHunk : Hunk → Type 0
IsHunk h = NoMark h.title × (line_match h.title ≡ some h.head)

abbrev pub hunk_lines : List Hunk → List Bytes → List Bytes
hunk_lines [] rest = rest
hunk_lines (h ∷ hs) rest = h.title ∷ (map marked_line h.body ++ hunk_lines hs rest)

abbrev pub patch_of_hunk : Hunk → DiffItemPatch
patch_of_hunk h = patch_of h.head (numbered h.head.l_start h.head.r_start h.body)

-- The next file's line, which heads no patch.
abbrev pub Ahead : List Bytes → Type 0
Ahead [] = Unit
Ahead (l ∷ ls) = NoMark l × (line_match l ≡ none)

Ahead-Stops : (ls : List Bytes) → Ahead ls → Stops ls
Ahead-Stops [] h = tt
Ahead-Stops (l ∷ ls) h = h.0

hunk_lines-Stops :
    (hs : List Hunk) (rest : List Bytes) → All IsHunk hs → Ahead rest → Stops (hunk_lines hs rest)
hunk_lines-Stops [] rest a h = Ahead-Stops rest h
hunk_lines-Stops (k ∷ hs) rest a h = a.0.0

no_patch : (n : ℕ) (rest : List Bytes) → Ahead rest → read_patches (suc n) rest ≡ done ([], rest)
unfolding read_patches
no_patch n [] h = refl
no_patch n (l ∷ ls) h = rw h.1 refl

pub read_patches-hunk_lines :
    (n : ℕ) (hs : List Hunk) (rest : List Bytes)
    → length hs < n
    → All IsHunk hs
    → Ahead rest
    → read_patches n (hunk_lines hs rest) ≡ done (map patch_of_hunk hs, rest)
unfolding read_patches
read_patches-hunk_lines zero hs rest h a r = absurd (omega arith)
read_patches-hunk_lines (suc n) [] rest h a r = no_patch n rest r
read_patches-hunk_lines (suc n) (k ∷ hs) rest h a r =
    rw
      (
        a.0.1,
        read_patch_lines-numbered k.head.l_start k.head.r_start k.body (hunk_lines hs rest)
            (hunk_lines-Stops hs rest a.1 r),
        read_patches-hunk_lines n hs rest (omega arith) a.1 r,
      )
      refl
