-- ===== src/Diff/Tests.antt =====
-- Tests of the reader of diffs: a file with two patches, and headers that are read badly.
use gitus.Prelude.{
  codes, Bytes, List, ◌++◌, ◌∷◌, ◌≡◌, [], done, some, refl, trim_space, arith, ◌⊎◌, ℕ,
}
use gitus.Diff.{
  parse_git_diff, parse_git_diff_header_item, Parsed, line_match, file_match, diff_of,
  invalid_format,
}
use gitus.Diff.Sections.{same, added, deleted, no_newline, Hunk}
use gitus.Diff.Files.{
  Section, text_of, file_lines, IsSection, item_of_section, parse_git_diff-text_of,
}
use gitus.Diff.Patterns.{line_match, file_match}
use gitus.Diff.Total.{parse_git_diff_total}
use gitus.Diff.Headers.{parse_git_diff_header_item-untyped}

abbrev feed : Bytes → Bytes
feed s = s ++ (10 ∷ [])

abbrev hunks : List Hunk
hunks =
    record {
      title = feed (codes "@@ -1,2 +1,2 @@");
      head = record {
        l_start = 1;
        l_line_count = 2;
        r_start = 1;
        r_line_count = 2;
        context_line = [];
      };
      body = same (feed (codes "a")) ∷ deleted (feed (codes "b")) ∷ added (feed (codes "c")) ∷ [];
    }
    ∷ record {
      title = feed (codes "@@ -9 +9 @@ f");
      head = record {
        l_start = 9;
        l_line_count = 1;
        r_start = 9;
        r_line_count = 1;
        context_line = codes " f";
      };
      body = added (feed (codes "d")) ∷ no_newline (feed (codes " No newline")) ∷ [];
    }
    ∷ []

abbrev section : Section
section = record {
  first = feed (codes "diff --git a/x b/x");
  header =
      record {
        text = feed (codes "old mode 100644");
        item = record { type = 0; args = codes "old mode" ∷ [] };
      }
      ∷ [];
  line1 = feed (codes "--- a/x");
  file1 = codes "a/x";
  line2 = feed (codes "+++ b/x");
  file2 = codes "b/x";
  hunks = hunks;
}

rename_line :
    parse_git_diff_header_item (feed (codes "rename to y"))
    ≡ some (record { type = 0; args = codes "rename to" ∷ [] })
unfolding parse_git_diff_header_item
rename_line = refl

parse_git_diff_header_item-untyped_example : ◌⊎◌ (◌≡◌ {A = ℕ} 0 0) (◌≡◌ {A = ℕ} 0 11)
parse_git_diff_header_item-untyped_example =
    parse_git_diff_header_item-untyped (feed (codes "rename to y"))
      (record { type = 0; args = codes "rename to" ∷ [] }) rename_line

index_line :
    parse_git_diff_header_item (feed (codes "index 12..34 100644"))
    ≡ some (record { type = 11; args = [] ∷ codes "12" ∷ feed (codes "34 100644") ∷ [] ∷ [] })
unfolding parse_git_diff_header_item
index_line = refl

-- A mode that changes alone is followed by the next file's line, which is no name of a file.
mode_alone :
    parse_git_diff (
      feed (codes "0a")
      ++ (feed (codes "diff --git a/x b/x")
          ++ (feed (codes "old mode 1") ++ feed (codes "diff --git a/y b/y"))))
    ≡ done invalid_format
unfolding parse_git_diff
mode_alone = refl

section-IsSection : IsSection section
unfolding line_match parse_git_diff_header_item file_match
section-IsSection = record {
  no_mark = refl;
  no_patch = refl;
  header_read = (refl, tt);
  no_header = refl;
  file1_read = refl;
  file2_read = refl;
  hunks_read = ((refl, refl), ((refl, refl), tt));
}

parse_git_diff-text_of_example :
    parse_git_diff (text_of (feed (codes "0a") ∷ file_lines (section ∷ [])))
    ≡ done (
        diff_of (record {
          commit_hash = trim_space (feed (codes "0a"));
          item_list = item_of_section section ∷ [];
        }))
parse_git_diff-text_of_example =
    parse_git_diff-text_of (feed (codes "0a")) (section ∷ []) (ground arith) (section-IsSection, tt)

parse_git_diff_total_example : (p : Parsed) × (parse_git_diff (codes "x") ≡ done p)
parse_git_diff_total_example = parse_git_diff_total (codes "x")
