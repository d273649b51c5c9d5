-- ===== src/Commits/Tests.antt =====
-- A commit with two parents and a signature, with a pattern that knows one author.
use gitus.Prelude.{
  codes, Bytes, Option, [], some, trim_space, List, beq, if◌then◌else◌, ◌++◌, ◌≡◌, none, refl, ◌∷◌,
  arith, join, split,
}
use gitus.Authors.{AuthorTime, AuthorPatterns, pos, gives, crashes, parse_author_time}
use gitus.Commits.{parse_commit_object, render_as_string, co_authors}
use gitus.Commits.Headers.{IsSig, parse_commit_object-header_of}
use gitus.Commits.CoAuthors.{IsDistinct, co_authors-IsDistinct}

-- A line of letters with a date in the year 1970.
abbrev patterns : AuthorPatterns
patterns = record {
  author_time = λ s. some (s, codes "a@b", codes "60", codes "+0100");
  co_author = λ s. if beq s (codes "by c") then some (codes "c", codes "c@d") else none;
}

abbrev author : Bytes → AuthorTime
author name = record {
  author_name = name;
  author_email = codes "a@b";
  time = record { unix = pos 60; zone = codes "UTC+0100"; offset = pos 3600 };
}

abbrev message : Bytes
message = codes "by c" ++ (10 ∷ (10 ∷ codes "by c"))

abbrev signed : Option (Bytes × List Bytes × Bytes)
signed = some (codes "-----BEGIN", codes " x" ∷ [], codes " -----END PGP SIGNATURE-----")

author_read : (name : Bytes) → parse_author_time patterns name ≡ gives (author name)
unfolding parse_author_time
author_read name = refl

-- An unsigned commit is written without the empty line in front of its message.
rendered_crashes :
    parse_commit_object patterns [] (
      render_as_string (record {
        id = [];
        tree_obj_id = codes "0a";
        parent_id_list = [];
        author_info = author (codes "n");
        co_author_info = [];
        committer_info = author (codes "n");
        commit_time = (author (codes "n")).time;
        commit_message = codes "m";
        signature = [];
        raw_data = [];
      }))
    ≡ crashes
unfolding parse_commit_object render_as_string
rendered_crashes = refl

ends : IsSig patterns signed
unfolding trim_space beq
ends = ((refl, tt), refl)

abbrev source : Bytes
source =
    codes
      "tree 0a\nparent 0b\nparent 0c\nauthor n\ncommitter m\ngpgsig -----BEGIN\n x\n -----END PGP SIGNATURE-----\n\nby c\n\nby c"

parse_commit_object-header_of_example :
    parse_commit_object patterns (codes "1") source
    ≡ gives (record {
      id = codes "1";
      tree_obj_id = codes "0a";
      parent_id_list = codes "0b" ∷ codes "0c" ∷ [];
      author_info = author (codes "n");
      co_author_info =
          co_authors patterns (author (codes "n")).time [] (codes "by c" ∷ [] ∷ codes "by c" ∷ []);
      committer_info = author (codes "m");
      commit_time = (author (codes "m")).time;
      commit_message = message;
      signature = codes "-----BEGIN\n x\n -----END PGP SIGNATURE-----";
      raw_data = source;
    })
unfolding join split
parse_commit_object-header_of_example =
    parse_commit_object-header_of patterns (codes "1") (codes "0a") (codes "0b" ∷ codes "0c" ∷ [])
      (codes "n") (codes "m") message signed (author (codes "n")) (author (codes "m"))
      (ground arith) (author_read (codes "n")) (author_read (codes "m")) ends

co_authors-IsDistinct_example :
    IsDistinct (co_authors patterns (author (codes "n")).time [] (codes "by c" ∷ codes "by c" ∷ []))
co_authors-IsDistinct_example =
    co_authors-IsDistinct patterns (author (codes "n")).time (codes "by c" ∷ codes "by c" ∷ [])
