-- ===== src/Commits.antt =====
-- pkg/gitlib/commit.go: commits.
pub mod Headers
pub mod CoAuthors
mod Tests
use gitus.Prelude.{
  ℕ, Bool, Bytes, List, [], ◌∷◌, ◌++◌, Option, none, some, true, false, if◌then◌else◌, codes, beq,
  cut, not, split, trim_space, ◌==◌, join, ◌&&◌, ◌||◌,
}
use gitus.Authors.{
  ℤ, Ended, gives, crashes, exits, ◌>>=◌, Time, AuthorTime, AuthorPatterns, parse_author_time,
  author_time_string, zero_time,
}

-- Without `isDirty`, which no code reads of a commit.
pub record CommitObject : Type 0 where
  pub id : Bytes
  pub tree_obj_id : Bytes
  pub parent_id_list : List Bytes
  pub author_info : AuthorTime
  pub co_author_info : List AuthorTime
  pub committer_info : AuthorTime
  pub commit_time : Time
  pub commit_message : Bytes
  pub signature : Bytes
  pub raw_data : Bytes

unfoldable pub parent_id : CommitObject → Bytes
parent_id c = elim c.parent_id_list [ [] ↦ [] | p ∷ ps ↦ p ]

abbrev pub parent_lines : List Bytes → Bytes
parent_lines [] = []
parent_lines (p ∷ ps) = codes "parent " ++ (p ++ (10 ∷ parent_lines ps))

abbrev pub co_author_lines : List AuthorTime → Bytes
unfolding author_time_string
co_author_lines [] = []
co_author_lines (a ∷ authors) =
    codes "Co-Authored-By: " ++ (author_time_string a ++ (10 ∷ co_author_lines authors))

abbrev pub signature_lines : Bytes → Bytes
signature_lines [] = []
signature_lines (c ∷ s) = codes "gpgsig " ++ ((c ∷ s) ++ (10 ∷ 10 ∷ []))

unfoldable pub render_as_string : CommitObject → Bytes
unfolding co_author_lines author_time_string
render_as_string c =
    codes "tree "
    ++ (c.tree_obj_id
        ++ (10
            ∷ (parent_lines c.parent_id_list
                ++ (codes "author "
                    ++ (author_time_string c.author_info
                        ++ (10
                            ∷ (codes "committer "
                                ++ (author_time_string c.committer_info
                                    ++ (10
                                        ∷ (signature_lines c.signature
                                            ++ (c.commit_message
                                                ++ (10
                                                    ∷ co_author_lines c.co_author_info))))))))))))

-- strings.SplitN(s, "\n\n", 2)
unfoldable pub cut_blank : Bytes → Bytes × Option Bytes
cut_blank [] = ([], none)
cut_blank (c ∷ []) = (c ∷ [], none)
cut_blank (c ∷ d ∷ s) =
    let r = cut_blank (d ∷ s) in if c == 10 && d == 10 then ([], some s) else (c ∷ r.0, r.1)

-- The header so far: whether a signature is being received, and its lines.
pub record CommitHeader : Type 0 where
  pub tree : Bytes
  pub parents : List Bytes
  pub author : Option AuthorTime
  pub committer : Option AuthorTime
  pub sig : List Bytes
  pub receiving_sig : Bool

abbrev pub empty_header : CommitHeader
empty_header = record {
  tree = [];
  parents = [];
  author = none;
  committer = none;
  sig = [];
  receiving_sig = false;
}

abbrev pub end_of_signature : Bytes
end_of_signature = codes "-----END PGP SIGNATURE-----"

abbrev pub text_or_empty : Option Bytes → Bytes
text_or_empty none = []
text_or_empty (some s) = s

unfoldable pub author_time_already_exists : List AuthorTime → Bytes → Bytes → Bool
unfolding beq
author_time_already_exists [] name email = false
author_time_already_exists (a ∷ authors) name email =
    (beq a.author_name name && beq a.author_email email)
    || author_time_already_exists authors name email

abbrev pub co_author_added : Time → List AuthorTime → Option (Bytes × Bytes) → List AuthorTime
unfolding author_time_already_exists
co_author_added t authors none = authors
co_author_added t authors (some m) =
    if not (author_time_already_exists authors m.0 m.1)
    then authors ++ (record { author_name = m.0; author_email = m.1; time = t } ∷ [])
    else authors

-- The zero AuthorTime of Go, for a commit without the line.
abbrev pub author_or_zero : Option AuthorTime → AuthorTime
author_or_zero (some a) = a
author_or_zero none = record { author_name = []; author_email = []; time = zero_time }

module _ (p : AuthorPatterns) where
  -- One field of the header.
  abbrev pub header_field : CommitHeader → Bytes → Bytes → Ended CommitHeader
  unfolding parse_author_time beq
  header_field h kind content =
      if beq kind (codes "tree")
      then gives (record h { tree = content })
      else if beq kind (codes "parent")
      then gives (record h { parents = h.parents ++ (content ∷ []) })
      else if beq kind (codes "author")
      then parse_author_time p content >>= (λ a. gives (record h { author = some a }))
      else if beq kind (codes "committer")
      then parse_author_time p content >>= (λ a. gives (record h { committer = some a }))
      else if beq kind (codes "gpgsig")
      then gives (record h { sig = h.sig ++ (content ∷ []); receiving_sig = true })
      else gives h

  unfoldable pub header_line : CommitHeader → Bytes → Ended CommitHeader
  unfolding header_field cut trim_space
  header_line h line =
      if h.receiving_sig
      then gives (record h {
        sig = h.sig ++ (line ∷ []);
        receiving_sig = not (beq (trim_space line) end_of_signature);
      })
      else (let r = cut b' ' line in header_field h r.0 (text_or_empty r.1))

  unfoldable pub header_lines : CommitHeader → List Bytes → Ended CommitHeader
  unfolding header_line
  header_lines h [] = gives h
  header_lines h (l ∷ ls) = header_line h l >>= (λ h'. header_lines h' ls)

  unfoldable pub co_authors : Time → List AuthorTime → List Bytes → List AuthorTime
  unfolding co_author_added trim_space
  co_authors t authors [] = authors
  co_authors t authors (l ∷ ls) =
      co_authors t (co_author_added t authors (p.co_author (trim_space l))) ls

  abbrev pub commit_of : Bytes → Bytes → Bytes → CommitHeader → CommitObject
  unfolding co_authors split join
  commit_of id source message h =
      let m = split 10 message in
      let author = author_or_zero h.author in
      let committer = author_or_zero h.committer in
      record {
        id = id;
        tree_obj_id = h.tree;
        parent_id_list = h.parents;
        author_info = author;
        co_author_info = co_authors author.time [] (m.0 ∷ m.1);
        committer_info = committer;
        commit_time = committer.time;
        commit_message = message;
        signature = join (10 ∷ []) h.sig;
        raw_data = source;
      }

  -- Without an empty line there is no second part to index.
  abbrev pub commit_from : Bytes → Bytes → Bytes × Option Bytes → Ended CommitObject
  unfolding header_lines commit_of split
  commit_from id source (header, none) = crashes
  commit_from id source (header, some message) =
      let l = split 10 header in
      header_lines empty_header (l.0 ∷ l.1) >>= (λ h. gives (commit_of id source message h))

  unfoldable pub parse_commit_object : Bytes → Bytes → Ended CommitObject
  unfolding commit_from cut_blank
  parse_commit_object id source = commit_from id source (cut_blank source)
