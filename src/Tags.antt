-- ===== src/Tags.antt =====
-- pkg/gitlib/tag.go: tags.
pub mod Signed
mod Tests
use gitus.Prelude.{
  ℕ, Bool, Bytes, List, [], ◌∷◌, ◌++◌, Option, none, some, true, false, if◌then◌else◌, codes, beq,
  cut, split, trim_space, join,
}
use gitus.Authors.{
  Ended, gives, crashes, exits, ◌>>=◌, AuthorTime, AuthorPatterns, parse_author_time,
}
use gitus.Commits.{cut_blank, author_or_zero, text_or_empty, end_of_signature}

pub record TagObject : Type 0 where
  pub id : Bytes
  pub tagged_obj_id : Bytes
  pub tagged_obj_type : Bytes
  pub tag_name : Bytes
  pub tagger_info : AuthorTime
  pub tag_message : Bytes
  pub signature : Bytes
  pub raw_data : Bytes

pub record TagHeader : Type 0 where
  pub object : Bytes
  pub object_type : Bytes
  pub name : Bytes
  pub tagger : Option AuthorTime

abbrev pub empty_tag : TagHeader
empty_tag = record { object = []; object_type = []; name = []; tagger = none }

abbrev pub start_of_signature : Bytes
start_of_signature = codes "-----BEGIN PGP SIGNATURE-----"

-- The lines of the message, and those of its signatures.
pub record Separated : Type 0 where
  pub message : List Bytes
  pub sig : List Bytes

-- The loop over the lines behind the header, from whether a signature is being read.
unfoldable pub separate : Bool → List Bytes → Separated
unfolding trim_space beq
separate reading [] = record { message = []; sig = [] }
separate true (line ∷ ls) =
    let ended = separate false ls in
    let more = separate true ls in
    if beq (trim_space line) end_of_signature
    then record ended { sig = trim_space line ∷ ended.sig }
    else record more { sig = line ∷ more.sig }
separate false (line ∷ ls) =
    let started = separate true ls in
    let more = separate false ls in
    if beq (trim_space line) start_of_signature
    then record started { sig = trim_space line ∷ started.sig }
    else record more { message = line ∷ more.message }

module _ (p : AuthorPatterns) where
  abbrev pub tag_field : TagHeader → Bytes → Bytes → Ended TagHeader
  unfolding parse_author_time beq
  tag_field h kind content =
      if beq kind (codes "object")
      then gives (record h { object = content })
      else if beq kind (codes "type")
      then gives (record h { object_type = content })
      else if beq kind (codes "tag")
      then gives (record h { name = content })
      else if beq kind (codes "tagger")
      then parse_author_time p content >>= (λ a. gives (record h { tagger = some a }))
      else gives h

  unfoldable pub tag_lines : TagHeader → List Bytes → Ended TagHeader
  unfolding tag_field cut
  tag_lines h [] = gives h
  tag_lines h (l ∷ ls) =
      let r = cut b' ' l in tag_field h r.0 (text_or_empty r.1) >>= (λ h'. tag_lines h' ls)

  abbrev pub tag_of : Bytes → Bytes → Bytes → TagHeader → TagObject
  unfolding separate split join
  tag_of id source message h =
      let m = split 10 message in
      let s = separate false (m.0 ∷ m.1) in
      record {
        id = id;
        tagged_obj_id = h.object;
        tagged_obj_type = h.object_type;
        tag_name = h.name;
        tagger_info = author_or_zero h.tagger;
        tag_message = join (10 ∷ []) s.message;
        signature = join (10 ∷ []) s.sig;
        raw_data = source;
      }

  abbrev pub tag_from : Bytes → Bytes → Bytes × Option Bytes → Ended TagObject
  unfolding tag_lines tag_of split
  tag_from id source (header, none) = crashes
  tag_from id source (header, some message) =
      let l = split 10 header in
      tag_lines empty_tag (l.0 ∷ l.1) >>= (λ h. gives (tag_of id source message h))

  unfoldable pub parse_tag_object : Bytes → Bytes → Ended TagObject
  unfolding tag_from cut_blank
  parse_tag_object id source = tag_from id source (cut_blank source)
