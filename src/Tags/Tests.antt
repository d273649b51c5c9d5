-- ===== src/Tags/Tests.antt =====
-- A signed tag.
use gitus.Prelude.{codes, Bytes, [], join, some, trim_space, beq, none, ◌≡◌, All, refl, ◌∷◌, arith}
use gitus.Authors.{AuthorTime, AuthorPatterns, pos, gives, crashes, parse_author_time}
use gitus.Tags.{parse_tag_object, end_of_signature, start_of_signature}
use gitus.Commits.{end_of_signature}
use gitus.Tags.Signed.{parse_tag_object-signed, IsInside, IsText}

abbrev patterns : AuthorPatterns
patterns = record {
  author_time = λ s. some (s, codes "a@b", codes "60", codes "Z");
  co_author = λ s. none;
}

abbrev tagger : AuthorTime
tagger = record {
  author_name = codes "n";
  author_email = codes "a@b";
  time = record { unix = pos 60; zone = codes "UTCZ"; offset = pos 0 };
}

no_message_crashes : parse_tag_object patterns [] (codes "object 0a\ntag v1\n") ≡ crashes
unfolding parse_tag_object
no_message_crashes = refl

tagger_read : parse_author_time patterns (codes "n") ≡ gives tagger
unfolding parse_author_time
tagger_read = refl

lines-IsText : All IsText (codes "m" ∷ [])
unfolding trim_space beq
lines-IsText = (refl, tt)

end-IsText : All IsText ([] ∷ [])
unfolding trim_space beq
end-IsText = (refl, tt)

lines-IsInside : All IsInside (codes "x" ∷ [])
unfolding trim_space beq
lines-IsInside = (refl, tt)

start_line : trim_space (codes "-----BEGIN PGP SIGNATURE----- ") ≡ start_of_signature
unfolding trim_space
start_line = refl

end_line : trim_space (codes "-----END PGP SIGNATURE-----") ≡ end_of_signature
unfolding trim_space
end_line = refl

abbrev source : Bytes
source =
    codes
      "object 0a\ntype commit\ntag v1\ntagger n\n\nm\n-----BEGIN PGP SIGNATURE----- \nx\n-----END PGP SIGNATURE-----\n"

parse_tag_object-signed_example :
    parse_tag_object patterns (codes "1") source
    ≡ gives (record {
      id = codes "1";
      tagged_obj_id = codes "0a";
      tagged_obj_type = codes "commit";
      tag_name = codes "v1";
      tagger_info = tagger;
      tag_message = codes "m\n";
      signature = codes "-----BEGIN PGP SIGNATURE-----\nx\n-----END PGP SIGNATURE-----";
      raw_data = source;
    })
unfolding join
parse_tag_object-signed_example =
    parse_tag_object-signed patterns (codes "1") (codes "0a") (codes "commit") (codes "v1")
      (codes "n") (codes "m") [] (codes "x" ∷ []) ([] ∷ []) (codes "-----BEGIN PGP SIGNATURE----- ")
      (codes "-----END PGP SIGNATURE-----") tagger (ground arith) (ground arith) (ground arith)
      tagger_read lines-IsText lines-IsInside start_line end_line end-IsText
