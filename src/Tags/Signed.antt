-- ===== src/Tags/Signed.antt =====
-- The signature of a tag stands behind its message.
use gitus.Prelude.{
  Bytes, List, [], ◌∷◌, ◌++◌, ◌≡◌, refl, true, false, All, beq, trim_space, join, codes, ap, ◌∙◌,
  cut, some, Free, leb,
}
use gitus.Authors.{◌>>=◌, gives, AuthorTime, AuthorPatterns, parse_author_time}
use gitus.Tags.{
  separate, start_of_signature, tag_lines, parse_tag_object, tag_of, empty_tag, tag_from,
}
use gitus.Commits.{end_of_signature}
use gitus.Commits.Headers.{
  lines_text, IsHeaderLine, cut_blank-lines, split-lines_text, IsOneLine, All-IsOneLine,
}

abbrev pub IsText : Bytes → Type 0
IsText l = beq (trim_space l) start_of_signature ≡ false

abbrev pub IsInside : Bytes → Type 0
IsInside l = beq (trim_space l) end_of_signature ≡ false

abbrev pub IsAscii : Bytes → Type 0
IsAscii l = Free (λ c. leb 128 c) l

separate-message :
    (ms ls : List Bytes)
    → All IsText ms
    → separate false (ms ++ ls)
      ≡ record { message = ms ++ (separate false ls).message; sig = (separate false ls).sig }
unfolding separate
separate-message [] ls a = refl
separate-message (m ∷ ms) ls a = rw (a.0, separate-message ms ls a.1) refl

separate-sig :
    (ss ls : List Bytes)
    → All IsInside ss
    → separate true (ss ++ ls)
      ≡ record { message = (separate true ls).message; sig = ss ++ (separate true ls).sig }
unfolding separate
separate-sig [] ls a = refl
separate-sig (s ∷ ss) ls a = rw (a.0, separate-sig ss ls a.1) refl

separate-rest :
    (ls : List Bytes) → All IsText ls → separate false ls ≡ record { message = ls; sig = [] }
unfolding separate
separate-rest [] a = refl
separate-rest (l ∷ ls) a = rw (a.0, separate-rest ls a.1) refl

separate-start :
    (b : Bytes) (ls : List Bytes)
    → trim_space b ≡ start_of_signature
    → separate false (b ∷ ls) ≡ record {
      message = (separate true ls).message;
      sig = start_of_signature ∷ (separate true ls).sig;
    }
unfolding separate
separate-start b ls p = rw p refl

separate-end :
    (e : Bytes) (ls : List Bytes)
    → trim_space e ≡ end_of_signature
    → separate true (e ∷ ls) ≡ record {
      message = (separate false ls).message;
      sig = end_of_signature ∷ (separate false ls).sig;
    }
unfolding separate
separate-end e ls p = rw p refl

separate-signed :
    (ms ss rest : List Bytes) (b e : Bytes)
    → All IsText ms
    → All IsInside ss
    → trim_space b ≡ start_of_signature
    → trim_space e ≡ end_of_signature
    → separate false (ms ++ (b ∷ (ss ++ (e ∷ rest)))) ≡ record {
      message = ms ++ (separate false rest).message;
      sig = start_of_signature ∷ (ss ++ (end_of_signature ∷ (separate false rest).sig));
    }
separate-signed ms ss rest b e x y p q =
    rw
      (
        separate-message ms (b ∷ (ss ++ (e ∷ rest))) x,
        separate-start b (ss ++ (e ∷ rest)) p,
        separate-sig ss (e ∷ rest) y,
        separate-end e rest q,
      )
      refl

-- The header of a tag.
abbrev pub tag_header : Bytes → Bytes → Bytes → List Bytes
tag_header kind name tagger =
    (codes "type " ++ kind) ∷ (codes "tag " ++ name) ∷ (codes "tagger " ++ tagger) ∷ []

module _ (p : AuthorPatterns) where
  tag_lines-tag_header :
      (object kind name tagger : Bytes) (a : AuthorTime)
      → parse_author_time p tagger ≡ gives a
      → tag_lines p empty_tag ((codes "object " ++ object) ∷ tag_header kind name tagger)
        ≡ gives (record { object = object; object_type = kind; name = name; tagger = some a })
  unfolding tag_lines cut beq
  tag_lines-tag_header object kind name tagger a x = rw x refl

  -- A signed tag is read back: its four lines of a header, an empty line, one or more lines of the
  -- message, the lines of a signature, and the lines behind it, which are added to those of the
  -- message; git writes one there, the empty one after the last line feed. The lines below the header
  -- are ASCII. No line of the message or behind the signature is the start of a signature, and none
  -- inside the signature its end, but for white space around them; the two marks are kept without it.
  pub parse_tag_object-signed :
      (id object kind name tagger first : Bytes) (ms ss rest : List Bytes) (b e : Bytes)
      (a : AuthorTime)
      → All IsHeaderLine ((codes "object " ++ object) ∷ tag_header kind name tagger)
      → All IsOneLine (first ∷ (ms ++ (b ∷ (ss ++ (e ∷ rest)))))
      → All IsAscii (first ∷ (ms ++ (b ∷ (ss ++ (e ∷ rest)))))
      → parse_author_time p tagger ≡ gives a
      → All IsText (first ∷ ms)
      → All IsInside ss
      → trim_space b ≡ start_of_signature
      → trim_space e ≡ end_of_signature
      → All IsText rest
      → (let source =
            lines_text (codes "object " ++ object) (tag_header kind name tagger)
            ++ (10 ∷ 10 ∷ lines_text first (ms ++ (b ∷ (ss ++ (e ∷ rest))))) in
          parse_tag_object p id source
          ≡ gives (record {
            id = id;
            tagged_obj_id = object;
            tagged_obj_type = kind;
            tag_name = name;
            tagger_info = a;
            tag_message = join (10 ∷ []) (first ∷ (ms ++ rest));
            signature = join (10 ∷ []) (start_of_signature ∷ (ss ++ (end_of_signature ∷ [])));
            raw_data = source;
          }))
  unfolding parse_tag_object tag_of
  parse_tag_object-signed id object kind name tagger first ms ss rest b e a h o ascii x t i u v w =
      let below = ms ++ (b ∷ (ss ++ (e ∷ rest))) in
      let message = lines_text first below in
      let top = codes "object " ++ object in
      let source = lines_text top (tag_header kind name tagger) ++ (10 ∷ 10 ∷ message) in
      ap (tag_from p id source) (cut_blank-lines top (tag_header kind name tagger) message h)
      ∙ (ap
            (λ (r : Bytes × List Bytes).
              tag_lines p empty_tag (r.0 ∷ r.1) >>= (λ k. gives (tag_of p id source message k)))
            (split-lines_text top (tag_header kind name tagger)
              (All-IsOneLine (top ∷ tag_header kind name tagger) h))
          ∙ (ap (λ m. m >>= (λ k. gives (tag_of p id source message k)))
                (tag_lines-tag_header object kind name tagger a x)
              ∙ (rw
                  (
                    split-lines_text first below o,
                    separate-signed (first ∷ ms) ss rest b e t i u v,
                    separate-rest rest w,
                  )
                  refl)))
