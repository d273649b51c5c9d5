-- ===== src/Commits/Headers.antt =====
-- A commit in git's format is read back.
use gitus.Prelude.{
  ℕ, Bytes, List, [], ◌∷◌, ◌++◌, ◌≡◌, refl, Option, none, some, true, false, All, Free, split, join,
  split-piece, split-whole, codes, ap, ◌∙◌, append_assoc, ◌==◌, map, inl, ◌⊎◌, inr, beq, cut,
  trim_space, sym,
}
use gitus.Authors.{
  ◌>>=◌, Ended, gives, AuthorTime, AuthorPatterns, parse_author_time, crashes, exits,
}
use gitus.Commits.{
  cut_blank, header_line, header_lines, parse_commit_object, CommitHeader, empty_header, commit_of,
  commit_from, end_of_signature, co_authors,
}
use mathlib.Core.List.{append-nil}

-- Lines of a header: none is empty or holds a line feed.
abbrev pub IsFilled : Bytes → Type 0
IsFilled [] = ⊥
IsFilled (c ∷ s) = Unit

abbrev pub IsHeaderLine : Bytes → Type 0
IsHeaderLine l = IsFilled l × Free (λ c. c == 10) l

abbrev pub lines_text : Bytes → List Bytes → Bytes
lines_text l [] = l
lines_text l (m ∷ ls) = l ++ (10 ∷ lines_text m ls)

cut_blank-last :
    (l message : Bytes)
    → Free (λ c. c == 10) l
    → cut_blank (l ++ (10 ∷ 10 ∷ message)) ≡ (l, some message)
unfolding cut_blank
cut_blank-last [] message f = refl
cut_blank-last (c ∷ []) message f = rw f.0 refl
cut_blank-last (c ∷ d ∷ l) message f = rw (f.0, cut_blank-last (d ∷ l) message f.1) refl

cut_blank-line :
    (l : Bytes) (d : ℕ) (t : Bytes)
    → Free (λ c. c == 10) l
    → (d == 10) ≡ false
    → cut_blank (l ++ (10 ∷ d ∷ t)) ≡ (l ++ (10 ∷ (cut_blank (d ∷ t)).0), (cut_blank (d ∷ t)).1)
unfolding cut_blank
cut_blank-line [] d t f h = rw h refl
cut_blank-line (c ∷ []) d t f h = rw (f.0, h) refl
cut_blank-line (c ∷ b ∷ l) d t f h = rw (f.0, cut_blank-line (b ∷ l) d t f.1 h) refl

next_line :
    (l : Bytes) (d : ℕ) (m : Bytes) (ls : List Bytes) (message : Bytes)
    → Free (λ c. c == 10) l
    → (d == 10) ≡ false
    → cut_blank (lines_text (d ∷ m) ls ++ (10 ∷ 10 ∷ message))
      ≡ (lines_text (d ∷ m) ls, some message)
    → cut_blank (l ++ (10 ∷ (lines_text (d ∷ m) ls ++ (10 ∷ 10 ∷ message))))
      ≡ (l ++ (10 ∷ lines_text (d ∷ m) ls), some message)
next_line l d m [] message f h e =
    cut_blank-line l d (m ++ (10 ∷ 10 ∷ message)) f h
    ∙ ap (λ (r : Bytes × Option Bytes). (l ++ (10 ∷ r.0), r.1)) e
next_line l d m (x ∷ ls) message f h e =
    cut_blank-line l d ((m ++ (10 ∷ lines_text x ls)) ++ (10 ∷ 10 ∷ message)) f h
    ∙ ap (λ (r : Bytes × Option Bytes). (l ++ (10 ∷ r.0), r.1)) e

pub cut_blank-lines :
    (l : Bytes) (ls : List Bytes) (message : Bytes)
    → All IsHeaderLine (l ∷ ls)
    → cut_blank (lines_text l ls ++ (10 ∷ 10 ∷ message)) ≡ (lines_text l ls, some message)
cut_blank-lines l [] message a = cut_blank-last l message a.0.1
cut_blank-lines l ([] ∷ ls) message a = absurd a.1.0.0
cut_blank-lines l ((d ∷ m) ∷ ls) message a =
    ap cut_blank (append_assoc l (10 ∷ lines_text (d ∷ m) ls) (10 ∷ 10 ∷ message))
    ∙ next_line l d m ls message a.0.1 a.1.0.1.0 (cut_blank-lines (d ∷ m) ls message a.1)

-- The pieces of a header, or of any text by its lines.
abbrev pub IsOneLine : Bytes → Type 0
IsOneLine l = Free (λ c. c == 10) l

pub split-lines_text :
    (l : Bytes) (ls : List Bytes) → All IsOneLine (l ∷ ls) → split 10 (lines_text l ls) ≡ (l, ls)
split-lines_text l [] a = split-whole 10 l a.0
split-lines_text l (m ∷ ls) a =
    split-piece 10 l (lines_text m ls) a.0
    ∙ ap (λ (r : Bytes × List Bytes). (l, r.0 ∷ r.1)) (split-lines_text m ls a.1)

pub All-IsOneLine : (ls : List Bytes) → All IsHeaderLine ls → All IsOneLine ls
All-IsOneLine [] a = tt
All-IsOneLine (l ∷ ls) a = (a.0.1, All-IsOneLine ls a.1)

Ended-cases :
    (m : Ended CommitHeader) → ((h : CommitHeader) × (m ≡ gives h)) ⊎ ((m ≡ crashes) ⊎ (m ≡ exits))
Ended-cases (gives h) = inl (h, refl)
Ended-cases crashes = inr (inl refl)
Ended-cases exits = inr (inr refl)

module _ (p : AuthorPatterns) where
  -- What is read of a commit whose header ends at an empty line.
  pub parse_commit_object-lines :
      (id l : Bytes) (ls : List Bytes) (message : Bytes)
      → All IsHeaderLine (l ∷ ls)
      → parse_commit_object p id (lines_text l ls ++ (10 ∷ 10 ∷ message)) ≡ (
          header_lines p empty_header (l ∷ ls)
          >>= (λ h. gives (commit_of p id (lines_text l ls ++ (10 ∷ 10 ∷ message)) message h)))
  unfolding parse_commit_object
  parse_commit_object-lines id l ls message a =
      let source = lines_text l ls ++ (10 ∷ 10 ∷ message) in
      ap (commit_from p id source) (cut_blank-lines l ls message a)
      ∙ ap
          (λ (r : Bytes × List Bytes).
            header_lines p empty_header (r.0 ∷ r.1)
            >>= (λ h. gives (commit_of p id source message h)))
          (split-lines_text l ls (All-IsOneLine (l ∷ ls) a))

  header_lines-append :
      (h : CommitHeader) (ls ms : List Bytes)
      → header_lines p h (ls ++ ms) ≡ (header_lines p h ls >>= (λ h'. header_lines p h' ms))
  unfolding header_lines
  header_lines-append h [] ms = refl
  header_lines-append h (l ∷ ls) ms = elim (Ended-cases (header_line p h l)) [
    | inl e ↦ rw e.1 (header_lines-append e.0 ls ms)
    | inr (inl e) ↦ rw e refl
    | inr (inr e) ↦ rw e refl
  ]

  abbrev pub parent_line : Bytes → Bytes
  parent_line s = codes "parent " ++ s

  -- A header before its author.
  abbrev pub before_author : Bytes → List Bytes → CommitHeader
  before_author tree ps = record empty_header { tree = tree; parents = ps }

  header_lines-parents :
      (tree : Bytes) (seen ps : List Bytes)
      → header_lines p (before_author tree seen) (map parent_line ps)
        ≡ gives (before_author tree (seen ++ ps))
  unfolding header_lines cut beq
  header_lines-parents tree seen [] = ap (λ q. gives (before_author tree q)) (sym (append-nil seen))
  header_lines-parents tree seen (q ∷ ps) =
      header_lines-parents tree (seen ++ (q ∷ [])) ps
      ∙ ap (λ q. gives (before_author tree q)) (append_assoc seen (q ∷ []) ps)

  abbrev pub with_authors : Bytes → List Bytes → AuthorTime → AuthorTime → CommitHeader
  with_authors tree ps a c = record empty_header {
    tree = tree;
    parents = ps;
    author = some a;
    committer = some c;
  }

  abbrev pub IsEnd : Bytes → Type 0
  IsEnd l = trim_space l ≡ end_of_signature

  abbrev pub IsInside : Bytes → Type 0
  IsInside l = beq (trim_space l) end_of_signature ≡ false

  header_lines-sig :
      (tree : Bytes) (ps : List Bytes) (a c : AuthorTime) (sig ls : List Bytes) (e : Bytes)
      → All IsInside ls
      → IsEnd e
      → header_lines p
          (record (with_authors tree ps a c) { sig = sig; receiving_sig = true })
          (ls ++ (e ∷ []))
        ≡ gives (record (with_authors tree ps a c) { sig = sig ++ (ls ++ (e ∷ [])) })
  unfolding header_lines
  header_lines-sig tree ps a c sig [] e i x = rw x refl
  header_lines-sig tree ps a c sig (l ∷ ls) e i x = rw i.0 (
      header_lines-sig tree ps a c (sig ++ (l ∷ [])) ls e i.1 x
      ∙ ap (λ q. gives (record (with_authors tree ps a c) { sig = q }))
          (append_assoc sig (l ∷ []) (ls ++ (e ∷ []))))

  -- A signature: its first line, the lines inside and its last line.
  abbrev pub sig_lines : Bytes → List Bytes → Bytes → List Bytes
  sig_lines first ls e = (codes "gpgsig " ++ first) ∷ (ls ++ (e ∷ []))

  header_lines-gpgsig :
      (tree : Bytes) (ps : List Bytes) (a c : AuthorTime) (first : Bytes) (ls : List Bytes)
      (e : Bytes)
      → All IsInside ls
      → IsEnd e
      → header_lines p (with_authors tree ps a c) (sig_lines first ls e)
        ≡ gives (record (with_authors tree ps a c) { sig = first ∷ (ls ++ (e ∷ [])) })
  unfolding header_lines cut beq
  header_lines-gpgsig tree ps a c first ls e i x =
      header_lines-sig tree ps a c (first ∷ []) ls e i x

  abbrev pub header_of : Bytes → List Bytes → Bytes → Bytes → List Bytes → List Bytes
  header_of tree ps author committer sig =
      map parent_line ps ++ ((codes "author " ++ author) ∷ (codes "committer " ++ committer) ∷ sig)

  header_lines-authors :
      (tree : Bytes) (ps : List Bytes) (author committer : Bytes) (sig : List Bytes)
      (a c : AuthorTime)
      → parse_author_time p author ≡ gives a
      → parse_author_time p committer ≡ gives c
      → header_lines p
          (before_author tree ps)
          ((codes "author " ++ author) ∷ (codes "committer " ++ committer) ∷ sig)
        ≡ header_lines p (with_authors tree ps a c) sig
  unfolding header_lines cut beq
  header_lines-authors tree ps author committer sig a c x y = rw (x, y) refl

  header_lines-header_of :
      (tree : Bytes) (ps : List Bytes) (author committer : Bytes) (sig : List Bytes)
      (a c : AuthorTime)
      → parse_author_time p author ≡ gives a
      → parse_author_time p committer ≡ gives c
      → header_lines p empty_header
          ((codes "tree " ++ tree) ∷ header_of tree ps author committer sig)
        ≡ header_lines p (with_authors tree ps a c) sig
  unfolding header_lines cut beq
  header_lines-header_of tree ps author committer sig a c x y =
      let rest = (codes "author " ++ author) ∷ (codes "committer " ++ committer) ∷ sig in
      header_lines-append (before_author tree []) (map parent_line ps) rest
      ∙ (ap (λ m. m >>= (λ h. header_lines p h rest)) (header_lines-parents tree [] ps)
          ∙ header_lines-authors tree ps author committer sig a c x y)

  -- A signature or none, as lines of the header and as the lines that are kept.
  abbrev pub Sig : Type 0
  Sig = Option (Bytes × List Bytes × Bytes)

  abbrev pub IsSig : Sig → Type 0
  IsSig none = Unit
  IsSig (some g) = All IsInside g.1 × IsEnd g.2

  abbrev pub lines_of_sig : Sig → List Bytes
  lines_of_sig none = []
  lines_of_sig (some g) = sig_lines g.0 g.1 g.2

  abbrev pub kept_of_sig : Sig → List Bytes
  kept_of_sig none = []
  kept_of_sig (some g) = g.0 ∷ (g.1 ++ (g.2 ∷ []))

  sig_read :
      (tree : Bytes) (ps : List Bytes) (a c : AuthorTime) (g : Sig)
      → IsSig g
      → header_lines p (with_authors tree ps a c) (lines_of_sig g)
        ≡ gives (record (with_authors tree ps a c) { sig = kept_of_sig g })
  unfolding header_lines
  sig_read tree ps a c none i = refl
  sig_read tree ps a c (some g) i = header_lines-gpgsig tree ps a c g.0 g.1 g.2 i.0 i.1

  -- A commit in git's format is read back: a line for the tree, one for each parent, one for the
  -- author, one for the committer and the lines of a signature if there is one, then an empty line
  -- and the message, whatever it holds. No line of the header is empty, the two authors are ones that
  -- can be read, and a signature ends at its first end line. The co-authors are those that the lines
  -- of the message give, with the author's time.
  pub parse_commit_object-header_of :
      (id tree : Bytes) (ps : List Bytes) (author committer message : Bytes) (g : Sig)
      (a c : AuthorTime)
      → All IsHeaderLine
          ((codes "tree " ++ tree) ∷ header_of tree ps author committer (lines_of_sig g))
      → parse_author_time p author ≡ gives a
      → parse_author_time p committer ≡ gives c
      → IsSig g
      → (let source =
            lines_text (codes "tree " ++ tree) (header_of tree ps author committer (lines_of_sig g))
            ++ (10 ∷ 10 ∷ message) in
          parse_commit_object p id source
          ≡ gives (record {
            id = id;
            tree_obj_id = tree;
            parent_id_list = ps;
            author_info = a;
            co_author_info = co_authors p a.time [] ((split 10 message).0 ∷ (split 10 message).1);
            committer_info = c;
            commit_time = c.time;
            commit_message = message;
            signature = join (10 ∷ []) (kept_of_sig g);
            raw_data = source;
          }))
  unfolding commit_of
  parse_commit_object-header_of id tree ps author committer message g a c l x y i =
      let ls = header_of tree ps author committer (lines_of_sig g) in
      let source = lines_text (codes "tree " ++ tree) ls ++ (10 ∷ 10 ∷ message) in
      parse_commit_object-lines id (codes "tree " ++ tree) ls message l
      ∙ ap (λ m. m >>= (λ h. gives (commit_of p id source message h)))
          (header_lines-header_of tree ps author committer (lines_of_sig g) a c x y
            ∙ sig_read tree ps a c g i)
