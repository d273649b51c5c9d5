-- ===== src/Commits/CoAuthors.antt =====
-- The co-authors of a message.
use gitus.Prelude.{
  Bool, Bytes, List, [], ◌∷◌, ◌++◌, ◌≡◌, refl, Option, none, some, true, false, beq, ◌||◌, ◌&&◌,
  Bool-cases, beq_sym, trim_space, inl, ◌∙◌, inr,
}
use gitus.Authors.{Time, AuthorTime, AuthorPatterns}
use gitus.Commits.{author_time_already_exists, co_author_added, co_authors}

-- Every co-author is there once, by name and address.
abbrev pub IsDistinct : List AuthorTime → Type 0
IsDistinct [] = Unit
IsDistinct (a ∷ authors) =
    (author_time_already_exists authors a.author_name a.author_email ≡ false) × IsDistinct authors

or_false : (b : Bool) → (b || false) ≡ b
or_false true = refl
or_false false = refl

or_assoc : (a b c : Bool) → (a || (b || c)) ≡ ((a || b) || c)
or_assoc true b c = refl
or_assoc false b c = refl

first_false : (a b : Bool) → (a || b) ≡ false → a ≡ false
first_false true b h = cc
first_false false b h = refl

second_false : (a b : Bool) → (a || b) ≡ false → b ≡ false
second_false true b h = cc
second_false false b h = h

exists-append :
    (authors : List AuthorTime) (b : AuthorTime) (name email : Bytes)
    → author_time_already_exists (authors ++ (b ∷ [])) name email ≡ (
        author_time_already_exists authors name email
        || (beq b.author_name name && beq b.author_email email))
unfolding author_time_already_exists
exists-append [] b name email = or_false (beq b.author_name name && beq b.author_email email)
exists-append (a ∷ authors) b name email = rw (exists-append authors b name email) (
    or_assoc (beq a.author_name name && beq a.author_email email)
      (author_time_already_exists authors name email)
      (beq b.author_name name && beq b.author_email email))

IsDistinct-append :
    (authors : List AuthorTime) (b : AuthorTime)
    → IsDistinct authors
    → author_time_already_exists authors b.author_name b.author_email ≡ false
    → IsDistinct (authors ++ (b ∷ []))
unfolding author_time_already_exists
IsDistinct-append [] b d h = (refl, tt)
IsDistinct-append (a ∷ authors) b d h =
    let same = beq a.author_name b.author_name && beq a.author_email b.author_email in
    let rest = author_time_already_exists authors b.author_name b.author_email in
    let differ : (beq b.author_name a.author_name && beq b.author_email a.author_email) ≡ false =
      rw (beq_sym b.author_name a.author_name, beq_sym b.author_email a.author_email)
        (first_false same rest h) in
    (
      exists-append authors b a.author_name a.author_email ∙ rw (d.0, differ) refl,
      IsDistinct-append authors b d.1 (second_false same rest h),
    )

co_author_added-IsDistinct :
    (t : Time) (authors : List AuthorTime) (o : Option (Bytes × Bytes))
    → IsDistinct authors
    → IsDistinct (co_author_added t authors o)
unfolding co_author_added
co_author_added-IsDistinct t authors none d = d
co_author_added-IsDistinct t authors (some m) d =
    elim (Bool-cases (author_time_already_exists authors m.0 m.1)) [
      | inl h ↦ rw h d
      | inr h ↦ rw h (
          IsDistinct-append authors (record { author_name = m.0; author_email = m.1; time = t }) d
            h)
    ]

co_authors-keeps :
    (p : AuthorPatterns) (t : Time) (authors : List AuthorTime) (ls : List Bytes)
    → IsDistinct authors
    → IsDistinct (co_authors p t authors ls)
unfolding co_authors
co_authors-keeps p t authors [] d = d
co_authors-keeps p t authors (l ∷ ls) d =
    co_authors-keeps p t (co_author_added t authors (p.co_author (trim_space l))) ls
      (co_author_added-IsDistinct t authors (p.co_author (trim_space l)) d)

-- The co-authors of a message are distinct in their names and addresses, however often a line
-- repeats.
pub co_authors-IsDistinct :
    (p : AuthorPatterns) (t : Time) (ls : List Bytes) → IsDistinct (co_authors p t [] ls)
co_authors-IsDistinct p t ls = co_authors-keeps p t [] ls tt
