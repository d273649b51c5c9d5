-- ===== src/PackedRefs/RoundTrip.antt =====
-- The references of a file are read back from its text.
use gitus.Prelude.{
  Bytes, List, [], ◌∷◌, done, panics, Free, is_space, split, ℕ, ◌++◌, ◌≡◌, false, ◌==◌, arith,
  trim_space-Free, refl, All, Free-append, map, ap, ◌∙◌, Free-weaken, split-piece, split-whole,
}
use gitus.PackedRefs.{PackedRefIndexItem, is_skipped, item_of, read_items, read_packed_ref_index}

abbrev pub IsRef : PackedRefIndexItem → Type 0
IsRef r = (is_skipped r.id ≡ false) × Free is_space r.id × Free is_space r.name

-- Lines of a file that git writes.
pub data Line : Type 0 where
  ref : PackedRefIndexItem → Line
  -- behind `#` or `^`
  note : Bytes → Line
  peeled : Bytes → Line

abbrev pub IsLine : Line → Type 0
IsLine (ref r) = IsRef r
IsLine (note s) = Free (λ c. c == 10) s
IsLine (peeled s) = Free (λ c. c == 10) s

abbrev pub line_text : Line → Bytes
line_text (ref r) = r.id ++ (b' ' ∷ r.name)
line_text (note s) = b'#' ∷ s
line_text (peeled s) = b'^' ∷ s

abbrev pub text_of : List Line → Bytes
text_of [] = []
text_of (l ∷ ls) = line_text l ++ (10 ∷ text_of ls)

abbrev pub refs_of : List Line → List PackedRefIndexItem
refs_of [] = []
refs_of (ref r ∷ ls) = r ∷ refs_of ls
refs_of (note s ∷ ls) = refs_of ls
refs_of (peeled s ∷ ls) = refs_of ls

space_is : (c : ℕ) → is_space c ≡ false → (c == 32) ≡ false
unfolding is_space
space_is c h = ground arith

feed_is : (c : ℕ) → is_space c ≡ false → (c == 10) ≡ false
unfolding is_space
feed_is c h = ground arith

skipped-more : (s t : Bytes) → is_skipped s ≡ false → is_skipped (s ++ t) ≡ false
unfolding is_skipped
skipped-more [] t h = cc
skipped-more (c ∷ s) t h = h

line-one : (l : Line) → IsLine l → Free (λ c. c == 10) (line_text l)
line-one (ref r) h =
    Free-append (λ c. c == 10) r.id (32 ∷ r.name)
      (Free-weaken is_space (λ c. c == 10) r.id feed_is h.1)
      (refl, Free-weaken is_space (λ c. c == 10) r.name feed_is h.2)
line-one (note s) h = (refl, h)
line-one (peeled s) h = (refl, h)

item-read : (r : PackedRefIndexItem) → IsRef r → item_of (split 32 (r.id ++ (32 ∷ r.name))) ≡ done r
unfolding item_of
item-read r h =
    rw
      (
        split-piece 32 r.id r.name (Free-weaken is_space (λ c. c == 32) r.id space_is h.1),
        split-whole 32 r.name (Free-weaken is_space (λ c. c == 32) r.name space_is h.2),
        trim_space-Free r.id h.1,
        trim_space-Free r.name h.2,
      )
      refl

skip-kept : (r : PackedRefIndexItem) → IsRef r → is_skipped (line_text (ref r)) ≡ false
skip-kept r h = skipped-more r.id (32 ∷ r.name) h.0

-- Reading the lines, with the empty piece behind the last line feed.
read_items-refs :
    (ls : List Line)
    → All IsLine ls
    → read_items (map line_text ls ++ ([] ∷ [])) ≡ done (refs_of ls)
unfolding read_items
read_items-refs [] a = refl
read_items-refs (ref r ∷ ls) a = rw (skip-kept r a.0, item-read r a.0, read_items-refs ls a.1) refl
read_items-refs (note s ∷ ls) a = read_items-refs ls a.1
read_items-refs (peeled s ∷ ls) a = read_items-refs ls a.1

split-text_of :
    (ls : List Line)
    → All IsLine ls
    → (let r = split 10 (text_of ls) in r.0 ∷ r.1) ≡ map line_text ls ++ ([] ∷ [])
unfolding split
split-text_of [] a = refl
split-text_of (l ∷ ls) a =
    rw (split-piece 10 (line_text l) (text_of ls) (line-one l a.0))
      (ap (◌∷◌ (line_text l)) (split-text_of ls a.1))

-- A file of references, comments and the objects behind tags, whose references hold no white space
-- and begin with neither `#` nor `^`, is read as the list of its references in their order.
pub read_packed_ref_index-text_of :
    (ls : List Line) → All IsLine ls → read_packed_ref_index (text_of ls) ≡ done (refs_of ls)
unfolding read_packed_ref_index
read_packed_ref_index-text_of ls a = ap read_items (split-text_of ls a) ∙ read_items-refs ls a

-- A line without a space is not a reference, and reading it panics.
read_items-panics :
    (item : Bytes) (items : List Bytes)
    → is_skipped item ≡ false
    → Free (λ c. c == 32) item
    → read_items (item ∷ items) ≡ panics
unfolding read_items item_of
read_items-panics item items h f = rw (h, split-whole 32 item f) refl
