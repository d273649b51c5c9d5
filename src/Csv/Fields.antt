-- ===== src/Csv/Fields.antt =====
-- Fields that are escaped and joined by commas are read back.
use gitus.Prelude.{
  Bytes, List, [], ◌∷◌, ◌++◌, ◌≡◌, refl, arith, true, false, done, codes, if◌then◌else◌, ℕ, ◌==◌,
  ◌||◌, All, Bool-cases, join, last_or, panics, ◌⊎◌, inl, map, ap, inr, ◌∙◌, append_assoc, sym,
}
use gitus.Csv.{
  is_space_byte, without_escapes, fields_of, skip_spaces, split_spaces, trimmed_end, parse_csv,
  replace_all,
}
use mathlib.Core.List.{append-nil}

-- A field with a backslash before each of its commas and backslashes.
abbrev pub escaped : Bytes → Bytes
escaped [] = []
escaped (c ∷ s) = if c == b'\\' || c == b',' then b'\\' ∷ c ∷ escaped s else c ∷ escaped s

pub replace_all-twice :
    (s : Bytes) → replace_all b',' (codes "\\,") (replace_all b'\\' (codes "\\\\") s) ≡ escaped s
unfolding replace_all
replace_all-twice [] = refl
replace_all-twice (c ∷ s) = ground (arith, replace_all-twice s)

without_escapes-plain :
    (c : ℕ) (s : Bytes) → (c == b'\\') ≡ false → without_escapes (c ∷ s) ≡ c ∷ without_escapes s
unfolding without_escapes
without_escapes-plain c [] h = refl
without_escapes-plain c (d ∷ s) h = rw h refl

without_escapes-pair :
    (d : ℕ) (s : Bytes)
    → (d == b'\\' || d == b',') ≡ true
    → without_escapes (b'\\' ∷ d ∷ s) ≡ d ∷ without_escapes s
unfolding without_escapes
without_escapes-pair d s h = ground arith

not_backslash : (c : ℕ) → (c == b'\\' || c == b',') ≡ false → (c == b'\\') ≡ false
not_backslash c h = ground arith

not_comma : (c : ℕ) → (c == b'\\' || c == b',') ≡ false → (c == b',') ≡ false
not_comma c h = ground arith

pub without_escapes-escaped : (s : Bytes) → without_escapes (escaped s) ≡ s
unfolding without_escapes
without_escapes-escaped [] = refl
without_escapes-escaped (c ∷ s) = elim (Bool-cases (c == b'\\' || c == b',')) [
  | inl h ↦ rw h (without_escapes-pair c (escaped s) h ∙ ap (◌∷◌ c) (without_escapes-escaped s))
  | inr h ↦ rw h (
      without_escapes-plain c (escaped s) (not_backslash c h)
      ∙ ap (◌∷◌ c) (without_escapes-escaped s))
]

fields_of-plain :
    (c : ℕ) (field s : Bytes)
    → (c == b'\\' || c == b',') ≡ false
    → fields_of false field (c ∷ s) ≡ fields_of false (field ++ (c ∷ [])) s
unfolding fields_of
fields_of-plain c field s h = rw (not_backslash c h, not_comma c h) refl

fields_of-escaped :
    (s rest field : Bytes)
    → fields_of false field (escaped s ++ rest) ≡ fields_of false (field ++ escaped s) rest
unfolding fields_of
fields_of-escaped [] rest field = rw (append-nil field) refl
fields_of-escaped (c ∷ s) rest field = elim (Bool-cases (c == b'\\' || c == b',')) [
  | inl h ↦ rw h (
      fields_of-escaped s rest (field ++ (b'\\' ∷ c ∷ []))
      ∙ ap (λ f. fields_of false f rest) (append_assoc field (b'\\' ∷ c ∷ []) (escaped s)))
  | inr h ↦ rw h (
      fields_of-plain c field (escaped s ++ rest) h
      ∙ (fields_of-escaped s rest (field ++ (c ∷ []))
          ∙ ap (λ f. fields_of false f rest) (append_assoc field (c ∷ []) (escaped s))))
]

fields_of-joined :
    (a : Bytes) (args : List Bytes)
    → fields_of false [] (join (codes ",") (map escaped (a ∷ args))) ≡ a ∷ args
unfolding join fields_of
fields_of-joined a [] =
    ap (fields_of false []) (sym (append-nil (escaped a)))
    ∙ (fields_of-escaped a [] [] ∙ ap (λ f. f ∷ []) (without_escapes-escaped a))
fields_of-joined a (b ∷ args) =
    fields_of-escaped a (b',' ∷ join (codes ",") (map escaped (b ∷ args))) []
    ∙ (ap (λ f. f ∷ fields_of false [] (join (codes ",") (map escaped (b ∷ args))))
          (without_escapes-escaped a)
        ∙ ap (◌∷◌ a) (fields_of-joined b args))

-- A text that does not begin with white space, and that ends with neither white space nor a backslash.
abbrev pub BeginsWell : Bytes → Type 0
BeginsWell [] = Unit
BeginsWell (c ∷ s) = is_space_byte c ≡ false

abbrev pub EndsWell : Bytes → Type 0
EndsWell [] = Unit
EndsWell (c ∷ []) = (is_space_byte c ≡ false) × ((c == b'\\') ≡ false)
EndsWell (c ∷ d ∷ s) = EndsWell (d ∷ s)

split_spaces-kept : (c : ℕ) (s : Bytes) → EndsWell (c ∷ s) → split_spaces (c ∷ s) ≡ (c ∷ s, [])
unfolding split_spaces
split_spaces-kept c [] h = rw h.0 refl
split_spaces-kept c (d ∷ s) h = rw (split_spaces-kept d s h) refl

last_or-EndsWell : (b c : ℕ) (s : Bytes) → EndsWell (c ∷ s) → (last_or b (c ∷ s) == b'\\') ≡ false
last_or-EndsWell b c [] h = h.1
last_or-EndsWell b c (d ∷ s) h = last_or-EndsWell c d s h

pub parse_csv-well :
    (s : Bytes) → BeginsWell s → EndsWell s → parse_csv s ≡ done (fields_of false [] s)
unfolding parse_csv
parse_csv-well [] b e = refl
parse_csv-well (c ∷ s) b e = rw (b, split_spaces-kept c s e, last_or-EndsWell 0 c s e) refl

-- Fields that are joined by commas, each with a backslash before its commas and backslashes, are
-- read back, where the whole text begins with no white space and ends with neither white space nor
-- a backslash.
pub parse_csv-joined :
    (a : Bytes) (args : List Bytes)
    → BeginsWell (join (codes ",") (map escaped (a ∷ args)))
    → EndsWell (join (codes ",") (map escaped (a ∷ args)))
    → parse_csv (join (codes ",") (map escaped (a ∷ args))) ≡ done (a ∷ args)
parse_csv-joined a args b e =
    parse_csv-well (join (codes ",") (map escaped (a ∷ args))) b e
    ∙ ap done (fields_of-joined a args)

-- A backslash at the end makes the slice run past the text.
abbrev pub EndsInBackslash : Bytes → Type 0
EndsInBackslash [] = ⊥
EndsInBackslash (c ∷ []) = c ≡ b'\\'
EndsInBackslash (c ∷ d ∷ s) = EndsInBackslash (d ∷ s)

split_spaces-backslash :
    (c : ℕ) (s : Bytes) → EndsInBackslash (c ∷ s) → split_spaces (c ∷ s) ≡ (c ∷ s, [])
unfolding split_spaces
split_spaces-backslash c [] h = rw h refl
split_spaces-backslash c (d ∷ s) h = rw (split_spaces-backslash d s h) refl

last_or-backslash : (b c : ℕ) (s : Bytes) → EndsInBackslash (c ∷ s) → last_or b (c ∷ s) ≡ b'\\'
last_or-backslash b c [] h = h
last_or-backslash b c (d ∷ s) h = last_or-backslash c d s h

trimmed_end-panics : (c : ℕ) (s : Bytes) → EndsInBackslash (c ∷ s) → trimmed_end (c ∷ s) ≡ panics
unfolding trimmed_end
trimmed_end-panics c s h = rw (split_spaces-backslash c s h, last_or-backslash 0 c s h) refl

skip_spaces-backslash :
    (c : ℕ) (s : Bytes)
    → EndsInBackslash (c ∷ s)
    → (d : ℕ) × (t : Bytes) × (skip_spaces (c ∷ s) ≡ d ∷ t) × EndsInBackslash (d ∷ t)
unfolding skip_spaces
skip_spaces-backslash c [] h = (b'\\', [], rw h refl, refl)
skip_spaces-backslash c (d ∷ s) h = elim (Bool-cases (is_space_byte c)) [
  | inl e ↦ rw e (skip_spaces-backslash d s h)
  | inr e ↦ (c, d ∷ s, rw e refl, h)
]

-- Text of white space alone makes the slice end before it starts.
skip_spaces-All : (s : Bytes) → All (λ c. is_space_byte c ≡ true) s → skip_spaces s ≡ []
unfolding skip_spaces
skip_spaces-All [] a = refl
skip_spaces-All (c ∷ s) a = rw a.0 (skip_spaces-All s a.1)

-- ParseCSV panics on a text that ends in a backslash, and on a text of white space alone that is not
-- empty.
pub parse_csv-panics :
    (c : ℕ) (s : Bytes)
    → EndsInBackslash (c ∷ s) ⊎ All (λ k. is_space_byte k ≡ true) (c ∷ s)
    → parse_csv (c ∷ s) ≡ panics
unfolding parse_csv
parse_csv-panics c s (inl h) =
    let r = skip_spaces-backslash c s h in rw (r.2, trimmed_end-panics r.0 r.1 r.3) refl
parse_csv-panics c s (inr a) = rw (skip_spaces-All (c ∷ s) a) refl
