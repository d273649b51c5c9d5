-- ===== src/Readers/Until.antt =====
-- Reading up to a delimiter, byte by byte and in chunks.
use gitus.Prelude.{
  sym, append_assoc, length-drop-le, ℕ, zero, suc, ◌≡◌, refl, arith, Bytes, [], ◌∷◌, ◌++◌, ◌≤◌,
  length, some, none, Option, take, drop, ap, ◌∙◌, ◌==◌, true, Free, Bool-cases, inl, inr,
}
use gitus.Readers.{
  read_until, read_more, index_byte, plus_one, chunk_read, read_chunks, read_until_bytes,
  chunk_size,
}

same_byte : (c : ℕ) → (c == c) ≡ true
same_byte c = ground arith

-- The text before the delimiter is read, and the text behind it is left.
pub read_until-append :
    (c : ℕ) (p s : Bytes) → Free (λ b. b == c) p → read_until c (p ++ (c ∷ s)) ≡ some (p, s)
unfolding read_until
read_until-append c [] s f = rw (same_byte c) refl
read_until-append c (b ∷ p) s f = rw (f.0, read_until-append c p s f.1) refl

-- What is read, with what was read before in front.
abbrev prefixed : Bytes → Option (Bytes × Bytes) → Option (Bytes × Bytes)
prefixed res none = none
prefixed res (some (r, rest)) = some (res ++ r, rest)

prefixed_none : (o : Option (Bytes × Bytes)) → prefixed [] o ≡ o
prefixed_none none = refl
prefixed_none (some (r, rest)) = refl

prefixed_more :
    (b : ℕ) (t : Bytes) (o : Option (Bytes × Bytes))
    → read_more b (prefixed t o) ≡ prefixed (b ∷ t) o
prefixed_more b t none = refl
prefixed_more b t (some (r, rest)) = refl

prefixed_twice :
    (res t : Bytes) (o : Option (Bytes × Bytes))
    → prefixed (res ++ t) o ≡ prefixed res (prefixed t o)
prefixed_twice res t none = refl
prefixed_twice res t (some (r, rest)) = ap (λ x. some (x, rest)) (append_assoc res t r)

-- What the place of the delimiter among the first `n` bytes says of the text.
abbrev chunk_view : ℕ → ℕ → Bytes → Option ℕ → Option (Bytes × Bytes)
chunk_view c n s (some i) = some (take i s, drop (suc i) s)
chunk_view c n s none = prefixed (take n s) (read_until c (drop n s))

chunk_view_more :
    (c n b : ℕ) (s : Bytes) (o : Option ℕ)
    → read_more b (chunk_view c n s o) ≡ chunk_view c (suc n) (b ∷ s) (plus_one o)
chunk_view_more c n b s (some i) = refl
chunk_view_more c n b s none = prefixed_more b (take n s) (read_until c (drop n s))

read_until_view :
    (c n : ℕ) (s : Bytes) → read_until c s ≡ chunk_view c n s (index_byte c (take n s))
unfolding read_until
read_until_view c zero s = sym (prefixed_none (read_until c s))
read_until_view c (suc n) [] = refl
read_until_view c (suc n) (b ∷ s) = elim (Bool-cases (b == c)) [
  | inl p ↦ rw (p) refl
  | inr p ↦
      rw (p) (
        ap (read_more b) (read_until_view c n s)
        ∙ chunk_view_more c n b s (index_byte c (take n s)))
]

chunk_read_view :
    (c : ℕ) (more : Bytes → Option (Bytes × Bytes)) (res s : Bytes) (o : Option ℕ)
    → (more (res ++ take chunk_size s)
        ≡ prefixed (res ++ take chunk_size s) (read_until c (drop chunk_size s)))
    → chunk_read more res s o ≡ prefixed res (chunk_view c chunk_size s o)
chunk_read_view c more res s (some i) h = refl
chunk_read_view c more res s none h =
    h ∙ prefixed_twice res (take chunk_size s) (read_until c (drop chunk_size s))

read_chunks-read_until :
    (fuel c : ℕ) (res s : Bytes)
    → length s ≤ fuel
    → read_chunks fuel c res s ≡ prefixed res (read_until c s)
unfolding read_chunks read_until
read_chunks-read_until fuel c res [] h = refl
read_chunks-read_until zero c res (b ∷ s) h = absurd (omega arith)
read_chunks-read_until (suc fuel) c res (b ∷ s) h =
    chunk_read_view c (λ r. read_chunks fuel c r (drop chunk_size (b ∷ s))) res (b ∷ s)
      (index_byte c (take chunk_size (b ∷ s)))
      (read_chunks-read_until fuel c (res ++ take chunk_size (b ∷ s)) (drop chunk_size (b ∷ s))
        (omega (arith, length-drop-le 255 s)))
    ∙ ap (prefixed res) (sym (read_until_view c chunk_size (b ∷ s)))

-- Reading in chunks of 256 bytes with a step back is the same as reading byte by byte, for any bytes
-- and delimiter.
pub read_until_bytes-read_until : (c : ℕ) (s : Bytes) → read_until_bytes c s ≡ read_until c s
unfolding read_until_bytes
read_until_bytes-read_until c s =
    read_chunks-read_until (length s) c [] s (omega arith) ∙ prefixed_none (read_until c s)
