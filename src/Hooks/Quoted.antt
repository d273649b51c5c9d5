-- ===== src/Hooks/Quoted.antt =====
-- What is quoted for the shell is read back as one word.
use gitus.Prelude.{
  ℕ, Bool, Bytes, [], ◌∷◌, ◌++◌, ◌≡◌, refl, arith, Option, none, some, true, false, Bool-cases, ap,
  if◌then◌else◌, ◌==◌, append_assoc, inl, ◌||◌, ◌∙◌, sym, ==_iff, inr,
}
use gitus.Hooks.{shell_quote, quoted}

-- How the shell reads a word: outside quotes, between single quotes, or right behind a backslash.
pub data Reading : Type 0 where
  outside inside escaping : Reading

abbrev pub ends_word : ℕ → Bool
ends_word c = c == b' ' || c == 10 || c == b';'

abbrev before : ℕ → Option (Bytes × Bytes) → Option (Bytes × Bytes)
before c none = none
before c (some (w, rest)) = some (c ∷ w, rest)

-- The word and what follows it; `none` for a word that does not end. Of the shell's other special
-- characters outside quotes, none is read.
unfoldable pub shell_word : Reading → Bytes → Option (Bytes × Bytes)
shell_word outside [] = some ([], [])
shell_word inside [] = none
shell_word escaping [] = none
shell_word escaping (c ∷ s) = before c (shell_word outside s)
shell_word inside (c ∷ s) =
    let closed = shell_word outside s in
    let more = before c (shell_word inside s) in if c == 39 then closed else more
shell_word outside (c ∷ s) =
    let opened = shell_word inside s in
    let escaped = shell_word escaping s in
    let more = before c (shell_word outside s) in
    if c == 39
    then opened
    else if c == b'\\'
    then escaped
    else if ends_word c
    then some ([], c ∷ s)
    else more

abbrev prepend : Bytes → Option (Bytes × Bytes) → Option (Bytes × Bytes)
prepend [] r = r
prepend (c ∷ s) r = before c (prepend s r)

quote_plain :
    (c : ℕ) (s t : Bytes)
    → (c == 39) ≡ false
    → shell_word inside ((c ∷ quoted s) ++ (39 ∷ t))
      ≡ before c (shell_word inside (quoted s ++ (39 ∷ t)))
unfolding shell_word
quote_plain c s t h = rw h refl

word_ends :
    (c : ℕ) (rest : Bytes)
    → ends_word c ≡ true
    → shell_word outside (c ∷ rest) ≡ some ([], c ∷ rest)
unfolding shell_word
word_ends c rest h = ground arith

shell_word-quoted :
    (s t : Bytes) → shell_word inside (quoted s ++ (39 ∷ t)) ≡ prepend s (shell_word outside t)
unfolding shell_word
shell_word-quoted [] t = refl
shell_word-quoted (c ∷ s) t = elim (Bool-cases (c == 39)) [
  | inl h ↦ rw h (
      ap (before 39) (shell_word-quoted s t)
      ∙ ap (λ k. before k (prepend s (shell_word outside t))) (sym ((==_iff c 39).0 h)))
  | inr h ↦ rw h (quote_plain c s t h ∙ ap (before c) (shell_word-quoted s t))
]

prepend-some : (s rest : Bytes) → prepend s (some ([], rest)) ≡ some (s, rest)
prepend-some [] rest = refl
prepend-some (c ∷ s) rest = rw (prepend-some s rest) refl

-- The shell reads a quoted text as one word, which is the text, whatever bytes it holds and whatever
-- follows behind a space, a line feed or a semicolon.
pub shell_word-shell_quote :
    (s : Bytes) (c : ℕ) (rest : Bytes)
    → ends_word c ≡ true
    → shell_word outside (shell_quote s ++ (c ∷ rest)) ≡ some (s, c ∷ rest)
unfolding shell_word shell_quote
shell_word-shell_quote s c rest h =
    ap (shell_word inside) (append_assoc (quoted s) (39 ∷ []) (c ∷ rest))
    ∙ (shell_word-quoted s (c ∷ rest)
        ∙ (ap (prepend s) (word_ends c rest h) ∙ prepend-some s (c ∷ rest)))
