-- ===== src/ShellParse/Words.antt =====
-- ParseShellCommand on lines of plain words.
use gitus.Prelude.{
  ℕ, zero, suc, ◌≤◌, ◌<◌, ◌≡◌, refl, sym, ap, ◌∙◌, true, false, List, [], ◌∷◌, ◌++◌, arith, Bytes,
  length, join, Free, All, done, panics, length-append,
}
use mathlib.Core.List.{append-nil, append_assoc}
use gitus.ShellParse.{
  is_white_space, skip_white, Scanner, parse_round, parse_loop, parse_shell_command,
}
use gitus.ShellParse.Scan.{is_quote, Ends, scan_word-append}

-- A word that the parser takes as it stands: no white space, and no quote in front.
abbrev pub IsWord : Bytes → Type 0
IsWord [] = ⊥
IsWord (c ∷ s) = (is_quote c ≡ false) × Free is_white_space (c ∷ s)

abbrev pub at : Bytes → List Bytes → List Bytes → Scanner
at rest buf res = record { rest = rest; buf = buf; res = res }

-- A round at the beginning of a word takes the word.
pub parse_round-word :
    (c : ℕ) (w t : Bytes) (buf res : List Bytes)
    → IsWord (c ∷ w)
    → Ends t
    → parse_round c (at (c ∷ w ++ t) buf res) ≡ done (at t buf (res ++ (c ∷ w) ∷ []))
unfolding parse_round
parse_round-word c w t buf res h e =
    ground (arith, scan_word-append w t h.1.1 e, scan_word-append (c ∷ w) t h.1 e)

-- What a space does to the buffer: its text is appended to the words, unless it is empty.
abbrev pub flush : List Bytes → List Bytes → List Bytes
flush [] res = res
flush (x ∷ buf) res = res ++ join [] (x ∷ buf) ∷ []

space_is_white : is_white_space 32 ≡ true
unfolding is_white_space
space_is_white = refl

skip_white-word : (c : ℕ) (s : Bytes) → IsWord (c ∷ s) → skip_white (c ∷ s) ≡ done (c ∷ s)
unfolding skip_white
skip_white-word c s h = rw h.1.0

-- A round at one space before a word takes the word, and before it what the buffer still holds.
pub parse_round-space :
    (c : ℕ) (w t : Bytes) (buf res : List Bytes)
    → IsWord (c ∷ w)
    → Ends t
    → parse_round 32 (at (32 ∷ c ∷ w ++ t) buf res) ≡ done (at t [] (flush buf res ++ (c ∷ w) ∷ []))
unfolding parse_round
parse_round-space c w t [] res h e =
    ground (arith, space_is_white, scan_word-append w t h.1.1 e, scan_word-append (c ∷ w) t h.1 e)
parse_round-space c w t (x ∷ buf) res h e =
    ground (arith, space_is_white, scan_word-append w t h.1.1 e, scan_word-append (c ∷ w) t h.1 e)

-- The words, each after a space.
abbrev pub spaced : List Bytes → Bytes
spaced [] = []
spaced (w ∷ ws) = 32 ∷ w ++ spaced ws

pub spaced-Ends : (ws : List Bytes) → Ends (spaced ws)
unfolding is_white_space
spaced-Ends [] = tt
spaced-Ends (w ∷ ws) = refl

length-spaced : (w t : Bytes) (n : ℕ) → length (32 ∷ w ++ t) ≤ suc n → length t ≤ n
length-spaced w t n h = omega (arith, length-append w t)

pub parse_loop-spaced :
    (fuel : ℕ) (ws res : List Bytes)
    → All IsWord ws
    → length (spaced ws) ≤ fuel
    → parse_loop fuel (spaced ws) (at (spaced ws) [] res) ≡ done (res ++ ws)
unfolding parse_loop
parse_loop-spaced fuel [] res a h = ap done (sym (append-nil res))
parse_loop-spaced zero (w ∷ ws) res a h = absurd (omega arith)
parse_loop-spaced (suc fuel) ([] ∷ ws) res a h = absurd a.0
parse_loop-spaced (suc fuel) ((c ∷ w) ∷ ws) res a h =
    rw (parse_round-space c w (spaced ws) [] res a.0 (spaced-Ends ws)) (
      parse_loop-spaced fuel ws (res ++ (c ∷ w) ∷ []) a.1 (length-spaced (c ∷ w) (spaced ws) fuel h)
      ∙ ap done (append_assoc res ((c ∷ w) ∷ []) ws))

-- A line of plain words, each pair of neighbours with one space between, is read as these words.
pub parse_shell_command-words :
    (w : Bytes) (ws : List Bytes)
    → IsWord w
    → All IsWord ws
    → parse_shell_command (w ++ spaced ws) ≡ done (w ∷ ws)
unfolding parse_shell_command
parse_shell_command-words [] ws h a = absurd h
parse_shell_command-words (c ∷ w) ws h a =
    rw (parse_round-word c w (spaced ws) [] [] h (spaced-Ends ws)) (
      parse_loop-spaced (length (w ++ spaced ws)) ws ((c ∷ w) ∷ []) a
        (omega (arith, length-append w (spaced ws))))

parse_loop-space :
    (fuel : ℕ) (res : List Bytes)
    → 0 < fuel
    → parse_loop fuel (32 ∷ []) (at (32 ∷ []) [] res) ≡ panics
unfolding parse_loop skip_white
parse_loop-space zero res h = absurd (omega arith)
parse_loop-space (suc fuel) res h = ground (arith, space_is_white)

-- A line that ends in a space is no list of words: the parser reads past its end and panics.
pub parse_shell_command-trailing :
    (w : Bytes) → IsWord w → parse_shell_command (w ++ 32 ∷ []) ≡ panics
unfolding parse_shell_command
parse_shell_command-trailing [] h = absurd h
parse_shell_command-trailing (c ∷ w) h =
    rw (parse_round-word c w (32 ∷ []) [] [] h space_is_white) (
      parse_loop-space (length (w ++ 32 ∷ [])) ((c ∷ w) ∷ [])
        (omega (arith, length-append w (32 ∷ []))))
