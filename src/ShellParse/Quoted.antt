-- ===== src/ShellParse/Quoted.antt =====
-- ParseShellCommand on quoted arguments, the form in which git clients send paths.
use gitus.Prelude.{
  ◌≡◌, refl, true, false, List, [], ◌∷◌, ◌++◌, arith, Bytes, Free, done, ℕ, ap, length,
  length-append, ◌<◌, suc, zero,
}
use gitus.ShellParse.{
  is_white_space, skip_white, quote_byte, parse_round, parse_loop, parse_shell_command,
}
use gitus.ShellParse.Scan.{is_quote, pieces, join-pieces, scan_quoted-append}
use gitus.ShellParse.Words.{at, flush, IsWord, parse_round-word, parse_round-space}
use mathlib.Core.List.{append-nil}

abbrev pub quoted : Bytes → Bytes
quoted p = quote_byte ∷ p ++ quote_byte ∷ []

quote_not_white : is_white_space quote_byte ≡ false
unfolding is_white_space
quote_not_white = refl

space_is_white : is_white_space 32 ≡ true
unfolding is_white_space
space_is_white = refl

-- A round at a quote takes the text up to the next one, and leaves it in the buffer.
parse_round-quoted :
    (p t : Bytes) (buf res : List Bytes)
    → Free is_quote p
    → parse_round quote_byte (at (quote_byte ∷ p ++ quote_byte ∷ t) buf res)
      ≡ done (at t (pieces p) (res ++ p ∷ []))
unfolding parse_round
parse_round-quoted p t buf res f =
    ground (arith, quote_not_white, scan_quoted-append p t [] f, join-pieces p)

parse_round-space_quoted :
    (p t : Bytes) (buf res : List Bytes)
    → Free is_quote p
    → parse_round 32 (at (32 ∷ quote_byte ∷ p ++ quote_byte ∷ t) buf res)
      ≡ done (at t (pieces p) (flush buf res ++ p ∷ []))
unfolding parse_round skip_white
parse_round-space_quoted p t [] res f =
    ground (arith, quote_not_white, space_is_white, scan_quoted-append p t [] f, join-pieces p)
parse_round-space_quoted p t (x ∷ buf) res f =
    ground (arith, quote_not_white, space_is_white, scan_quoted-append p t [] f, join-pieces p)

parse_loop-space_quoted :
    (fuel : ℕ) (p : Bytes) (res : List Bytes)
    → Free is_quote p
    → 0 < fuel
    → parse_loop fuel (32 ∷ quoted p) (at (32 ∷ quoted p) [] res) ≡ done (res ++ p ∷ [])
unfolding parse_loop
parse_loop-space_quoted zero p res f h = absurd (omega arith)
parse_loop-space_quoted (suc fuel) p res f h = rw (parse_round-space_quoted p [] [] res f)

-- `git-upload-pack '/path'`, the form that git clients send: a word, a space and a path between
-- quotes that holds no quote is read as the word and the path.
pub parse_shell_command-quoted :
    (w p : Bytes)
    → IsWord w
    → Free is_quote p
    → parse_shell_command (w ++ 32 ∷ quoted p) ≡ done (w ∷ p ∷ [])
unfolding parse_shell_command
parse_shell_command-quoted [] p h f = absurd h
parse_shell_command-quoted (c ∷ w) p h f =
    rw (parse_round-word c w (32 ∷ quoted p) [] [] h space_is_white) (
      parse_loop-space_quoted (length (w ++ 32 ∷ quoted p)) p ((c ∷ w) ∷ []) f
        (omega (arith, length-append w (32 ∷ quoted p))))

flush-pieces :
    (c : ℕ) (p : Bytes) (res : List Bytes) → flush (pieces (c ∷ p)) res ≡ res ++ (c ∷ p) ∷ []
flush-pieces c p res = ap (λ (s : Bytes). res ++ s ∷ []) (join-pieces (c ∷ p))

parse_loop-after_quoted :
    (fuel : ℕ) (a : ℕ) (p : Bytes) (c : ℕ) (w : Bytes)
    → IsWord (c ∷ w)
    → 0 < fuel
    → parse_loop fuel (32 ∷ c ∷ w) (at (32 ∷ c ∷ w) (pieces (a ∷ p)) ((a ∷ p) ∷ []))
      ≡ done ((a ∷ p) ∷ (a ∷ p) ∷ (c ∷ w) ∷ [])
unfolding parse_loop
parse_loop-after_quoted zero a p c w h f = absurd (omega arith)
parse_loop-after_quoted (suc fuel) a p c w h f = ground (
  arith,
  append-nil w,
  parse_round-space c w [] (pieces (a ∷ p)) ((a ∷ p) ∷ []) h tt,
  flush-pieces a p ((a ∷ p) ∷ []),
)

-- A quoted argument that is not empty and that another word follows is read twice: the buffer is
-- not cleared at the closing quote, and the space appends it to the words again.
pub parse_shell_command_repeats :
    (a : ℕ) (p : Bytes) (c : ℕ) (w : Bytes)
    → Free is_quote (a ∷ p)
    → IsWord (c ∷ w)
    → parse_shell_command (quote_byte ∷ (a ∷ p) ++ quote_byte ∷ 32 ∷ c ∷ w)
      ≡ done ((a ∷ p) ∷ (a ∷ p) ∷ (c ∷ w) ∷ [])
unfolding parse_shell_command
parse_shell_command_repeats a p c w f h =
    rw (parse_round-quoted (a ∷ p) (32 ∷ c ∷ w) [] [] f) (
      parse_loop-after_quoted (length ((a ∷ p) ++ quote_byte ∷ 32 ∷ c ∷ w)) a p c w h (omega arith))
