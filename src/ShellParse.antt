-- ===== src/ShellParse.antt =====
-- pkg/shellparse/main.go: the splitting of the command line that an SSH client sends. The index
-- `i` is the suffix that is left to read; an index past the end is a panic.
mod Scan
pub mod Words
pub mod Totality
pub mod Quoted
mod Tests
use mathlib.Core.List.{reverse}
use gitus.Prelude.{
  ℕ, zero, suc, ◌-◌, ◌+◌, Bool, true, false, ◌&&◌, ◌||◌, List, [], ◌∷◌, ◌++◌, ltb, ◌==◌,
  if◌then◌else◌, Bytes, codes, beq, length, take, join, Run, done, panics, no_fuel, ◌>>=◌,
}

-- `b'\b'` is the backspace, 8.
unfoldable pub is_white_space : ℕ → Bool
is_white_space r = r == 32 || r == 9 || r == 8

abbrev pub quote_byte : ℕ
quote_byte = 39

-- `'\''` and `'\!'`
abbrev pub escaped_quote : Bytes
escaped_quote = 39 ∷ 92 ∷ 39 ∷ 39 ∷ []

abbrev pub escaped_bang : Bytes
escaped_bang = 39 ∷ 92 ∷ 33 ∷ 39 ∷ []

-- `for isWhiteSpace(s[i]) && i < lens { i += 1 }`: the index is read before it is compared.
unfoldable pub skip_white : Bytes → Run Bytes
skip_white [] = panics
skip_white (c ∷ s) = if is_white_space c then skip_white s else done (c ∷ s)

-- The loop inside the quotes. The first argument is the number of bytes that the last `i += 4`
-- still passes over.
unfoldable pub scan_quoted : ℕ → List Bytes → Bytes → List Bytes × Bytes
scan_quoted skip buf [] = (buf, [])
scan_quoted (suc skip) buf (c ∷ s) = scan_quoted skip buf s
scan_quoted zero buf (c ∷ s) =
    let k = take 4 (c ∷ s) in
    let escape = scan_quoted 3 (buf ++ k ∷ []) s in
    let plain = scan_quoted 0 (buf ++ (c ∷ []) ∷ []) s in
    if c == quote_byte
    then (buf, c ∷ s)
    else if ltb 4 (length (c ∷ s)) && (beq k escaped_quote || beq k escaped_bang)
    then escape
    else plain

-- `for i < lens && !isWhiteSpace(s[i]) { i += 1 }`, with the bytes that it passes.
unfoldable pub scan_word : Bytes → Bytes × Bytes
scan_word [] = ([], [])
scan_word (c ∷ s) = if is_white_space c then ([], c ∷ s) else (c ∷ (scan_word s).0, (scan_word s).1)

-- The variables of the outer loop.
pub record Scanner : Type 0 where
  pub rest : Bytes
  pub buf : List Bytes
  pub res : List Bytes

abbrev is_nonempty : List Bytes → Bool
is_nonempty [] = false
is_nonempty (x ∷ xs) = true

-- The first `if` of the loop's body.
unfoldable pub parse_gap : ℕ → Scanner → Run Scanner
unfolding skip_white
parse_gap c p =
    if is_white_space c
    then (do
      rest ← skip_white p.rest
      done (
          if is_nonempty p.buf
          then record { rest = rest; buf = []; res = p.res ++ join [] p.buf ∷ [] }
          else record { rest = rest; buf = p.buf; res = p.res }))
    else done p

-- `if i < lens && s[i] == '\'' { i += 1 }`
unfoldable pub close_quote : Bytes → Bytes
close_quote [] = []
close_quote (c ∷ s) = if c == quote_byte then s else c ∷ s

-- The second `if` of the loop's body, at the byte `s[i]`.
unfoldable pub parse_argument : Bytes → Scanner → Run Scanner
unfolding scan_quoted scan_word close_quote
parse_argument [] p = panics
parse_argument (c ∷ s) p =
    if c == quote_byte
    then (let r = scan_quoted 0 [] s in
        done (record { rest = close_quote r.1; buf = r.0; res = p.res ++ join [] r.0 ∷ [] }))
    else (let r = scan_word (c ∷ s) in
        done (record { rest = r.1; buf = p.buf; res = p.res ++ r.0 ∷ [] }))

-- One round of `for i < lens`.
unfoldable pub parse_round : ℕ → Scanner → Run Scanner
unfolding parse_gap parse_argument
parse_round c p = parse_gap c p >>= λ q. parse_argument q.rest q

unfoldable pub parse_loop : ℕ → Bytes → Scanner → Run (List Bytes)
unfolding parse_round
parse_loop fuel [] p = done p.res
parse_loop zero (c ∷ s) p = no_fuel
parse_loop (suc fuel) (c ∷ s) p = parse_round c p >>= λ q. parse_loop fuel q.rest q

abbrev pub start : Bytes → Scanner
start s = record { rest = s; buf = []; res = [] }

-- Each round passes a byte, so the length is fuel enough.
unfoldable pub parse_shell_command : Bytes → Run (List Bytes)
unfolding parse_loop
parse_shell_command s = parse_loop (length s) s (start s)

-- strings.ReplaceAll(s, c, by) for one byte.
unfoldable pub replace_byte : ℕ → Bytes → Bytes → Bytes
replace_byte c by [] = []
replace_byte c by (x ∷ s) = if x == c then by ++ replace_byte c by s else x ∷ replace_byte c by s

unfoldable pub quote : Bytes → Bytes
unfolding replace_byte
quote s = replace_byte 33 escaped_bang (replace_byte quote_byte escaped_quote s)
