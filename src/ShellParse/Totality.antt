-- ===== src/ShellParse/Totality.antt =====
-- The loop of ParseShellCommand ends on every input.
use gitus.Prelude.{
  ℕ, zero, suc, ◌≤◌, ◌≡◌, refl, ◌≢◌, false, [], ◌∷◌, arith, Bytes, length, Run, done, panics,
  no_fuel, ◌>>=◌,
}
use gitus.ShellParse.{
  is_white_space, skip_white, scan_quoted, Scanner, parse_gap, parse_argument, parse_round,
  parse_loop, parse_shell_command,
}
use gitus.ShellParse.Scan.{length-scan_quoted, length-scan_word, length-close_quote}

-- The text begins with a byte that is no white space.
abbrev Plain : Bytes → Type 0
Plain [] = ⊥
Plain (c ∷ s) = is_white_space c ≡ false

-- What the skipping leaves: a panic, or a shorter text that begins a word.
abbrev Skips : ℕ → Run Bytes → Type 0
Skips n (done r) = (length r ≤ n) × Plain r
Skips n panics = Unit
Skips n no_fuel = ⊥

abbrev Begins : ℕ → Run Scanner → Type 0
Begins n (done q) = (length q.rest ≤ n) × Plain q.rest
Begins n panics = Unit
Begins n no_fuel = ⊥

-- A state from which the loop has at most `n` bytes to read, or a panic.
abbrev Within : ℕ → Run Scanner → Type 0
Within n (done q) = length q.rest ≤ n
Within n panics = Unit
Within n no_fuel = ⊥

skip_white-Skips : (n : ℕ) (s : Bytes) → length s ≤ n → Skips n (skip_white s)
unfolding skip_white
skip_white-Skips n [] h = tt
skip_white-Skips n (c ∷ s) h = ground (arith, skip_white-Skips n s)

parse_gap-Begins :
    (n c : ℕ) (s : Bytes) (p : Scanner)
    → p.rest ≡ c ∷ s
    → length p.rest ≤ n
    → Begins n (parse_gap c p)
unfolding parse_gap
parse_gap-Begins n c s p e h = ground (arith, skip_white-Skips n p.rest)

parse_argument-Within :
    (n : ℕ) (s : Bytes) (p : Scanner) → length s ≤ suc n → Plain s → Within n (parse_argument s p)
unfolding parse_argument
parse_argument-Within n [] p h b = tt
parse_argument-Within n (c ∷ s) p h b = ground (
  arith,
  length-scan_quoted 0 [] s,
  length-close_quote (scan_quoted 0 [] s).1,
  length-scan_word s,
)

bind-Within :
    (n : ℕ) (m : Run Scanner) → Begins (suc n) m → Within n (m >>= λ q. parse_argument q.rest q)
bind-Within n (done q) b = parse_argument-Within n q.rest q b.0 b.1
bind-Within n panics b = tt
bind-Within n no_fuel b = b

-- A round passes at least one byte.
parse_round-Within :
    (n c : ℕ) (s : Bytes) (p : Scanner)
    → p.rest ≡ c ∷ s
    → length p.rest ≤ suc n
    → Within n (parse_round c p)
unfolding parse_round
parse_round-Within n c s p e h = bind-Within n (parse_gap c p) (parse_gap-Begins (suc n) c s p e h)

loop_step :
    (fuel : ℕ) (m : Run Scanner)
    → Within fuel m
    → ((s : Bytes) (p : Scanner) → p.rest ≡ s → length s ≤ fuel → parse_loop fuel s p ≢ no_fuel)
    → (m >>= λ q. parse_loop fuel q.rest q) ≢ no_fuel
loop_step fuel (done q) w ih = ih q.rest q refl w
loop_step fuel panics w ih = λ x. cc
loop_step fuel no_fuel w ih = absurd w

parse_loop_total :
    (fuel : ℕ) (s : Bytes) (p : Scanner)
    → p.rest ≡ s
    → length s ≤ fuel
    → parse_loop fuel s p ≢ no_fuel
unfolding parse_loop
parse_loop_total fuel [] p e h = λ x. cc
parse_loop_total zero (c ∷ s) p e h = absurd (omega arith)
parse_loop_total (suc fuel) (c ∷ s) p e h =
    loop_step fuel (parse_round c p) (parse_round-Within fuel c s p e (rw e h))
      (parse_loop_total fuel)

-- Whatever the client sends, the loop ends within as many rounds as the line has bytes: the
-- parser returns its words or panics.
pub parse_shell_command_total : (s : Bytes) → parse_shell_command s ≢ no_fuel
unfolding parse_shell_command
parse_shell_command_total s = parse_loop_total (length s) s _ refl (omega arith)
