-- ===== src/ShellParse/Scan.antt =====
-- Lemmas on the inner loops of ParseShellCommand.
use gitus.Prelude.{
  ℕ, zero, suc, ◌≤◌, ◌≡◌, refl, ap, ◌∙◌, Bool, true, false, ◌||◌, List, [], ◌∷◌, ◌++◌, arith, ◌==◌,
  Bytes, beq, length, take, join, Free,
}
use mathlib.Core.List.{append-nil, append_assoc}
use gitus.ShellParse.{
  is_white_space, scan_quoted, scan_word, quote_byte, escaped_quote, escaped_bang, close_quote,
}

abbrev pub is_quote : ℕ → Bool
is_quote c = c == quote_byte

-- A piece for each byte, as the loop inside the quotes collects them.
abbrev pub pieces : Bytes → List Bytes
pieces [] = []
pieces (c ∷ s) = (c ∷ []) ∷ pieces s

pub join-pieces : (s : Bytes) → join [] (pieces s) ≡ s
unfolding join
join-pieces [] = refl
join-pieces (c ∷ []) = refl
join-pieces (c ∷ d ∷ s) = ap (◌∷◌ c) (join-pieces (d ∷ s))

-- The escapes begin with a quote, at which the loop has stopped: they are never read.
no_escape :
    (c : ℕ) (s : Bytes)
    → is_quote c ≡ false
    → (beq (take 4 (c ∷ s)) escaped_quote || beq (take 4 (c ∷ s)) escaped_bang) ≡ false
unfolding beq
no_escape c s h = ground arith

pub scan_quoted-plain :
    (c : ℕ) (s : Bytes) (buf : List Bytes)
    → is_quote c ≡ false
    → scan_quoted 0 buf (c ∷ s) ≡ scan_quoted 0 (buf ++ (c ∷ []) ∷ []) s
unfolding scan_quoted
scan_quoted-plain c s buf h = ground (arith, no_escape c s h)

-- The loop inside the quotes takes the bytes up to the next quote, one piece each.
pub scan_quoted-append :
    (s : Bytes) (t : Bytes) (buf : List Bytes)
    → Free is_quote s
    → scan_quoted 0 buf (s ++ quote_byte ∷ t) ≡ (buf ++ pieces s, quote_byte ∷ t)
unfolding scan_quoted
scan_quoted-append [] t buf f = ground (arith, append-nil buf)
scan_quoted-append (c ∷ s) t buf f =
    scan_quoted-plain c (s ++ quote_byte ∷ t) buf f.0
    ∙ scan_quoted-append s t (buf ++ (c ∷ []) ∷ []) f.1
    ∙ ap (λ (b : List Bytes). (b, quote_byte ∷ t)) (append_assoc buf ((c ∷ []) ∷ []) (pieces s))

pub length-scan_quoted :
    (skip : ℕ) (buf : List Bytes) (s : Bytes) → length (scan_quoted skip buf s).1 ≤ length s
unfolding scan_quoted
length-scan_quoted skip buf [] = omega arith
length-scan_quoted (suc skip) buf (c ∷ s) = omega (arith, length-scan_quoted skip buf s)
length-scan_quoted zero buf (c ∷ s) = ground (
  arith,
  length-scan_quoted 3 (buf ++ take 4 (c ∷ s) ∷ []) s,
  length-scan_quoted 0 (buf ++ (c ∷ []) ∷ []) s,
)

pub length-scan_word : (s : Bytes) → length (scan_word s).1 ≤ length s
unfolding scan_word
length-scan_word [] = omega arith
length-scan_word (c ∷ s) = ground (arith, length-scan_word s)

pub length-close_quote : (s : Bytes) → length (close_quote s) ≤ length s
unfolding close_quote
length-close_quote [] = omega arith
length-close_quote (c ∷ s) = ground arith

-- A word ends at white space or at the end of the line.
abbrev pub Ends : Bytes → Type 0
Ends [] = Unit
Ends (c ∷ s) = is_white_space c ≡ true

pub scan_word-append : (w t : Bytes) → Free is_white_space w → Ends t → scan_word (w ++ t) ≡ (w, t)
unfolding scan_word
scan_word-append [] [] f e = refl
scan_word-append [] (c ∷ t) f e = rw e
scan_word-append (c ∷ w) t f e = ground (arith, scan_word-append w t f.1 e)
