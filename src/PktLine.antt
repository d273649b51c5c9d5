-- ===== src/PktLine.antt =====
-- pkg/gitlib/transfer.go: the lines of git's protocol, each with its length in four digits.
pub mod Mismatch
mod Tests
use gitus.Prelude.{
  ℕ, Bool, Bytes, Option, [], none, some, ◌∷◌, ◌++◌, true, false, ◌+◌, ◌*◌, ◌/◌, ◌%◌, ltb, leb,
  if◌then◌else◌, length, take, drop, codes, ◌==◌,
}
use gitus.Readers.{char_hex_to_digit, digit_to_char}

-- The last four hexadecimal digits of a number.
unfoldable pub int_to_hex16 : ℕ → Bytes
int_to_hex16 i =
    digit_to_char ((i / 4096) % 16)
    ∷ digit_to_char ((i / 256) % 16)
    ∷ digit_to_char ((i / 16) % 16)
    ∷ digit_to_char (i % 16)
    ∷ []

-- `none` is ErrTooLongForPktLine.
unfoldable pub to_pkt_line : Bytes → Option Bytes
unfolding int_to_hex16
to_pkt_line s =
    let l = length s in
    if ltb 65531 l then none else some (int_to_hex16 (l + 4) ++ (s ++ (10 ∷ [])))

-- What is read: one of three errors, or whether the line is one without content, its text, and the
-- bytes that are left.
pub data PktLine : Type 0 where
  empty_read_in premature_end unexpected_eof : PktLine
  line : Bool → Bytes → Bytes → PktLine

abbrev pub content_of : ℕ → Bytes → PktLine
content_of ss s = if leb ss (length s) then line false (take ss s) (drop ss s) else premature_end

abbrev pub line_of : ℕ → Bytes → PktLine
line_of ss s =
    if ss == 0
    then line true (codes "0000") s
    else if ss == 1
    then line true (codes "0001") s
    else if ss == 2
    then line true (codes "0002") s
    else if ss == 3
    then line true (codes "0003") s
    else content_of ss s

unfoldable pub read_pkt_line : Bytes → PktLine
read_pkt_line [] = empty_read_in
read_pkt_line (a ∷ []) = unexpected_eof
read_pkt_line (a ∷ b ∷ []) = unexpected_eof
read_pkt_line (a ∷ b ∷ c ∷ []) = unexpected_eof
read_pkt_line (a ∷ b ∷ c ∷ d ∷ s) =
    line_of
      (char_hex_to_digit a * 4096
        + char_hex_to_digit b * 256
        + char_hex_to_digit c * 16
        + char_hex_to_digit d)
      s
