-- ===== src/Readers.antt =====
-- pkg/gitlib/aux-funcs.go: hexadecimal texts and the readers of bytes, with strconv.ParseInt.
pub mod Hex
pub mod Until
use gitus.Prelude.{
  ℕ, Bool, Bytes, List, Option, [], none, some, ◌∷◌, ◌++◌, zero, suc, ◌+◌, ◌-◌, ◌*◌, ◌/◌, ◌%◌, ◌==◌,
  if◌then◌else◌, leb, ltb, take, drop, length, ◌&&◌,
}

abbrev pub digit_to_char : ℕ → ℕ
digit_to_char c = if leb 10 c then c + 97 - 10 else c + 48

abbrev pub char_hex_to_digit : ℕ → ℕ
char_hex_to_digit c =
    if leb 97 c && leb c 102
    then c - 97 + 10
    else if leb 65 c && leb c 70
    then c - 65 + 10
    else if leb 48 c && leb c 57
    then c - 48
    else 0

-- `(ch1 << 4) | ch2` for two digits.
abbrev pub hex_pairs : Bytes → Bytes
hex_pairs [] = []
hex_pairs (a ∷ []) = []
hex_pairs (a ∷ b ∷ s) = (char_hex_to_digit a * 16 + char_hex_to_digit b) ∷ hex_pairs s

abbrev pub odd_digit : Bytes → Bytes
odd_digit [] = []
odd_digit (a ∷ s) = char_hex_to_digit a ∷ hex_pairs s

unfoldable pub hex_string_to_bytes : Bytes → Bytes
hex_string_to_bytes s = if length s % 2 == 1 then odd_digit s else hex_pairs s

-- An int64 by its sign.
pub data Int64 : Type 0 where
  plus minus : ℕ → Int64

-- strconv.ParseInt(s, 10, 64)
abbrev pub digits_from : ℕ → Bytes → Option ℕ
digits_from n [] = some n
digits_from n (c ∷ s) =
    let rest = digits_from (n * 10 + (c - 48)) s in if leb 48 c && leb c 57 then rest else none

abbrev pub digits : Bytes → Option ℕ
digits [] = none
digits (c ∷ s) = digits_from 0 (c ∷ s)

abbrev pub in_range : (ℕ → Int64) → ℕ → Option ℕ → Option Int64
in_range f bound none = none
in_range f bound (some n) = if ltb n bound then some (f n) else none

unfoldable pub parse_int : Bytes → Option Int64
parse_int [] = none
parse_int (c ∷ s) =
    if c == b'-'
    then in_range minus 9223372036854775809 (digits s)
    else if c == b'+'
    then in_range plus 9223372036854775808 (digits s)
    else in_range plus 9223372036854775808 (digits (c ∷ s))

abbrev pub read_more : ℕ → Option (Bytes × Bytes) → Option (Bytes × Bytes)
read_more b none = none
read_more b (some (r, rest)) = some (b ∷ r, rest)

-- readUntil of a reader of single bytes: what comes before the delimiter, and what is left.
unfoldable pub read_until : ℕ → Bytes → Option (Bytes × Bytes)
read_until c [] = none
read_until c (b ∷ s) =
    let rest = read_until c s in if b == c then some ([], s) else read_more b rest

abbrev pub plus_one : Option ℕ → Option ℕ
plus_one none = none
plus_one (some i) = some (suc i)

-- bytes.IndexByte
abbrev pub index_byte : ℕ → Bytes → Option ℕ
index_byte c [] = none
index_byte c (b ∷ s) = let rest = index_byte c s in if b == c then some 0 else plus_one rest

-- The loop of readUntilBytes on a bytes.Reader: a chunk of 256 bytes is read, and the reader is set
-- back to just behind the delimiter. At the end Read gives io.EOF.
abbrev pub chunk_size : ℕ
chunk_size = 256

abbrev pub chunk_read :
    (Bytes → Option (Bytes × Bytes)) → Bytes → Bytes → Option ℕ → Option (Bytes × Bytes)
chunk_read more res s (some i) = some (res ++ take i s, drop (suc i) s)
chunk_read more res s none = more (res ++ take chunk_size s)

unfoldable pub read_chunks : ℕ → ℕ → Bytes → Bytes → Option (Bytes × Bytes)
read_chunks fuel c res [] = none
read_chunks zero c res (b ∷ s) = none
read_chunks (suc fuel) c res (b ∷ s) =
    chunk_read (λ r. read_chunks fuel c r (drop chunk_size (b ∷ s))) res (b ∷ s)
      (index_byte c (take chunk_size (b ∷ s)))

-- Every round reads a byte at least.
unfoldable pub read_until_bytes : ℕ → Bytes → Option (Bytes × Bytes)
unfolding read_chunks
read_until_bytes c s = read_chunks (length s) c [] s

-- readBytesToHex
abbrev pub hex_of : Bytes → Bytes
hex_of [] = []
hex_of (b ∷ s) = digit_to_char (b / 16) ∷ digit_to_char (b % 16) ∷ hex_of s

unfoldable pub read_bytes_to_hex : ℕ → Bytes → Option (Bytes × Bytes)
read_bytes_to_hex l s = if leb l (length s) then some (hex_of (take l s), drop l s) else none
