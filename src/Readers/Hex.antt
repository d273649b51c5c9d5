-- ===== src/Readers/Hex.antt =====
-- Hexadecimal texts stand for their bytes.
use gitus.Prelude.{
  ℕ, ◌≡◌, refl, arith, Bytes, [], ◌∷◌, ◌++◌, ◌+◌, ◌*◌, ◌/◌, ◌%◌, ◌<◌, length, All, some,
  take-append, drop-append, length-append, le→leb, ◌==◌, false,
}
use gitus.Readers.{
  digit_to_char, char_hex_to_digit, hex_pairs, hex_of, hex_string_to_bytes, read_bytes_to_hex,
}

abbrev pub IsByte : ℕ → Type 0
IsByte b = b < 256

pub char_hex_to_digit-digit_to_char : (c : ℕ) → c < 16 → char_hex_to_digit (digit_to_char c) ≡ c
char_hex_to_digit-digit_to_char c h = ground arith

byte-pair : (b c d : ℕ) → c ≡ b / 16 → d ≡ b % 16 → c * 16 + d ≡ b
byte-pair b c d p q = omega arith

hex_pairs-hex_of : (s : Bytes) → All IsByte s → hex_pairs (hex_of s) ≡ s
hex_pairs-hex_of [] h = refl
hex_pairs-hex_of (b ∷ s) h =
    rw
      (
        char_hex_to_digit-digit_to_char (b / 16) (omega (arith, h.0)),
        char_hex_to_digit-digit_to_char (b % 16) (omega arith),
        byte-pair b (b / 16) (b % 16) refl refl,
        hex_pairs-hex_of s h.1,
      )
      refl

length-hex_of : (s : Bytes) → length (hex_of s) ≡ 2 * length s
length-hex_of [] = refl
length-hex_of (b ∷ s) = omega (arith, length-hex_of s)

even_half : (n : ℕ) → ((2 * n) % 2 == 1) ≡ false
even_half n = ground arith

-- The text of bytes in hexadecimal is read as these bytes.
pub hex_string_to_bytes-hex_of : (s : Bytes) → All IsByte s → hex_string_to_bytes (hex_of s) ≡ s
unfolding hex_string_to_bytes
hex_string_to_bytes-hex_of s h = rw (length-hex_of s, even_half (length s)) (hex_pairs-hex_of s h)

-- The bytes that are read are given as a text, and what follows is left.
pub read_bytes_to_hex-append :
    (s t : Bytes) → read_bytes_to_hex (length s) (s ++ t) ≡ some (hex_of s, t)
unfolding read_bytes_to_hex
read_bytes_to_hex-append s t =
    rw
      (
        le→leb (length s) (length (s ++ t)) (omega (arith, length-append s t)),
        take-append s t,
        drop-append s t,
      )
      refl
