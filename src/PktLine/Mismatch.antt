-- ===== src/PktLine/Mismatch.antt =====
-- A line that is written and then read.
use gitus.Prelude.{
  ℕ, zero, suc, ◌≡◌, refl, arith, Bytes, [], ◌∷◌, ◌++◌, ◌+◌, ◌*◌, ◌/◌, ◌%◌, ◌≤◌, length, take, drop,
  some, false, if◌then◌else◌, leb, ltb, length-append, ap, ◌∙◌, append_assoc,
}
use gitus.Readers.Hex.{char_hex_to_digit-digit_to_char}
use gitus.PktLine.{
  line, premature_end, int_to_hex16, to_pkt_line, line_of, content_of, read_pkt_line,
}

four_digits :
    (i a b c d : ℕ)
    → i ≤ 65535
    → a ≡ (i / 4096) % 16
    → b ≡ (i / 256) % 16
    → c ≡ (i / 16) % 16
    → d ≡ i % 16
    → a * 4096 + b * 256 + c * 16 + d ≡ i
four_digits i a b c d h p q r s = omega arith

read_header : (i : ℕ) (s : Bytes) → i ≤ 65535 → read_pkt_line (int_to_hex16 i ++ s) ≡ line_of i s
unfolding read_pkt_line int_to_hex16
read_header i s h =
    rw
      (
        char_hex_to_digit-digit_to_char ((i / 4096) % 16) (omega arith),
        char_hex_to_digit-digit_to_char ((i / 256) % 16) (omega arith),
        char_hex_to_digit-digit_to_char ((i / 16) % 16) (omega arith),
        char_hex_to_digit-digit_to_char (i % 16) (omega arith),
        four_digits i ((i / 4096) % 16) ((i / 256) % 16) ((i / 16) % 16) (i % 16) h refl refl refl
            refl,
      )
      refl

long_line : (i : ℕ) (s : Bytes) → 4 ≤ i → line_of i s ≡ content_of i s
long_line i s h = ground arith

take_past : (p t : Bytes) (n m : ℕ) → m ≡ length p + n → take m (p ++ t) ≡ p ++ take n t
take_past [] t n m h = ap (λ k. take k t) (omega (arith, h))
take_past (x ∷ p) t n zero h = absurd (omega arith)
take_past (x ∷ p) t n (suc m) h = ap (◌∷◌ x) (take_past p t n m (omega arith))

drop_past : (p t : Bytes) (n m : ℕ) → m ≡ length p + n → drop m (p ++ t) ≡ drop n t
drop_past [] t n m h = ap (λ k. drop k t) (omega (arith, h))
drop_past (x ∷ p) t n zero h = absurd (omega arith)
drop_past (x ∷ p) t n (suc m) h = drop_past p t n m (omega arith)

same_test : (p t : Bytes) (m : ℕ) → m ≡ length p + 3 → leb m (length (p ++ t)) ≡ leb 3 (length t)
same_test p t m h = ground (arith, length-append p t)

content_past :
    (p t : Bytes) (m : ℕ)
    → m ≡ length p + 3
    → content_of m (p ++ t)
      ≡ (if leb 3 (length t) then line false (p ++ take 3 t) (drop 3 t) else premature_end)
content_past p t m h = rw (take_past p t 3 m h, drop_past p t 3 m h, same_test p t m h) refl

not_long : (l : ℕ) → l ≤ 65531 → ltb 65531 l ≡ false
not_long l h = ground arith

-- When a text of at most 65531 bytes is written as a line and read with other bytes behind it, it
-- comes with its line feed and three bytes of what follows; with fewer than three bytes behind it,
-- reading ends with an error.
pub read_pkt_line-to_pkt_line :
    (s t : Bytes)
    → length s ≤ 65531
    → (w : Bytes) × (to_pkt_line s ≡ some w)
      × (read_pkt_line (w ++ t) ≡ (
          if leb 3 (length t)
          then line false ((s ++ (10 ∷ [])) ++ take 3 t) (drop 3 t)
          else premature_end))
unfolding to_pkt_line
read_pkt_line-to_pkt_line s t h =
    let l = length s in
    (
      int_to_hex16 (l + 4) ++ (s ++ (10 ∷ [])),
      rw (not_long l h) refl,
      ap read_pkt_line (append_assoc (int_to_hex16 (l + 4)) (s ++ (10 ∷ [])) t)
          ∙ (read_header (l + 4) ((s ++ (10 ∷ [])) ++ t) (omega arith)
              ∙ (long_line (l + 4) ((s ++ (10 ∷ [])) ++ t) (omega arith)
                  ∙ content_past (s ++ (10 ∷ [])) t (l + 4)
                      (omega (arith, length-append s (10 ∷ []))))),
    )
