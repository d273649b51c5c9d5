-- ===== src/Authors/Zones.antt =====
-- The offset of a zone is read back to the minute.
use gitus.Prelude.{
  ℕ, Bool, [], ◌∷◌, ◌≡◌, arith, some, true, false, if◌then◌else◌, ◌/◌, ◌<◌, ◌≤◌, ◌%◌, ◌*◌, suc,
  zero, Bool-cases, inl, ap, inr,
}
use gitus.Authors.{
  ℤ, pos, sub_ℕ, is_positive, magnitude, digit, decimal, two_digits, offset_string,
  parse_timezone_offset, zone_seconds,
}

-- The offset without its seconds.
abbrev pub whole_minutes : ℤ → ℤ
whole_minutes i = let m = magnitude i / 60 * 60 in if is_positive i then pos m else sub_ℕ 0 m

decimal-two : (n : ℕ) → 10 ≤ n → n < 100 → decimal n ≡ digit (n / 10) ∷ digit (n % 10) ∷ []
unfolding decimal
decimal-two zero h k = absurd (omega arith)
decimal-two (suc n) h k = ground arith

two_digits_lem : (n : ℕ) → n < 100 → two_digits n ≡ digit (n / 10) ∷ digit (n % 10) ∷ []
unfolding two_digits
two_digits_lem n h = ground (arith, decimal-two n)

zone_seconds-digits :
    (is_west : Bool) (m : ℕ)
    → m < 6000
    → zone_seconds is_west
        (digit (m / 60 / 10))
        (digit (m / 60 % 10))
        (digit (m % 60 / 10))
        (digit (m % 60 % 10))
      ≡ (if is_west then sub_ℕ 0 (m * 60) else pos (m * 60))
zone_seconds-digits true m h = ground arith
zone_seconds-digits false m h = ground arith

-- The offset of a zone of less than a hundred hours is written and read back without its seconds.
pub parse_timezone_offset-offset_string :
    (i : ℤ)
    → magnitude i < 360000
    → parse_timezone_offset (offset_string i) ≡ some (whole_minutes i)
unfolding parse_timezone_offset offset_string
parse_timezone_offset-offset_string i h =
    let m = magnitude i / 60 in
    elim (Bool-cases (is_positive i)) [
      | inl p ↦
          rw (p, two_digits_lem (m / 60) (omega arith), two_digits_lem (m % 60) (omega arith))
            (ap some (zone_seconds-digits false m (omega arith)))
      | inr p ↦
          rw (p, two_digits_lem (m / 60) (omega arith), two_digits_lem (m % 60) (omega arith))
            (ap some (zone_seconds-digits true m (omega arith)))
    ]
