-- ===== src/Authors/Tests.antt =====
-- Tests of the offsets of zones.
use gitus.Prelude.{codes, ◌≡◌, refl, some}
use gitus.Authors.{parse_timezone_offset, offset_string, pos}

no_offset : offset_string (pos 0) ≡ codes "-0000"
unfolding offset_string
no_offset = refl

not_a_digit : parse_timezone_offset (codes "+0:00") ≡ some (pos 36000)
unfolding parse_timezone_offset
not_a_digit = refl
