-- ===== src/PackedRefs/Tests.antt =====
-- A file with a header, a tag and the commit behind it; and a line that panics.
use gitus.Prelude.{codes, List, ◌≡◌, done, panics, true, refl, ◌∷◌, [], arith, is_space, All}
use gitus.PackedRefs.{read_packed_ref_index, is_valid_hash, is_skipped}
use gitus.PackedRefs.RoundTrip.{
  text_of, Line, note, ref, peeled, read_packed_ref_index-text_of, IsLine,
}

abbrev lines : List Line
lines =
    note (codes " pack-refs with: peeled")
    ∷ ref (record { id = codes "0a"; name = codes "refs/tags/v1" })
    ∷ peeled (codes "0b")
    ∷ []

no_space_panics : read_packed_ref_index (codes "0a") ≡ panics
unfolding read_packed_ref_index
no_space_panics = refl

forty_digits : is_valid_hash (codes " 0123456789abcdefABCDEF012345678901234567\n") ≡ true
unfolding is_valid_hash
forty_digits = refl

lines-IsLine : All IsLine lines
unfolding is_skipped is_space
lines-IsLine = ground arith

read_packed_ref_index-text_of_example :
    read_packed_ref_index (text_of lines)
    ≡ done (record { id = codes "0a"; name = codes "refs/tags/v1" } ∷ [])
read_packed_ref_index-text_of_example = read_packed_ref_index-text_of lines lines-IsLine
