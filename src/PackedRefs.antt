-- ===== src/PackedRefs.antt =====
-- pkg/gitlib/packed-ref.go: the file packed-refs, given by its text, with the test of a hash of
-- pkg/gitlib/predicates.go.
pub mod RoundTrip
mod Tests
use gitus.Prelude.{
  Bool, Bytes, List, [], ◌∷◌, Option, none, some, true, false, if◌then◌else◌, codes, Run, done,
  panics, ◌>>=◌, has_prefix, split, is_empty, ◌||◌, not, trim_space, ℕ, leb, length, ◌&&◌, ◌==◌,
}

pub record PackedRefIndexItem : Type 0 where
  pub id : Bytes
  pub name : Bytes

-- An empty line, a comment, or the object behind a tag.
unfoldable pub is_skipped : Bytes → Bool
unfolding has_prefix
is_skipped item = is_empty item || has_prefix item (codes "#") || has_prefix item (codes "^")

abbrev pub item_of : Bytes × List Bytes → Run PackedRefIndexItem
unfolding trim_space
item_of (i, []) = panics
item_of (i, n ∷ ps) = done (record { id = trim_space i; name = trim_space n })

unfoldable pub read_items : List Bytes → Run (List PackedRefIndexItem)
unfolding is_skipped item_of split
read_items [] = done []
read_items (item ∷ items) =
    let rest = read_items items in
    if is_skipped item
    then rest
    else item_of (split b' ' item) >>= (λ i. rest >>= (λ is. done (i ∷ is)))

unfoldable pub read_packed_ref_index : Bytes → Run (List PackedRefIndexItem)
unfolding read_items split
read_packed_ref_index text = let r = split 10 text in read_items (r.0 ∷ r.1)

abbrev is_hex_digit : ℕ → Bool
is_hex_digit i = leb b'0' i && leb i b'9' || leb b'a' i && leb i b'f' || leb b'A' i && leb i b'F'

abbrev all_hex : Bytes → Bool
all_hex [] = true
all_hex (i ∷ s) = if not (is_hex_digit i) then false else all_hex s

unfoldable pub is_valid_hash : Bytes → Bool
unfolding trim_space
is_valid_hash s =
    let ss = trim_space s in
    if not (length ss == 40) && not (length ss == 64) then false else all_hex ss
