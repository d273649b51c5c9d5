-- ===== src/Tree/Tests.antt =====
-- A tree with a file whose name has a space, and a directory.
use gitus.Prelude.{Bytes, List, [], ◌∷◌, codes, ◌≡◌, refl, arith, some, done, map, All, Option, ◌<◌}
use gitus.Prelude.{beq, split}
use gitus.Readers.{read_until, read_until_bytes}
use gitus.Readers.Until.{read_until_bytes-read_until}
use gitus.Tree.{
  TreeObject, render_as_bytes, parse_tree_object, GitObject, other_object, resolve_tree_path,
  resolve_pieces, hash_of, pieces_of,
}
use gitus.Tree.RoundTrip.{Entry, file, directory, written, cut_item, tree_of}
use gitus.Tree.Kinds.{by_kind, parse_tree_object-render_as_bytes}

abbrev hash : Bytes
hash =
    1 ∷ 2 ∷ 3 ∷ 4 ∷ 5 ∷ 6 ∷ 7 ∷ 8 ∷ 9 ∷ 10 ∷ 171 ∷ 12 ∷ 13 ∷ 14 ∷ 15 ∷ 16 ∷ 17 ∷ 18 ∷ 19 ∷ 255 ∷ []

abbrev entries : List Entry
entries =
    record { kind = file; name = codes "a b"; id = hash }
    ∷ record { kind = directory; name = codes "src"; id = hash }
    ∷ []

abbrev tree : TreeObject
tree = tree_of [] (map written entries)

hash-IsByte : All (λ b. b < 256) hash
hash-IsByte = ground arith

parse_tree_object-render_as_bytes_example :
    parse_tree_object [] (render_as_bytes tree)
    ≡ done (some (tree_of [] (map cut_item (by_kind entries))))
parse_tree_object-render_as_bytes_example =
    parse_tree_object-render_as_bytes [] tree entries
      (
        ((refl, (refl, (refl, tt))), refl, hash-IsByte),
        (((refl, (refl, (refl, tt))), refl, hash-IsByte), tt),
      )
      refl

read_until_bytes-read_until_example : read_until_bytes 0 (codes "ab") ≡ read_until 0 (codes "ab")
read_until_bytes-read_until_example = read_until_bytes-read_until 0 (codes "ab")

abbrev read : Bytes → Option GitObject
read h = some (other_object (codes "text"))

led_to_file : resolve_tree_path read tree (codes "src") ≡ done (some (other_object (codes "text")))
unfolding resolve_tree_path resolve_pieces hash_of pieces_of split beq
led_to_file = refl
