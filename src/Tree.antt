-- ===== src/Tree.antt =====
-- pkg/gitlib/tree.go: the directories of git, with the readers of Readers.antt.
pub mod RoundTrip
pub mod Kinds
pub mod Adding
pub mod Paths
mod Tests
use gitus.Prelude.{
  ℕ, Bool, Bytes, List, Option, [], none, some, ◌∷◌, ◌++◌, true, false, zero, suc, ◌+◌, ◌-◌, ◌*◌,
  ◌/◌, ◌%◌, ◌==◌, if◌then◌else◌, leb, ltb, take, drop, length, codes, Run, done, panics, no_fuel,
  filterb, not, ◌&&◌, ◌||◌, map,
}
use gitus.Prelude.{split, beq}
use gitus.Readers.{
  Int64, plus, minus, hex_string_to_bytes, parse_int, read_until_bytes, read_bytes_to_hex,
}

abbrev pub tree_normal_file : ℕ
tree_normal_file = 100644

abbrev pub tree_executable_file : ℕ
tree_executable_file = 100755

abbrev pub tree_symbolic_link : ℕ
tree_symbolic_link = 120000

abbrev pub tree_tree_object : ℕ
tree_tree_object = 40000

abbrev pub tree_submodule : ℕ
tree_submodule = 160000

-- LastCommit, which the code of this file does not use, is left out.
pub record TreeObjectItem : Type 0 where
  pub mode : ℕ
  pub name : Bytes
  pub hash : Bytes

pub record TreeObject : Type 0 where
  pub id : Bytes
  pub object_list : List TreeObjectItem
  pub raw_data : Bytes
  pub is_dirty : Bool

-- strings.Compare
pub data Comparison : Type 0 where
  less same greater : Comparison

abbrev pub compare_text : Bytes → Bytes → Comparison
compare_text [] [] = same
compare_text [] (y ∷ ys) = less
compare_text (x ∷ xs) [] = greater
compare_text (x ∷ xs) (y ∷ ys) =
    let rest = compare_text xs ys in if ltb x y then less else if x == y then rest else greater

abbrev pub placed :
    TreeObjectItem
    → TreeObjectItem
    → List TreeObjectItem
    → List TreeObjectItem
    → Comparison
    → List TreeObjectItem
placed new v vs rest same = record { mode = new.mode; name = v.name; hash = new.hash } ∷ vs
placed new v vs rest greater = new ∷ v ∷ vs
placed new v vs rest less = v ∷ rest

-- The loop of AddItem: the first item with the name is changed, or the new one put before the first
-- greater name.
unfoldable pub add_loop : TreeObjectItem → List TreeObjectItem → List TreeObjectItem
add_loop new [] = []
add_loop new (v ∷ vs) = placed new v vs (add_loop new vs) (compare_text v.name new.name)

abbrev pub added : TreeObject → TreeObjectItem → List TreeObjectItem → TreeObject
added t new [] = record t { object_list = new ∷ [] }
added t new (v ∷ vs) = record t { object_list = add_loop new (v ∷ vs); is_dirty = true }

unfoldable pub add_item : TreeObject → ℕ → Bytes → Bytes → TreeObject
unfolding add_loop
add_item t mode name hash = added t (record { mode = mode; name = name; hash = hash }) t.object_list

abbrev pub mode_text : ℕ → Bytes
mode_text mode =
    if mode == tree_normal_file
    then codes "100644"
    else if mode == tree_executable_file
    then codes "100755"
    else if mode == tree_symbolic_link
    then codes "120000"
    else if mode == tree_tree_object
    then codes "040000"
    else if mode == tree_submodule
    then codes "160000"
    else []

unfoldable pub render_items : List TreeObjectItem → Bytes
unfolding hex_string_to_bytes
render_items [] = []
render_items (v ∷ vs) =
    mode_text v.mode ++ (32 ∷ (v.name ++ (0 ∷ (hex_string_to_bytes v.hash ++ render_items vs))))

unfoldable pub render_as_bytes : TreeObject → Bytes
unfolding render_items
render_as_bytes t = render_items t.object_list

unfoldable pub recalculate_raw_data : TreeObject → TreeObject
unfolding render_as_bytes
recalculate_raw_data t = if t.is_dirty then record t { raw_data = render_as_bytes t } else t

abbrev pub resolve_canonical_mode : Int64 → ℕ
resolve_canonical_mode (minus n) = tree_submodule
resolve_canonical_mode (plus m) =
    if m == tree_normal_file
      || m == tree_executable_file
      || m == tree_symbolic_link
      || m == tree_tree_object
    then m
    else tree_submodule

-- The items of a tree, or `none` for an error.
abbrev pub Parsed : Type 0
Parsed = Run (Option (List TreeObjectItem))

abbrev pub more_items : TreeObjectItem → Parsed → Parsed
more_items item (done (some items)) = done (some (item ∷ items))
more_items item r = r

-- A read name, the mode before its first space, and the hash: indexing the pieces at 1 panics when
-- there is no space.
abbrev pub item_of : (Bytes → Parsed) → List Bytes → Option Int64 → Option (Bytes × Bytes) → Parsed
item_of next pieces none hash = done none
item_of next pieces (some m) none = done none
item_of next [] (some m) (some (h, rest)) = panics
item_of next (name ∷ pieces) (some m) (some (h, rest)) =
    more_items (record { mode = resolve_canonical_mode m; name = name; hash = h }) (next rest)

abbrev pub entry_of : (Bytes → Parsed) → Option (Bytes × Bytes) → Parsed
unfolding split parse_int read_bytes_to_hex
entry_of next none = done (some [])
entry_of next (some (mode_and_name, rest)) =
    let pieces = split 32 mode_and_name in
    item_of next pieces.1 (parse_int pieces.0) (read_bytes_to_hex 20 rest)

unfoldable pub parse_items : ℕ → Bytes → Parsed
unfolding entry_of read_until_bytes
parse_items zero s = no_fuel
parse_items (suc fuel) s = entry_of (parse_items fuel) (read_until_bytes 0 s)

abbrev pub is_submodule : TreeObjectItem → Bool
is_submodule v = v.mode == tree_submodule

abbrev pub is_directory : TreeObjectItem → Bool
is_directory v = v.mode == tree_tree_object

abbrev pub is_file : TreeObjectItem → Bool
is_file v = not (is_submodule v) && not (is_directory v)

-- slices.Concat(submoduleList, dirList, fileList)
unfoldable pub in_order : List TreeObjectItem → List TreeObjectItem
in_order items = filterb is_submodule items ++ (filterb is_directory items ++ filterb is_file items)

abbrev pub object_of : Bytes → Parsed → Run (Option TreeObject)
unfolding in_order
object_of id (done none) = done none
object_of id (done (some items)) =
    done (some (record { id = id; object_list = in_order items; raw_data = []; is_dirty = false }))
object_of id panics = panics
object_of id no_fuel = no_fuel

-- Every round but the last reads 21 bytes at least.
unfoldable pub parse_tree_object : Bytes → Bytes → Run (Option TreeObject)
unfolding parse_items object_of
parse_tree_object id s = object_of id (parse_items (suc (length s)) s)

-- What an object is, as far as a path is followed.
pub data GitObject : Type 0 where
  directory : TreeObject → GitObject
  other_object : Bytes → GitObject

unfoldable pub hash_of : Bytes → List TreeObjectItem → Option Bytes
hash_of item [] = none
hash_of item (v ∷ vs) = if beq v.name item then some v.hash else hash_of item vs

abbrev pub is_skipped : Bytes → Bool
is_skipped [] = true
is_skipped (c ∷ []) = c == b'.'
is_skipped (c ∷ d ∷ s) = false

abbrev pub read_found : (Bytes → Option GitObject) → Option Bytes → Option GitObject
read_found read none = none
read_found read (some hash) = read hash

abbrev pub follow : (GitObject → Run (Option GitObject)) → Option GitObject → Run (Option GitObject)
follow next none = done none
follow next (some o) = next o

-- The loop of ResolveTreePath; `none` is ErrObjectNotFound or an error of ReadObject. The assertion
-- that the object is a tree comes first, and panics.
unfoldable pub resolve_pieces :
    (Bytes → Option GitObject) → List Bytes → GitObject → Run (Option GitObject)
unfolding hash_of
resolve_pieces read [] o = done (some o)
resolve_pieces read (item ∷ items) (other_object b) = panics
resolve_pieces read (item ∷ items) (directory t) =
    follow (resolve_pieces read items)
      (if is_skipped item then some (directory t) else read_found read (hash_of item t.object_list))

-- strings.SplitSeq(p, "/")
abbrev pub pieces_of : Bytes → List Bytes
unfolding split
pieces_of p = let r = split 47 p in r.0 ∷ r.1

unfoldable pub resolve_tree_path :
    (Bytes → Option GitObject) → TreeObject → Bytes → Run (Option GitObject)
unfolding resolve_pieces pieces_of
resolve_tree_path read t p = resolve_pieces read (pieces_of p) (directory t)
