-- ===== src/Tree/Adding.antt =====
-- The item that is added to a tree is found in it, or dropped.
use gitus.Prelude.{
  ℕ, ◌≡◌, refl, arith, Bytes, List, [], ◌∷◌, Bool, true, false, ◌&&◌, not, if◌then◌else◌, Option,
  some, none, beq, beq_iff,
}
use gitus.Tree.{
  TreeObjectItem, TreeObject, Comparison, less, same, greater, compare_text, placed, add_loop,
  add_item, added,
}

-- The mode and the hash of the first item with a name.
unfoldable pub find_item : Bytes → List TreeObjectItem → Option (ℕ × Bytes)
unfolding beq
find_item name [] = none
find_item name (v ∷ vs) = if beq v.name name then some (v.mode, v.hash) else find_item name vs

-- All names of a list that is not empty are before the new one.
abbrev pub is_less : Comparison → Bool
is_less less = true
is_less same = false
is_less greater = false

abbrev pub all_less : Bytes → List TreeObjectItem → Bool
all_less name [] = true
all_less name (v ∷ vs) = is_less (compare_text v.name name) && all_less name vs

unfoldable pub is_dropped : Bytes → List TreeObjectItem → Bool
is_dropped name [] = false
is_dropped name (v ∷ vs) = all_less name (v ∷ vs)

abbrev is_same : Comparison → Bool
is_same less = false
is_same same = true
is_same greater = false

compare_text-beq : (s t : Bytes) → beq s t ≡ is_same (compare_text s t)
unfolding beq
compare_text-beq [] [] = refl
compare_text-beq [] (y ∷ ys) = refl
compare_text-beq (x ∷ xs) [] = refl
compare_text-beq (x ∷ xs) (y ∷ ys) = ground (arith, compare_text-beq xs ys)

abbrev found_or : TreeObjectItem → Bool → Option (ℕ × Bytes) → Option (ℕ × Bytes)
found_or new b rest = if b then some (new.mode, new.hash) else rest

placed-find :
    (new v : TreeObjectItem) (other : Bytes) (vs rest : List TreeObjectItem) (b : Bool)
    (c : Comparison)
    → beq v.name new.name ≡ is_same c
    → find_item other rest ≡ found_or new (beq new.name other && not b) (find_item other vs)
    → find_item other (placed new v vs rest c)
      ≡ found_or new (beq new.name other && not (is_less c && b)) (find_item other (v ∷ vs))
unfolding find_item
placed-find new v other vs rest b less h ih =
    ground (arith, beq_iff v.name other, beq_iff new.name other, beq_iff v.name new.name)
placed-find new v other vs rest b same h ih =
    ground (arith, beq_iff v.name other, beq_iff new.name other, beq_iff v.name new.name)
placed-find new v other vs rest b greater h ih =
    ground (arith, beq_iff v.name other, beq_iff new.name other, beq_iff v.name new.name)

no_item : (b : Bool) (new : TreeObjectItem) → none ≡ found_or new (b && false) none
no_item b new = ground arith

add_loop-find :
    (new : TreeObjectItem) (other : Bytes) (vs : List TreeObjectItem)
    → find_item other (add_loop new vs)
      ≡ found_or new (beq new.name other && not (all_less new.name vs)) (find_item other vs)
unfolding add_loop find_item
add_loop-find new other [] = no_item (beq new.name other) new
add_loop-find new other (v ∷ vs) =
    placed-find new v other vs (add_loop new vs) (all_less new.name vs)
      (compare_text v.name new.name) (compare_text-beq v.name new.name) (add_loop-find new other vs)

added-find :
    (t : TreeObject) (new : TreeObjectItem) (other : Bytes) (vs : List TreeObjectItem)
    → find_item other (added t new vs).object_list
      ≡ found_or new (beq new.name other && not (is_dropped new.name vs)) (find_item other vs)
unfolding is_dropped find_item
added-find t new other [] = ground arith
added-find t new other (v ∷ vs) = add_loop-find new other (v ∷ vs)

-- After an item is added, its name has the new mode and hash, and every other name what it had,
-- unless the tree has items and all their names are before the new one: then all have what they had.
pub add_item-find :
    (t : TreeObject) (mode : ℕ) (name hash other : Bytes)
    → find_item other (add_item t mode name hash).object_list ≡ (
        if beq name other && not (is_dropped name t.object_list)
        then some (mode, hash)
        else find_item other t.object_list)
unfolding add_item is_dropped find_item
add_item-find t mode name hash other =
    added-find t (record { mode = mode; name = name; hash = hash }) other t.object_list
