-- ===== src/Tree/Kinds.antt =====
-- A tree that is rendered is read back in the order of the kinds.
use gitus.Prelude.{
  ◌≡◌, refl, arith, Bytes, List, [], ◌∷◌, ◌++◌, Bool, true, false, some, done, map, filterb, ap,
  ◌∙◌, All, Bool-cases, inl, inr, not, ◌&&◌, length, ◌==◌,
}
use gitus.Tree.{
  TreeObject, TreeObjectItem, is_submodule, is_directory, is_file, in_order, object_of,
  parse_tree_object, render_as_bytes, render_items, tree_submodule, tree_tree_object,
}
use gitus.Tree.RoundTrip.{
  Kind, file, executable, link, directory, submodule, mode_of, Entry, IsEntry, written, cut_item,
  tree_of, parse_items-written,
}

abbrev of_submodule : Kind → Bool
of_submodule submodule = true
of_submodule k = false

abbrev of_directory : Kind → Bool
of_directory directory = true
of_directory k = false

abbrev of_file : Kind → Bool
of_file submodule = false
of_file directory = false
of_file k = true

-- The submodules, then the directories, then the files and links.
abbrev pub by_kind : List Entry → List Entry
by_kind es =
    filterb (λ e. of_submodule e.kind) es
    ++ (filterb (λ e. of_directory e.kind) es ++ filterb (λ e. of_file e.kind) es)

map-append : {A B : Type 0} (f : A → B) (xs ys : List A) → map f (xs ++ ys) ≡ map f xs ++ map f ys
map-append f [] ys = refl
map-append f (x ∷ xs) ys = ap (◌∷◌ (f x)) (map-append f xs ys)

filterb_cut :
    (p : TreeObjectItem → Bool) (q : Entry → Bool) (es : List Entry)
    → ((e : Entry) → p (cut_item e) ≡ q e)
    → filterb p (map cut_item es) ≡ map cut_item (filterb q es)
filterb_cut p q [] h = refl
filterb_cut p q (e ∷ es) h = elim (Bool-cases (q e)) [
  | inl t ↦ rw (h e, t) (ap (◌∷◌ (cut_item e)) (filterb_cut p q es h))
  | inr t ↦ rw (h e, t) (filterb_cut p q es h)
]

submodule_test : (k : Kind) → (mode_of k == tree_submodule) ≡ of_submodule k
submodule_test file = refl
submodule_test executable = refl
submodule_test link = refl
submodule_test directory = refl
submodule_test submodule = refl

directory_test : (k : Kind) → (mode_of k == tree_tree_object) ≡ of_directory k
directory_test file = refl
directory_test executable = refl
directory_test link = refl
directory_test directory = refl
directory_test submodule = refl

file_test :
    (k : Kind)
    → (not (mode_of k == tree_submodule) && not (mode_of k == tree_tree_object)) ≡ of_file k
file_test file = refl
file_test executable = refl
file_test link = refl
file_test directory = refl
file_test submodule = refl

in_order-by_kind : (es : List Entry) → in_order (map cut_item es) ≡ map cut_item (by_kind es)
unfolding in_order cut_item
in_order-by_kind es =
    rw
      (
        map-append cut_item (filterb (λ e. of_submodule e.kind) es)
            (filterb (λ e. of_directory e.kind) es ++ filterb (λ e. of_file e.kind) es),
        map-append cut_item (filterb (λ e. of_directory e.kind) es)
            (filterb (λ e. of_file e.kind) es),
        filterb_cut is_submodule (λ e. of_submodule e.kind) es (λ e. submodule_test e.kind),
        filterb_cut is_directory (λ e. of_directory e.kind) es (λ e. directory_test e.kind),
        filterb_cut is_file (λ e. of_file e.kind) es (λ e. file_test e.kind),
      )
      refl

-- A rendered tree, whose names hold no zero byte and whose hashes are 20 bytes, is read back with its
-- submodules first, then its directories, then its files, each in the order of the tree, and with
-- each name cut at its first space.
pub parse_tree_object-render_as_bytes :
    (id : Bytes) (t : TreeObject) (es : List Entry)
    → All IsEntry es
    → t.object_list ≡ map written es
    → parse_tree_object id (render_as_bytes t)
      ≡ done (some (tree_of id (map cut_item (by_kind es))))
unfolding parse_tree_object render_as_bytes object_of
parse_tree_object-render_as_bytes id t es a h =
    ap (λ items. parse_tree_object id (render_items items)) h
    ∙ (ap (object_of id)
          (parse_items-written (length (render_items (map written es))) es a (omega arith))
        ∙ ap (λ items. done (some (tree_of id items))) (in_order-by_kind es))
