-- ===== src/Tree/RoundTrip.antt =====
-- A tree that is rendered is read back.
use gitus.Prelude.{
  ℕ, suc, zero, ◌≡◌, refl, arith, Bytes, List, [], ◌∷◌, ◌++◌, length, All, some, done, map, ap, ◌∙◌,
  subst, Free, false, ◌==◌, ◌≤◌, length-append,
}
use gitus.Prelude.{split}
use gitus.Readers.{hex_of, read_bytes_to_hex, read_until, read_until_bytes, parse_int}
use gitus.Readers.Hex.{IsByte, hex_string_to_bytes-hex_of, read_bytes_to_hex-append}
use gitus.Readers.Until.{read_until-append, read_until_bytes-read_until}
use gitus.Tree.{
  TreeObjectItem, TreeObject, mode_text, render_items, Parsed, more_items, item_of, entry_of,
  parse_items, tree_normal_file, tree_executable_file, tree_symbolic_link, tree_tree_object,
  tree_submodule,
}

-- The five kinds of items.
pub data Kind : Type 0 where
  file executable link directory submodule : Kind

abbrev pub mode_of : Kind → ℕ
mode_of file = tree_normal_file
mode_of executable = tree_executable_file
mode_of link = tree_symbolic_link
mode_of directory = tree_tree_object
mode_of submodule = tree_submodule

-- An item by its kind and the 20 bytes of its hash.
pub record Entry : Type 0 where
  pub kind : Kind
  pub name : Bytes
  pub id : Bytes

abbrev pub IsEntry : Entry → Type 0
IsEntry e = Free (λ b. b == 0) e.name × (length e.id ≡ 20) × All IsByte e.id

abbrev pub written : Entry → TreeObjectItem
written e = record { mode = mode_of e.kind; name = e.name; hash = hex_of e.id }

-- The same item with its name cut at the first space.
unfoldable pub cut_item : Entry → TreeObjectItem
cut_item e = record { mode = mode_of e.kind; name = (split 32 e.name).0; hash = hex_of e.id }

abbrev head_of : Kind → Bytes → Bytes
head_of k name = mode_text (mode_of k) ++ (32 ∷ name)

head-read :
    (k : Kind) (name t : Bytes)
    → Free (λ b. b == 0) name
    → read_until 0 (mode_text (mode_of k) ++ (32 ∷ (name ++ (0 ∷ t)))) ≡ some (head_of k name, t)
head-read file name t f =
    read_until-append 0 (head_of file name) t
      (refl, (refl, (refl, (refl, (refl, (refl, (refl, f)))))))
head-read executable name t f =
    read_until-append 0 (head_of executable name) t
      (refl, (refl, (refl, (refl, (refl, (refl, (refl, f)))))))
head-read link name t f =
    read_until-append 0 (head_of link name) t
      (refl, (refl, (refl, (refl, (refl, (refl, (refl, f)))))))
head-read directory name t f =
    read_until-append 0 (head_of directory name) t
      (refl, (refl, (refl, (refl, (refl, (refl, (refl, f)))))))
head-read submodule name t f =
    read_until-append 0 (head_of submodule name) t
      (refl, (refl, (refl, (refl, (refl, (refl, (refl, f)))))))

item-read :
    (next : Bytes → Parsed) (k : Kind) (name hash rest : Bytes)
    → item_of next
        (split 32 (head_of k name)).1
        (parse_int (split 32 (head_of k name)).0)
        (some (hash, rest))
      ≡ more_items (record { mode = mode_of k; name = (split 32 name).0; hash = hash }) (next rest)
unfolding split parse_int
item-read next file name hash rest = refl
item-read next executable name hash rest = refl
item-read next link name hash rest = refl
item-read next directory name hash rest = refl
item-read next submodule name hash rest = refl

hash-read :
    (id rest : Bytes) → length id ≡ 20 → read_bytes_to_hex 20 (id ++ rest) ≡ some (hex_of id, rest)
hash-read id rest h =
    subst (λ n. read_bytes_to_hex n (id ++ rest) ≡ some (hex_of id, rest)) h
      (read_bytes_to_hex-append id rest)

entry-read :
    (next : Bytes → Parsed) (e : Entry) (rest : Bytes)
    → IsEntry e
    → entry_of next
        (read_until_bytes 0 (mode_text (mode_of e.kind) ++ (32 ∷ (e.name ++ (0 ∷ (e.id ++ rest))))))
      ≡ more_items (cut_item e) (next rest)
unfolding entry_of cut_item
entry-read next e rest (f, l, b) =
    ap (entry_of next) (read_until_bytes-read_until 0 _ ∙ head-read e.kind e.name (e.id ++ rest) f)
    ∙ (ap
          (item_of next (split 32 (head_of e.kind e.name)).1
            (parse_int (split 32 (head_of e.kind e.name)).0))
          (hash-read e.id rest l)
        ∙ item-read next e.kind e.name (hex_of e.id) rest)

abbrev render_entry : Entry → Bytes → Bytes
render_entry e rest = mode_text (mode_of e.kind) ++ (32 ∷ (e.name ++ (0 ∷ (e.id ++ rest))))

render_items-written :
    (e : Entry) (es : List Entry)
    → IsEntry e
    → render_items (written e ∷ map written es) ≡ render_entry e (render_items (map written es))
unfolding render_items
render_items-written e es (f, l, b) =
    ap
      (λ s.
        mode_text (mode_of e.kind) ++ (32 ∷ (e.name ++ (0 ∷ (s ++ render_items (map written es))))))
      (hex_string_to_bytes-hex_of e.id b)

render_entry-longer : (e : Entry) (rest : Bytes) → suc (length rest) ≤ length (render_entry e rest)
render_entry-longer e rest = omega (
  arith,
  length-append (mode_text (mode_of e.kind)) (32 ∷ (e.name ++ (0 ∷ (e.id ++ rest)))),
  length-append e.name (0 ∷ (e.id ++ rest)),
  length-append e.id rest,
)

-- The items are read back in their order.
pub parse_items-written :
    (fuel : ℕ) (es : List Entry)
    → All IsEntry es
    → length (render_items (map written es)) ≤ fuel
    → parse_items (suc fuel) (render_items (map written es)) ≡ done (some (map cut_item es))
unfolding parse_items render_items read_until_bytes entry_of
parse_items-written fuel [] a h = refl
parse_items-written zero (e ∷ es) a h = absurd (
    omega (
      arith,
      ap length (render_items-written e es a.0),
      render_entry-longer e (render_items (map written es)),
    ))
parse_items-written (suc fuel) (e ∷ es) a h =
    let shorter : length (render_items (map written es)) ≤ fuel = omega (
      arith,
      ap length (render_items-written e es a.0),
      render_entry-longer e (render_items (map written es)),
    ) in
    ap (parse_items (suc (suc fuel))) (render_items-written e es a.0)
    ∙ (entry-read (parse_items (suc fuel)) e (render_items (map written es)) a.0
        ∙ ap (more_items (cut_item e)) (parse_items-written fuel es a.1 shorter))

abbrev pub tree_of : Bytes → List TreeObjectItem → TreeObject
tree_of id items = record { id = id; object_list = items; raw_data = []; is_dirty = false }
