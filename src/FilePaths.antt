-- ===== src/FilePaths.antt =====
-- path.Clean and path.Join of Go's library, over "/".

use mathlib.Core.List.{reverse}
pub mod Under
use gitus.Prelude.{
  ℕ, List, [], ◌∷◌, split, join, is_empty, Bool, Bytes, false, if◌then◌else◌, ◌==◌, ◌||◌, beq,
  Option, none, some, true, has_prefix,
}

abbrev pub slash : ℕ
slash = 47

abbrev pub dots : Bytes
dots = 46 ∷ 46 ∷ []

-- One component onto the components so far, last first. `rooted` says that the path began with a
-- slash: there, ".." at the root stays at the root.
unfoldable pub clean_component : Bool → List Bytes → Bytes → List Bytes
clean_component rooted [] c =
    if is_empty c || beq c (46 ∷ [])
    then []
    else if beq c dots
    then (if rooted then [] else c ∷ [])
    else c ∷ []
clean_component rooted (top ∷ stack) c =
    if is_empty c || beq c (46 ∷ [])
    then top ∷ stack
    else if beq c dots
    then (if beq top dots then c ∷ top ∷ stack else stack)
    else c ∷ top ∷ stack

unfoldable pub clean_components : Bool → List Bytes → List Bytes → List Bytes
clean_components rooted stack [] = stack
clean_components rooted stack (c ∷ cs) = clean_components rooted (clean_component rooted stack c) cs

abbrev is_rooted : Bytes → Bool
is_rooted [] = false
is_rooted (c ∷ s) = c == slash

unfoldable pub path_clean : Bytes → Bytes
unfolding clean_components clean_component split join
path_clean s =
    let parts = split slash s in
    let body =
      join (slash ∷ []) (reverse (clean_components (is_rooted s) [] (parts.0 ∷ parts.1))) in
    if is_rooted s then slash ∷ body else if is_empty body then 46 ∷ [] else body

abbrev nonempty_parts : List Bytes → List Bytes
nonempty_parts [] = []
nonempty_parts (c ∷ cs) = if is_empty c then nonempty_parts cs else c ∷ nonempty_parts cs

unfoldable pub path_join : List Bytes → Bytes
unfolding path_clean
path_join cs =
    let joined = join (slash ∷ []) (nonempty_parts cs) in
    if is_empty joined then [] else path_clean joined

-- The components of a cleaned path.
unfoldable pub components : Bytes → List Bytes
unfolding path_clean
components s = let parts = split slash (path_clean s) in nonempty_parts (parts.0 ∷ parts.1)

-- The components of a directory that paths are taken relative to: "." counts as the empty path.
unfoldable pub base_components : Bytes → List Bytes
unfolding components path_clean beq
base_components s = if beq (path_clean s) (46 ∷ []) then [] else components s

-- What is left of two paths behind the components that they share.
unfoldable pub strip_common : List Bytes → List Bytes → List Bytes × List Bytes
strip_common [] ts = ([], ts)
strip_common (b ∷ bs) [] = (b ∷ bs, [])
strip_common (b ∷ bs) (t ∷ ts) = if beq b t then strip_common bs ts else (b ∷ bs, t ∷ ts)

abbrev ups : List Bytes → List Bytes → List Bytes
ups [] ts = ts
ups (b ∷ bs) ts = dots ∷ ups bs ts

abbrev rel_parts : List Bytes × List Bytes → Option (List Bytes)
rel_parts ([], ts) = some ts
rel_parts (b ∷ bs, ts) = if beq b dots then none else some (ups (b ∷ bs) ts)

abbrev join_rel : Option (List Bytes) → Option Bytes
join_rel none = none
join_rel (some []) = some (46 ∷ [])
join_rel (some (c ∷ cs)) = some (join (slash ∷ []) (c ∷ cs))

-- filepath.Rel on cleaned paths; `none` is its error.
unfoldable pub path_rel : Bytes → Bytes → Option Bytes
unfolding strip_common
path_rel base target =
    if is_rooted (path_clean base)
    then (if is_rooted (path_clean target)
        then join_rel (rel_parts (strip_common (base_components base) (components target)))
        else none)
    else if is_rooted (path_clean target)
    then none
    else join_rel (rel_parts (strip_common (base_components base) (components target)))

-- `err != nil || strings.HasPrefix(chk, "..")`
abbrev pub escapes : Option Bytes → Bool
escapes none = true
escapes (some chk) = has_prefix chk dots
