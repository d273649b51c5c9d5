-- ===== src/FilePaths/Under.antt =====
-- A path that filepath.Rel does not lead out of a directory lies in it.
use mathlib.Core.Path.{ap₂}
use gitus.Prelude.{
  Bytes, List, ◌≡◌, [], false, ◌++◌, ◌∷◌, join, has_prefix, arith, refl, Bool-cases, sym, ◌≢◌, beq,
  true, inl, beq→eq, inr,
}
use gitus.FilePaths.{
  strip_common, rel_parts, join_rel, path_rel, escapes, components, base_components,
}

-- `ts` goes on with the components `rest` behind those of the directory.
pub data Under (bs : List Bytes) : List Bytes → Type 0 where
  under : (ts rest : List Bytes) → ts ≡ bs ++ rest → Under bs ts

extend :
    (b : Bytes) (bs : List Bytes) (t : Bytes) (ts : List Bytes)
    → b ≡ t
    → Under bs ts
    → Under (b ∷ bs) (t ∷ ts)
extend b bs t ts e (under _ rest p) = under (t ∷ ts) rest (ap₂ ◌∷◌ (sym e) p)

strip_common-Under : (bs ts : List Bytes) → (strip_common bs ts).0 ≡ [] → Under bs ts
unfolding strip_common
strip_common-Under [] ts h = under ts ts refl
strip_common-Under (b ∷ bs) [] h = cc
strip_common-Under (b ∷ bs) (t ∷ ts) h = elim (Bool-cases (beq b t)) [
  | inl same ↦ extend b bs t ts (beq→eq b t same) (strip_common-Under bs ts (ground arith))
  | inr other ↦ absurd (ground arith)
]

join_rel_up : (bs ts : List Bytes) → bs ≢ [] → escapes (join_rel (rel_parts (bs, ts))) ≡ true
unfolding join has_prefix
join_rel_up [] ts n = absurd (n refl)
join_rel_up (b ∷ []) [] n = ground arith
join_rel_up (b ∷ []) (t ∷ ts) n = ground arith
join_rel_up (b ∷ c ∷ bs) ts n = ground arith

strip_common-escapes :
    (p : List Bytes × List Bytes) → escapes (join_rel (rel_parts p)) ≡ false → p.0 ≡ []
strip_common-escapes ([], ts) h = refl
strip_common-escapes (b ∷ bs, ts) h = absurd (ground (arith, join_rel_up (b ∷ bs) ts))

-- A path whose relation to a directory is no error and does not begin with ".." lies under it.
pub path_rel-Under :
    (base target : Bytes)
    → escapes (path_rel base target) ≡ false
    → Under (base_components base) (components target)
unfolding path_rel
path_rel-Under base target h =
    strip_common-Under (base_components base) (components target) (
      strip_common-escapes (strip_common (base_components base) (components target)) (ground arith))
