-- ===== src/Tree/Paths.antt =====
-- Paths that are followed through the trees of git.
use gitus.Prelude.{
  ℕ, ◌≡◌, refl, Bytes, List, [], ◌∷◌, ◌++◌, Option, some, none, Run, done, panics, ap, ◌∙◌,
  Bool-cases, inl, inr, ◌==◌, same_byte,
}
use gitus.Prelude.{split}
use gitus.Tree.{
  TreeObject, GitObject, directory, other_object, follow, resolve_pieces, pieces_of,
  resolve_tree_path,
}

split-append :
    (sep : ℕ) (p q : Bytes)
    → split sep (p ++ (sep ∷ q))
      ≡ ((split sep p).0, (split sep p).1 ++ ((split sep q).0 ∷ (split sep q).1))
unfolding split
split-append sep [] q = rw (same_byte sep) refl
split-append sep (c ∷ p) q = elim (Bool-cases (c == sep)) [
  | inl h ↦ rw (h) (ap (λ r. ([], r.0 ∷ r.1)) (split-append sep p q))
  | inr h ↦ rw (h) (ap (λ r. (c ∷ r.0, r.1)) (split-append sep p q))
]

pieces_of-append : (p q : Bytes) → pieces_of (p ++ (47 ∷ q)) ≡ pieces_of p ++ pieces_of q
unfolding pieces_of
pieces_of-append p q = ap (λ r. r.0 ∷ r.1) (split-append 47 p q)

follow-panics :
    (f g : GitObject → Run (Option GitObject)) (o : Option GitObject) (b : Bytes)
    → ((x : GitObject) → f x ≡ done (some (other_object b)) → g x ≡ panics)
    → follow f o ≡ done (some (other_object b))
    → follow g o ≡ panics
follow-panics f g none b h p = cc
follow-panics f g (some o) b h p = h o p

resolve_pieces-panics :
    (read : Bytes → Option GitObject) (xs ys : List Bytes) (y b : Bytes) (o : GitObject)
    → resolve_pieces read xs o ≡ done (some (other_object b))
    → resolve_pieces read (xs ++ (y ∷ ys)) o ≡ panics
unfolding resolve_pieces
resolve_pieces-panics read [] ys y b (directory t) h = cc
resolve_pieces-panics read [] ys y b (other_object c) h = refl
resolve_pieces-panics read (x ∷ xs) ys y b (other_object c) h = refl
resolve_pieces-panics read (x ∷ xs) ys y b (directory t) h =
    follow-panics (resolve_pieces read xs) (resolve_pieces read (xs ++ (y ∷ ys))) _ b
      (λ o. resolve_pieces-panics read xs ys y b o) h

-- When a path leads to an object that is no directory, every path that goes on behind it with a slash
-- panics, also when nothing follows the slash.
pub resolve_tree_path-panics :
    (read : Bytes → Option GitObject) (t : TreeObject) (p q b : Bytes)
    → resolve_tree_path read t p ≡ done (some (other_object b))
    → resolve_tree_path read t (p ++ (47 ∷ q)) ≡ panics
unfolding resolve_tree_path pieces_of
resolve_tree_path-panics read t p q b h =
    ap (λ xs. resolve_pieces read xs (directory t)) (pieces_of-append p q)
    ∙ resolve_pieces-panics read (pieces_of p) (split 47 q).1 (split 47 q).0 b (directory t) h
