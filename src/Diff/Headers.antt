-- ===== src/Diff/Headers.antt =====
-- The type of a header's item.
use gitus.Prelude.{
  ℕ, Bytes, List, [], ◌∷◌, ◌++◌, ◌≡◌, refl, Option, none, some, All, ◌⊎◌, inl, inr, codes, sym, ap,
  ◌∙◌,
}
use gitus.Diff.{
  parse_git_diff_header_item, header_item, item_of_match, command_type, DiffItemHeaderItem,
  diff_index,
}
use gitus.Diff.Patterns.{
  first_match, header_match, HeaderMatch, keyword_match, index_match, keywords, one_of, or_else,
  keyword_found, index_dots, index_first, index_found, index_second, no_dots, strip, up_to_feed,
}

-- A keyword with a value behind it is none of the ten texts.
Untyped : Bytes → Type 0
Untyped k = (v : Bytes) → command_type (k ++ (b' ' ∷ v)) ≡ 0

keywords-Untyped : All Untyped keywords
unfolding Untyped command_type
keywords-Untyped = (
  (λ v. refl),
  (
    (λ v. refl),
    (
      (λ v. refl),
      (
        (λ v. refl),
        (
          (λ v. refl),
          ((λ v. refl), ((λ v. refl), ((λ v. refl), ((λ v. refl), ((λ v. refl), tt))))),
        ),
      ),
    ),
  ),
)

HasNoType : HeaderMatch → Type 0
HasNoType (keyword_match k v) = command_type (k ++ (b' ' ∷ v)) ≡ 0
HasNoType (index_match a b) = Unit

Gives : Option HeaderMatch → Type 0
Gives none = Unit
Gives (some m) = HasNoType m

or_else-Gives : (a b : Option HeaderMatch) → Gives a → Gives b → Gives (or_else a b)
unfolding Gives
or_else-Gives none b x y = y
or_else-Gives (some m) b x y = x

first_match-Gives :
    (p : Bytes → Option HeaderMatch)
    → ((t : Bytes) → Gives (p t))
    → (s : Bytes) → Gives (first_match p s)
unfolding first_match
first_match-Gives p h [] = h []
first_match-Gives p h (c ∷ s) =
    or_else-Gives (p (c ∷ s)) (first_match p s) (h (c ∷ s)) (first_match-Gives p h s)

keyword_found-Gives : (k : Bytes) (o : Option Bytes) → Untyped k → Gives (keyword_found k o)
unfolding Gives HasNoType Untyped keyword_found
keyword_found-Gives k none u = tt
keyword_found-Gives k (some s) u = u (up_to_feed s)

one_of-Gives : (ks : List Bytes) (s : Bytes) → All Untyped ks → Gives (one_of ks s)
unfolding one_of Gives
one_of-Gives [] s a = tt
one_of-Gives (k ∷ ks) s a =
    or_else-Gives (keyword_found k (strip (k ++ (b' ' ∷ [])) s)) (one_of ks s)
      (keyword_found-Gives k (strip (k ++ (b' ' ∷ [])) s) a.0) (one_of-Gives ks s a.1)

index_second-Gives : (a : Bytes) (r : Bytes × Bytes) → Gives (index_second a r)
unfolding Gives HasNoType
index_second-Gives a ([], rest) = tt
index_second-Gives a (c ∷ b, rest) = tt

index_dots-Gives : (a : Bytes) (o : Option Bytes) → Gives (index_dots a o)
unfolding Gives
index_dots-Gives a none = tt
index_dots-Gives a (some s) = index_second-Gives a (no_dots s)

index_first-Gives : (r : Bytes × Bytes) → Gives (index_first r)
unfolding Gives index_first
index_first-Gives ([], rest) = tt
index_first-Gives (c ∷ a, rest) = index_dots-Gives (c ∷ a) (strip (codes "..") rest)

index_found-Gives : (o : Option Bytes) → Gives (index_found o)
unfolding Gives index_found
index_found-Gives none = tt
index_found-Gives (some s) = index_first-Gives (no_dots s)

header_match-Gives : (s : Bytes) → Gives (header_match s)
unfolding header_match
header_match-Gives s =
    first_match-Gives (λ t. or_else (one_of keywords t) (index_found (strip (codes "index ") t)))
      (λ t.
        or_else-Gives (one_of keywords t) (index_found (strip (codes "index ") t))
          (one_of-Gives keywords t keywords-Untyped) (index_found-Gives (strip (codes "index ") t)))
      s

abbrev type_or_0 : Option DiffItemHeaderItem → ℕ
type_or_0 none = 0
type_or_0 (some i) = i.type

item-untyped :
    (o : Option HeaderMatch) (i : DiffItemHeaderItem)
    → Gives o
    → item_of_match o ≡ some i
    → (i.type ≡ 0) ⊎ (i.type ≡ diff_index)
unfolding Gives HasNoType item_of_match header_item
item-untyped none i g h = cc
item-untyped (some (keyword_match k v)) i g h = inl (sym (ap type_or_0 h) ∙ g)
item-untyped (some (index_match a b)) i g h = inr (sym (ap type_or_0 h))

-- An item of a header has the type of an index line or no type at all, whichever of the ten keywords
-- the line begins with.
pub parse_git_diff_header_item-untyped :
    (s : Bytes) (i : DiffItemHeaderItem)
    → parse_git_diff_header_item s ≡ some i
    → (i.type ≡ 0) ⊎ (i.type ≡ diff_index)
unfolding parse_git_diff_header_item
parse_git_diff_header_item-untyped s i h = item-untyped (header_match s) i (header_match-Gives s) h
