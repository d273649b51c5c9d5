-- ===== src/Submodules/Suggested.antt =====
-- The suggested URL leads to the same repository.
use gitus.Prelude.{
  ℕ, Bool, true, false, Bytes, [], ◌∷◌, ◌++◌, ◌≡◌, refl, arith, Free, Free-weaken, is_space,
  is_empty, beq, has_prefix, contains, all, not, ◌==◌, ◌||◌, codes, Bool-cases, trim_space-Free,
  split-piece, split-whole, split, ap, ◌∙◌, inl, inr, beq→eq, if◌then◌else◌, trim_space,
}
use gitus.FilePaths.{slash, dots}
use gitus.Submodules.{
  SubmoduleUrl, name_char, is_gitus_full_name, trim_slashes, before_query, path_base, has_suffix,
  trim_git, git_suffix, named_url, relative_url, is_scp_like, resolve_submodule_url,
  suggested_git_url, resolved, unresolved, elsewhere,
}

-- The bytes of a full name.
abbrev full_name_char : ℕ → Bool
full_name_char c = name_char c || c == b':'

abbrev Plain : Bytes → Type 0
Plain s = Free (λ c. not (full_name_char c)) s

all_name_chars-Plain : (s : Bytes) → all name_char s ≡ true → Plain s
all_name_chars-Plain [] h = tt
all_name_chars-Plain (c ∷ s) h = (ground arith, all_name_chars-Plain s (ground arith))

is_gitus_full_name-Plain : (s : Bytes) → is_gitus_full_name s ≡ true → Plain s
unfolding is_gitus_full_name
is_gitus_full_name-Plain [] h = tt
is_gitus_full_name-Plain (c ∷ s) h = elim (Bool-cases (c == b':')) [
  | inl x ↦ (ground arith, all_name_chars-Plain s (ground arith))
  | inr x ↦ (ground arith, is_gitus_full_name-Plain s (ground arith))
]

no_slash : (c : ℕ) → not (full_name_char c) ≡ false → (c == b'/') ≡ false
no_slash c h = ground arith

no_space : (c : ℕ) → not (full_name_char c) ≡ false → is_space c ≡ false
unfolding is_space
no_space c h = ground arith

no_query : (c : ℕ) → not (full_name_char c) ≡ false → (c == b'?' || c == b'#') ≡ false
no_query c h = ground arith

contains_scheme : (s : Bytes) → Free (λ c. c == b'/') s → contains s (codes "://") ≡ false
unfolding contains has_prefix
contains_scheme [] f = refl
contains_scheme (c ∷ []) f = ground arith
contains_scheme (c ∷ d ∷ s) f = ground (arith, contains_scheme (d ∷ s) f.1)

before_query-Free : (s : Bytes) → Free (λ c. c == b'?' || c == b'#') s → before_query s ≡ s
unfolding before_query
before_query-Free [] f = refl
before_query-Free (c ∷ s) f = rw (f.0, before_query-Free s f.1) refl

trim_slashes-Free : (s : Bytes) → Free (λ c. c == b'/') s → trim_slashes s ≡ s
unfolding trim_slashes
trim_slashes-Free [] f = refl
trim_slashes-Free (c ∷ s) f = ground (arith, trim_slashes-Free s f.1)

not_full :
    {b : Bool} (s t : Bytes)
    → is_gitus_full_name s ≡ true
    → s ≡ t
    → is_gitus_full_name t ≡ false
    → b ≡ false
not_full s t f e g = cc

-- A text of `../` and a name.
abbrev above : Bytes → Bytes
above s = b'.' ∷ b'.' ∷ b'/' ∷ s

module _ (s : Bytes) (f : is_gitus_full_name s ≡ true) where
  no_slash-Free : Free (λ c. c == b'/') s
  no_slash-Free =
      Free-weaken (λ c. not (full_name_char c)) (λ c. c == b'/') s no_slash
        (is_gitus_full_name-Plain s f)

  above-Free : Free is_space (above s)
  unfolding is_space
  above-Free = (
    refl,
    (
      refl,
      (
        refl,
        Free-weaken (λ c. not (full_name_char c)) is_space s no_space
            (is_gitus_full_name-Plain s f),
      ),
    ),
  )

  no_query-Free : Free (λ c. c == b'?' || c == b'#') s
  no_query-Free =
      Free-weaken (λ c. not (full_name_char c)) (λ c. c == b'?' || c == b'#') s no_query
        (is_gitus_full_name-Plain s f)

  is_full-nonempty : is_empty s ≡ false
  unfolding is_gitus_full_name
  is_full-nonempty = ground arith

  trim_slashes-above : trim_slashes (above s) ≡ above s
  unfolding trim_slashes
  trim_slashes-above = rw (trim_slashes-Free s no_slash-Free, is_full-nonempty) refl

  split-above : split slash (above s) ≡ (dots, s ∷ [])
  split-above =
      split-piece slash dots s (refl, (refl, tt))
      ∙ ap (λ p. (dots, p.0 ∷ p.1)) (split-whole slash s no_slash-Free)

  path_base-above : path_base (above s) ≡ s
  unfolding path_base
  path_base-above = rw (trim_slashes-above, split-above, is_full-nonempty) refl

  is_gitus_full_name-above : is_gitus_full_name (above s) ≡ false
  unfolding is_gitus_full_name
  is_gitus_full_name-above = refl

  contains_scheme-above : contains (above s) (codes "://") ≡ false
  unfolding contains
  contains_scheme-above = contains_scheme s no_slash-Free

  is_scp_like-above : is_scp_like (above s) ≡ false
  unfolding is_scp_like
  is_scp_like-above = refl

  before_query-above : before_query (above s) ≡ above s
  unfolding before_query
  before_query-above = rw (before_query-Free s no_query-Free) refl

  is_dots-full : is_empty s || beq s (b'.' ∷ []) || beq s dots ≡ false
  unfolding is_gitus_full_name beq
  is_dots-full = elim (Bool-cases (beq s dots)) [
    | inl h ↦ not_full s dots f (beq→eq s dots h) refl
    | inr h ↦ elim (Bool-cases (beq s (b'.' ∷ []))) [
      | inl k ↦ not_full s (b'.' ∷ []) f (beq→eq s (b'.' ∷ []) k) refl
      | inr k ↦ rw (h, k, is_full-nonempty) refl
    ]
  ]

  relative_url-full :
      (n r : Bytes) → has_suffix s git_suffix ≡ false → relative_url n r s ≡ resolved r s
  unfolding relative_url named_url trim_git
  relative_url-full n r h = rw (is_dots-full, h, is_full-nonempty, f) refl

  resolve_submodule_url-above :
      (super_namespace : Bytes)
      → has_suffix s git_suffix ≡ false
      → resolve_submodule_url super_namespace (above s) ≡ resolved (above s) s
  unfolding resolve_submodule_url has_prefix
  resolve_submodule_url-above n h =
      rw
        (
          trim_space-Free (above s) above-Free,
          is_gitus_full_name-above,
          contains_scheme-above,
          is_scp_like-above,
          before_query-above,
          trim_slashes-above,
          path_base-above,
        )
        (relative_url-full n (above s) h)

-- An answer is resolved exactly if it has a name.
Consistent : SubmoduleUrl → Type 0
Consistent u = u.gitus_resolved ≡ not (is_empty u.full_name)

if-Consistent :
    (b : Bool) (u v : SubmoduleUrl) → Consistent u → Consistent v → Consistent (if b then u else v)
if-Consistent true u v g h = g
if-Consistent false u v g h = h

unresolved-Consistent : (r : Bytes) → Consistent (unresolved r)
unfolding Consistent
unresolved-Consistent r = refl

elsewhere-Consistent : (r : Bytes) → Consistent (elsewhere r)
unfolding Consistent
elsewhere-Consistent r = refl

resolved-Consistent : (r s : Bytes) → is_empty s ≡ false → Consistent (resolved r s)
unfolding Consistent
resolved-Consistent r s h = rw h refl

qualified-nonempty : (n base : Bytes) → is_empty (n ++ (b':' ∷ base)) ≡ false
qualified-nonempty [] base = refl
qualified-nonempty (c ∷ n) base = refl

named_url-Consistent : (n r base : Bytes) → Consistent (named_url n r base)
unfolding named_url
named_url-Consistent n r [] = unresolved-Consistent r
named_url-Consistent n r (c ∷ s) = if-Consistent _ _ _ (resolved-Consistent r (c ∷ s) refl) (
    if-Consistent _ _ _ (elsewhere-Consistent r) (
      if-Consistent _ _ _ (resolved-Consistent r (c ∷ s) refl)
        (resolved-Consistent r (n ++ (b':' ∷ c ∷ s)) (qualified-nonempty n (c ∷ s)))))

relative_url-Consistent : (n r base : Bytes) → Consistent (relative_url n r base)
unfolding relative_url
relative_url-Consistent n r base =
    if-Consistent _ _ _ (unresolved-Consistent r) (named_url-Consistent n r (trim_git base))

resolve_submodule_url-Consistent : (n given : Bytes) → Consistent (resolve_submodule_url n given)
unfolding resolve_submodule_url
resolve_submodule_url-Consistent n given = elim (Bool-cases (is_empty (trim_space given))) [
  | inl h ↦ rw h (unresolved-Consistent (trim_space given))
  | inr h ↦ rw h (
      if-Consistent _ _ _ (resolved-Consistent (trim_space given) (trim_space given) h) (
        if-Consistent _ _ _ (elsewhere-Consistent (trim_space given))
          (relative_url-Consistent n (trim_space given) _)))
]

suggested_git_url-above :
    (u : SubmoduleUrl)
    → Consistent u
    → is_empty u.full_name ≡ false
    → suggested_git_url u ≡ above u.full_name
unfolding suggested_git_url Consistent
suggested_git_url-above u c h = rw (c, h) refl

-- The URL that is suggested for a resolved submodule, whose name is a full name and does not end in
-- `.git`, is resolved to the same name, in whatever namespace it is read.
pub resolve_submodule_url-suggested_git_url :
    (super_namespace other_namespace given : Bytes)
    → is_gitus_full_name (resolve_submodule_url super_namespace given).full_name ≡ true
    → has_suffix (resolve_submodule_url super_namespace given).full_name git_suffix ≡ false
    → resolve_submodule_url other_namespace
        (suggested_git_url (resolve_submodule_url super_namespace given))
      ≡ resolved
          (suggested_git_url (resolve_submodule_url super_namespace given))
          (resolve_submodule_url super_namespace given).full_name
resolve_submodule_url-suggested_git_url n m given f h =
    let u = resolve_submodule_url n given in
    let c = resolve_submodule_url-Consistent n given in
    rw (suggested_git_url-above u c (is_full-nonempty u.full_name f))
      (resolve_submodule_url-above u.full_name f m h)
