-- ===== src/Submodules.antt =====
-- pkg/gitlib/submodule.go: the URLs of submodules, and the ones that are suggested for them. A regular
-- expression is a function by clauses.
pub mod Suggested
mod Tests
use gitus.Prelude.{
  ℕ, Bool, true, false, Bytes, [], ◌∷◌, ◌++◌, if◌then◌else◌, is_empty, beq, has_prefix, contains,
  all, cut, split, last_or, trim_space, codes, leb, ◌==◌, ◌&&◌, ◌||◌, not, Option, none, some, drop,
  length,
}
use gitus.FilePaths.{slash, dots}
use mathlib.Core.List.{reverse}

pub record SubmoduleUrl : Type 0 where
  raw : Bytes
  full_name : Bytes
  external : Bool
  gitus_resolved : Bool

-- `[A-Za-z0-9_-]`
abbrev pub namespace_char : ℕ → Bool
namespace_char c =
    (leb 65 c && leb c 90)
    || (leb 97 c && leb c 122)
    || (leb 48 c && leb c 57)
    || c == b'_'
    || c == b'-'

-- `[A-Za-z0-9._-]`
abbrev pub name_char : ℕ → Bool
name_char c = c == b'.' || namespace_char c

-- `^[A-Za-z0-9_-]*:[A-Za-z0-9._-]+$`
unfoldable pub is_gitus_full_name : Bytes → Bool
is_gitus_full_name [] = false
is_gitus_full_name (c ∷ s) =
    let rest = is_gitus_full_name s in
    if c == b':' then not (is_empty s) && all name_char s else namespace_char c && rest

abbrev has_colon : Bytes → Bool
has_colon s = contains s (b':' ∷ [])

-- `[^/]+:` at the beginning of a text without a slash
abbrev colon_behind_one : Option Bytes → Bool
colon_behind_one none = false
colon_behind_one (some []) = false
colon_behind_one (some (c ∷ s)) = has_colon s

abbrev at_behind_one : Bytes → Bool
unfolding cut
at_behind_one [] = false
at_behind_one (c ∷ s) = colon_behind_one (cut b'@' s).1

-- `^[^/]+@[^/]+:`, which matches before the first slash if at all.
unfoldable pub is_scp_like : Bytes → Bool
unfolding cut contains
is_scp_like s = at_behind_one (cut slash s).0

-- The part before the first `?` or `#`.
unfoldable pub before_query : Bytes → Bytes
before_query [] = []
before_query (c ∷ s) = let r = before_query s in if c == b'?' || c == b'#' then [] else c ∷ r

-- strings.TrimRight(s, "/")
unfoldable pub trim_slashes : Bytes → Bytes
trim_slashes [] = []
trim_slashes (c ∷ s) = let r = trim_slashes s in if is_empty r && c == slash then [] else c ∷ r

abbrev last_component : Bytes → Bytes
last_component s = let parts = split slash s in last_or parts.0 parts.1

-- path.Base
unfoldable pub path_base : Bytes → Bytes
path_base s =
    let base = last_component (trim_slashes s) in
    if is_empty s then b'.' ∷ [] else if is_empty base then slash ∷ [] else base

-- strings.HasSuffix
unfoldable pub has_suffix : Bytes → Bytes → Bool
has_suffix s p = has_prefix (reverse s) (reverse p)

abbrev pub git_suffix : Bytes
git_suffix = codes ".git"

-- strings.TrimSuffix(base, ".git")
unfoldable pub trim_git : Bytes → Bytes
unfolding has_suffix
trim_git s = if has_suffix s git_suffix then reverse (drop (length git_suffix) (reverse s)) else s

-- The URLs that the function returns.
abbrev pub unresolved : Bytes → SubmoduleUrl
unresolved r = record { raw = r; full_name = []; external = false; gitus_resolved = false }

abbrev pub elsewhere : Bytes → SubmoduleUrl
elsewhere r = record { raw = r; full_name = []; external = true; gitus_resolved = false }

abbrev pub resolved : Bytes → Bytes → SubmoduleUrl
resolved r name = record { raw = r; full_name = name; external = false; gitus_resolved = true }

unfoldable pub named_url : Bytes → Bytes → Bytes → SubmoduleUrl
named_url super_namespace r base =
    if is_empty base
    then unresolved r
    else if is_gitus_full_name base
    then resolved r base
    else if has_colon base
    then elsewhere r
    else if is_empty super_namespace
    then resolved r base
    else resolved r (super_namespace ++ (b':' ∷ base))

unfoldable pub relative_url : Bytes → Bytes → Bytes → SubmoduleUrl
relative_url super_namespace r base =
    if is_empty base || beq base (b'.' ∷ []) || beq base dots
    then unresolved r
    else named_url super_namespace r (trim_git base)

unfoldable pub resolve_submodule_url : Bytes → Bytes → SubmoduleUrl
resolve_submodule_url super_namespace given =
    let r = trim_space given in
    if is_empty r
    then unresolved r
    else if is_gitus_full_name r
    then resolved r r
    else if contains r (codes "://") || has_prefix r (codes "//") || is_scp_like r
    then elsewhere r
    else relative_url super_namespace r (path_base (trim_slashes (before_query r)))

unfoldable pub suggested_git_url : SubmoduleUrl → Bytes
suggested_git_url u =
    if not u.gitus_resolved || is_empty u.full_name then [] else dots ++ (slash ∷ u.full_name)
