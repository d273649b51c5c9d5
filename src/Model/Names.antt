-- ===== src/Model/Names.antt =====
-- The name checks of pkg/gitus/model: ValidUserName, ValidNamespaceName, ValidRepositoryName and
-- ValidStrictRepositoryName.
use gitus.Prelude.{
  ℕ, Bool, Bytes, is_space, split, ◌≡◌, Free, List, [], false, if◌then◌else◌, leb, trim_space, true,
  ◌++◌, ◌∷◌, arith, is_empty, not, refl, trim_space-Free, ◌&&◌, ◌==◌, ◌||◌,
}

-- The condition on a character that the four checks share.
unfoldable pub is_name_byte : ℕ → Bool
is_name_byte k =
    leb b'0' k && leb k b'9'
    || leb b'A' k && leb k b'Z'
    || leb b'a' k && leb k b'z'
    || k == b'_'
    || k == b'-'

unfoldable pub valid_user_name : Bytes → Bool
unfolding is_name_byte
valid_user_name [] = true
valid_user_name (k ∷ s) = if not (is_name_byte k) then false else valid_user_name s

unfoldable pub valid_namespace_name : Bytes → Bool
unfolding is_name_byte
valid_namespace_name [] = true
valid_namespace_name (ch ∷ s) = if not (is_name_byte ch) then false else valid_namespace_name s

unfoldable pub valid_strict_repository_name : Bytes → Bool
unfolding is_name_byte
valid_strict_repository_name [] = true
valid_strict_repository_name (k ∷ s) =
    if not (is_name_byte k) then false else valid_strict_repository_name s

-- The flag is `colonPassed`.
unfoldable pub valid_from : Bool → Bytes → Bool
valid_from passed [] = true
valid_from passed (k ∷ s) =
    let after_colon = valid_from true s in
    let after_name = valid_from passed s in
    if not (is_name_byte k)
    then (if k == b':' then (if passed then false else after_colon) else false)
    else after_name

unfoldable pub valid_repository_name : Bytes → Bool
unfolding valid_from
valid_repository_name s = valid_from false s

-- Repository.FullName
unfoldable pub full_name : Bytes → Bytes → Bytes
full_name ns name = if is_empty ns then name else ns ++ b':' ∷ name

abbrev parts_of : Bytes × List Bytes → Bytes × Bytes
parts_of (x, []) = ([], x)
parts_of (x, y ∷ ys) = (x, y)

-- ParseRepositoryFullName, and the first lines of ResolveRepositoryFullName.
unfoldable pub parse_repository_full_name : Bytes → Bytes × Bytes
unfolding split trim_space
parse_repository_full_name s = parts_of (split b':' (trim_space s))

-- Strings of name bytes.
abbrev pub IsName : Bytes → Type 0
IsName [] = Unit
IsName (k ∷ s) = (is_name_byte k ≡ true) × IsName s

pub valid_strict_repository_name-IsName :
    (s : Bytes) → valid_strict_repository_name s ≡ true → IsName s
unfolding valid_strict_repository_name
valid_strict_repository_name-IsName [] h = tt
valid_strict_repository_name-IsName (k ∷ s) h =
    ground (arith, valid_strict_repository_name-IsName s)

pub valid_namespace_name-IsName : (s : Bytes) → valid_namespace_name s ≡ true → IsName s
unfolding valid_namespace_name
valid_namespace_name-IsName [] h = tt
valid_namespace_name-IsName (k ∷ s) h = ground (arith, valid_namespace_name-IsName s)

name_not_colon : (k : ℕ) → is_name_byte k ≡ true → (k == b':') ≡ false
unfolding is_name_byte
name_not_colon k h = ground arith

name_not_space : (k : ℕ) → is_name_byte k ≡ true → is_space k ≡ false
unfolding is_name_byte is_space
name_not_space k h = ground arith

IsName-append : (s t : Bytes) → IsName s → IsName t → IsName (s ++ t)
IsName-append [] t a b = b
IsName-append (k ∷ s) t a b = (a.0, IsName-append s t a.1 b)

IsName-not_space : (s : Bytes) → IsName s → Free is_space s
IsName-not_space [] a = tt
IsName-not_space (k ∷ s) a = (name_not_space k a.0, IsName-not_space s a.1)

split-name : (s : Bytes) → IsName s → split b':' s ≡ (s, [])
unfolding split
split-name [] a = refl
split-name (k ∷ s) a = ground (arith, name_not_colon k, split-name s a.1)

split-full_name :
    (ns name : Bytes) → IsName ns → IsName name → split b':' (ns ++ b':' ∷ name) ≡ (ns, name ∷ [])
unfolding split
split-full_name [] name a b = ground (arith, split-name name b)
split-full_name (k ∷ ns) name a b = ground (arith, name_not_colon k, split-full_name ns name a.1 b)

Free-colon : (ns name : Bytes) → IsName ns → IsName name → Free is_space (ns ++ b':' ∷ name)
unfolding is_space
Free-colon [] name a b = (refl, IsName-not_space name b)
Free-colon (k ∷ ns) name a b = (name_not_space k a.0, Free-colon ns name a.1 b)

full_name-Free : (ns name : Bytes) → IsName ns → IsName name → Free is_space (full_name ns name)
unfolding full_name
full_name-Free [] name a b = IsName-not_space name b
full_name-Free (k ∷ ns) name a b = Free-colon (k ∷ ns) name a b

reads_full_name :
    (ns name : Bytes)
    → IsName ns
    → IsName name
    → parts_of (split b':' (full_name ns name)) ≡ (ns, name)
unfolding full_name
reads_full_name [] name a b = rw (split-name name b)
reads_full_name (k ∷ ns) name a b = rw (split-full_name (k ∷ ns) name a b)

-- The full name of a repository whose names pass their checks is read back as these names, the
-- empty namespace included.
parse_repository_full_name-full_name :
    (ns name : Bytes)
    → valid_namespace_name ns ≡ true
    → valid_strict_repository_name name ≡ true
    → parse_repository_full_name (full_name ns name) ≡ (ns, name)
unfolding parse_repository_full_name
parse_repository_full_name-full_name ns name a b =
    let a' = valid_namespace_name-IsName ns a in
    let b' = valid_strict_repository_name-IsName name b in
    rw (trim_space-Free (full_name ns name) (full_name-Free ns name a' b'))
      (reads_full_name ns name a' b')

valid_from-name : (passed : Bool) (s : Bytes) → IsName s → valid_from passed s ≡ true
unfolding valid_from
valid_from-name passed [] a = refl
valid_from-name passed (k ∷ s) a = ground (arith, valid_from-name passed s a.1)

valid_from-colon :
    (ns name : Bytes) → IsName ns → IsName name → valid_from false (ns ++ b':' ∷ name) ≡ true
unfolding valid_from is_name_byte
valid_from-colon [] name a b = ground (arith, valid_from-name true name b)
valid_from-colon (k ∷ ns) name a b = ground (arith, valid_from-colon ns name a.1 b)
