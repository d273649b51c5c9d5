-- ===== src/Storage.antt =====
-- The storage limit of a push: cmd/gitus/storage-check.go and pkg/gitlib/size.go. The file system,
-- filepath.Rel and the database are parameters.
pub mod Measured
mod Tests
use gitus.Prelude.{
  ℕ, Bool, Bytes, List, [], ◌∷◌, Option, none, some, true, false, if◌then◌else◌, codes, beq, not,
  is_empty, cut, has_prefix, ltb, ◌&&◌, ◌+◌, ◌%◌, ◌||◌,
}

-- What filepath.WalkDir tells its callback of one entry.
pub data DirEntry : Type 0 where
  -- the walk itself failed
  failed : Bytes → DirEntry
  other : DirEntry
  file : ℕ → DirEntry
  -- a regular file for which Info fails
  no_info : Bytes → DirEntry

pub data SizeResult : Type 0 where
  size : ℕ → SizeResult
  size_error : Bytes → SizeResult

-- An int64 is held as its 64 bits.
abbrev pub add_int64 : ℕ → ℕ → ℕ
add_int64 a b = (a + b) % 18446744073709551616

abbrev offset : ℕ → ℕ
offset n = (n + 9223372036854775808) % 18446744073709551616

-- `a > b`
abbrev pub greater_int64 : ℕ → ℕ → Bool
greater_int64 a b = ltb (offset b) (offset a)

unfoldable pub sum_files : ℕ → List DirEntry → SizeResult
sum_files total [] = size total
sum_files total (failed e ∷ es) = size_error e
sum_files total (other ∷ es) = sum_files total es
sum_files total (file n ∷ es) = sum_files (add_int64 total n) es
sum_files total (no_info e ∷ es) = size_error e

unfoldable pub directory_size_in_bytes : (Bytes → List DirEntry) → Bytes → SizeResult
directory_size_in_bytes walk_dir p = sum_files 0 (walk_dir p)

pub record SizeLimitError : Type 0 where
  pub size : ℕ
  pub limit : ℕ

unfoldable pub check_size_limit : ℕ → ℕ → Option SizeLimitError
check_size_limit n limit =
    if greater_int64 limit 0 && greater_int64 n limit
    then some (record { size = n; limit = limit })
    else none

-- The result of filepath.Rel is a parameter.
unfoldable pub is_inside : (Bytes → Bytes → Option Bytes) → Bytes → Bytes → Bool
unfolding beq has_prefix
is_inside rel_path dir p = elim (rel_path dir p) [
  | none ↦ false
  | some rel ↦
      beq rel (codes ".") || (not (beq rel (codes "..")) && not (has_prefix rel (codes "../")))
]

pub data Repository : Type 0 where
  -- a local git repository, by its directory
  local : Bytes → Repository
  not_local : Repository

pub data Lookup : Type 0 where
  found : Repository → Lookup
  lookup_failed : Bytes → Lookup

-- What the check reads of the context and of its surroundings.
pub record Surroundings : Type 0 where
  pub repository_size_limit : ℕ
  pub use_namespace : Bool
  pub get_repository_by_name : Option (Bytes → Bytes → Lookup)
  pub walk_dir : Bytes → List DirEntry
  pub rel_path : Bytes → Bytes → Option Bytes
  -- GIT_QUARANTINE_PATH
  pub quarantine_path : Bytes

abbrev pub halves : Bytes → Bytes × Option Bytes → Bytes × Bytes
halves name (r, none) = ([], name)
halves name (r, some rest) = (r, rest)

unfoldable pub split_repo_full_name : Bool → Bytes → Bytes × Bytes
unfolding cut
split_repo_full_name use_namespace name =
    if not use_namespace then ([], name) else halves name (cut b':' name)

-- The reasons for which the check gives up.
pub data Warning : Type 0 where
  no_database : Warning
  no_repository : Bytes → Warning
  not_a_local_repository : Warning
  no_size : Bytes → Warning

pub data Verdict : Type 0 where
  allowed : Verdict
  warned : Warning → Verdict
  refused : SizeLimitError → Verdict

abbrev pub limited : Option SizeLimitError → Verdict
limited none = allowed
limited (some e) = refused e

unfoldable pub with_quarantine : ℕ → ℕ → SizeResult → Verdict
unfolding check_size_limit
with_quarantine limit n (size_error e) = warned (no_size e)
with_quarantine limit n (size q) = limited (check_size_limit (add_int64 n q) limit)

-- The objects of the push lie outside the repository.
unfoldable pub is_outside : Surroundings → Bytes → Bool
unfolding is_inside
is_outside s dir =
    not (is_empty s.quarantine_path) && not (is_inside s.rel_path dir s.quarantine_path)

-- The quarantine directory is counted when it lies outside.
unfoldable pub counted : Bool → Surroundings → ℕ → Verdict
unfolding with_quarantine check_size_limit directory_size_in_bytes
counted true s n =
    with_quarantine s.repository_size_limit n (directory_size_in_bytes s.walk_dir s.quarantine_path)
counted false s n = limited (check_size_limit n s.repository_size_limit)

-- The size of the repository is known, or not.
unfoldable pub sized : Surroundings → Bytes → SizeResult → Verdict
unfolding counted
sized s dir (size_error e) = warned (no_size e)
sized s dir (size n) = counted (is_outside s dir) s n

unfoldable pub looked_up : Surroundings → Lookup → Verdict
unfolding sized directory_size_in_bytes
looked_up s (lookup_failed e) = warned (no_repository e)
looked_up s (found not_local) = warned not_a_local_repository
looked_up s (found (local dir)) = sized s dir (directory_size_in_bytes s.walk_dir dir)

unfoldable pub by_database : Surroundings → Bytes → Option (Bytes → Bytes → Lookup) → Verdict
unfolding looked_up split_repo_full_name
by_database s name none = warned no_database
by_database s name (some get) =
    let r = split_repo_full_name s.use_namespace name in looked_up s (get r.0 r.1)

unfoldable pub handle_storage_check : Surroundings → Bytes → Verdict
unfolding by_database
handle_storage_check s name =
    if not (greater_int64 s.repository_size_limit 0)
    then allowed
    else by_database s name s.get_repository_by_name
