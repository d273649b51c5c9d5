-- ===== src/Storage/Measured.antt =====
-- The check in machine integers, and the sum it stands for.
use gitus.Prelude.{
  ℕ, Bytes, List, [], ◌∷◌, Option, none, some, true, false, if◌then◌else◌, ◌≡◌, refl, ◌+◌, ◌<◌,
  arith, ltb, ◌&&◌, ap, ◌∙◌, Bool-cases, inl, sym, inr, subst,
}
use gitus.Storage.{
  DirEntry, failed, other, file, no_info, SizeResult, size, size_error, sum_files, Verdict,
  Surroundings, SizeLimitError, check_size_limit, split_repo_full_name, Lookup, refused,
  lookup_failed, found, local, not_local, add_int64, directory_size_in_bytes, limited, sized,
  with_quarantine, is_outside, by_database, greater_int64, handle_storage_check, looked_up,
}

abbrev pub plus : Option ℕ → Option ℕ → Option ℕ
plus none o = none
plus (some n) none = none
plus (some n) (some m) = some (n + m)

-- The sizes of the regular files, if all entries can be read.
abbrev pub files_size : List DirEntry → Option ℕ
files_size [] = some 0
files_size (failed e ∷ es) = none
files_size (other ∷ es) = files_size es
files_size (file n ∷ es) = plus (some n) (files_size es)
files_size (no_info e ∷ es) = none

-- The files of the repository and of a quarantine directory outside it.
abbrev pub pushed_size : Surroundings → Bytes → Option ℕ
pushed_size s dir =
    if is_outside s dir
    then plus (files_size (s.walk_dir dir)) (files_size (s.walk_dir s.quarantine_path))
    else files_size (s.walk_dir dir)

abbrev pub local_size : Surroundings → Lookup → Option ℕ
local_size s (lookup_failed e) = none
local_size s (found not_local) = none
local_size s (found (local dir)) = pushed_size s dir

abbrev pub size_by : Surroundings → Bytes → Option (Bytes → Bytes → Lookup) → Option ℕ
unfolding split_repo_full_name
size_by s name none = none
size_by s name (some get) =
    let r = split_repo_full_name s.use_namespace name in local_size s (get r.0 r.1)

-- The size a push would leave, where it can be found.
abbrev pub measured : Surroundings → Bytes → Option ℕ
measured s name = size_by s name s.get_repository_by_name

abbrev pub Fits : Option ℕ → Type 0
Fits none = Unit
Fits (some n) = n < 9223372036854775808

abbrev pub refusal : Verdict → Option SizeLimitError
refusal (refused e) = some e
refusal o = none

-- The limit on a size of any magnitude; an unknown size is not refused.
abbrev pub over : ℕ → Option ℕ → Option SizeLimitError
over limit none = none
over limit (some n) =
    if ltb 0 limit && ltb limit n then some (record { size = n; limit = limit }) else none

-- The sum of the entries in machine integers.
abbrev Summed : ℕ → Option ℕ → SizeResult → Type 0
Summed t none r = (e : Bytes) × (r ≡ size_error e)
Summed t (some n) r = (k : ℕ) × (r ≡ size k) × (t + n < 9223372036854775808 → k ≡ t + n)

sum_small : (t n m : ℕ) → t + (n + m) < 9223372036854775808 → add_int64 t n ≡ t + n
sum_small t n m h = omega arith

Summed-file :
    (t n : ℕ) (o : Option ℕ) (r : SizeResult)
    → Summed (add_int64 t n) o r
    → Summed t (plus (some n) o) r
Summed-file t n none r s = s
Summed-file t n (some m) r s =
    (s.0, s.1, λ h. let e = sum_small t n m h in s.2 (rw e (omega arith)) ∙ rw e (omega arith))

sum_files-Summed : (t : ℕ) (es : List DirEntry) → Summed t (files_size es) (sum_files t es)
unfolding sum_files
sum_files-Summed t [] = (t, refl, λ h. omega arith)
sum_files-Summed t (failed e ∷ es) = (e, refl)
sum_files-Summed t (other ∷ es) = sum_files-Summed t es
sum_files-Summed t (file n ∷ es) =
    Summed-file t n (files_size es) (sum_files (add_int64 t n) es)
      (sum_files-Summed (add_int64 t n) es)
sum_files-Summed t (no_info e ∷ es) = (e, refl)

check_size_limit-over :
    (n limit : ℕ)
    → n < 9223372036854775808
    → limit < 9223372036854775808
    → check_size_limit n limit ≡ over limit (some n)
unfolding check_size_limit
check_size_limit-over n limit h l = ground arith

-- The whole directory.
directory_size-Summed :
    (walk : Bytes → List DirEntry) (p : Bytes)
    → Summed 0 (files_size (walk p)) (directory_size_in_bytes walk p)
unfolding directory_size_in_bytes
directory_size-Summed walk p = sum_files-Summed 0 (walk p)

limited-refusal : (o : Option SizeLimitError) → refusal (limited o) ≡ o
limited-refusal none = refl
limited-refusal (some e) = refl

sum_is : (n m k j : ℕ) → k ≡ n → j ≡ 0 + m → n + m < 9223372036854775808 → add_int64 k j ≡ n + m
sum_is n m k j a b h = omega arith

both-over :
    (limit n : ℕ) (o : Option ℕ) (q : SizeResult) (k : ℕ)
    → limit < 9223372036854775808
    → Summed 0 o q
    → (n < 9223372036854775808 → k ≡ n)
    → Fits (plus (some n) o)
    → refusal (with_quarantine limit k q) ≡ over limit (plus (some n) o)
unfolding with_quarantine
both-over limit n none q k l s h f = rw s.1 refl
both-over limit n (some m) q k l s h f =
    let k_is = h (omega arith) in
    let q_is = s.2 (omega arith) in
    rw (s.1, limited-refusal (check_size_limit (add_int64 k s.0) limit))
      (ap (λ x. check_size_limit x limit) (sum_is n m k s.0 k_is q_is f)
        ∙ check_size_limit-over (n + m) limit f l)

from_zero : (n k : ℕ) → (0 + n < 9223372036854775808 → k ≡ 0 + n) → n < 9223372036854775808 → k ≡ n
from_zero n k p h = let e = p (omega arith) in omega arith

pushed_outside :
    (s : Surroundings) (dir : Bytes) (o : Option ℕ)
    → is_outside s dir ≡ true
    → o ≡ files_size (s.walk_dir dir)
    → pushed_size s dir ≡ plus o (files_size (s.walk_dir s.quarantine_path))
pushed_outside s dir o t e = rw (t, e) refl

pushed_inside :
    (s : Surroundings) (dir : Bytes) (o : Option ℕ)
    → is_outside s dir ≡ false
    → o ≡ files_size (s.walk_dir dir)
    → pushed_size s dir ≡ o
pushed_inside s dir o t e = rw (t, e) refl

-- The repository, with a quarantine directory or without.
sized-over :
    (s : Surroundings) (dir : Bytes) (o : Option ℕ) (r : SizeResult)
    → s.repository_size_limit < 9223372036854775808
    → o ≡ files_size (s.walk_dir dir)
    → Summed 0 o r
    → Fits (pushed_size s dir)
    → refusal (sized s dir r) ≡ over s.repository_size_limit (pushed_size s dir)
unfolding sized
sized-over s dir none r l e m f = elim (Bool-cases (is_outside s dir)) [
  | inl t ↦ rw (t, sym e, m.1) refl
  | inr t ↦ rw (t, sym e, m.1) refl
]
sized-over s dir (some n) r l e m f = elim (Bool-cases (is_outside s dir)) [
  | inl t ↦
      let q = directory_size-Summed s.walk_dir s.quarantine_path in
      let g = subst Fits (pushed_outside s dir (some n) t e) f in
      rw (m.1, t, sym e)
        (both-over s.repository_size_limit n (files_size (s.walk_dir s.quarantine_path))
          (directory_size_in_bytes s.walk_dir s.quarantine_path) m.0 l q (from_zero n m.0 m.2) g)
  | inr t ↦
      let g = subst Fits (pushed_inside s dir (some n) t e) f in
      rw (m.1, t, sym e, limited-refusal (check_size_limit m.0 s.repository_size_limit))
        (ap (λ x. check_size_limit x s.repository_size_limit) (from_zero n m.0 m.2 g)
          ∙ check_size_limit-over n s.repository_size_limit g l)
]

looked_up-over :
    (s : Surroundings) (r : Lookup)
    → s.repository_size_limit < 9223372036854775808
    → Fits (local_size s r)
    → refusal (looked_up s r) ≡ over s.repository_size_limit (local_size s r)
unfolding looked_up
looked_up-over s (lookup_failed e) l f = refl
looked_up-over s (found not_local) l f = refl
looked_up-over s (found (local dir)) l f =
    sized-over s dir (files_size (s.walk_dir dir)) (directory_size_in_bytes s.walk_dir dir) l refl
      (directory_size-Summed s.walk_dir dir) f

by_database-over :
    (s : Surroundings) (name : Bytes) (d : Option (Bytes → Bytes → Lookup))
    → s.repository_size_limit < 9223372036854775808
    → Fits (size_by s name d)
    → refusal (by_database s name d) ≡ over s.repository_size_limit (size_by s name d)
unfolding by_database
by_database-over s name none l f = refl
by_database-over s name (some get) l f =
    let r = split_repo_full_name s.use_namespace name in looked_up-over s (get r.0 r.1) l f

no_limit-over :
    (limit : ℕ) (o : Option ℕ)
    → limit < 9223372036854775808
    → greater_int64 limit 0 ≡ false
    → none ≡ over limit o
no_limit-over limit none l h = refl
no_limit-over limit (some n) l h = ground arith

-- With a limit and a size that an int64 holds, a push is refused exactly when the limit is positive
-- and the size is found and over it: the sum of the regular files of the repository and of a
-- quarantine directory outside it. The refusal names both. An unknown repository, one that is not
-- local, an entry that cannot be read and a missing database let the push pass.
pub handle_storage_check-over :
    (s : Surroundings) (name : Bytes)
    → s.repository_size_limit < 9223372036854775808
    → Fits (measured s name)
    → refusal (handle_storage_check s name) ≡ over s.repository_size_limit (measured s name)
unfolding handle_storage_check
handle_storage_check-over s name l f = elim (Bool-cases (greater_int64 s.repository_size_limit 0)) [
  | inl t ↦ rw t (by_database-over s name s.get_repository_by_name l f)
  | inr t ↦ rw t (no_limit-over s.repository_size_limit (measured s name) l t)
]
