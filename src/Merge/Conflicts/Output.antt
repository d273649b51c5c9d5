-- ===== src/Merge/Conflicts/Output.antt =====
-- The outputs of `git merge-tree` for which the check returns, and those for which it panics.
use gitus.Prelude.{
  ℕ, zero, suc, ◌≡◌, refl, arith, Bytes, List, [], ◌∷◌, Option, some, none, Run, done, panics,
  no_fuel, length, ◌≤◌, ◌>>=◌, ◌==◌, Bool-cases, inl, inr,
}
use gitus.Prelude.{cut, trim_space, split}
use gitus.Git.{Git, Log, output, failure, ok, command}
use gitus.Merge.Conflicts.{
  ConflictedFileInfo, second, field, file_of, file_from, files_next, read_files, read_paths,
  read_message, read_messages, conflicts_from, parse_merge_check_z_result, atoi, count_of, checked,
  check_branch_merge_conflict, fetch_for_check, merge_tree_z,
}

-- The loops did not run out of rounds, and what is left has at most `n` bytes.
abbrev Leaves : {A : Type 0} → ℕ → Run (A × Bytes) → Type 0
Leaves n (done (a, rest)) = length rest ≤ n
Leaves n panics = Unit
Leaves n no_fuel = ⊥

abbrev pub Settles : {A : Type 0} → Run A → Type 0
Settles (done a) = Unit
Settles panics = Unit
Settles no_fuel = ⊥

bind-Leaves :
    {A B : Type 0} (n k : ℕ) (r : Run (A × Bytes)) (f : A × Bytes → Run (B × Bytes))
    → Leaves n r
    → ((a : A) (rest : Bytes) → length rest ≤ n → Leaves k (f (a, rest)))
    → Leaves k (r >>= f)
bind-Leaves n k (done (a, rest)) f p q = q a rest p
bind-Leaves n k panics f p q = tt
bind-Leaves n k no_fuel f p q = p

bind-Settles :
    {A B : Type 0} (n : ℕ) (r : Run (A × Bytes)) (f : A × Bytes → Run B)
    → Leaves n r
    → ((a : A) (rest : Bytes) → length rest ≤ n → Settles (f (a, rest)))
    → Settles (r >>= f)
bind-Settles n (done (a, rest)) f p q = q a rest p
bind-Settles n panics f p q = tt
bind-Settles n no_fuel f p q = p

then-Settles :
    {A B : Type 0} (r : Run A) (f : A → Run B)
    → Settles r
    → ((a : A) → Settles (f a))
    → Settles (r >>= f)
then-Settles (done a) f p q = q a
then-Settles panics f p q = tt
then-Settles no_fuel f p q = p

then-Leaves :
    {A B : Type 0} (n : ℕ) (r : Run A) (f : A → Run (B × Bytes))
    → Settles r
    → ((a : A) → Leaves n (f a))
    → Leaves n (r >>= f)
then-Leaves n (done a) f p q = q a
then-Leaves n panics f p q = tt
then-Leaves n no_fuel f p q = p

-- What follows the first separator is shorter.
abbrev Behind : ℕ → Option Bytes → Type 0
Behind n none = Unit
Behind n (some rest) = suc (length rest) ≤ n

Behind-more : (n : ℕ) (o : Option Bytes) → Behind n o → Behind (suc n) o
Behind-more n none p = tt
Behind-more n (some rest) p = omega arith

cut-Behind : (c : ℕ) (s : Bytes) → Behind (length s) (cut c s).1
unfolding cut
cut-Behind c [] = tt
cut-Behind c (b ∷ s) = elim (Bool-cases (b == c)) [
  | inl h ↦ rw (h) (omega arith)
  | inr h ↦ rw (h) (Behind-more (length s) (cut c s).1 (cut-Behind c s))
]

Behind-le : (n k : ℕ) (o : Option Bytes) → n ≤ k → Behind n o → Behind k o
Behind-le n k none h p = tt
Behind-le n k (some rest) h p = omega arith

field_at :
    (n : ℕ) (a : Bytes) (o : Option Bytes)
    → Behind (suc n) o
    → Leaves n (second o >>= λ rest. done (a, rest))
field_at n a none p = tt
field_at n a (some rest) p = omega arith

field-Leaves : (n : ℕ) (s : Bytes) → length s ≤ suc n → Leaves n (field s)
unfolding field
field-Leaves n s h =
    field_at n (cut 0 s).0 (cut 0 s).1 (Behind-le (length s) (suc n) (cut 0 s).1 h (cut-Behind 0 s))

file_of-Settles : (m : Bytes) (ps : List Bytes) (x : Bytes × List Bytes) → Settles (file_of m ps x)
unfolding file_of
file_of-Settles m [] x = tt
file_of-Settles m (o ∷ []) x = tt
file_of-Settles m (o ∷ t ∷ ps) (b, []) = tt
file_of-Settles m (o ∷ t ∷ ps) (b, name ∷ names) = tt

file_from-Settles : (s : Bytes) → Settles (file_from s)
unfolding file_from
file_from-Settles s =
    file_of-Settles (split 32 (split 9 s).0).0 (split 32 (split 9 s).0).1 (split 9 s)

Leaves-le : {A : Type 0} (n k : ℕ) (r : Run (A × Bytes)) → n ≤ k → Leaves n r → Leaves k r
Leaves-le n k (done (a, rest)) h p = omega arith
Leaves-le n k panics h p = tt
Leaves-le n k no_fuel h p = p

files_next-Leaves :
    (n : ℕ) (more : Bytes → Run (List ConflictedFileInfo × Bytes)) (a rest : Bytes)
    → length rest ≤ n
    → Leaves n (more rest)
    → Leaves n (files_next more (a, rest))
unfolding files_next
files_next-Leaves n more [] rest h p = h
files_next-Leaves n more (c ∷ s) rest h p =
    then-Leaves n (file_from (c ∷ s)) _ (file_from-Settles (c ∷ s))
      λ f. bind-Leaves n n (more rest) _ p λ fs t q. q

read_files-Leaves : (fuel : ℕ) (s : Bytes) → length s ≤ fuel → Leaves fuel (read_files (suc fuel) s)
unfolding read_files field cut
read_files-Leaves zero [] h = tt
read_files-Leaves zero (c ∷ s) h = absurd (omega arith)
read_files-Leaves (suc fuel) s h =
    bind-Leaves fuel (suc fuel) (field s) (files_next (read_files (suc fuel)))
      (field-Leaves fuel s h)
      λ a rest q.
        Leaves-le fuel (suc fuel) (files_next (read_files (suc fuel)) (a, rest)) (omega arith)
          (files_next-Leaves fuel (read_files (suc fuel)) a rest q (read_files-Leaves fuel rest q))

read_paths-Leaves : (k n : ℕ) (s : Bytes) → length s ≤ n → Leaves n (read_paths k s)
unfolding read_paths
read_paths-Leaves zero n s h = h
read_paths-Leaves (suc k) n s h =
    bind-Leaves n n (field s) _ (field-Leaves n s (omega (arith, h)))
      λ a rest q. bind-Leaves n n (read_paths k rest) _ (read_paths-Leaves k n rest q) λ ps t p. p

read_message-Leaves : (n : ℕ) (s : Bytes) → length s ≤ suc n → Leaves n (read_message s)
unfolding read_message
read_message-Leaves n s h = bind-Leaves n n (field s) _ (field-Leaves n s h) λ a s2 q.
    bind-Leaves n n (read_paths (count_of (atoi a)) s2) _
      (read_paths-Leaves (count_of (atoi a)) n s2 q)
      λ ps s3 p.
        bind-Leaves n n (field s3) _ (field-Leaves n s3 (omega (arith, p)))
          λ t s4 u. bind-Leaves n n (field s4) _ (field-Leaves n s4 (omega (arith, u))) λ m s5 v. v

read_messages-Settles : (fuel : ℕ) (s : Bytes) → length s ≤ fuel → Settles (read_messages fuel s)
unfolding read_messages
read_messages-Settles fuel [] h = tt
read_messages-Settles zero (c ∷ s) h = absurd (omega arith)
read_messages-Settles (suc fuel) (c ∷ s) h =
    bind-Settles fuel (read_message (c ∷ s)) _ (read_message-Leaves fuel (c ∷ s) h) λ m rest q.
      then-Settles (read_messages fuel rest) _ (read_messages-Settles fuel rest q) λ ms. tt

conflicts_from-Settles : (oid s : Bytes) → Settles (conflicts_from oid s)
unfolding conflicts_from
conflicts_from-Settles oid [] = tt
conflicts_from-Settles oid (c ∷ s) =
    bind-Settles (length (c ∷ s)) (read_files (suc (length (c ∷ s))) (c ∷ s)) _
      (read_files-Leaves (length (c ∷ s)) (c ∷ s) (omega arith))
      λ fs rest q.
        then-Settles (read_messages (length rest) rest) _
          (read_messages-Settles (length rest) rest (omega arith)) λ ms. tt

-- Whatever `git merge-tree` has written, its reader comes to an end, with a result or a panic: as many
-- rounds of its loops as there are bytes are enough.
pub parse_merge_check_z_result-Settles : (s : Bytes) → Settles (parse_merge_check_z_result s)
unfolding parse_merge_check_z_result
parse_merge_check_z_result-Settles s =
    bind-Settles (length s) (field s) _ (field-Leaves (length s) s (omega arith))
      λ oid rest q. conflicts_from-Settles oid rest

read_nothing : parse_merge_check_z_result [] ≡ panics
unfolding parse_merge_check_z_result field cut
read_nothing = refl

-- When the fetch succeeds but `git merge-tree` fails before it has written anything but white space,
-- as for a branch that does not exist, the check for conflicts panics.
pub check_branch_merge_conflict-panics :
    (local_branch remote branch fetched text stdout stderr : Bytes) (g : Git) (l : Log)
    → g l (command [] (fetch_for_check remote branch)) ≡ output fetched
    → g
        (command [] (fetch_for_check remote branch) ∷ l)
        (command [] (merge_tree_z local_branch remote branch))
      ≡ failure text stdout stderr
    → trim_space stdout ≡ []
    → (check_branch_merge_conflict local_branch remote branch g l).0 ≡ ok panics
unfolding check_branch_merge_conflict checked
check_branch_merge_conflict-panics lb remote branch fetched text stdout stderr g l h p q =
    rw (h, p, q, read_nothing) refl
