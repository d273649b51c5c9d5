-- ===== src/Packed/Total.antt =====
-- The commands of a delta are read to the end of any input.
use gitus.Prelude.{
  length-drop-le, ℕ, zero, suc, ◌≡◌, refl, arith, List, Bytes, [], ◌∷◌, some, none, done, Option,
  ◌≤◌, length, drop, take, Run, ap, if◌then◌else◌, ltb, Bool, true, false, ◌/◌, ◌%◌, ◌==◌, leb,
}
use gitus.Packed.{
  DeltaCommand, Reader, read_full, read_fields, read_byte, next, ◌>>=◌, return, read_command,
  after_command, parse_commands, parse_delta_command_list, cons_if, copy_of, data_of,
}

-- What a reader leaves is no longer than what it was given.
abbrev Fits : {A : Type 0} → ℕ → Option (A × Bytes) → Type 0
Fits n none = Unit
Fits n (some (a, rest)) = length rest ≤ n

abbrev IsShrinking : {A : Type 0} → Reader A → Type 0
IsShrinking m = (s : Bytes) → Fits (length s) (m s)

Fits-trans : {A : Type 0} (n k : ℕ) (o : Option (A × Bytes)) → n ≤ k → Fits n o → Fits k o
Fits-trans n k none h p = tt
Fits-trans n k (some (a, t)) h p = omega arith

next-Fits :
    {A B : Type 0} (f : A → Reader B) (n : ℕ) (o : Option (A × Bytes))
    → Fits n o
    → ((a : A) → IsShrinking (f a))
    → Fits n (next f o)
next-Fits f n none p q = tt
next-Fits f n (some (a, t)) p q = Fits-trans (length t) n (f a t) p (q a t)

bind-IsShrinking :
    {A B : Type 0} (m : Reader A) (f : A → Reader B)
    → IsShrinking m
    → ((a : A) → IsShrinking (f a))
    → IsShrinking (m >>= f)
bind-IsShrinking m f p q s = next-Fits f (length s) (m s) (p s) q

return-IsShrinking : {A : Type 0} (a : A) → IsShrinking (return a)
return-IsShrinking a s = omega arith

read_byte-IsShrinking : IsShrinking read_byte
read_byte-IsShrinking [] = tt
read_byte-IsShrinking (b ∷ s) = omega arith

if-IsShrinking :
    {A : Type 0} (b : Bool) (m k : Reader A)
    → IsShrinking m
    → IsShrinking k
    → IsShrinking (if b then m else k)
if-IsShrinking true m k p q = p
if-IsShrinking false m k p q = q

read_full-IsShrinking : (n : ℕ) → IsShrinking (read_full n)
read_full-IsShrinking n s =
    elim (leb n (length s))
      as (λ b. Fits (length s) (if b then some (take n s, drop n s) else none)) [
        | true ↦ length-drop-le n s
        | false ↦ tt
      ]

read_fields-IsShrinking : (n h : ℕ) → IsShrinking (read_fields n h)
read_fields-IsShrinking zero h = return-IsShrinking {A = Bytes} []
read_fields-IsShrinking (suc n) h =
    bind-IsShrinking (if h % 2 == 1 then read_byte else return 0)
      (λ b. read_fields n (h / 2) >>= λ bs. return (b ∷ bs))
      (if-IsShrinking (h % 2 == 1) read_byte (return 0) read_byte-IsShrinking
        (return-IsShrinking {A = ℕ} 0))
      λ b.
        bind-IsShrinking (read_fields n (h / 2)) (λ bs. return (b ∷ bs))
          (read_fields-IsShrinking n (h / 2)) λ bs. return-IsShrinking (b ∷ bs)

read_command-IsShrinking : (h : ℕ) → IsShrinking (read_command h)
unfolding read_command
read_command-IsShrinking h =
    if-IsShrinking (ltb h 128) _ _
      (bind-IsShrinking (read_full h) (λ s. return (data_of s)) (read_full-IsShrinking h)
        λ s. return-IsShrinking (data_of s))
      (bind-IsShrinking (read_fields 7 h) (λ bs. return (copy_of bs)) (read_fields-IsShrinking 7 h)
        λ bs. return-IsShrinking (copy_of bs))

-- The loop ended: with the commands, or with an error for input that ends too early.
abbrev pub IsDone : {A : Type 0} → Run A → Type 0
IsDone {A = A} r = (a : A) × (r ≡ done a)

cons_if-IsDone :
    (c : DeltaCommand) (r : Run (Option (List DeltaCommand))) → IsDone r → IsDone (cons_if c r)
cons_if-IsDone c r (none, e) = (none, ap (cons_if c) e)
cons_if-IsDone c r (some cs, e) = (some (c ∷ cs), ap (cons_if c) e)

after_command-IsDone :
    (n : ℕ) (f : Bytes → Run (Option (List DeltaCommand))) (o : Option (DeltaCommand × Bytes))
    → Fits n o
    → ((s : Bytes) → length s ≤ n → IsDone (f s))
    → IsDone (after_command f o)
after_command-IsDone n f none p q = (none, refl)
after_command-IsDone n f (some (c, rest)) p q = cons_if-IsDone c (f rest) (q rest p)

parse_commands-IsDone : (fuel : ℕ) (s : Bytes) → length s ≤ fuel → IsDone (parse_commands fuel s)
unfolding parse_commands
parse_commands-IsDone fuel [] p = (some [], refl)
parse_commands-IsDone zero (h ∷ s) p = absurd (omega arith)
parse_commands-IsDone (suc fuel) (h ∷ s) p =
    after_command-IsDone (length s) (parse_commands fuel) (read_command h s)
      (read_command-IsShrinking h s) λ t q. parse_commands-IsDone fuel t (omega arith)

-- For any bytes the loop over delta commands comes to an end, with the commands or with an error, and
-- does not panic: as many rounds as there are bytes are enough.
pub parse_delta_command_list-IsDone : (b : Bytes) → IsDone (parse_delta_command_list b)
unfolding parse_delta_command_list
parse_delta_command_list-IsDone b = parse_commands-IsDone (length b) b (omega arith)
