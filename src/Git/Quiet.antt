-- ===== src/Git/Quiet.antt =====
-- The commands that a script adds to the log.
use gitus.Prelude.{
  append_assoc, mem, codes, ◌≡◌, refl, List, Bytes, ◌++◌, All, [], ◌∷◌, ap, sym, ◌∙◌, Bool, true,
  false, if◌then◌else◌, ◌⊎◌, inl, inr,
}
use gitus.Git.{
  first_word, Command, Script, Git, Log, run_git_command, ◌>>=◌, ok, err, Result, after, return,
  fail, command, recover, recovered, succeeds, answered, Answer, is_output, output, failure,
}

module _ {ℓ} {A : Type ℓ} where
  All-append : (P : A → Type 0) (xs ys : List A) → All P xs → All P ys → All P (xs ++ ys)
  All-append P [] ys p q = q
  All-append P (x ∷ xs) ys p q = (p.0, All-append P xs ys p.1 q)

-- A log that is another one with commands added, each of which satisfies a predicate.
abbrev pub Adds : (Command → Type 0) → Log → Log → Type 0
Adds P l k = (cs : List Command) × (k ≡ cs ++ l) × All P cs

-- Commands of git that update no reference, with whatever arguments.
abbrev pub quiet_commands : List Bytes
quiet_commands =
    codes "check-ref-format"
    ∷ codes "rev-parse"
    ∷ codes "rev-list"
    ∷ codes "merge-base"
    ∷ codes "merge-tree"
    ∷ codes "commit-tree"
    ∷ codes "show"
    ∷ []

abbrev pub LeavesRefs : Command → Type 0
LeavesRefs c = mem (first_word c.arguments) quiet_commands ≡ true

abbrev pub IsError {ℓ} : {A : Type ℓ} → Result A → Type ℓ
IsError {A = A} x = (e : Bytes) × (x ≡ err e)

-- Every command that the script runs satisfies a predicate, whatever git answers.
pub record Only {ℓ} {A : Type ℓ} (P : Command → Type 0) (m : Script A) : Type 0 where
  pub adds : (g : Git) (l : Log) → Adds P l (m g l).1

pub Adds-refl : (P : Command → Type 0) (l : Log) → Adds P l l
Adds-refl P l = ([], refl, tt)

pub Adds-trans : (P : Command → Type 0) (l k j : Log) → Adds P l k → Adds P k j → Adds P l j
Adds-trans P l k j (cs, p, a) (ds, q, b) =
    (ds ++ cs, q ∙ (ap (λ x. ds ++ x) p ∙ sym (append_assoc ds cs l)), All-append P ds cs b a)

module _ {ℓ κ} {A : Type ℓ} {B : Type κ} (P : Command → Type 0) where
  Adds-after :
      (g : Git) (f : A → Script B) (l : Log) (r : Result A × Log)
      → Adds P l r.1
      → ((a : A) → Only P (f a))
      → Adds P l (after g f r).1
  Adds-after g f l (ok a, k) p q = Adds-trans P l k (f a g k).1 p ((q a).adds g k)
  Adds-after g f l (err e, k) p q = p

  pub Only_bind :
      (m : Script A) (f : A → Script B) → Only P m → ((a : A) → Only P (f a)) → Only P (m >>= f)
  Only_bind m f p q = record { adds = λ g l. Adds-after g f l (m g l) (p.adds g l) q }

module _ {ℓ} {A : Type ℓ} (P : Command → Type 0) where
  pub Only_return : (a : A) → Only P (return a)
  Only_return a = record { adds = λ g l. Adds-refl P l }

  pub Only_fail : (e : Bytes) → Only {A = A} P (fail e)
  Only_fail e = record { adds = λ g l. Adds-refl P l }

  pub Only_if : (b : Bool) (m k : Script A) → Only P m → Only P k → Only P (if b then m else k)
  Only_if true m k p q = p
  Only_if false m k p q = q

pub run_git_command-Only :
    (P : Command → Type 0) (env args : List Bytes)
    → P (command env args)
    → Only P (run_git_command env args)
unfolding run_git_command
run_git_command-Only P env args p = record { adds = λ g l. (command env args ∷ [], refl, (p, tt)) }

pub succeeds-Only :
    (P : Command → Type 0) (args : List Bytes) → P (command [] args) → Only P (succeeds args)
unfolding succeeds
succeeds-Only P args p = record { adds = λ g l. (command [] args ∷ [], refl, (p, tt)) }

module _ {ℓ} {A : Type ℓ} (P : Command → Type 0) where
  recovered-Adds :
      (g : Git) (f : Bytes → Script A) (l : Log) (r : Result A × Log)
      → Adds P l r.1
      → ((e : Bytes) → Only P (f e))
      → Adds P l (recovered g f r).1
  recovered-Adds g f l (ok a, k) p q = p
  recovered-Adds g f l (err e, k) p q = Adds-trans P l k (f e g k).1 p ((q e).adds g k)

  pub recover-Only :
      (m : Script A) (f : Bytes → Script A)
      → Only P m
      → ((e : Bytes) → Only P (f e))
      → Only P (recover m f)
  recover-Only m f p q = record { adds = λ g l. recovered-Adds g f l (m g l) (p.adds g l) q }

-- A script that succeeds has done each of its parts.
module _ {ℓ κ} {A : Type ℓ} {B : Type κ} where
  after-ok :
      (g : Git) (f : A → Script B) (b : B) (r : Result A × Log)
      → (after g f r).0 ≡ ok b
      → (a : A) × (r.0 ≡ ok a) × (after g f r ≡ f a g r.1)
  after-ok g f b (ok a, l) h = (a, refl, refl)
  after-ok g f b (err e, l) h = cc

  pub bind-ok :
      (m : Script A) (f : A → Script B) (g : Git) (l : Log) (b : B)
      → ((m >>= f) g l).0 ≡ ok b
      → (a : A) × ((m g l).0 ≡ ok a) × ((m >>= f) g l ≡ f a g (m g l).1)
  bind-ok m f g l b h = after-ok g f b (m g l) h

-- Git's answer is read as an output or as an error.
pub answered-cases :
    (args : List Bytes) (a : Answer)
    → ((s : Bytes) × (is_output a ≡ true) × (answered args a ≡ ok s))
      ⊎ ((e : Bytes) × (is_output a ≡ false) × (answered args a ≡ err e))
unfolding answered
answered-cases args (output out) = inl (_, refl, refl)
answered-cases args (failure text stdout stderr) = inr (_, refl, refl)
