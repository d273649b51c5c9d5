-- ===== src/Git.antt =====
-- The git process as gitlib runs it, pkg/gitlib/merge.go: runGitCommand and the commands of one
-- operation in their order.
pub mod Quiet
use gitus.Prelude.{Bytes, List, [], ◌∷◌, ◌++◌, codes, ℕ, Bool, true, false}
use gitus.Prelude.{trim_space}

-- One run of git: the variables that are added to its environment, and its arguments.
pub record Command : Type 0 where
  pub variables : List Bytes
  pub arguments : List Bytes

-- The commands that have been run, the last one first.
abbrev pub Log : Type 0
Log = List Command

-- Exit status 0 with what was written, or a failure with the text of the error, and what was written
-- to stdout and to stderr.
pub data Answer : Type 0 where
  output : Bytes → Answer
  failure : Bytes → Bytes → Bytes → Answer

-- What git answers to a command after the commands before it. The answer may depend on all of them,
-- so a repository that the commands change is an instance.
abbrev pub Git : Type 0
Git = Log → Command → Answer

-- `(T, error)`, with the text of the error.
pub data Result {ℓ} (A : Type ℓ) : Type ℓ where
  ok : A → Result A
  err : Bytes → Result A

-- Code that runs git.
abbrev pub Script {ℓ} : Type ℓ → Type ℓ
Script A = Git → Log → Result A × Log

abbrev pub after {ℓ κ} :
    {A : Type ℓ} {B : Type κ} → Git → (A → Script B) → Result A × Log → Result B × Log
after g f (ok a, l) = f a g l
after g f (err e, l) = (err e, l)

infixl 5 ◌>>=◌ ◌>>◌
abbrev pub ◌>>=◌ {ℓ κ} : {A : Type ℓ} {B : Type κ} → Script A → (A → Script B) → Script B
m >>= f = λ g l. after g f (m g l)

abbrev pub ◌>>◌ {ℓ κ} : {A : Type ℓ} {B : Type κ} → Script A → Script B → Script B
m >> k = m >>= λ x. k

abbrev pub return {ℓ} : {A : Type ℓ} → A → Script A
return a = λ g l. (ok a, l)

abbrev pub fail {ℓ} : {A : Type ℓ} → Bytes → Script A
fail e = λ g l. (err e, l)

-- What is done instead when a script fails.
abbrev pub recovered {ℓ} : {A : Type ℓ} → Git → (Bytes → Script A) → Result A × Log → Result A × Log
recovered g f (ok a, l) = (ok a, l)
recovered g f (err e, l) = f e g l

abbrev pub recover {ℓ} : {A : Type ℓ} → Script A → (Bytes → Script A) → Script A
recover m f = λ g l. recovered g f (m g l)

abbrev pub first_word : List Bytes → Bytes
first_word [] = []
first_word (w ∷ ws) = w

abbrev pub with_stderr : Bytes → Bytes → Bytes
with_stderr text [] = text
with_stderr text (c ∷ s) = text ++ (codes ": " ++ (c ∷ s))

abbrev pub answered : List Bytes → Answer → Result Bytes
unfolding trim_space
answered args (output out) = ok (trim_space out)
answered args (failure text stdout stderr) =
    err
      (with_stderr (codes "git " ++ (first_word args ++ (codes ": " ++ text))) (trim_space stderr))

abbrev pub command : List Bytes → List Bytes → Command
command env args = record { variables = env; arguments = args }

unfoldable pub run_git_command : List Bytes → List Bytes → Script Bytes
run_git_command env args = λ g l. (answered args (g l (command env args)), command env args ∷ l)

abbrev pub is_output : Answer → Bool
is_output (output s) = true
is_output (failure text stdout stderr) = false

-- `cmd.Run() == nil`
unfoldable pub succeeds : List Bytes → Script Bool
succeeds args = λ g l. (ok (is_output (g l (command [] args))), command [] args ∷ l)
