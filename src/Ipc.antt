-- ===== src/Ipc.antt =====
-- cmd/gitus/ipc-server.go: the commands of the local socket. The database and the repositories are
-- parameters.
pub mod Delivered
mod Tests
use gitus.Prelude.{
  ℕ, Bool, Bytes, List, [], ◌∷◌, ◌++◌, Option, none, some, true, false, if◌then◌else◌, Run, done,
  codes, cut, join, ltb, trim_space, ◌*◌, ◌==◌, ◌>>=◌, map, ◌+◌, ◌-◌, leb, ◌&&◌, not,
}
use gitus.Csv.{parse_csv, replace_all}
use gitus.Storage.{split_repo_full_name}

unfoldable pub escape_ipc_argument : Bytes → Bytes
unfolding replace_all
escape_ipc_argument s = replace_all b',' (codes "\\,") (replace_all b'\\' (codes "\\\\") s)

abbrev pub joined_arguments : List Bytes → Bytes
unfolding escape_ipc_argument join
joined_arguments args = join (codes ",") (map escape_ipc_argument args)

-- What sendIPCCommand writes, for the number of the command in digits.
unfoldable pub ipc_message : Bytes → List Bytes → Bytes
unfolding joined_arguments
ipc_message cmd_type args = cmd_type ++ (b':' ∷ (joined_arguments args ++ (0 ∷ [])))

abbrev pub digits_value : ℕ → Bytes → Option ℕ
digits_value n [] = some n
digits_value n (c ∷ s) =
    let rest = digits_value (n * 10 + (c - b'0')) s in
    if leb b'0' c && leb c b'9' then rest else none

abbrev pub in_range : ℕ → Option ℕ → Option ℕ
in_range limit none = none
in_range limit (some n) = if leb n limit then some n else none

abbrev pub signed : Bool → Option ℕ → Option (Bool × ℕ)
signed b none = none
signed b (some n) = some (b, n)

abbrev pub natural_of : ℕ → Bytes → Option ℕ
natural_of limit [] = none
natural_of limit (c ∷ s) = in_range limit (digits_value 0 (c ∷ s))

-- strconv.Atoi: whether the number is negative, and its absolute value; `none` for a text that is
-- not a number, or not one of an int.
unfoldable pub atoi : Bytes → Option (Bool × ℕ)
atoi [] = none
atoi (c ∷ s) =
    if c == b'-'
    then signed true (natural_of 9223372036854775808 s)
    else if c == b'+'
    then signed false (natural_of 9223372036854775807 s)
    else signed false (natural_of 9223372036854775807 (c ∷ s))

pub data Command : Type 0 where
  -- nothing was read up to a zero byte
  hung_up : Command
  invalid_command : Command
  -- a number that names no command
  unknown_command : Command
  warm_last_commit_cache : Bytes → Bytes → Command

abbrev pub warm_command : List Bytes → Command
warm_command [] = invalid_command
warm_command (repo ∷ []) = invalid_command
warm_command (repo ∷ commit ∷ rest) = warm_last_commit_cache repo commit

abbrev pub dispatch : Bool × ℕ → List Bytes → Command
dispatch n [] = invalid_command
dispatch (true, n) (a ∷ args) = unknown_command
dispatch (false, n) (a ∷ args) = if n == 2 then warm_command (a ∷ args) else unknown_command

abbrev pub with_number : Option (Bool × ℕ) → Bytes → Run Command
unfolding parse_csv
with_number none s = done invalid_command
with_number (some n) s = parse_csv s >>= (λ args. done (dispatch n args))

abbrev pub with_halves : Bytes × Option Bytes → Run Command
unfolding atoi with_number trim_space
with_halves (c, none) = done invalid_command
with_halves (c, some args) = with_number (atoi (trim_space c)) args

abbrev pub with_line : Bytes × Option Bytes → Run Command
unfolding with_halves cut
with_line (s, none) = done hung_up
with_line (s, some rest) = with_halves (cut b':' s)

-- What a connection asks for, by the bytes that the peer sends.
unfoldable pub handle_ipc_server_connection : Bytes → Run Command
unfolding with_line cut
handle_ipc_server_connection sent = with_line (cut 0 sent)

-- What the repository holds under the id of a commit.
pub data Found : Type 0 where
  unreadable : Found
  not_a_commit : Found
  commit_object : Found

-- What the warm-up asks of the database and of a repository. The last function tells whether the last
-- commits of a directory could be resolved, which is what fills the cache.
pub record Repositories (R : Type 0) : Type 0 where
  pub use_namespace : Bool
  -- `none` without a database
  pub get_repository_by_name : Option (Bytes → Bytes → Option R)
  pub is_local : R → Bool
  pub read_object : R → Bytes → Found
  pub resolve_last_commit_at_dir : R → Bytes → Bytes → Bool

pub data Warmed : Type 0 where
  no_database no_repository not_git no_commit not_commit unresolved : Warmed
  -- the full name and the commit
  warmed : Bytes → Bytes → Warmed

module _ {R : Type 0} (e : Repositories R) where
  abbrev pub warm_object : Bytes → Bytes → R → Found → Warmed
  warm_object full_name commit r unreadable = no_commit
  warm_object full_name commit r not_a_commit = not_commit
  warm_object full_name commit r commit_object =
      if e.resolve_last_commit_at_dir r commit [] then warmed full_name commit else unresolved

  abbrev pub warm_repository : Bytes → Bytes → Option R → Warmed
  warm_repository full_name commit none = no_repository
  warm_repository full_name commit (some r) =
      if not (e.is_local r)
      then not_git
      else warm_object full_name commit r (e.read_object r commit)

  abbrev pub warm_by : Bytes → Bytes → Option (Bytes → Bytes → Option R) → Warmed
  unfolding split_repo_full_name
  warm_by full_name commit none = no_database
  warm_by full_name commit (some get) =
      let r = split_repo_full_name e.use_namespace full_name in
      warm_repository full_name commit (get r.0 r.1)

  unfoldable pub warm_cache : Bytes → Bytes → Warmed
  unfolding warm_by
  warm_cache full_name commit = warm_by full_name commit e.get_repository_by_name
