-- ===== src/Ssh.antt =====
-- cmd/gitus/ssh.go: the handler that sshd runs for each login, `gitus ssh USER KEY`. It reads the
-- command that the client asked for, decides, and runs git with a path of its own making.
pub mod Policy
pub mod NoLogin
pub mod HostMode
mod Tests
use gitus.Prelude.{
  ℕ, Bool, Bytes, List, Option, Run, Dict, [], beq, codes, done, false, if◌then◌else◌, not, some,
  true, ◌==◌, ◌∷◌, is_empty, last_or, lookup, none, panics, ◌&&◌, ◌||◌, no_fuel, set_last,
}
use gitus.Prelude.{cut}
use gitus.FilePaths.{path_join}
use gitus.Config.{
  Config, Time, effective_global_visibility_at, is_in_host_mode, is_in_browse_only_mode,
  global_visibility_public, global_visibility_private,
}
use gitus.Model.{
  Repository, Namespace, Acl, AclTuple, HostModeUserAcl, LoginInfo, get_user_privilege,
  repo_archived, repo_normal_public, repo_internal, repo_limited, repo_normal_private,
}
use gitus.ShellParse.{parse_shell_command}

-- The messages on which the handler gives up.
pub data Refusal : Type 0 where
  browse_only unavailable no_auth_key integrity invalid_command : Refusal
  invalid_path no_repository archived no_namespace not_enough_permission no_config no_ssh_context :
      Refusal

pub data Verdict {ℓ} (A : Type ℓ) : Type ℓ where
  pass : A → Verdict A
  refuse : Refusal → Verdict A
  crash : Verdict A

infixl 5 ◌>>=◌ ◌>>◌
abbrev pub ◌>>=◌ {ℓ κ} : {A : Type ℓ} {B : Type κ} → Verdict A → (A → Verdict B) → Verdict B
pass a >>= f = f a
refuse r >>= f = refuse r
crash >>= f = crash

abbrev pub ◌>>◌ {ℓ} : {B : Type ℓ} → Verdict (Unit {0}) → Verdict B → Verdict B
m >> k = m >>= λ _. k

abbrev pub refuse_if : Bool → Refusal → Verdict (Unit {0})
refuse_if true r = refuse r
refuse_if false r = pass tt

abbrev pub require {ℓ} : {A : Type ℓ} → Option A → Verdict A → Verdict A
require none v = v
require (some a) v = pass a

-- ShellParse.Totality rules `no_fuel` out.
abbrev pub words_of : Run (List Bytes) → Verdict (List Bytes)
words_of (done ws) = pass ws
words_of panics = crash
words_of no_fuel = crash

-- What the process finds around it: the configuration at the time of the call, the command of the
-- client, the keys that it manages, and the answers of the database (`none` for an error).
pub record Env : Type 0 where
  pub config : Config
  pub now : Time
  pub original_command : Bytes
  pub login_info : Option LoginInfo
  -- The key managing context is there, or ssh.ToContext creates it.
  pub ssh_context_ready : Bool
  pub managed : Option (Dict (Dict Bytes))
  pub get_auth_key_by_name : Bytes → Bytes → Option Bytes
  pub get_repository_by_name : Bytes → Bytes → Option Repository
  pub get_namespace_by_name : Bytes → Option Namespace
  -- ReadRepositoryConfigFromFile, the `users` of the file at a path; a null entry is a nil pointer.
  pub read_repository_config : Bytes → Option (Dict (Option HostModeUserAcl))

abbrev pack_or_empty : Option (Dict Bytes) → Bytes → Bytes
pack_or_empty none k = []
pack_or_empty (some pack) k = elim (lookup k pack) [ none ↦ [] | some s ↦ s ]

-- SSHKeyManagingContext.GetAuthorizedKey
unfoldable pub get_authorized_key : Option (Dict (Dict Bytes)) → Bytes → Bytes → Bytes
get_authorized_key none username keyname = []
get_authorized_key (some m) username keyname = pack_or_empty (lookup username m) keyname

abbrev pub git_receive_pack : Bytes
git_receive_pack = codes "git-receive-pack"

unfoldable pub is_valid_git_ssh_command : Bytes → Bool
is_valid_git_ssh_command s =
    beq s (codes "git-upload-pack") || beq s git_receive_pack || beq s (codes "git-upload-archive")

abbrev without_root : Bytes → Verdict Bytes
without_root [] = crash
without_root (c ∷ s) = if c == b'~' || c == b'/' then pass s else pass (c ∷ s)

abbrev two_segments : Bytes × Option Bytes → Verdict (Bytes × Bytes) → Verdict (Bytes × Bytes)
two_segments (a, none) otherwise = otherwise
two_segments (a, some b) otherwise = pass (a, b)

abbrev one_segment : Bytes × Option Bytes → Verdict (Bytes × Bytes)
one_segment (a, none) = pass ([], a)
one_segment (a, some b) = refuse invalid_path

unfoldable pub parse_target_repository_name : Bool → Bytes → Verdict (Bytes × Bytes)
unfolding cut
parse_target_repository_name use_namespace rel = do
  path ← without_root rel
  (if use_namespace
      then two_segments (cut b'/' path) (two_segments (cut b':' path) (refuse invalid_path))
      else one_segment (cut b'/' path))

-- The command that the client asked for, once its first word has passed the guard.
pub record Command : Type 0 where
  pub name : Bytes
  pub arguments : List Bytes

abbrev check_command : List Bytes → Verdict Command
check_command [] = refuse invalid_command
check_command (c ∷ ws) =
    if not (is_valid_git_ssh_command c)
    then refuse invalid_command
    else pass (record { name = c; arguments = ws })

unfoldable pub read_command : Bytes → Verdict Command
unfolding is_valid_git_ssh_command
read_command s = do words ← words_of (parse_shell_command s); check_command words

-- `isPushingToRemote`
abbrev pub is_pushing : Command → Bool
is_pushing c = beq c.name git_receive_pack

-- `parsedOrigCmd[len(parsedOrigCmd)-1]`
abbrev pub rel_path : Command → Bytes
rel_path c = last_or c.name c.arguments

-- The process that is run: the words, the last of them replaced by the path.
abbrev pub with_path : Bytes → Command → List Bytes
with_path path c = set_last path (c.name ∷ c.arguments)

-- The three of the verdict: `allowVerdict` after the default has been put in.
abbrev pub host_verdict : Bool → HostModeUserAcl → Bytes
host_verdict pushing a =
    let v = if pushing then a.push else a.pull in if is_empty v then a.default else v

abbrev pub config_dir : Bool → List Bytes
config_dir use_namespace =
    if use_namespace
    then codes "__gitus" ∷ codes "__repo_config" ∷ codes "gitus_sync" ∷ []
    else codes "__repo_config" ∷ codes "gitus_sync" ∷ []

unfoldable pub handle_ssh_host_mode : Env → Bytes → Verdict (List Bytes)
unfolding path_join read_command parse_target_repository_name
handle_ssh_host_mode e username = do
  refuse_if (not e.ssh_context_ready) no_ssh_context
  command ← read_command e.original_command
  (ns, name) ← parse_target_repository_name e.config.use_namespace (rel_path command)
  users ←
      require
        (e.read_repository_config (
          path_join (
            e.config.git_root
            ∷ path_join (config_dir e.config.use_namespace)
            ∷ ns
            ∷ name
            ∷ codes "config.json"
            ∷ [])))
        (refuse no_config)
  entry ← require (lookup username users) (refuse not_enough_permission)
  acl ← require entry crash
  refuse_if (not (beq (host_verdict (is_pushing command) acl) (codes "allow")))
      not_enough_permission
  pass (with_path (path_join (e.config.git_root ∷ ns ∷ name ∷ [])) command)

-- The Booleans that the handler computes before its four checks.
pub record Access : Type 0 where
  pub is_ns_any : Bool
  pub is_ns_push : Bool
  pub is_repo_any : Bool
  pub is_repo_push : Bool

abbrev is_some {ℓ} : {A : Type ℓ} → Option A → Bool
is_some none = false
is_some (some a) = true

abbrev pushes : Option AclTuple → Bool
pushes none = false
pushes (some t) = t.push_to_repository

unfoldable pub access_of : Bytes → LoginInfo → Namespace → Repository → Access
access_of username l ns r =
    let ns_check = get_user_privilege ns.acl l.user_name in
    let repo_check = get_user_privilege r.access_control_list l.user_name in
    let ns_any = beq ns.owner username || is_some ns_check in
    let repo_any = beq r.owner username || is_some repo_check in
    record {
      is_ns_any = ns_any;
      is_ns_push = beq ns.owner username || (ns_any && pushes ns_check);
      is_repo_any = repo_any;
      is_repo_push = beq r.owner username || (repo_any && pushes repo_check);
    }

-- The four checks at the end.
unfoldable pub check_access : Bool → ℕ → Access → Verdict (Unit {0})
check_access pushing status a = do
  let shared = status == repo_normal_public || status == repo_internal || status == repo_limited
  refuse_if (pushing && shared && (not a.is_ns_push && not a.is_repo_push)) not_enough_permission
  refuse_if (not pushing && status == repo_limited && (not a.is_ns_any && not a.is_repo_any))
      not_enough_permission
  refuse_if (pushing && status == repo_normal_private && not a.is_repo_push) not_enough_permission
  refuse_if (not pushing && status == repo_normal_private && not a.is_repo_any)
      not_enough_permission

-- The visibility of the site, and the key.
unfoldable pub authenticate : Env → Bytes → Bytes → Verdict (Unit {0})
unfolding get_authorized_key
authenticate e username keyname = do
  let mode = effective_global_visibility_at e.config e.now
  refuse_if (not (beq mode global_visibility_public) && not (beq mode global_visibility_private))
      unavailable
  key_text ← require (e.get_auth_key_by_name username keyname) (refuse no_auth_key)
  refuse_if
      (not e.config.uses_authorized_keys_command
        && not (beq (get_authorized_key e.managed username keyname) key_text))
      integrity

-- What the handler has looked up before it checks the privileges.
pub record Request : Type 0 where
  pub command : Command
  pub namespace_name : Bytes
  pub repository_name : Bytes
  pub repository : Repository
  pub namespace : Namespace

unfoldable pub read_request : Env → Verdict Request
unfolding read_command parse_target_repository_name
read_request e = do
  command ← read_command e.original_command
  (ns_name, name) ← parse_target_repository_name e.config.use_namespace (rel_path command)
  r ← require (e.get_repository_by_name ns_name name) (refuse no_repository)
  refuse_if (r.status == repo_archived && is_pushing command) archived
  ns ← require (e.get_namespace_by_name ns_name) (refuse no_namespace)
  pass (record {
    command = command;
    namespace_name = ns_name;
    repository_name = name;
    repository = r;
    namespace = ns;
  })

unfoldable pub handle_ssh_forge_mode : Env → Bytes → Bytes → Verdict (List Bytes)
unfolding authenticate read_request access_of check_access
handle_ssh_forge_mode e username keyname = do
  authenticate e username keyname
  q ← read_request e
  l ← require e.login_info crash
  check_access (is_pushing q.command) q.repository.status
      (access_of username l q.namespace q.repository)
  pass (
      with_path (path_join (e.config.git_root ∷ q.repository.namespace ∷ q.repository.name ∷ []))
        q.command)

-- The arguments of the process that is run, if one is.
unfoldable pub handle_ssh_login : Env → Bytes → Bytes → Verdict (List Bytes)
unfolding handle_ssh_host_mode handle_ssh_forge_mode
handle_ssh_login e username keyname =
    if is_in_host_mode e.config
    then handle_ssh_host_mode e username
    else if is_in_browse_only_mode e.config
    then refuse browse_only
    else handle_ssh_forge_mode e username keyname
