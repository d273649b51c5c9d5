-- ===== src/Ssh/HostMode.antt =====
-- When HandleSSHLogin runs git, in host mode.
use gitus.Prelude.{
  Bytes, List, not, ◌∷◌, Dict, beq, codes, ◌≡◌, Option, [], arith, false, true, beq→eq, some,
  lookup, none, refl,
}
use gitus.FilePaths.{path_join}
use gitus.Config.{Config, is_in_host_mode}
use gitus.Ssh.{
  Env, Verdict, pass, handle_ssh_login, handle_ssh_host_mode, is_valid_git_ssh_command,
  host_verdict, config_dir, read_command, Command, parse_target_repository_name, HostModeUserAcl,
  rel_path, is_pushing, with_path,
}
use gitus.Model.{HostModeUserAcl}

-- The configuration of a repository under the root of the instance.
abbrev pub config_path : Config → Bytes → Bytes → Bytes
config_path cfg ns name =
    path_join (
      cfg.git_root
      ∷ path_join (config_dir cfg.use_namespace)
      ∷ ns
      ∷ name
      ∷ codes "config.json"
      ∷ [])

-- What holds whenever git is run: the file of the repository that the command names lists the
-- user, and its word for the user and the direction is "allow".
pub record HostGranted (e : Env) (username : Bytes) (args : List Bytes) : Type 0 where
  pub command : Command
  pub ns : Bytes
  pub name : Bytes
  pub users : Dict (Option HostModeUserAcl)
  pub entry : HostModeUserAcl
  pub is_git : is_valid_git_ssh_command command.name ≡ true
  pub target :
      parse_target_repository_name e.config.use_namespace (rel_path command) ≡ pass (ns, name)
  pub file : e.read_repository_config (config_path e.config ns name) ≡ some users
  pub listed : lookup username users ≡ some (some entry)
  pub word : host_verdict (is_pushing command) entry ≡ codes "allow"
  pub runs : args ≡ with_path (path_join (e.config.git_root ∷ ns ∷ name ∷ [])) command

allow_word : (v : Bytes) → not (beq v (codes "allow")) ≡ false → v ≡ codes "allow"
allow_word v h = ground (arith, beq→eq v (codes "allow"))

read_command-git :
    (s : Bytes) (c : Command) → read_command s ≡ pass c → is_valid_git_ssh_command c.name ≡ true
unfolding read_command
read_command-git s c h = ground arith

module _ (e : Env) (username : Bytes) (args : List Bytes)
    (h : handle_ssh_host_mode e username ≡ pass args) (command : Command)
    (reads : read_command e.original_command ≡ pass command) where
  granted_by_entry :
      (ns name : Bytes) (users : Dict (Option HostModeUserAcl))
      (entry : Option (Option HostModeUserAcl))
      → parse_target_repository_name e.config.use_namespace (rel_path command) ≡ pass (ns, name)
      → e.read_repository_config (config_path e.config ns name) ≡ some users
      → lookup username users ≡ entry
      → HostGranted e username args
  unfolding handle_ssh_host_mode
  granted_by_entry ns name users (some (some a)) et ef el = record {
    command = command;
    ns = ns;
    name = name;
    users = users;
    entry = a;
    is_git = read_command-git e.original_command command reads;
    target = et;
    file = ef;
    listed = el;
    word = allow_word (host_verdict (is_pushing command) a) (ground arith);
    runs = ground arith;
  }
  granted_by_entry ns name users entry et ef el = absurd (ground arith)

  granted_by_file :
      (ns name : Bytes) (file : Option (Dict (Option HostModeUserAcl)))
      → parse_target_repository_name e.config.use_namespace (rel_path command) ≡ pass (ns, name)
      → e.read_repository_config (config_path e.config ns name) ≡ file
      → HostGranted e username args
  unfolding handle_ssh_host_mode
  granted_by_file ns name none et ef = absurd (ground arith)
  granted_by_file ns name (some users) et ef = granted_by_entry ns name users _ et ef refl

  granted_by_target :
      (t : Verdict (Bytes × Bytes))
      → parse_target_repository_name e.config.use_namespace (rel_path command) ≡ t
      → HostGranted e username args
  unfolding handle_ssh_host_mode
  granted_by_target (pass (ns, name)) et = granted_by_file ns name _ et refl
  granted_by_target t et = absurd (ground arith)

granted_by_command :
    (e : Env) (username : Bytes) (args : List Bytes) (r : Verdict Command)
    → handle_ssh_host_mode e username ≡ pass args
    → read_command e.original_command ≡ r
    → HostGranted e username args
unfolding handle_ssh_host_mode
granted_by_command e username args (pass c) h er = granted_by_target e username args h c er _ refl
granted_by_command e username args r h er = absurd (ground arith)

host_mode_runs :
    (e : Env) (username keyname : Bytes) (args : List Bytes)
    → is_in_host_mode e.config ≡ true
    → handle_ssh_login e username keyname ≡ pass args
    → handle_ssh_host_mode e username ≡ pass args
unfolding handle_ssh_login
host_mode_runs e username keyname args m h = ground arith

-- In host mode, whenever the handler runs a process, it was asked for a git command, the file of
-- the repository that the command names lists the user, and the word for the user and the
-- direction, or the default where there is none, is "allow".
pub handle_ssh_login-HostGranted :
    (e : Env) (username keyname : Bytes) (args : List Bytes)
    → is_in_host_mode e.config ≡ true
    → handle_ssh_login e username keyname ≡ pass args
    → HostGranted e username args
handle_ssh_login-HostGranted e username keyname args m h =
    granted_by_command e username args _ (host_mode_runs e username keyname args m h) refl
