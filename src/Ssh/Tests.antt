-- ===== src/Ssh/Tests.antt =====
-- The handler at one repository, ns/re, which bob owns.
use gitus.Prelude.{
  inl, Bytes, Dict, List, Option, beq, codes, none, some, true, ◌∷◌, ◌≡◌, [], false, refl, cut,
  join, split, lookup, ◌↔◌,
}
use gitus.Ssh.{
  crash, Request, read_request, Env, read_command, Config, handle_ssh_login, is_in_browse_only_mode,
  is_in_host_mode, HostModeUserAcl, LoginInfo, read_request, parse_shell_command,
  is_valid_git_ssh_command, parse_target_repository_name, path_join, pass, Access, Request,
  handle_ssh_host_mode, get_authorized_key,
}
use gitus.Config.{
  Config, is_in_browse_only_mode, is_in_host_mode, op_mode_host, effective_global_visibility_at,
}
use gitus.Config.Samples.{forge_config}
use gitus.Ssh.NoLogin.{IsKnownKey, IsServed, handle_ssh_login-crash}
use gitus.Model.{HostModeUserAcl, LoginInfo}
use gitus.Model.Samples.{public_repo, public_ns}
use gitus.ShellParse.{parse_shell_command, is_white_space}
use gitus.FilePaths.{path_join, path_clean}
use gitus.Ssh.HostMode.{HostGranted, handle_ssh_login-HostGranted}

abbrev bob : Bytes
bob = codes "bob"

abbrev laptop : Bytes
laptop = codes "laptop"

abbrev config_file : Dict (Option HostModeUserAcl)
config_file = (bob, some (record { default = codes "allow"; push = codes "deny"; pull = [] })) ∷ []

abbrev env : Config → Option LoginInfo → Env
env config visitor = record {
  config = config;
  now = 0;
  original_command = codes "git-upload-pack 'ns/re'";
  login_info = visitor;
  ssh_context_ready = true;
  managed = some ((bob, (laptop, codes "ssh-rsa AAAA") ∷ []) ∷ []);
  get_auth_key_by_name = λ user key. some (codes "ssh-rsa AAAA");
  get_repository_by_name = λ space name. some public_repo;
  get_namespace_by_name = λ space. some public_ns;
  read_repository_config = λ file. some config_file;
}

abbrev forge : Env
forge = env (record forge_config { uses_authorized_keys_command = false }) none

abbrev host : Env
host = env (record forge_config { operation_mode = op_mode_host }) none

abbrev args : List Bytes
args = codes "git-upload-pack" ∷ codes "/srv/git/ns/re" ∷ []

forge_not_host : is_in_host_mode forge.config ≡ false
unfolding is_in_host_mode beq
forge_not_host = refl

forge_not_browse_only : is_in_browse_only_mode forge.config ≡ false
unfolding is_in_browse_only_mode beq
forge_not_browse_only = refl

abbrev request : Request
request = record {
  command = record { name = codes "git-upload-pack"; arguments = codes "ns/re" ∷ [] };
  namespace_name = codes "ns";
  repository_name = codes "re";
  repository = public_repo;
  namespace = public_ns;
}

forge_reads : read_request forge ≡ pass request
unfolding read_request read_command parse_shell_command is_white_space is_valid_git_ssh_command
    parse_target_repository_name cut beq join
forge_reads = refl

forge-IsKnownKey : IsKnownKey forge bob laptop
unfolding get_authorized_key lookup beq
forge-IsKnownKey = record { key = codes "ssh-rsa AAAA"; in_database = refl; in_file = λ h. refl }

forge-IsServed : IsServed forge
unfolding effective_global_visibility_at beq
forge-IsServed = inl refl

handle_ssh_login-crash_example :
    (handle_ssh_login forge bob laptop ≡ crash) ↔ (IsServed forge × IsKnownKey forge bob laptop)
handle_ssh_login-crash_example =
    handle_ssh_login-crash forge bob laptop request forge_not_host forge_not_browse_only refl
      forge_reads

forge_crashes : handle_ssh_login forge bob laptop ≡ crash
forge_crashes =
    (handle_ssh_login-crash forge bob laptop request forge_not_host forge_not_browse_only refl
        forge_reads).1
      (forge-IsServed, forge-IsKnownKey)

host_mode : is_in_host_mode host.config ≡ true
unfolding is_in_host_mode beq
host_mode = refl

host_runs : handle_ssh_login host bob laptop ≡ pass args
unfolding handle_ssh_login handle_ssh_host_mode read_command parse_shell_command is_white_space
    is_valid_git_ssh_command parse_target_repository_name cut path_join path_clean is_in_host_mode
    beq join split lookup
host_runs = refl

handle_ssh_login-HostGranted_example : HostGranted host bob args
handle_ssh_login-HostGranted_example =
    handle_ssh_login-HostGranted host bob laptop args host_mode host_runs

abbrev nobody : Access
nobody = record { is_ns_any = false; is_ns_push = false; is_repo_any = false; is_repo_push = false }
