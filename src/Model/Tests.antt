-- ===== src/Model/Tests.antt =====
-- Names and privileges at concrete values.
use gitus.Prelude.{Bytes, beq, codes, false, lookup, some, true, ◌∷◌, ◌≡◌, [], refl}
use gitus.Model.{
  Repository, AclTuple, Namespace, can_edit_repository_settings, repo_type_git, LoginInfo,
  namespace_normal_public, new_acl, no_login, repo_normal_private,
}
use gitus.Model.Names.{valid_namespace_name, valid_strict_repository_name, is_name_byte}

abbrev may_edit_info : AclTuple
may_edit_info = record {
  add_member = false;
  delete_member = false;
  edit_member = false;
  edit_info = true;
  add_repository = false;
  push_to_repository = false;
  archive_repository = false;
  delete_repository = false;
  edit_hooks = false;
  edit_web_hooks = false;
}

abbrev repo : Repository
repo = record {
  repo_type = repo_type_git;
  namespace = codes "ns";
  name = codes "re";
  access_control_list =
      some (record { version = codes "0"; acl = (codes "eve", some may_edit_info) ∷ [] });
  owner = codes "bob";
  status = repo_normal_private;
}

abbrev ns : Namespace
ns = record {
  name = codes "ns";
  owner = codes "ann";
  status = namespace_normal_public;
  acl = some new_acl;
}

abbrev visitor : Bytes → LoginInfo
visitor name = record no_login { logged_in = true; user_name = name }

eve_edits : can_edit_repository_settings (some (visitor (codes "eve"))) (some ns) repo ≡ true
unfolding can_edit_repository_settings beq lookup new_acl
eve_edits = refl

ns_valid : valid_namespace_name (codes "ns") ≡ true
unfolding valid_namespace_name is_name_byte
ns_valid = refl

re_valid : valid_strict_repository_name (codes "re_1") ≡ true
unfolding valid_strict_repository_name is_name_byte
re_valid = refl
