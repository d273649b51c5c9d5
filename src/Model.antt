-- ===== src/Model.antt =====
-- pkg/gitus/model: access control lists, repositories, namespaces and users, as far as the
-- access decisions read them. Go's integer enumerations are numbers, so that a value outside the
-- named constants can be stated.
pub mod Names
pub mod Privileges
pub mod Samples
mod Tests
use gitus.Prelude.{
  ℕ, Bool, Bytes, Option, codes, false, join, List, [], if◌then◌else◌, some, beq, lookup, none, not,
  ◌||◌, ◌∷◌, true, Dict,
}

pub record AclTuple : Type 0 where
  pub add_member : Bool
  pub delete_member : Bool
  pub edit_member : Bool
  pub edit_info : Bool
  pub add_repository : Bool
  pub push_to_repository : Bool
  pub archive_repository : Bool
  pub delete_repository : Bool
  pub edit_hooks : Bool
  pub edit_web_hooks : Bool

-- A null entry of the stored JSON object is a nil pointer.
pub record Acl : Type 0 where
  pub version : Bytes
  pub acl : Dict (Option AclTuple)

unfoldable pub new_acl : Acl
new_acl = record { version = codes "0"; acl = [] }

unfoldable pub has_setting_privilege : Option AclTuple → Bool
has_setting_privilege none = false
has_setting_privilege (some t) =
    t.add_member || t.delete_member || t.edit_member || t.add_repository || t.edit_info
    || t.archive_repository || t.delete_repository || t.edit_hooks || t.edit_web_hooks

abbrev flatten_entry : Option (Option AclTuple) → Option AclTuple
flatten_entry none = none
flatten_entry (some t) = t

unfoldable pub get_user_privilege : Option Acl → Bytes → Option AclTuple
get_user_privilege none username = none
get_user_privilege (some a) username = flatten_entry (lookup username a.acl)

abbrev word_if : Bool → Bytes → List Bytes → List Bytes
word_if b w ws = if b then w ∷ ws else ws

unfoldable pub to_comma_separated_string : Option AclTuple → Bytes
unfolding join
to_comma_separated_string none = []
to_comma_separated_string (some t) = join (44 ∷ []) (
    word_if t.add_member (codes "addMember") (
      word_if t.delete_member (codes "deleteMember") (
        word_if t.edit_member (codes "editMember") (
          word_if t.edit_info (codes "editInfo") (
            word_if t.add_repository (codes "addRepo") (
              word_if t.push_to_repository (codes "pushToRepo") (
                word_if t.archive_repository (codes "archiveRepo") (
                  word_if t.delete_repository (codes "deleteRepo") (
                    word_if t.edit_hooks (codes "editHooks")
                      (word_if t.edit_web_hooks (codes "editWebHooks") []))))))))))

abbrev pub repo_normal_public : ℕ
repo_normal_public = 1

abbrev pub repo_normal_private : ℕ
repo_normal_private = 2

abbrev pub repo_archived : ℕ
repo_archived = 4

abbrev pub repo_internal : ℕ
repo_internal = 5

abbrev pub repo_limited : ℕ
repo_limited = 6

abbrev pub repo_type_git : ℕ
repo_type_git = 1

abbrev pub namespace_normal_public : ℕ
namespace_normal_public = 1

abbrev pub namespace_normal_private : ℕ
namespace_normal_private = 2

abbrev pub namespace_internal : ℕ
namespace_internal = 3

pub record Repository : Type 0 where
  pub repo_type : ℕ
  pub namespace : Bytes
  pub name : Bytes
  pub access_control_list : Option Acl
  pub owner : Bytes
  pub status : ℕ

pub record Namespace : Type 0 where
  pub name : Bytes
  pub owner : Bytes
  pub status : ℕ
  pub acl : Option Acl

abbrev pub normal_user : ℕ
normal_user = 1

abbrev pub normal_user_approval_needed : ℕ
normal_user_approval_needed = 2

abbrev pub normal_user_confirm_needed : ℕ
normal_user_confirm_needed = 3

abbrev pub admin : ℕ
admin = 4

abbrev pub super_admin : ℕ
super_admin = 5

abbrev pub banned : ℕ
banned = 7

abbrev pub normal_user_no_new_namespace : ℕ
normal_user_no_new_namespace = 8

pub record HostModeUserAcl : Type 0 where
  pub default : Bytes
  pub push : Bytes
  pub pull : Bytes

-- templates.LoginInfoModel: what a request knows of its visitor.
pub record LoginInfo : Type 0 where
  pub logged_in : Bool
  pub user_name : Bytes
  pub user_full_name : Bytes
  pub user_email : Bytes
  pub user_session_id : Bytes
  pub user_csrf_token : Bytes
  pub is_owner : Bool
  pub is_strict_owner : Bool
  pub is_setting_member : Bool
  pub is_admin : Bool
  pub is_super_admin : Bool

-- `&templates.LoginInfoModel{}`
abbrev pub no_login : LoginInfo
no_login = record {
  logged_in = false;
  user_name = [];
  user_full_name = [];
  user_email = [];
  user_session_id = [];
  user_csrf_token = [];
  is_owner = false;
  is_strict_owner = false;
  is_setting_member = false;
  is_admin = false;
  is_super_admin = false;
}

-- `p != nil && (p.HasSettingPrivilege() || p.PushToRepository)`
abbrev pub may_push_or_set : Option AclTuple → Bool
may_push_or_set none = false
may_push_or_set (some t) = has_setting_privilege (some t) || t.push_to_repository

abbrev pub may_set_or_edit_info : Option AclTuple → Bool
may_set_or_edit_info none = false
may_set_or_edit_info (some t) = has_setting_privilege (some t) || t.edit_info

abbrev owns : Option Namespace → Bytes → Bool
owns none u = false
owns (some ns) u = beq ns.owner u

abbrev namespace_privilege : Option Namespace → Bytes → Option AclTuple
namespace_privilege none u = none
namespace_privilege (some ns) u = get_user_privilege ns.acl u

-- The common ladder of canModifyRepositoryRefs and canEditRepositorySettings.
abbrev decide_by : (Option AclTuple → Bool) → LoginInfo → Option Namespace → Repository → Bool
decide_by may l ns repo =
    if not l.logged_in
    then false
    else if l.is_admin
    then true
    else if beq repo.owner l.user_name
    then true
    else if owns ns l.user_name
    then true
    else if may (get_user_privilege repo.access_control_list l.user_name)
    then true
    else may (namespace_privilege ns l.user_name)

unfoldable pub can_modify_repository_refs : Option LoginInfo → Option Namespace → Repository → Bool
unfolding get_user_privilege has_setting_privilege
can_modify_repository_refs none ns repo = false
can_modify_repository_refs (some l) ns repo = decide_by may_push_or_set l ns repo

unfoldable pub can_edit_repository_settings :
    Option LoginInfo → Option Namespace → Repository → Bool
unfolding get_user_privilege has_setting_privilege
can_edit_repository_settings none ns repo = false
can_edit_repository_settings (some l) ns repo = decide_by may_set_or_edit_info l ns repo
