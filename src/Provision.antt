-- ===== src/Provision.antt =====
-- pkg/gitus/newuser/provision.go: what a new account is given, on the table of namespaces of
-- pkg/gitus/db/sqlite/query.go.
pub mod Kept
pub mod Personal
pub mod Status
mod Tests
use gitus.Prelude.{
  ℕ, Bool, Bytes, Option, List, [], ◌∷◌, some, none, true, false, not, ◌==◌, ◌&&◌, ◌||◌,
  if◌then◌else◌, codes, is_empty, Dict,
}
use gitus.Prelude.{lookup, insert, trim_space}
use gitus.Model.{
  Namespace, Acl, AclTuple, new_acl, normal_user, normal_user_approval_needed,
  normal_user_confirm_needed, normal_user_no_new_namespace, banned, namespace_normal_public,
}
use gitus.Config.{Config}

-- db.ErrEntityNotFound, db.ErrEntityAlreadyExists and every other error.
pub data DbError : Type 0 where
  entity_not_found entity_already_exists : DbError
  other_error : Bytes → DbError

-- The table of namespaces.
abbrev pub Table : Type 0
Table = Dict Namespace

-- An error or none, and the table afterwards.
abbrev pub Effect : Type 0
Effect = Option DbError × Table

-- What can go wrong outside the table: a query, an update, and the directory of a new namespace.
pub record Disk : Type 0 where
  pub query_error : Bytes → Option Bytes
  pub update_error : Bytes → Option Bytes
  pub make_directory : Bytes → Option Bytes

abbrev pub row_of : Option Bytes → Option Namespace → Option DbError
row_of (some e) row = some (other_error e)
row_of none none = some entity_not_found
row_of none (some n) = none

unfoldable pub get_namespace_by_name : Disk → Bytes → Table → Option DbError
unfolding lookup
get_namespace_by_name d name t = row_of (d.query_error name) (lookup name t)

abbrev pub new_namespace : Bytes → Bytes → Namespace
new_namespace name owner = record {
  name = name;
  owner = owner;
  status = namespace_normal_public;
  acl = none;
}

-- The row is inserted in a transaction that an error of the directory rolls back. What is at the
-- place of the directory is removed first; the error is that of the removal or of making it.
abbrev pub registered : Bytes → Bytes → Table → Option Namespace → Option Bytes → Effect
unfolding insert
registered name owner t (some n) directory = (some entity_already_exists, t)
registered name owner t none (some e) = (some (other_error e), t)
registered name owner t none none = (none, insert name (new_namespace name owner) t)

unfoldable pub register_namespace : Disk → Bytes → Bytes → Table → Effect
unfolding registered lookup
register_namespace d name owner t = registered name owner t (lookup name t) (d.make_directory name)

abbrev pub acl_or_new : Option Acl → Acl
unfolding new_acl
acl_or_new none = new_acl
acl_or_new (some a) = a

abbrev pub with_member : Bytes → AclTuple → Namespace → Namespace
unfolding insert
with_member user tuple n =
    let a = acl_or_new n.acl in
    record {
      name = n.name;
      owner = n.owner;
      status = n.status;
      acl = some (record { version = a.version; acl = insert user (some tuple) a.acl });
    }

-- A missing row is the error of the query here, not db.ErrEntityNotFound.
abbrev pub acl_set : Bytes → Bytes → AclTuple → Table → Option Namespace → Option Bytes → Effect
unfolding insert with_member
acl_set ns user tuple t none update = (some (other_error (codes "sql: no rows in result set")), t)
acl_set ns user tuple t (some n) (some e) = (some (other_error e), t)
acl_set ns user tuple t (some n) none = (none, insert ns (with_member user tuple n) t)

unfoldable pub set_namespace_acl : Disk → Bytes → Bytes → AclTuple → Table → Effect
unfolding acl_set lookup
set_namespace_acl d ns user tuple t = acl_set ns user tuple t (lookup ns t) (d.update_error ns)

unfoldable pub final_status : Config → ℕ
final_status cfg =
    let status =
      if cfg.default_new_user_status == 0 then normal_user else cfg.default_new_user_status in
    if status == normal_user_approval_needed || status == normal_user_confirm_needed
    then normal_user
    else status

unfoldable pub valid_default_status : ℕ → Bool
valid_default_status status =
    status == normal_user
    || status == normal_user_approval_needed
    || status == normal_user_confirm_needed
    || status == normal_user_no_new_namespace
    || status == banned

abbrev pub member : AclTuple
member = record {
  add_member = false;
  delete_member = false;
  edit_member = false;
  edit_info = false;
  add_repository = true;
  push_to_repository = false;
  archive_repository = false;
  delete_repository = false;
  edit_hooks = false;
  edit_web_hooks = false;
}

-- `errors.Is(err, db.ErrEntityNotFound)` is no error: the membership is skipped.
abbrev pub unless_not_found : Effect → Effect
unless_not_found (none, t) = (none, t)
unless_not_found (some entity_not_found, t) = (none, t)
unless_not_found (some entity_already_exists, t) = (some entity_already_exists, t)
unless_not_found (some (other_error e), t) = (some (other_error e), t)

abbrev pub membership : Effect → Table → Option DbError → Effect
membership set t (some e) = unless_not_found (some e, t)
membership set t none = unless_not_found set

unfoldable pub add_to_default_namespace : Disk → Config → Bytes → Table → Effect
unfolding get_namespace_by_name set_namespace_acl trim_space
add_to_default_namespace d cfg username t =
    let ns = trim_space cfg.default_new_user_namespace in
    if not cfg.use_namespace || is_empty ns
    then (none, t)
    else membership (set_namespace_acl d ns username member t) t (get_namespace_by_name d ns t)

abbrev pub unless_already_exists : Effect → Effect
unless_already_exists (none, t) = (none, t)
unless_already_exists (some entity_already_exists, t) = (none, t)
unless_already_exists (some entity_not_found, t) = (some entity_not_found, t)
unless_already_exists (some (other_error e), t) = (some (other_error e), t)

abbrev pub personal : Effect → Table → Option DbError → Effect
personal new t none = (none, t)
personal new t (some entity_not_found) = unless_already_exists new
personal new t (some entity_already_exists) = (some entity_already_exists, t)
personal new t (some (other_error e)) = (some (other_error e), t)

unfoldable pub ensure_personal_namespace : Disk → Bytes → Table → Effect
unfolding get_namespace_by_name register_namespace
ensure_personal_namespace d username t =
    personal (register_namespace d username username t) t (get_namespace_by_name d username t)

abbrev pub and_then : (Table → Effect) → Effect → Effect
and_then f (none, t) = f t
and_then f (some e, t) = (some e, t)

-- With a database and a configuration that are not nil.
unfoldable pub provision_new_user : Disk → Config → Bytes → ℕ → Table → Effect
unfolding add_to_default_namespace ensure_personal_namespace
provision_new_user d cfg username status t =
    if cfg.use_namespace && status == normal_user
    then and_then (add_to_default_namespace d cfg username) (ensure_personal_namespace d username t)
    else add_to_default_namespace d cfg username t
