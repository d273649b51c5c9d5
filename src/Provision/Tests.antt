-- ===== src/Provision/Tests.antt =====
-- A user who is provisioned where a shared namespace exists.
use gitus.Prelude.{codes, none, [], ◌∷◌, ◌≡◌, refl, true}
use gitus.Prelude.{beq, lookup, insert, trim_space, trim_left, is_space}
use gitus.Model.{normal_user}
use gitus.Model.Samples.{public_ns}
use gitus.Config.Samples.{forge_config}
use gitus.Provision.{
  Table, Disk, provision_new_user, valid_default_status, add_to_default_namespace,
  ensure_personal_namespace, get_namespace_by_name, register_namespace, registered, acl_set,
  set_namespace_acl,
}
use gitus.Provision.Kept.{KeepsTable, provision_new_user-KeepsTable}

abbrev disk : Disk
disk = record { query_error = λ s. none; update_error = λ s. none; make_directory = λ s. none }

abbrev table : Table
table = (codes "shared", public_ns) ∷ []

provision_new_user-KeepsTable_example :
    KeepsTable
      (codes "bob")
      table
      (provision_new_user disk forge_config (codes "bob") normal_user table).1
provision_new_user-KeepsTable_example =
    provision_new_user-KeepsTable disk forge_config (codes "bob") normal_user table

bob_provisioned : (provision_new_user disk forge_config (codes "bob") normal_user table).0 ≡ none
unfolding provision_new_user ensure_personal_namespace get_namespace_by_name register_namespace
    registered add_to_default_namespace set_namespace_acl acl_set lookup insert beq trim_space
    trim_left is_space
bob_provisioned = refl

accepted : valid_default_status 1 ≡ true
unfolding valid_default_status
accepted = refl
