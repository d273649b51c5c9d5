-- ===== src/Provision/Personal.antt =====
-- The namespaces that a new account can use.
use gitus.Prelude.{
  subst, ◌&&◌, if◌then◌else◌, ◌≡◌, refl, Bytes, Option, some, none, true, beq_refl, lookup,
  lookup-insert, Bool, sym, ◌==◌, ap,
}
use gitus.Model.{Namespace, normal_user}
use gitus.Config.{Config}
use gitus.Provision.{
  Table, Effect, Disk, registered, personal, row_of, new_namespace, ensure_personal_namespace,
  get_namespace_by_name, register_namespace, provision_new_user, and_then, add_to_default_namespace,
}
use gitus.Provision.Kept.{add_to_default_namespace-KeepsTable}

abbrev pub Has : Bytes → Table → Type 0
Has name t = (n : Namespace) × (lookup name t ≡ some n)

ensured-Has :
    (user : Bytes) (t : Table) (row : Option Namespace) (query directory : Option Bytes)
    → lookup user t ≡ row
    → (personal (registered user user t row directory) t (row_of query row)).0 ≡ none
    → Has user (personal (registered user user t row directory) t (row_of query row)).1
unfolding registered
ensured-Has user t row (some x) directory e h = cc
ensured-Has user t (some n) none directory e h = (n, e)
ensured-Has user t none none (some x) e h = cc
ensured-Has user t none none none e h = (
  new_namespace user user,
  rw (lookup-insert user user (new_namespace user user) t, beq_refl user) refl,
)

and_then-Has :
    (d : Disk) (cfg : Config) (user : Bytes) (x : Effect)
    → (x.0 ≡ none → Has user x.1)
    → (and_then (add_to_default_namespace d cfg user) x).0 ≡ none
    → Has user (and_then (add_to_default_namespace d cfg user) x).1
and_then-Has d cfg user (none, u) p h =
    let (n, e) = p refl in
    let (k, f, rest) = add_to_default_namespace-KeepsTable d cfg user u user n e in (k, f)
and_then-Has d cfg user (some x, u) p h = cc

taken : (b : Bool) (x y : Effect) → b ≡ true → (if b then x else y) ≡ x
taken b x y h = rw (h) refl

-- With namespaces enabled, a normal user who was provisioned without an error has a namespace of the
-- user's name.
pub provision_new_user-Has :
    (d : Disk) (cfg : Config) (user : Bytes) (t : Table)
    → cfg.use_namespace ≡ true
    → (provision_new_user d cfg user normal_user t).0 ≡ none
    → Has user (provision_new_user d cfg user normal_user t).1
unfolding provision_new_user ensure_personal_namespace register_namespace get_namespace_by_name
provision_new_user-Has d cfg user t p =
    subst (λ x. x.0 ≡ none → Has user x.1)
      (sym (
        taken (cfg.use_namespace && normal_user == normal_user)
          (and_then (add_to_default_namespace d cfg user) (ensure_personal_namespace d user t))
          (add_to_default_namespace d cfg user t) (ap (λ b. b && true) p)))
      (and_then-Has d cfg user (ensure_personal_namespace d user t)
        (ensured-Has user t (lookup user t) (d.query_error user) (d.make_directory user) refl))
