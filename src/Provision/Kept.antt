-- ===== src/Provision/Kept.antt =====
-- What provisioning leaves as it was.
use gitus.Prelude.{
  ◌≡◌, inl, inr, refl, arith, Bytes, Option, some, none, Bool, true, false, sym, ◌∙◌, ap,
  if◌then◌else◌, [], Bool-cases, subst, not, ℕ, ◌&&◌, ◌||◌, is_empty, ◌==◌,
}
use gitus.Prelude.{lookup, insert, beq, lookup-insert, beq→eq, trim_space}
use mathlib.Core.Option.{some-injective, none-ne-some}
use gitus.Model.{Namespace, Acl, AclTuple, get_user_privilege, new_acl, normal_user}
use gitus.Config.{Config}
use gitus.Provision.{
  acl_set, registered, membership, personal, Table, Effect, Disk, DbError, entity_not_found,
  entity_already_exists, other_error, get_namespace_by_name, register_namespace, set_namespace_acl,
  with_member, acl_or_new, new_namespace, add_to_default_namespace, ensure_personal_namespace,
  provision_new_user, unless_not_found, unless_already_exists, and_then, member,
}

-- The same namespace, with the same rights of everyone but one user.
abbrev pub KeepsNamespace : Bytes → Namespace → Namespace → Type 0
KeepsNamespace user n k =
    (k.name ≡ n.name)
    × (k.owner ≡ n.owner)
    × (k.status ≡ n.status)
    × ((other : Bytes)
        → beq user other ≡ false
        → get_user_privilege k.acl other ≡ get_user_privilege n.acl other)

-- Every namespace of a table is there in another.
abbrev pub KeepsTable : Bytes → Table → Table → Type 0
KeepsTable user t u =
    (name : Bytes) (n : Namespace)
    → lookup name t ≡ some n
    → (k : Namespace) × (lookup name u ≡ some k) × KeepsNamespace user n k

KeepsTable-refl : (user : Bytes) (t : Table) → KeepsTable user t t
KeepsTable-refl user t name n h = (n, h, (refl, refl, refl, λ other p. refl))

KeepsTable-trans :
    (user : Bytes) (t u v : Table) → KeepsTable user t u → KeepsTable user u v → KeepsTable user t v
KeepsTable-trans user t u v p q name n h =
    let (k, e, (a, b, c, d)) = p name n h in
    let (j, f, (a', b', c', d')) = q name k e in
    (j, f, (a' ∙ a, b' ∙ b, c' ∙ c, λ other r. d' other r ∙ d other r))

acl_or_new-privilege :
    (a : Option Acl) (user other : Bytes) (tuple : AclTuple) (v : Bytes)
    → beq user other ≡ false
    → get_user_privilege
        (some (record { version = v; acl = insert user (some tuple) (acl_or_new a).acl }))
        other
      ≡ get_user_privilege a other
unfolding get_user_privilege acl_or_new lookup new_acl
acl_or_new-privilege none user other tuple v h =
    rw (lookup-insert user other (some tuple) [], h) refl
acl_or_new-privilege (some a) user other tuple v h =
    rw (lookup-insert user other (some tuple) a.acl, h) refl

with_member-KeepsNamespace :
    (user : Bytes) (tuple : AclTuple) (n : Namespace)
    → KeepsNamespace user n (with_member user tuple n)
unfolding with_member
with_member-KeepsNamespace user tuple n = (
  refl,
  refl,
  refl,
  λ other h. acl_or_new-privilege n.acl user other tuple (acl_or_new n.acl).version h,
)

found-insert :
    (ns name : Bytes) (k : Namespace) (t : Table)
    → beq ns name ≡ true
    → lookup name (insert ns k t) ≡ some k
found-insert ns name k t h = rw (lookup-insert ns name k t, h) refl

missed-insert :
    (ns name : Bytes) (k m : Namespace) (t : Table)
    → beq ns name ≡ false
    → lookup name t ≡ some m
    → lookup name (insert ns k t) ≡ some m
missed-insert ns name k m t h e = rw (lookup-insert ns name k t, h) e

same_row :
    (ns name : Bytes) (n m : Namespace) (t : Table)
    → beq ns name ≡ true
    → lookup ns t ≡ some n
    → lookup name t ≡ some m
    → n ≡ m
same_row ns name n m t h e f =
    some-injective n m (sym e ∙ (ap (λ x. lookup x t) (beq→eq ns name h) ∙ f))

-- A row that is put in place of a namespace, which it keeps.
insert-KeepsTable :
    (user ns : Bytes) (n k : Namespace) (t : Table)
    → lookup ns t ≡ some n
    → KeepsNamespace user n k
    → KeepsTable user t (insert ns k t)
insert-KeepsTable user ns n k t e p name m h = elim (Bool-cases (beq ns name)) [
  | inl q ↦ (
    k,
    found-insert ns name k t q,
    subst (λ x. KeepsNamespace user x k) (same_row ns name n m t q e h) p,
  )
  | inr q ↦ (m, missed-insert ns name k m t q h, (refl, refl, refl, λ other r. refl))
]

-- A new row.
insert-new-KeepsTable :
    (user ns : Bytes) (k : Namespace) (t : Table)
    → lookup ns t ≡ none
    → KeepsTable user t (insert ns k t)
insert-new-KeepsTable user ns k t e name m h = elim (Bool-cases (beq ns name)) [
  | inl q ↦ absurd (none-ne-some m (sym e ∙ (ap (λ x. lookup x t) (beq→eq ns name q) ∙ h)))
  | inr q ↦ (m, missed-insert ns name k m t q h, (refl, refl, refl, λ other r. refl))
]

unless_not_found-table : (x : Effect) → (unless_not_found x).1 ≡ x.1
unless_not_found-table x = ground arith

unless_already_exists-table : (x : Effect) → (unless_already_exists x).1 ≡ x.1
unless_already_exists-table x = ground arith

acl_set-KeepsTable :
    (ns user : Bytes) (tuple : AclTuple) (t : Table) (row : Option Namespace)
    (update : Option Bytes)
    → lookup ns t ≡ row
    → KeepsTable user t (acl_set ns user tuple t row update).1
unfolding acl_set
acl_set-KeepsTable ns user tuple t none update e = KeepsTable-refl user t
acl_set-KeepsTable ns user tuple t (some n) (some x) e = KeepsTable-refl user t
acl_set-KeepsTable ns user tuple t (some n) none e =
    insert-KeepsTable user ns n (with_member user tuple n) t e
      (with_member-KeepsNamespace user tuple n)

registered-KeepsTable :
    (user ns owner : Bytes) (t : Table) (row : Option Namespace) (directory : Option Bytes)
    → lookup ns t ≡ row
    → KeepsTable user t (registered ns owner t row directory).1
unfolding registered
registered-KeepsTable user ns owner t (some n) directory e = KeepsTable-refl user t
registered-KeepsTable user ns owner t none (some x) e = KeepsTable-refl user t
registered-KeepsTable user ns owner t none none e =
    insert-new-KeepsTable user ns (new_namespace ns owner) t e

membership-KeepsTable :
    (user : Bytes) (set : Effect) (t : Table) (e : Option DbError)
    → KeepsTable user t set.1
    → KeepsTable user t (membership set t e).1
membership-KeepsTable user set t (some e) p =
    subst (KeepsTable user t) (sym (unless_not_found-table (some e, t))) (KeepsTable-refl user t)
membership-KeepsTable user set t none p =
    subst (KeepsTable user t) (sym (unless_not_found-table set)) p

personal-KeepsTable :
    (user : Bytes) (new : Effect) (t : Table) (e : Option DbError)
    → KeepsTable user t new.1
    → KeepsTable user t (personal new t e).1
personal-KeepsTable user new t none p = KeepsTable-refl user t
personal-KeepsTable user new t (some entity_not_found) p =
    subst (KeepsTable user t) (sym (unless_already_exists-table new)) p
personal-KeepsTable user new t (some entity_already_exists) p = KeepsTable-refl user t
personal-KeepsTable user new t (some (other_error e)) p = KeepsTable-refl user t

if-KeepsTable :
    (user : Bytes) (t : Table) (b : Bool) (x y : Effect)
    → KeepsTable user t x.1
    → KeepsTable user t y.1
    → KeepsTable user t (if b then x else y).1
if-KeepsTable user t true x y p q = p
if-KeepsTable user t false x y p q = q

pub add_to_default_namespace-KeepsTable :
    (d : Disk) (cfg : Config) (user : Bytes) (t : Table)
    → KeepsTable user t (add_to_default_namespace d cfg user t).1
unfolding add_to_default_namespace set_namespace_acl
add_to_default_namespace-KeepsTable d cfg user t =
    let ns = trim_space cfg.default_new_user_namespace in
    if-KeepsTable user t (not cfg.use_namespace || is_empty ns) (none, t) _ (KeepsTable-refl user t)
      (membership-KeepsTable user (set_namespace_acl d ns user member t) t
        (get_namespace_by_name d ns t)
        (acl_set-KeepsTable ns user member t (lookup ns t) (d.update_error ns) refl))

ensure_personal_namespace-KeepsTable :
    (d : Disk) (user : Bytes) (t : Table) → KeepsTable user t (ensure_personal_namespace d user t).1
unfolding ensure_personal_namespace register_namespace
ensure_personal_namespace-KeepsTable d user t =
    personal-KeepsTable user (register_namespace d user user t) t (get_namespace_by_name d user t)
      (registered-KeepsTable user user user t (lookup user t) (d.make_directory user) refl)

and_then-KeepsTable :
    (user : Bytes) (t : Table) (f : Table → Effect) (x : Effect)
    → KeepsTable user t x.1
    → ((u : Table) → KeepsTable user u (f u).1)
    → KeepsTable user t (and_then f x).1
and_then-KeepsTable user t f (none, u) p q = KeepsTable-trans user t u (f u).1 p (q u)
and_then-KeepsTable user t f (some e, u) p q = p

-- Provisioning a user, whatever fails, loses no namespace: each is there afterwards with its name, its
-- owner, its status, and the rights of everyone but that user.
pub provision_new_user-KeepsTable :
    (d : Disk) (cfg : Config) (user : Bytes) (status : ℕ) (t : Table)
    → KeepsTable user t (provision_new_user d cfg user status t).1
unfolding provision_new_user
provision_new_user-KeepsTable d cfg user status t =
    if-KeepsTable user t (cfg.use_namespace && status == normal_user) _ _
      (and_then-KeepsTable user t (add_to_default_namespace d cfg user)
        (ensure_personal_namespace d user t) (ensure_personal_namespace-KeepsTable d user t)
        (add_to_default_namespace-KeepsTable d cfg user))
      (add_to_default_namespace-KeepsTable d cfg user t)
