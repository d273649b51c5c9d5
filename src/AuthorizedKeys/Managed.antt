-- ===== src/AuthorizedKeys/Managed.antt =====
-- Adding and removing keys, and the lines that the program leaves alone.
use gitus.Prelude.{
  Bool-cases, inl, inr, subst, Dict, ◌≡◌, refl, arith, Bytes, List, [], ◌∷◌, ◌++◌, Bool, true,
  false, Option, some, none, ◌&&◌, if◌then◌else◌, ap, ◌∙◌, sym, append_assoc,
}
use gitus.Prelude.{beq, lookup, insert, remove, lookup-insert, lookup-remove, beq→eq, beq_refl}
use gitus.AuthorizedKeys.{
  first_name, read_named, SshKeyManagingContext, ParsedKey, Pack, Reading, add_authorized_key,
  remove_authorized_key, get_authorized_key, key_in, pack_or_new, removed, not_managed_lines,
  kept_line, read_lines, read_line, read_key, is_entry, to_context, new_context, finished, no_keys,
  lines_of,
}

key_in-insert :
    (k j key : Bytes) (o : Option Pack)
    → key_in j (some (insert k key (pack_or_new o))) ≡ (if beq k j then key else key_in j o)
unfolding key_in lookup
key_in-insert k j key none = rw (lookup-insert k j key []) (ground arith)
key_in-insert k j key (some p) = rw (lookup-insert k j key p) (ground arith)

-- A key that was added is found under its user and name, and every other key as before.
pub get_authorized_key-add :
    (ctx : SshKeyManagingContext) (user name key u n : Bytes)
    → get_authorized_key (add_authorized_key ctx user name key) u n
      ≡ (if beq user u && beq name n then key else get_authorized_key ctx u n)
unfolding get_authorized_key add_authorized_key
get_authorized_key-add ctx user name key u n = elim (Bool-cases (beq user u)) [
  | inl h ↦
      subst
        (λ x.
          key_in n (
            lookup x
              (insert user (insert name key (pack_or_new (lookup user ctx.managed))) ctx.managed))
          ≡ (if beq user x && beq name n then key else key_in n (lookup x ctx.managed)))
        (beq→eq user u h)
        (rw
          (
            lookup-insert user user (insert name key (pack_or_new (lookup user ctx.managed)))
                ctx.managed,
            beq_refl user,
          )
          (key_in-insert name n key (lookup user ctx.managed)))
  | inr h ↦
      rw
        (
          lookup-insert user u (insert name key (pack_or_new (lookup user ctx.managed)))
              ctx.managed,
          h,
        )
        refl
]

key_in-remove :
    (k j : Bytes) (p : Pack)
    → key_in j (some (remove k p)) ≡ (if beq k j then [] else key_in j (some p))
unfolding key_in
key_in-remove k j p = rw (lookup-remove k j p) (ground arith)

no_pack :
    (user u n : Bytes) (b : Bool) (m : Dict Pack)
    → beq user u ≡ true
    → lookup user m ≡ none
    → key_in n (lookup u m) ≡ (if beq user u && b then [] else key_in n (lookup u m))
unfolding key_in
no_pack user u n b m e h = rw (e, subst (λ x. lookup x m ≡ none) (beq→eq user u e) h) (ground arith)

removed-key_in :
    (ctx : SshKeyManagingContext) (user name u n : Bytes) (o : Option Pack)
    → lookup user ctx.managed ≡ o
    → key_in n (lookup u (removed ctx user name o).managed)
      ≡ (if beq user u && beq name n then [] else key_in n (lookup u ctx.managed))
unfolding removed
removed-key_in ctx user name u n none h = elim (Bool-cases (beq user u)) [
  | inl e ↦ no_pack user u n (beq name n) ctx.managed e h
  | inr e ↦ rw (e) refl
]
removed-key_in ctx user name u n (some p) h = elim (Bool-cases (beq user u)) [
  | inl e ↦
      subst
        (λ x.
          key_in n (lookup x (insert user (remove name p) ctx.managed))
          ≡ (if beq user x && beq name n then [] else key_in n (lookup x ctx.managed)))
        (beq→eq user u e)
        (rw (lookup-insert user user (remove name p) ctx.managed, beq_refl user, h)
          (key_in-remove name n p))
  | inr e ↦ rw (lookup-insert user u (remove name p) ctx.managed, e) refl
]

-- A key that was removed is found no more, and every other key as before.
pub get_authorized_key-remove :
    (ctx : SshKeyManagingContext) (user name u n : Bytes)
    → get_authorized_key (remove_authorized_key ctx user name) u n
      ≡ (if beq user u && beq name n then [] else get_authorized_key ctx u n)
unfolding get_authorized_key remove_authorized_key
get_authorized_key-remove ctx user name u n =
    removed-key_in ctx user name u n (lookup user ctx.managed) refl

read_named-not_managed :
    (r : Reading) (k : ParsedKey) (name : Bytes) (b : Bool)
    → (read_named r k name b).not_managed ≡ r.not_managed
unfolding read_named
read_named-not_managed r k name true = refl
read_named-not_managed r k name false = refl

read_key-not_managed : (r : Reading) (k : ParsedKey) → (read_key r k).not_managed ≡ r.not_managed
unfolding read_key
read_key-not_managed r k =
    read_named-not_managed r k (first_name r.current_name k.user_name)
      (beq k.user_name (first_name r.current_name k.user_name))

read_line-not_managed :
    (r : Reading) (line : Bytes) (rest : List Bytes) (b : Bool) (k : Option ParsedKey)
    → (read_line r line b k).not_managed ++ rest ≡ r.not_managed ++ kept_line line rest b k
unfolding read_line
read_line-not_managed r line rest false k = refl
read_line-not_managed r line rest true none = append_assoc r.not_managed (line ∷ []) rest
read_line-not_managed r line rest true (some k) = ap (λ x. x ++ rest) (read_key-not_managed r k)

append_nil : (xs : List Bytes) → xs ++ [] ≡ xs
append_nil [] = refl
append_nil (x ∷ xs) = ap (◌∷◌ x) (append_nil xs)

read_lines-not_managed :
    (parse_key : Bytes → Option ParsedKey) (r : Reading) (lines : List Bytes)
    → (read_lines parse_key r lines).not_managed
      ≡ r.not_managed ++ not_managed_lines parse_key lines
unfolding read_lines not_managed_lines
read_lines-not_managed parse_key r [] = sym (append_nil r.not_managed)
read_lines-not_managed parse_key r (line ∷ lines) =
    read_lines-not_managed parse_key (read_line r line (is_entry line) (parse_key line)) lines
    ∙ read_line-not_managed r line (not_managed_lines parse_key lines) (is_entry line)
        (parse_key line)

-- Both ways to read the file find the same lines that the program has not written.
pub to_context-not_managed :
    (parse_key : Bytes → Option ParsedKey) (file : Bytes)
    → (to_context parse_key file).not_managed ≡ (new_context parse_key file).not_managed
unfolding to_context new_context finished
to_context-not_managed parse_key file = read_lines-not_managed parse_key no_keys (lines_of file)
