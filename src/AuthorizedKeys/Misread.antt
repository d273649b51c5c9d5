-- ===== src/AuthorizedKeys/Misread.antt =====
-- Under which user a key is found after authorized_keys was read.
use gitus.Prelude.{
  ◌≡◌, refl, Bytes, List, [], ◌∷◌, Bool, true, false, Option, some, none, ap, ◌∙◌, sym, Dict,
  Bool-cases, inl, inr, subst, IsUnique, insert-IsUnique, lookup-copied, found_or_else,
}
use gitus.Prelude.{beq, lookup, insert, lookup-insert, beq_refl}
use mathlib.Core.Option.{some-injective, none-ne-some}
use gitus.AuthorizedKeys.{
  ParsedKey, Pack, Reading, get_authorized_key, key_in, pack_or_new, text_or_empty, read_lines,
  read_line, read_key, read_named, first_name, is_entry, to_context, finished, merged, no_keys,
  lines_of,
}

-- The first user's name that is not empty, and the last key, among the lines that the program has
-- written.
abbrev pub Summary : Type 0
Summary = Bytes × Option ParsedKey

abbrev pub noted : Summary → Bool → Option ParsedKey → Summary
noted x false k = x
noted x true none = x
noted x true (some k) = (first_name x.0 k.user_name, some k)

unfoldable pub summary_of : (Bytes → Option ParsedKey) → Summary → List Bytes → Summary
unfolding is_entry
summary_of parse_key x [] = x
summary_of parse_key x (line ∷ lines) =
    summary_of parse_key (noted x (is_entry line) (parse_key line)) lines

abbrev HasKey : Pack → Option ParsedKey → Type 0
HasKey p none = Unit
HasKey p (some k) = lookup k.key_name p ≡ some k.key

abbrev AllUnique : Dict Pack → Type 0
AllUnique m = (user : Bytes) (p : Pack) → lookup user m ≡ some p → IsUnique p

record Follows (x : Summary) (r : Reading) : Type 0 where
  name_eq : r.current_name ≡ x.0
  unique : IsUnique r.current_managed
  packs : AllUnique r.managed
  has_key : HasKey r.current_managed x.1

insert-own : {V : Type 0} (k : Bytes) (v : V) (m : Dict V) → lookup k (insert k v m) ≡ some v
insert-own k v m = rw (lookup-insert k k v m, beq_refl k) refl

insert-AllUnique :
    (name : Bytes) (p : Pack) (m : Dict Pack)
    → IsUnique p
    → AllUnique m
    → AllUnique (insert name p m)
insert-AllUnique name p m u a user q h = elim (Bool-cases (beq name user)) [
  | inl e ↦
      subst IsUnique (some-injective p q (sym (rw (lookup-insert name user p m, e) refl) ∙ h)) u
  | inr e ↦ a user q (sym (lookup-insert name user p m ∙ (rw (e) refl)) ∙ h)
]

pack_or_new-IsUnique :
    (o : Option Pack) → ((p : Pack) → o ≡ some p → IsUnique p) → IsUnique (pack_or_new o)
pack_or_new-IsUnique none a = tt
pack_or_new-IsUnique (some p) a = a p refl

read_named-Follows :
    (x : Summary) (r : Reading) (k : ParsedKey) (name : Bytes) (b : Bool)
    → Follows x r
    → Follows (name, some k) (read_named r k name b)
unfolding read_named
read_named-Follows x r k name true f = record {
  name_eq = refl;
  unique = insert-IsUnique k.key_name k.key r.current_managed f.unique;
  packs = f.packs;
  has_key = insert-own k.key_name k.key r.current_managed;
}
read_named-Follows x r k name false f =
    let m = insert name r.current_managed r.managed in
    let a = insert-AllUnique name r.current_managed r.managed f.unique f.packs in
    let p = pack_or_new (lookup k.user_name m) in
    record {
      name_eq = refl;
      unique =
          insert-IsUnique k.key_name k.key p
            (pack_or_new-IsUnique (lookup k.user_name m) (a k.user_name));
      packs = a;
      has_key = insert-own k.key_name k.key p;
    }

read_line-Follows :
    (x : Summary) (r : Reading) (line : Bytes) (b : Bool) (o : Option ParsedKey)
    → Follows x r
    → Follows (noted x b o) (read_line r line b o)
unfolding read_line read_key
read_line-Follows x r line false o f = f
read_line-Follows x r line true none f = record {
  name_eq = f.name_eq;
  unique = f.unique;
  packs = f.packs;
  has_key = f.has_key;
}
read_line-Follows x r line true (some k) f =
    subst
      (λ name.
        Follows (first_name name k.user_name, some k)
          (read_named r k (first_name r.current_name k.user_name)
            (beq k.user_name (first_name r.current_name k.user_name))))
      f.name_eq
      (read_named-Follows x r k (first_name r.current_name k.user_name)
        (beq k.user_name (first_name r.current_name k.user_name)) f)

read_lines-Follows :
    (parse_key : Bytes → Option ParsedKey) (x : Summary) (r : Reading) (lines : List Bytes)
    → Follows x r
    → Follows (summary_of parse_key x lines) (read_lines parse_key r lines)
unfolding read_lines summary_of
read_lines-Follows parse_key x r [] f = f
read_lines-Follows parse_key x r (line ∷ lines) f =
    read_lines-Follows parse_key (noted x (is_entry line) (parse_key line)) _ lines
      (read_line-Follows x r line (is_entry line) (parse_key line) f)

merged-key :
    (current : Pack) (o : Option Pack) (k : ParsedKey)
    → IsUnique current
    → lookup k.key_name current ≡ some k.key
    → key_in k.key_name (some (merged current o)) ≡ k.key
unfolding key_in merged
merged-key current none k u h = ap text_or_empty h
merged-key current (some p) k u h =
    ap text_or_empty
      (lookup-copied k.key_name p current u ∙ ap (λ x. found_or_else x (lookup k.key_name p)) h)

finished-key :
    (name : Bytes) (r : Reading) (k : ParsedKey)
    → Follows (name, some k) r
    → get_authorized_key (finished r) name k.key_name ≡ k.key
unfolding get_authorized_key finished
finished-key name r k f =
    subst
      (λ n.
        key_in k.key_name (
          lookup n (
            insert r.current_name (merged r.current_managed (lookup r.current_name r.managed))
              r.managed))
        ≡ k.key)
      f.name_eq
      (ap (key_in k.key_name) (
          insert-own r.current_name (merged r.current_managed (lookup r.current_name r.managed))
            r.managed)
        ∙ merged-key r.current_managed (lookup r.current_name r.managed) k f.unique f.has_key)

no_keys-Follows : Follows ([], none) no_keys
unfolding lookup
no_keys-Follows = record {
  name_eq = refl;
  unique = tt;
  packs = λ user p h. absurd (none-ne-some p h);
  has_key = tt;
}

-- After the file was read, the key of the last line that the program has written, whoever's it is,
-- is found under the first user of the file.
pub to_context-last :
    (parse_key : Bytes → Option ParsedKey) (file name : Bytes) (k : ParsedKey)
    → summary_of parse_key ([], none) (lines_of file) ≡ (name, some k)
    → get_authorized_key (to_context parse_key file) name k.key_name ≡ k.key
unfolding to_context
to_context-last parse_key file name k h =
    finished-key name (read_lines parse_key no_keys (lines_of file)) k (
      subst (λ x. Follows x (read_lines parse_key no_keys (lines_of file))) h
        (read_lines-Follows parse_key ([], none) no_keys (lines_of file) no_keys-Follows))
