-- ===== src/AuthorizedKeys.antt =====
-- pkg/gitus/ssh/main.go: the keys in authorized_keys, and the lines that sshd is given for them. The
-- pattern of parseKey and the functions of golang.org/x/crypto/ssh are parameters.
pub mod Managed
pub mod Misread
mod Tests
use gitus.Prelude.{
  ℕ, Bool, Bytes, List, Option, [], none, some, ◌∷◌, ◌++◌, true, false, codes, not, if◌then◌else◌,
  ◌==◌, ◌&&◌, is_empty, Dict, suc, map,
}
use gitus.Prelude.{beq, lookup, insert, remove, split, trim_space, has_prefix, copied}
use gitus.ShellParse.{quote}

-- What parseKey finds in a line that the program has written: the user, the key's name and the key.
pub record ParsedKey : Type 0 where
  pub user_name : Bytes
  pub key_name : Bytes
  pub key : Bytes

abbrev pub Pack : Type 0
Pack = Dict Bytes

pub record SshKeyManagingContext : Type 0 where
  -- a nil map is one without users
  pub managed : Dict Pack
  pub not_managed : List Bytes

-- The lines of the file that are not empty and no comment.
abbrev pub is_entry : Bytes → Bool
unfolding trim_space has_prefix
is_entry line = not (is_empty (trim_space line)) && not (has_prefix (trim_space line) (codes "#"))

abbrev pub lines_of : Bytes → List Bytes
unfolding split
lines_of file = let r = split 10 file in r.0 ∷ r.1

-- The loop of NewContext: the entries that the program has not written.
abbrev pub kept_line : Bytes → List Bytes → Bool → Option ParsedKey → List Bytes
kept_line line rest false k = rest
kept_line line rest true (some k) = rest
kept_line line rest true none = line ∷ rest

unfoldable pub not_managed_lines : (Bytes → Option ParsedKey) → List Bytes → List Bytes
unfolding is_entry
not_managed_lines parse_key [] = []
not_managed_lines parse_key (line ∷ lines) =
    kept_line line (not_managed_lines parse_key lines) (is_entry line) (parse_key line)

-- From the text of the file; a missing file is an empty one.
unfoldable pub new_context : (Bytes → Option ParsedKey) → Bytes → SshKeyManagingContext
unfolding not_managed_lines lines_of
new_context parse_key file = record {
  managed = [];
  not_managed = not_managed_lines parse_key (lines_of file);
}

-- The variables of the loop of ToContext. A map of a user is shared with `managed` from the moment it
-- is put there; it is not written to after that, as `current_name` never changes once it is set.
pub record Reading : Type 0 where
  pub managed : Dict Pack
  pub current_name : Bytes
  pub current_managed : Pack
  pub not_managed : List Bytes

abbrev pub first_name : Bytes → Bytes → Bytes
first_name [] user = user
first_name (c ∷ s) user = c ∷ s

abbrev pub pack_or_new : Option Pack → Pack
pack_or_new none = []
pack_or_new (some p) = p

-- A line that the program has written: the name, and whether the line is of that user.
abbrev pub read_named : Reading → ParsedKey → Bytes → Bool → Reading
unfolding lookup insert
read_named r k name true = record r {
  current_name = name;
  current_managed = insert k.key_name k.key r.current_managed;
}
read_named r k name false = record r {
  managed = insert name r.current_managed r.managed;
  current_name = name;
  current_managed =
      insert k.key_name k.key
        (pack_or_new (lookup k.user_name (insert name r.current_managed r.managed)));
}

abbrev pub read_key : Reading → ParsedKey → Reading
unfolding beq read_named
read_key r k =
    let name = first_name r.current_name k.user_name in read_named r k name (beq k.user_name name)

abbrev pub read_line : Reading → Bytes → Bool → Option ParsedKey → Reading
unfolding read_key
read_line r line false k = r
read_line r line true none = record r { not_managed = r.not_managed ++ (line ∷ []) }
read_line r line true (some k) = read_key r k

unfoldable pub read_lines : (Bytes → Option ParsedKey) → Reading → List Bytes → Reading
unfolding read_line is_entry
read_lines parse_key r [] = r
read_lines parse_key r (line ∷ lines) =
    read_lines parse_key (read_line r line (is_entry line) (parse_key line)) lines

abbrev pub merged : Pack → Option Pack → Pack
unfolding copied
merged current none = current
merged current (some p) = copied p current

abbrev pub no_keys : Reading
no_keys = record { managed = []; current_name = []; current_managed = []; not_managed = [] }

abbrev pub finished : Reading → SshKeyManagingContext
unfolding merged insert lookup
finished r = record {
  managed =
      insert r.current_name (merged r.current_managed (lookup r.current_name r.managed)) r.managed;
  not_managed = r.not_managed;
}

unfoldable pub to_context : (Bytes → Option ParsedKey) → Bytes → SshKeyManagingContext
unfolding read_lines finished lines_of
to_context parse_key file = finished (read_lines parse_key no_keys (lines_of file))

unfoldable pub add_authorized_key :
    SshKeyManagingContext → Bytes → Bytes → Bytes → SshKeyManagingContext
unfolding insert lookup
add_authorized_key ctx username keyname key = record ctx {
  managed =
      insert username (insert keyname key (pack_or_new (lookup username ctx.managed))) ctx.managed;
}

abbrev pub removed : SshKeyManagingContext → Bytes → Bytes → Option Pack → SshKeyManagingContext
unfolding insert remove
removed ctx username keyname none = ctx
removed ctx username keyname (some p) = record ctx {
  managed = insert username (remove keyname p) ctx.managed;
}

unfoldable pub remove_authorized_key : SshKeyManagingContext → Bytes → Bytes → SshKeyManagingContext
unfolding removed lookup
remove_authorized_key ctx username keyname =
    removed ctx username keyname (lookup username ctx.managed)

abbrev pub text_or_empty : Option Bytes → Bytes
text_or_empty none = []
text_or_empty (some s) = s

abbrev pub key_in : Bytes → Option Pack → Bytes
unfolding lookup
key_in keyname none = []
key_in keyname (some p) = text_or_empty (lookup keyname p)

unfoldable pub get_authorized_key : SshKeyManagingContext → Bytes → Bytes → Bytes
unfolding key_in lookup
get_authorized_key ctx username keyname = key_in keyname (lookup username ctx.managed)

unfoldable pub authorized_key_line : Bytes → Bytes → Bytes → Bytes → Bytes
unfolding quote trim_space
authorized_key_line config_path user_name key_name key_text =
    codes "command=\"gitus -config \\\""
    ++ (quote config_path
        ++ (codes "\\\" ssh "
            ++ (user_name
                ++ (codes " " ++ (quote key_name ++ (codes "\" " ++ trim_space key_text))))))
