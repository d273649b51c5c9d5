-- ===== src/AuthorizedKeys/Tests.antt =====
-- A file with the keys of two users, whose lines are a user, a key's name and a key of one letter.
use gitus.Prelude.{Bytes, Option, some, none, [], ◌∷◌, codes, ◌≡◌, refl}
use gitus.Prelude.{split, trim_space, trim_left, is_space, has_prefix}
use gitus.AuthorizedKeys.{
  ParsedKey, SshKeyManagingContext, to_context, get_authorized_key, lines_of, is_entry,
}
use gitus.AuthorizedKeys.Misread.{summary_of, to_context-last}

abbrev parse_key : Bytes → Option ParsedKey
parse_key (u ∷ c ∷ n ∷ d ∷ k) = some (record { user_name = u ∷ []; key_name = n ∷ []; key = k })
parse_key line = none

abbrev file : Bytes
file = codes "a k x\nb l y"

abbrev bobs_key : ParsedKey
bobs_key = record { user_name = codes "b"; key_name = codes "l"; key = codes "y" }

read_in_order : summary_of parse_key ([], none) (lines_of file) ≡ (codes "a", some bobs_key)
unfolding summary_of lines_of is_entry split trim_space trim_left is_space has_prefix
read_in_order = refl

to_context-last_example :
    get_authorized_key (to_context parse_key file) (codes "a") (codes "l") ≡ codes "y"
to_context-last_example = to_context-last parse_key file (codes "a") bobs_key read_in_order

abbrev context : SshKeyManagingContext
context = record { managed = (codes "a", (codes "k", codes "x") ∷ []) ∷ []; not_managed = [] }
