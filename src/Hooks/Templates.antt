-- ===== src/Hooks/Templates.antt =====
-- The texts of the two hooks that pkg/gitlib/hooks.go installs, line by line.
use gitus.Prelude.{Bytes, List, [], ◌∷◌, ◌++◌, codes}

-- Each line with its line feed.
abbrev pub lines : List Bytes → Bytes
lines [] = []
lines (l ∷ ls) = l ++ (10 ∷ lines ls)

abbrev pub update_head : List Bytes
update_head =
    codes "#"
    ∷ codes "# Reinstalled by gitus whenever the repository is created or"
    ∷ codes "# `gitus install-hooks` is run; do not edit."
    ∷ codes "#"
    ∷ codes "# git runs this for every ref that a push updates (see githooks(5)). It only"
    ∷ codes "# notifies: it sends the webhook configured for this repository and warms up"
    ∷ codes "# the \"last commit\" listing of the new commit. Neither may reject the push, so"
    ∷ codes "# everything is best effort and the exit code is always 0."
    ∷ []
    ∷ codes "if [ -z \"$GIT_DIR\" ]; then"
    ∷ codes "\tprintf 'This hook is meant to be run by git.\\n' >&2"
    ∷ codes "\texit 0"
    ∷ codes "fi"
    ∷ []
    ∷ codes "refname=\"$1\""
    ∷ codes "oldrev=\"$2\""
    ∷ codes "newrev=\"$3\""
    ∷ []
    ∷ codes "case \"$newrev\" in"
    ∷ codes "\t*[!0]*) newrev_type=$(git cat-file -t \"$newrev\" 2>/dev/null) ;;"
    ∷ codes "\t*) newrev_type=delete ;;"
    ∷ codes "esac"
    ∷ codes "if [ -z \"$newrev_type\" ]; then"
    ∷ codes "\tnewrev_type=commit"
    ∷ codes "fi"
    ∷ []
    ∷ []

abbrev pub update_tail : List Bytes
update_tail = [] ∷ codes "exit 0" ∷ []

abbrev pub pre_receive_head : List Bytes
pre_receive_head =
    codes "#"
    ∷ codes "# Reinstalled by gitus whenever the repository is created or"
    ∷ codes "# `gitus install-hooks` is run; do not edit."
    ∷ codes "#"
    ∷ codes "# git runs this once per push, before any ref is updated (see githooks(5))."
    ∷ codes "# A push that would take the repository over its storage limit is refused here,"
    ∷ codes "# while the incoming objects are still in the quarantine directory, so a"
    ∷ codes "# rejected push leaves nothing behind."
    ∷ codes "#"
    ∷ codes "# A push that only deletes refs adds no objects and is always allowed."
    ∷ []
    ∷ codes "if [ -z \"$GIT_DIR\" ]; then"
    ∷ codes "\tprintf 'This hook is meant to be run by git.\\n' >&2"
    ∷ codes "\texit 0"
    ∷ codes "fi"
    ∷ []
    ∷ codes "has_objects=0"
    ∷ codes "while read -r oldrev newrev refname; do"
    ∷ codes "\tcase \"$newrev\" in"
    ∷ codes "\t\t*[!0]*) has_objects=1 ;;"
    ∷ codes "\tesac"
    ∷ codes "done"
    ∷ []
    ∷ codes "if [ \"$has_objects\" = \"1\" ]; then"
    ∷ []

abbrev pub pre_receive_tail : List Bytes
pre_receive_tail = codes "\t\texit 1" ∷ codes "\tfi" ∷ codes "fi" ∷ [] ∷ codes "exit 0" ∷ []
