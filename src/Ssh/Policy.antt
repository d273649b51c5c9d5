-- ===== src/Ssh/Policy.antt =====
-- The four checks of HandleSSHLogin against the table in its comment.
use gitus.Prelude.{ℕ, Bool, ◌||◌, ◌≡◌, ◌≢◌, arith, true, false}
use gitus.Model.{repo_normal_public, repo_internal, repo_limited, repo_normal_private}
use gitus.Ssh.{Access, check_access, pass}

-- The kinds of repository that the table names.
pub data Kind : Type 0 where
  public internal limited private : Kind

abbrev pub status_of : Kind → ℕ
status_of Kind.public = repo_normal_public
status_of Kind.internal = repo_internal
status_of Kind.limited = repo_limited
status_of Kind.private = repo_normal_private

-- The rows of the table, with `true` for a push. "user" is any user, and the key has been found.
abbrev pub permitted : Bool → Kind → Access → Bool
permitted true Kind.public a = a.is_ns_push || a.is_repo_push
permitted true Kind.internal a = a.is_ns_push || a.is_repo_push
permitted true Kind.limited a = a.is_ns_push || a.is_repo_push
permitted true Kind.private a = a.is_repo_push
permitted false Kind.public a = true
permitted false Kind.internal a = true
permitted false Kind.limited a = a.is_ns_any || a.is_repo_any
permitted false Kind.private a = a.is_repo_any

-- A status that is none of the four is not checked at all: the access passes, a push too. For
-- REPO_ARCHIVED an earlier check stops the pushes.
pub check_access-unknown :
    (pushing : Bool) (status : ℕ) (a : Access)
    → status ≢ repo_normal_public
    → status ≢ repo_internal
    → status ≢ repo_limited
    → status ≢ repo_normal_private
    → check_access pushing status a ≡ pass tt
unfolding check_access
check_access-unknown pushing status a p i l r = ground arith
