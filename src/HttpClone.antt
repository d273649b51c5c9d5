-- ===== src/HttpClone.antt =====
-- routes/controller/http-clone.go: the four routes by which a repository is cloned over HTTP. A
-- handler takes the limiter of clones and gives it back with its reply.
pub mod Public
pub mod Limit
pub mod Files
mod Tests
use gitus.Prelude.{
  ℕ, Bool, Bytes, Option, codes, not, [], beq, false, if◌then◌else◌, true, ◌&&◌, ◌==◌, ◌∷◌, some,
  none, ◌||◌, ◌++◌,
}
use gitus.Config.{
  Config, Time, effective_global_visibility_at, is_in_browse_only_mode, global_visibility_public,
}
use gitus.Model.{
  Repository, Namespace, namespace_normal_public, repo_type_git, repo_normal_public, repo_archived,
}
use gitus.Model.Names.{valid_repository_name}
use gitus.CloneLimiter.{CloneLimiter, try_acquire, release}
use gitus.FilePaths.{path_join, path_clean, path_rel, escapes}

-- A reply: content of the repository, an error with its status code, or nothing at all.
pub data Reply : Type 0 where
  served : Bytes → Reply
  error : ℕ → Reply
  -- the client has gone
  silent : Reply

-- A handler that goes on, or has replied.
pub data Handled {ℓ} (A : Type ℓ) : Type ℓ where
  proceed : A → Handled A
  reply : Reply → Handled A

infixl 5 ◌>>=◌ ◌>>◌
abbrev pub ◌>>=◌ {ℓ κ} : {A : Type ℓ} {B : Type κ} → Handled A → (A → Handled B) → Handled B
proceed a >>= f = f a
reply r >>= f = reply r

abbrev pub ◌>>◌ {ℓ} : {B : Type ℓ} → Handled (Unit {0}) → Handled B → Handled B
m >> k = m >>= λ _. k

abbrev pub stop_if : Bool → ℕ → Handled (Unit {0})
stop_if true code = reply (error code)
stop_if false code = proceed tt

-- ResolveRepositoryFullName: ErrNotFound, another error, or the namespace, the repository and its
-- git directory.
pub record Found : Type 0 where
  pub namespace : Namespace
  pub repository : Repository
  pub git_directory : Bytes

pub data Resolved : Type 0 where
  not_found failed : Resolved
  found : Found → Resolved

pub data FileRead : Type 0 where
  not_exist unreadable : FileRead
  content : Bytes → FileRead

pub data BodyRead : Type 0 where
  too_large broken : BodyRead
  body : Bytes → BodyRead

-- What a request is answered from. `run_git` is the process that serves a pack, by its directory,
-- its option and its input: `none` is a failure.
pub record Env : Type 0 where
  pub config : Config
  pub now : Time
  pub resolve : Bytes → Resolved
  pub run_git : Bytes → Bytes → Bytes → Option Bytes
  pub read_file : Bytes → FileRead
  pub update_server_info : Bytes → Bool

pub record Request : Type 0 where
  pub repo_name : Bytes
  -- the wildcard at the end of the route
  pub path : Bytes
  pub service : Option Bytes
  pub body : BodyRead
  -- r.Context().Err() != nil
  pub cancelled : Bool

abbrev pub resolved_or : ℕ → ℕ → Resolved → Handled Found
resolved_or missing other not_found = reply (error missing)
resolved_or missing other failed = reply (error other)
resolved_or missing other (found f) = proceed f

-- `!isNamespacePublic || !(isRepoPublic || isRepoArchived)`
abbrev pub is_hidden : Found → Bool
is_hidden f =
    not (f.namespace.status == namespace_normal_public)
    || not (f.repository.status == repo_normal_public || f.repository.status == repo_archived)

-- The checks that the routes for info/refs and for objects share, with the code for a site that is
-- not public.
abbrev is_site_public : Env → Bool
is_site_public e = beq (effective_global_visibility_at e.config e.now) global_visibility_public

unfoldable pub find_repository : Env → Request → ℕ → Handled Found
unfolding is_in_browse_only_mode
find_repository e r not_git = do
  stop_if (not (is_site_public e)) 403
  stop_if (not (valid_repository_name r.repo_name)) 404
  f ← resolved_or 404 500 (e.resolve r.repo_name)
  stop_if (not (f.repository.repo_type == repo_type_git)) not_git
  stop_if (not (is_in_browse_only_mode e.config) && is_hidden f) 404
  proceed f

abbrev pub Limiter : Type 0
Limiter = Option CloneLimiter

-- `release, ok := ctx.AcquireCloneSlot()` with the deferred release behind the rest of the handler.
unfoldable pub with_slot : Limiter → Reply → Reply × Limiter
unfolding try_acquire release
with_slot l served_reply = elim (try_acquire l) [
  | none ↦ (error 503, l)
  | some held ↦ (served_reply, release held)
]

-- The end of a handler that has replied, and the reply of one that has not.
abbrev pub finish : Limiter → Handled (Reply × Limiter) → Reply × Limiter
finish l (proceed r) = r
finish l (reply r) = (r, l)

abbrev pub advertised : Request → Option Bytes → Reply
advertised r none = if r.cancelled then silent else error 500
advertised r (some out) = served (codes "001e# service=git-upload-pack\n0000" ++ out)

abbrev pub serve_info_git : Env → Request → Found → Reply
serve_info_git e r f =
    advertised r (e.run_git f.git_directory (codes "--http-backend-info-refs") [])

abbrev pub is_some_text : Option Bytes → Bool
is_some_text none = false
is_some_text (some s) = true

abbrev pub is_upload_pack : Option Bytes → Bool
is_upload_pack none = false
is_upload_pack (some s) = beq s (codes "git-upload-pack")

abbrev pub file_or : ℕ → ℕ → FileRead → Reply
file_or missing other not_exist = error missing
file_or missing other unreadable = error other
file_or missing other (content s) = served s

-- `p := path.Clean(path.Join(dir, name, rest))`, which must not lead out of `dir`.
unfoldable pub file_under : Env → Bytes → Bytes → Bytes → ℕ → ℕ → ℕ → Reply
unfolding path_join path_rel
file_under e dir name rest outside missing other =
    let p = path_clean (path_join (dir ∷ name ∷ rest ∷ [])) in
    if escapes (path_rel dir p) then error outside else file_or missing other (e.read_file p)

-- What is replied once the repository is found.
abbrev pub info_of : Env → Request → Limiter → Found → Handled (Reply × Limiter)
info_of e r l f =
    if is_some_text r.service && e.config.allow_v2
    then (if is_upload_pack r.service
        then proceed (with_slot l (serve_info_git e r f))
        else reply (error 403))
    else (do
      stop_if (not e.config.allow_v1_dumb) 403
      stop_if (not (e.update_server_info f.git_directory)) 500
      reply (file_under e f.git_directory (codes "info") r.path 500 500 500))

unfoldable pub get_info : Env → Request → Limiter → Reply × Limiter
unfolding find_repository with_slot file_under
get_info e r l = finish l (do
  stop_if (not e.config.allow_v1_dumb && not e.config.allow_v2) 403
  f ← find_repository e r 400
  info_of e r l f)

-- The status is written before the process is run, so a failure of it cannot change the reply; the
-- client sees what the process has written, here nothing.
abbrev pub pack_reply : Option Bytes → Reply
pack_reply none = served []
pack_reply (some out) = served out

abbrev pub serve_pack : Env → Found → BodyRead → Reply
serve_pack e f too_large = error 413
serve_pack e f broken = error 400
serve_pack e f (body b) = pack_reply (e.run_git f.git_directory (codes "--stateless-rpc") b)

abbrev pub pack_of : Env → Request → Limiter → Found → Handled (Reply × Limiter)
pack_of e r l f = proceed (with_slot l (serve_pack e f r.body))

unfoldable pub post_upload_pack : Env → Request → Limiter → Reply × Limiter
unfolding find_repository with_slot
post_upload_pack e r l =
    finish l (do stop_if (not e.config.allow_v2) 403; f ← find_repository e r 403; pack_of e r l f)

-- The route for HEAD has no exception for browse-only mode.
unfoldable pub get_head : Env → Request → Limiter → Reply × Limiter
unfolding path_join
get_head e r l = finish l (do
  stop_if (not (is_site_public e)) 403
  stop_if (not (valid_repository_name r.repo_name)) 404
  f ← resolved_or 404 500 (e.resolve r.repo_name)
  stop_if (not (f.repository.repo_type == repo_type_git)) 400
  stop_if (is_hidden f) 404
  reply (file_or 500 500 (e.read_file (path_join (f.git_directory ∷ codes "HEAD" ∷ [])))))

unfoldable pub get_object : Env → Request → Limiter → Reply × Limiter
unfolding find_repository file_under
get_object e r l = finish l (do
  f ← find_repository e r 400
  reply (file_under e f.git_directory (codes "objects") r.path 400 404 500))

pub data Route : Type 0 where
  info upload_pack head object : Route

unfoldable pub handle : Route → Env → Request → Limiter → Reply × Limiter
unfolding get_info post_upload_pack get_head get_object
handle info = get_info
handle upload_pack = post_upload_pack
handle head = get_head
handle object = get_object
