-- ===== src/HttpClone/Public.antt =====
-- What the routes give away.
use gitus.Prelude.{ℕ, ◌≡◌, beq→eq, arith, true, ◌⊎◌, false, Bytes, inr, refl, not, ◌&&◌, Bool}
use gitus.HttpClone.{
  ◌>>=◌, info, upload_pack, head, object, get_info, Resolved, not_found, failed, Env, Request,
  Reply, Route, Limiter, Found, handle, served, is_hidden, effective_global_visibility_at,
  find_repository, proceed, found, Handled, get_info, post_upload_pack, finish, get_head,
  get_object, stop_if, ◌>>◌, info_of, pack_of,
}
use gitus.Config.{effective_global_visibility_at, global_visibility_public, is_in_browse_only_mode}

-- The site is public, and so are the namespace and the repository, which may be archived instead;
-- in browse-only mode the latter two are not looked at.
pub record IsOpen (e : Env) (r : Request) : Type 0 where
  pub site : effective_global_visibility_at e.config e.now ≡ global_visibility_public
  pub target : Found
  pub resolves : e.resolve r.repo_name ≡ found target
  pub visible : (is_in_browse_only_mode e.config ≡ true) ⊎ (is_hidden target ≡ false)

find_repository-IsOpen :
    (e : Env) (r : Request) (code : ℕ) (f : Found)
    → find_repository e r code ≡ proceed f
    → IsOpen e r
unfolding find_repository
find_repository-IsOpen e r code f h = record {
  site = beq→eq _ _ (ground arith);
  target = f;
  resolves = ground arith;
  visible = ground arith;
}

-- A repository was found, or the reply is an error.
resolved-IsOpen :
    (e : Env) (r : Request) (l : Limiter) (code : ℕ) (k : Found → Handled (Reply × Limiter))
    (s : Bytes) (res : Resolved)
    → e.resolve r.repo_name ≡ res
    → (finish l (find_repository e r code >>= k)).0 ≡ served s
    → IsOpen e r
unfolding find_repository
resolved-IsOpen e r l code k s (found f) q h = record {
  site = beq→eq _ _ (ground arith);
  target = f;
  resolves = q;
  visible = ground arith;
}
resolved-IsOpen e r l code k s not_found q h = absurd (ground arith)
resolved-IsOpen e r l code k s failed q h = absurd (ground arith)

after-IsOpen :
    (e : Env) (r : Request) (l : Limiter) (code : ℕ) (k : Found → Handled (Reply × Limiter))
    (s : Bytes)
    → (finish l (find_repository e r code >>= k)).0 ≡ served s
    → IsOpen e r
after-IsOpen e r l code k s = resolved-IsOpen e r l code k s (e.resolve r.repo_name) refl

get_head-IsOpen :
    (e : Env) (r : Request) (l : Limiter) (s : Bytes) (res : Resolved)
    → e.resolve r.repo_name ≡ res
    → (get_head e r l).0 ≡ served s
    → IsOpen e r
unfolding get_head
get_head-IsOpen e r l s (found f) q h = record {
  site = beq→eq _ _ (ground arith);
  target = f;
  resolves = q;
  visible = inr (ground arith);
}
get_head-IsOpen e r l s not_found q h = absurd (ground arith)
get_head-IsOpen e r l s failed q h = absurd (ground arith)

-- The same behind a check.
checked-IsOpen :
    (e : Env) (r : Request) (l : Limiter) (b : Bool) (code : ℕ)
    (k : Found → Handled (Reply × Limiter)) (s : Bytes)
    → (finish l (stop_if b 403 >> (find_repository e r code >>= k))).0 ≡ served s
    → IsOpen e r
checked-IsOpen e r l true code k s h = absurd (ground arith)
checked-IsOpen e r l false code k s h = after-IsOpen e r l code k s h

-- Whichever of the four routes gives out content of a repository, the site is public then, the
-- name resolves, and the namespace is public and the repository public or archived, or the site is
-- in browse-only mode.
pub handle-IsOpen :
    (route : Route) (e : Env) (r : Request) (l : Limiter) (s : Bytes)
    → (handle route e r l).0 ≡ served s
    → IsOpen e r
unfolding handle get_info post_upload_pack get_object
handle-IsOpen info e r l s h =
    checked-IsOpen e r l (not e.config.allow_v1_dumb && not e.config.allow_v2) 400 (info_of e r l) s
      h
handle-IsOpen upload_pack e r l s h =
    checked-IsOpen e r l (not e.config.allow_v2) 403 (pack_of e r l) s h
handle-IsOpen head e r l s h = get_head-IsOpen e r l s (e.resolve r.repo_name) refl h
handle-IsOpen object e r l s h = after-IsOpen e r l 400 _ s h
