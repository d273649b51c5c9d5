-- ===== src/HttpClone/Limit.antt =====
-- The slots of the limiter across a request.
use gitus.Prelude.{if◌then◌else◌, ℕ, ◌≡◌, arith, Bool, refl, true, false, not, ◌&&◌, ◌==◌}
use gitus.CloneLimiter.{try_acquire, release}
use gitus.HttpClone.{
  ◌>>=◌, Handled, reply, proceed, finish, info, upload_pack, head, object, handle, get_info,
  post_upload_pack, with_slot, get_head, find_repository, get_object, Env, Limiter, Route, Reply,
  Request, serve_info_git, serve_pack, Found, stop_if, info_of, is_site_public, ◌>>◌, is_some_text,
  pack_of, valid_repository_name, is_upload_pack, resolved_or, repo_type_git, is_hidden,
}
use gitus.Model.Names.{valid_repository_name}
use gitus.Model.{repo_type_git}

with_slot-limiter : (l : Limiter) (r : Reply) → (with_slot l r).1 ≡ l
unfolding with_slot try_acquire release
with_slot-limiter l r = ground arith

found-limiter :
    (l : Limiter) (m : Handled Found) (k : Found → Handled (Reply × Limiter))
    → ((f : Found) → (finish l (k f)).1 ≡ l)
    → (finish l (m >>= k)).1 ≡ l
found-limiter l (proceed f) k h = h f
found-limiter l (reply r) k h = refl

checked-limiter :
    (l : Limiter) (b : Bool) (code : ℕ) (m : Handled (Reply × Limiter))
    → (finish l m).1 ≡ l
    → (finish l (stop_if b code >> m)).1 ≡ l
checked-limiter l true code m h = refl
checked-limiter l false code m h = h

choice-limiter :
    (l : Limiter) (b : Bool) (m k : Handled (Reply × Limiter))
    → (finish l m).1 ≡ l
    → (finish l k).1 ≡ l
    → (finish l (if b then m else k)).1 ≡ l
choice-limiter l true m k p q = p
choice-limiter l false m k p q = q

info_of-limiter :
    (e : Env) (r : Request) (l : Limiter) (f : Found) → (finish l (info_of e r l f)).1 ≡ l
info_of-limiter e r l f =
    choice-limiter l (is_some_text r.service && e.config.allow_v2) _ _
      (choice-limiter l (is_upload_pack r.service) _ _ (with_slot-limiter l (serve_info_git e r f))
        refl)
      (checked-limiter l (not e.config.allow_v1_dumb) 403 _
        (checked-limiter l (not (e.update_server_info f.git_directory)) 500 _ refl))

get_head-limiter : (e : Env) (r : Request) (l : Limiter) → (get_head e r l).1 ≡ l
unfolding get_head
get_head-limiter e r l = checked-limiter l (not (is_site_public e)) 403 _ (
    checked-limiter l (not (valid_repository_name r.repo_name)) 404 _ (
      found-limiter l (resolved_or 404 500 (e.resolve r.repo_name)) _ λ f.
        checked-limiter l (not (f.repository.repo_type == repo_type_git)) 400 _
          (checked-limiter l (is_hidden f) 404 _ refl)))

-- Whatever a route replies, the limiter is left as it was before: every slot that a request has
-- taken is given back.
pub handle-limiter :
    (route : Route) (e : Env) (r : Request) (l : Limiter) → (handle route e r l).1 ≡ l
unfolding handle get_info post_upload_pack get_object
handle-limiter info e r l =
    checked-limiter l (not e.config.allow_v1_dumb && not e.config.allow_v2) 403 _
      (found-limiter l (find_repository e r 400) (info_of e r l) (info_of-limiter e r l))
handle-limiter upload_pack e r l = checked-limiter l (not e.config.allow_v2) 403 _ (
    found-limiter l (find_repository e r 403) (pack_of e r l)
      λ f. with_slot-limiter l (serve_pack e f r.body))
handle-limiter head e r l = get_head-limiter e r l
handle-limiter object e r l = found-limiter l (find_repository e r 400) _ λ f. refl
