-- ===== src/HttpClone/Files.antt =====
-- The files that the routes of the dumb protocol read.
use gitus.Prelude.{
  if◌then◌else◌, ℕ, Bytes, Bool, ◌≡◌, none, arith, codes, refl, ◌∷◌, [], true, false, not, ◌&&◌,
}
use gitus.HttpClone.{
  Found, Resolved, found, not_found, failed, ◌>>=◌, Env, FileRead, file_under, get_info, get_object,
  Request, find_repository, Limiter, file_or, content, escapes, served, error, Handled, info_of,
  Reply, finish, stop_if, ◌>>◌,
}
use gitus.FilePaths.{escapes, path_clean, path_rel, components, base_components, path_join}
use gitus.FilePaths.Under.{Under, path_rel-Under}

-- A file that lies in the git directory of the repository that the request names was read.
pub record IsFileOf (e : Env) (r : Request) (s : Bytes) : Type 0 where
  pub target : Found
  pub resolves : e.resolve r.repo_name ≡ found target
  pub file : Bytes
  pub reads : e.read_file file ≡ content s
  pub lies_under : Under (base_components target.git_directory) (components file)

file_or-served :
    (missing other : ℕ) (x : FileRead) (s : Bytes)
    → file_or missing other x ≡ served s
    → x ≡ content s
file_or-served missing other x s h = ground arith

checked_file :
    (e : Env) (r : Request) (f : Found) (p : Bytes) (outside missing other : ℕ) (s : Bytes)
    (b : Bool)
    → e.resolve r.repo_name ≡ found f
    → escapes (path_rel f.git_directory p) ≡ b
    → (if b then error outside else file_or missing other (e.read_file p)) ≡ served s
    → IsFileOf e r s
checked_file e r f p outside missing other s true q b h = absurd (ground arith)
checked_file e r f p outside missing other s false q b h = record {
  target = f;
  resolves = q;
  file = p;
  reads = file_or-served missing other (e.read_file p) s h;
  lies_under = path_rel-Under f.git_directory p b;
}

file_under-IsFileOf :
    (e : Env) (r : Request) (f : Found) (name rest : Bytes) (outside missing other : ℕ) (s : Bytes)
    → e.resolve r.repo_name ≡ found f
    → file_under e f.git_directory name rest outside missing other ≡ served s
    → IsFileOf e r s
unfolding file_under
file_under-IsFileOf e r f name rest outside missing other s q h =
    checked_file e r f (path_clean (path_join (f.git_directory ∷ name ∷ rest ∷ []))) outside missing
      other s _ q refl h

-- A handler that serves content behind a check has passed it.
passed :
    (l : Limiter) (b : Bool) (code : ℕ) (m : Handled (Reply × Limiter)) (s : Bytes)
    → (finish l (stop_if b code >> m)).0 ≡ served s
    → (finish l m).0 ≡ served s
passed l true code m s h = absurd (ground arith)
passed l false code m s h = h

-- A handler that serves content has found the repository, and gone on from it.
found_before :
    (e : Env) (r : Request) (l : Limiter) (code : ℕ) (k : Found → Handled (Reply × Limiter))
    (s : Bytes) (res : Resolved)
    → e.resolve r.repo_name ≡ res
    → (finish l (find_repository e r code >>= k)).0 ≡ served s
    → (f : Found) × ((e.resolve r.repo_name ≡ found f) × ((finish l (k f)).0 ≡ served s))
unfolding find_repository
found_before e r l code k s (found f) q h = (f, (q, ground arith))
found_before e r l code k s not_found q h = absurd (ground arith)
found_before e r l code k s failed q h = absurd (ground arith)

-- Whatever path a client asks for, the route for objects gives out the content of a file under the
-- git directory of the repository that it names, and of nothing outside of it.
pub get_object-IsFileOf :
    (e : Env) (r : Request) (l : Limiter) (s : Bytes)
    → (get_object e r l).0 ≡ served s
    → IsFileOf e r s
unfolding get_object
get_object-IsFileOf e r l s h =
    let (f, (q, g)) = found_before e r l 400 _ s (e.resolve r.repo_name) refl h in
    file_under-IsFileOf e r f (codes "objects") r.path 400 404 500 s q g

info_of-IsFileOf :
    (e : Env) (r : Request) (l : Limiter) (f : Found) (s : Bytes) (v1 info : Bool)
    → e.resolve r.repo_name ≡ found f
    → r.service ≡ none
    → not e.config.allow_v1_dumb ≡ v1
    → not (e.update_server_info f.git_directory) ≡ info
    → (finish l (info_of e r l f)).0 ≡ served s
    → IsFileOf e r s
info_of-IsFileOf e r l f s true b q n p1 p2 h = absurd (ground arith)
info_of-IsFileOf e r l f s false true q n p1 p2 h = absurd (ground arith)
info_of-IsFileOf e r l f s false false q n p1 p2 h =
    file_under-IsFileOf e r f (codes "info") r.path 500 500 500 s q (ground arith)

-- When no service is asked for, the route for info/refs gives out the content of a file under the
-- git directory of the repository that the request names, whatever its path, and of nothing else.
pub get_info-IsFileOf :
    (e : Env) (r : Request) (l : Limiter) (s : Bytes)
    → r.service ≡ none
    → (get_info e r l).0 ≡ served s
    → IsFileOf e r s
unfolding get_info
get_info-IsFileOf e r l s n h =
    let (f, (q, g)) =
      found_before e r l 400 (info_of e r l) s (e.resolve r.repo_name) refl
        (passed l (not e.config.allow_v1_dumb && not e.config.allow_v2) 403 _ s h) in
    info_of-IsFileOf e r l f s _ _ q n refl refl g
