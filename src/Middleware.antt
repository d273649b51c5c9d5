-- ===== src/Middleware.antt =====
-- routes/middleware.go and the session part of routes/aux.go: the checks that stand before a
-- handler. A middleware turns a handler into a handler; a handler reads the request and the state
-- of the context, and replies.
pub mod Login
pub mod Guards
pub mod Visibility
mod Tests
use gitus.Prelude.{
  [], mem, ℕ, Bool, Bytes, List, Option, false, if◌then◌else◌, true, beq, codes, none, not, some,
  ◌==◌, ◌∷◌, is_empty, ◌&&◌, ◌||◌,
}
use gitus.Config.{
  Config, Time, is_in_browse_only_mode, is_in_forge_mode, effective_global_visibility_at,
  global_visibility_maintenance, global_visibility_public, global_visibility_private,
  global_visibility_shutdown,
}
use gitus.Model.{LoginInfo, admin, no_login, super_admin}
use gitus.Model.Names.{valid_repository_name}

-- A call that can fail: `failed` is an error of the session store or the database.
pub data Attempt {ℓ} (A : Type ℓ) : Type ℓ where
  failed : Attempt A
  got : A → Attempt A

-- r.Cookie: there, absent, or another error.
pub data Cookie : Type 0 where
  absent unreadable : Cookie
  value : Bytes → Cookie

-- The parts of session.GitusSession and of model.GitusUser that the checks read.
pub record Session : Type 0 where
  pub id : Bytes
  pub csrf_token : Bytes

pub record User : Type 0 where
  pub title : Bytes
  pub email : Bytes
  pub status : ℕ

-- What a request is checked against. `none` of retrieve_session is a nil session.
pub record Env : Type 0 where
  pub config : Config
  pub now : Time
  pub username_cookie : Cookie
  pub session_cookie : Cookie
  pub retrieve_session : Bytes → Bytes → Attempt (Option Session)
  pub get_user_login_info : Bytes → Attempt User
  pub verify_session_exist : Bytes → Bytes → Attempt Bool
  pub verify_session_full : Bytes → Bytes → Bytes → Attempt Bool
  pub parse_form : Bool
  pub csrf_token : Bytes
  pub is_json : Bool
  pub repository_name : Bytes
  pub allows_ip : Bool

-- The context of one request, `ctx.NewLocal()`.
pub record Context : Type 0 where
  pub login_info : Option LoginInfo
  pub last_error : Bool

-- What is sent: the page of the handler, with the context that it was called with, or a refusal.
pub data Answer : Type 0 where
  page : Context → Answer
  redirect : Bytes → Answer
  not_found invalid_request internal_error too_many_requests : Answer
  -- a nil dereference
  crash : Answer

abbrev pub Handler : Type 0
Handler = Env → Context → Answer

abbrev pub Middleware : Type 0
Middleware = Handler → Handler

abbrev check_cookies : Env → Cookie → Cookie → Attempt Bool
check_cookies e absent s = got false
check_cookies e unreadable s = failed
check_cookies e (value u) absent = got false
check_cookies e (value u) unreadable = failed
check_cookies e (value u) (value s) = e.verify_session_exist u s

unfoldable pub check_user_session : Env → Attempt Bool
check_user_session e = check_cookies e e.username_cookie e.session_cookie

abbrev pub login_of : Bytes → Session → User → LoginInfo
login_of u s user = record {
  logged_in = true;
  user_name = u;
  user_full_name = user.title;
  user_email = user.email;
  user_session_id = s.id;
  user_csrf_token = s.csrf_token;
  is_owner = false;
  is_strict_owner = false;
  is_setting_member = false;
  is_admin = user.status == admin || user.status == super_admin;
  is_super_admin = user.status == super_admin;
}

abbrev pub login_of_user : Bytes → Session → Attempt User → Attempt (Option LoginInfo)
login_of_user u s failed = failed
login_of_user u s (got user) = got (some (login_of u s user))

abbrev pub login_of_session : Env → Bytes → Attempt (Option Session) → Attempt (Option LoginInfo)
login_of_session e u failed = failed
login_of_session e u (got none) = got (some no_login)
login_of_session e u (got (some s)) = login_of_user u s (e.get_user_login_info u)

abbrev pub login_of_cookies : Env → Cookie → Cookie → Attempt (Option LoginInfo)
login_of_cookies e unreadable s = failed
login_of_cookies e absent s = got (some no_login)
login_of_cookies e (value u) unreadable = failed
login_of_cookies e (value u) absent = got (some no_login)
login_of_cookies e (value u) (value s) = login_of_session e u (e.retrieve_session u s)

unfoldable pub generate_login_info_model : Env → Attempt (Option LoginInfo)
unfolding is_in_browse_only_mode
generate_login_info_model e =
    if is_in_browse_only_mode e.config
    then got none
    else login_of_cookies e e.username_cookie e.session_cookie

-- `ctx.LoginInfo, ctx.LastError = GenerateLoginInfoModel(ctx, r)`
abbrev pub context_of : Attempt (Option LoginInfo) → Context
context_of failed = record { login_info = none; last_error = true }
context_of (got l) = record { login_info = l; last_error = false }

-- Writing a line of the log changes nothing that is modelled.
abbrev pub logged : Middleware
logged f = f

unfoldable pub valid_post_request_required : Middleware
valid_post_request_required f e c = if not e.parse_form then invalid_request else f e c

unfoldable pub json_request_required : Middleware
json_request_required f e c = if not e.is_json then invalid_request else f e c

unfoldable pub use_login_info : Middleware
unfolding is_in_forge_mode generate_login_info_model
use_login_info f e c =
    if is_in_forge_mode e.config then f e (context_of (generate_login_info_model e)) else f e c

abbrev pub login_required_with : Handler → Env → Attempt (Option LoginInfo) → Answer
login_required_with f e failed = redirect (codes "/login")
login_required_with f e (got none) = crash
login_required_with f e (got (some l)) =
    if not l.logged_in
    then redirect (codes "/login")
    else f e (record { login_info = some l; last_error = false })

unfoldable pub login_required : Middleware
unfolding is_in_forge_mode generate_login_info_model
login_required f e c =
    if is_in_forge_mode e.config
    then login_required_with f e (generate_login_info_model e)
    else f e c

abbrev pub admin_checked : Handler → Env → Context → Option LoginInfo → Answer
admin_checked f e c none = crash
admin_checked f e c (some l) = if not l.is_admin then redirect (codes "/") else f e c

abbrev pub admin_generated : Handler → Env → Attempt (Option LoginInfo) → Answer
admin_generated f e failed = redirect (codes "/login")
admin_generated f e (got l) = admin_checked f e (record { login_info = l; last_error = false }) l

abbrev pub admin_required_with : Handler → Env → Context → Option LoginInfo → Answer
admin_required_with f e c none = admin_generated f e (generate_login_info_model e)
admin_required_with f e c (some l) = admin_checked f e c (some l)

unfoldable pub admin_required : Middleware
unfolding is_in_forge_mode
admin_required f e c =
    if is_in_forge_mode e.config then admin_required_with f e c c.login_info else not_found

unfoldable pub error_guard : Middleware
error_guard f e c = if c.last_error then internal_error else f e c

abbrev pub csrf_verified : Handler → Env → Context → Attempt Bool → Answer
csrf_verified f e c failed = internal_error
csrf_verified f e c (got b) = if not b then redirect (codes "/") else f e c

abbrev pub csrf_check_with : Handler → Env → Context → Option LoginInfo → Answer
csrf_check_with f e c none = redirect (codes "/login")
csrf_check_with f e c (some l) =
    if not e.parse_form
    then invalid_request
    else if is_empty e.csrf_token
    then redirect (codes "/")
    else csrf_verified f e c (e.verify_session_full l.user_name l.user_session_id e.csrf_token)

unfoldable pub csrf_check : Middleware
csrf_check f e c = csrf_check_with f e c c.login_info

unfoldable pub valid_repository_name_required : Middleware
unfolding valid_repository_name
valid_repository_name_required f e c =
    if not (valid_repository_name e.repository_name) then not_found else f e c

abbrev of_visitor : (LoginInfo → Bool) → Option LoginInfo → Option Bool
of_visitor p none = none
of_visitor p (some l) = some (p l)

-- `none` is a nil dereference: outside forge mode the login info may be nil.
abbrev pub visible_at : Config → Option LoginInfo → Bytes → Option Bool
visible_at cfg l mode =
    if beq mode global_visibility_public
    then some true
    else if beq mode global_visibility_private
    then of_visitor (λ v. v.logged_in) l
    else if beq mode global_visibility_shutdown
    then of_visitor (λ v. mem v.user_name cfg.full_access_user) l
    else some false

abbrev is_none : Option LoginInfo → Bool
is_none none = true
is_none (some l) = false

unfoldable pub check_global_visible_to_user : Config → Time → Option LoginInfo → Option Bool
unfolding is_in_browse_only_mode is_in_forge_mode effective_global_visibility_at
check_global_visible_to_user cfg now l =
    if is_in_browse_only_mode cfg
    then some true
    else if is_in_forge_mode cfg && is_none l
    then some false
    else visible_at cfg l (effective_global_visibility_at cfg now)

-- What GlobalVisibility does for a visitor who may not see the site.
abbrev pub turned_away : Handler → Env → Context → Bytes → Answer
turned_away f e c mode =
    if beq mode global_visibility_maintenance
    then redirect (codes "/maintenance-notice")
    else if beq mode global_visibility_shutdown
    then redirect (codes "/shutdown-notice")
    else if beq mode global_visibility_private
    then redirect (codes "/login")
    else f e c

abbrev pub global_visibility_with : Handler → Env → Context → Option Bool → Answer
global_visibility_with f e c none = crash
global_visibility_with f e c (some true) = f e c
global_visibility_with f e c (some false) =
    turned_away f e c (effective_global_visibility_at e.config e.now)

unfoldable pub global_visibility : Middleware
unfolding check_global_visible_to_user
global_visibility f e c =
    global_visibility_with f e c (check_global_visible_to_user e.config e.now c.login_info)

unfoldable pub rate_limit : Middleware
rate_limit f e c = if e.allows_ip then f e c else too_many_requests

unfoldable pub forge_mode_required : Middleware
unfolding is_in_forge_mode
forge_mode_required f e c = if not (is_in_forge_mode e.config) then not_found else f e c

-- The first of the list is the outermost. Each request has a context of its own, `ctx.NewLocal()`.
unfoldable pub use_middleware : List Middleware → Handler → Handler
use_middleware [] f = f
use_middleware (m ∷ ms) f = m (use_middleware ms f)
