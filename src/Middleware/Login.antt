-- ===== src/Middleware/Login.antt =====
-- GenerateLoginInfoModel: what a visitor's login info rests on.
use gitus.Prelude.{
  Bytes, ◌≡◌, Option, true, false, some, arith, refl, none, ◌≢◌, beq, beq→eq, ap, ◌∙◌,
}
use gitus.Middleware.{
  failed, absent, unreadable, Env, LoginInfo, generate_login_info_model, Attempt, Cookie, Session,
  got, login_of_cookies, User, value, login_of, login_of_session, login_of_user, is_in_forge_mode,
}
use gitus.Model.{LoginInfo}
use gitus.Config.{is_in_forge_mode, is_in_browse_only_mode, op_mode_forge, op_mode_browse_only}

-- The cookies name a session that the store has, of a user that the database has, and `l` is what
-- these say.
pub record IsSession (e : Env) (l : LoginInfo) : Type 0 where
  pub username : Bytes
  pub key : Bytes
  pub session : Session
  pub user : User
  pub username_held : e.username_cookie ≡ value username
  pub key_held : e.session_cookie ≡ value key
  pub stored : e.retrieve_session username key ≡ got (some session)
  pub known : e.get_user_login_info username ≡ got user
  pub told : l ≡ login_of username session user

user-IsSession :
    (e : Env) (l : LoginInfo) (u k : Bytes) (s : Session) (a : Attempt User)
    → e.username_cookie ≡ value u
    → e.session_cookie ≡ value k
    → e.retrieve_session u k ≡ got (some s)
    → e.get_user_login_info u ≡ a
    → login_of_user u s a ≡ got (some l)
    → IsSession e l
user-IsSession e l u k s failed p q r t h = absurd (ground arith)
user-IsSession e l u k s (got user) p q r t h = record {
  username = u;
  key = k;
  session = s;
  user = user;
  username_held = p;
  key_held = q;
  stored = r;
  known = t;
  told = ground arith;
}

session-IsSession :
    (e : Env) (l : LoginInfo) (u k : Bytes) (a : Attempt (Option Session))
    → e.username_cookie ≡ value u
    → e.session_cookie ≡ value k
    → e.retrieve_session u k ≡ a
    → login_of_session e u a ≡ got (some l)
    → l.logged_in ≡ true
    → IsSession e l
session-IsSession e l u k failed p q r h t = absurd (ground arith)
session-IsSession e l u k (got none) p q r h t = absurd (ground arith)
session-IsSession e l u k (got (some s)) p q r h t = user-IsSession e l u k s _ p q r refl h

cookies-IsSession :
    (e : Env) (l : LoginInfo) (u k : Cookie)
    → e.username_cookie ≡ u
    → e.session_cookie ≡ k
    → login_of_cookies e u k ≡ got (some l)
    → l.logged_in ≡ true
    → IsSession e l
cookies-IsSession e l absent k p q h t = absurd (ground arith)
cookies-IsSession e l unreadable k p q h t = absurd (ground arith)
cookies-IsSession e l (value u) absent p q h t = absurd (ground arith)
cookies-IsSession e l (value u) unreadable p q h t = absurd (ground arith)
cookies-IsSession e l (value u) (value k) p q h t = session-IsSession e l u k _ p q refl h t

-- Whoever is told to be logged in holds the cookies of a session that the store has, and the login
-- info says of the visitor what the session and the database say: the name, the token, and the
-- rank.
pub generate_login_info_model-IsSession :
    (e : Env) (l : LoginInfo)
    → generate_login_info_model e ≡ got (some l)
    → l.logged_in ≡ true
    → IsSession e l
unfolding generate_login_info_model
generate_login_info_model-IsSession e l h t =
    cookies-IsSession e l e.username_cookie e.session_cookie refl refl (ground arith) t

forge_not_browse_only : beq op_mode_forge op_mode_browse_only ≡ false
unfolding beq
forge_not_browse_only = refl

pub forge_not_browse :
    (e : Env) → is_in_forge_mode e.config ≡ true → is_in_browse_only_mode e.config ≡ false
unfolding is_in_forge_mode is_in_browse_only_mode
forge_not_browse e m = ap (λ x. beq x op_mode_browse_only) (beq→eq _ _ m) ∙ forge_not_browse_only

never_nil_cookies : (e : Env) (u k : Cookie) → login_of_cookies e u k ≢ got none
never_nil_cookies e u k h = ground arith

pub never_nil :
    (e : Env) → is_in_browse_only_mode e.config ≡ false → generate_login_info_model e ≢ got none
unfolding generate_login_info_model
never_nil e m h = never_nil_cookies e e.username_cookie e.session_cookie (ground arith)
