-- ===== src/Middleware/Tests.antt =====
-- The checks for one administrator, ann, whose session is s1.
use gitus.Prelude.{Bytes, beq, codes, none, false, some, ◌≡◌, refl, true, ◌↔◌, []}
use gitus.Middleware.{
  Env, value, got, Context, Handler, LoginInfo, Session, User, effective_global_visibility_at,
  generate_login_info_model, global_visibility, is_in_forge_mode, login_of, page, admin,
  use_middleware,
}
use gitus.Middleware.Guards.{held, Guarded, admin_chain, admin_chain-Guarded}
use gitus.Model.{LoginInfo, admin}
use gitus.Config.{effective_global_visibility_at, is_in_forge_mode, global_visibility_private}
use gitus.Config.Samples.{forge_config}
use gitus.Middleware.Visibility.{is_mode, may_see, global_visibility-may_see}

abbrev ann : Bytes
ann = codes "ann"

abbrev session : Session
session = record { id = codes "s1"; csrf_token = codes "tok" }

abbrev user : User
user = record { title = codes "Ann"; email = codes "ann@example.org"; status = admin }

abbrev env : Bytes → Env
env mode = record {
  config = record forge_config { global_visibility = mode };
  now = 0;
  username_cookie = value ann;
  session_cookie = value (codes "s1");
  retrieve_session = λ u k. got (some session);
  get_user_login_info = λ u. got user;
  verify_session_exist = λ u k. got true;
  verify_session_full = λ u k t. got (beq t (codes "tok"));
  parse_form = true;
  csrf_token = codes "tok";
  is_json = false;
  repository_name = [];
  allows_ip = true;
}

abbrev ann_login : LoginInfo
ann_login = login_of ann session user

abbrev empty_context : Context
empty_context = record { login_info = none; last_error = false }

show : Handler
show e c = page c

generates : generate_login_info_model (env global_visibility_private) ≡ got (some ann_login)
unfolding generate_login_info_model beq
generates = refl

forge_private : is_in_forge_mode (env global_visibility_private).config ≡ true
unfolding is_in_forge_mode beq
forge_private = refl

admin_chain-Guarded_example :
    Guarded show
      (env global_visibility_private)
      (use_middleware admin_chain show (env global_visibility_private) empty_context)
admin_chain-Guarded_example =
    admin_chain-Guarded show (env global_visibility_private) empty_context forge_private

private_is_mode :
    is_mode (effective_global_visibility_at (env global_visibility_private).config 0) ≡ true
unfolding effective_global_visibility_at beq
private_is_mode = refl

global_visibility-may_see_example :
    (global_visibility (λ e c. page c) (env global_visibility_private) (held ann_login)
      ≡ page (held ann_login))
    ↔ (may_see
          (env global_visibility_private).config
          ann_login
          (effective_global_visibility_at (env global_visibility_private).config 0)
        ≡ true)
global_visibility-may_see_example =
    global_visibility-may_see (env global_visibility_private) (held ann_login) ann_login
      forge_private refl private_is_mode

misspelt_forge : is_in_forge_mode (env (codes "closed")).config ≡ true
unfolding is_in_forge_mode beq
misspelt_forge = refl

misspelt_is_no_mode :
    is_mode (effective_global_visibility_at (env (codes "closed")).config 0) ≡ false
unfolding effective_global_visibility_at beq
misspelt_is_no_mode = refl
