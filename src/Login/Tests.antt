-- ===== src/Login/Tests.antt =====
-- Logins of ann, who has a password alone, and of bob, who has both factors and uses a recovery
-- code. A text stands for its own hash.
use gitus.Prelude.{
  Option, codes, true, [], if◌then◌else◌, none, some, ◌∷◌, beq, false, lookup, ◌≡◌, insert, refl,
  cut, trim_space, is_space,
}
use gitus.Login.{
  Env, User, State, matches, mismatch, ConfirmRequest, Crypto, TCache, confirm, post_login,
  post_login_confirm, effective_global_visibility_at, register, trimmed, logged_in, get,
  verify_user_otp, verify_recovery_code, remove_recovery_code,
}
use gitus.Otp.{
  Crypto, verify_recovery_code, hash_recovery_code, normalize_recovery_code, remove_recovery_code,
}
use gitus.Config.Samples.{forge_config}
use gitus.Login.Password.{ByPassword, post_login-ByPassword}
use gitus.Tcache.{TCache, register, new_tcache, push, get}
use gitus.Login.Confirm.{Confirmed, post_login_confirm-Confirmed}
use gitus.Model.{normal_user}
use gitus.Config.{effective_global_visibility_at}

abbrev plain : Crypto
plain = record { hmac_sha1 = λ key m. []; base32_decode = λ s. some s; sha256_hex = λ s. s }

abbrev env : Env
env = record {
  config = forge_config;
  now = 100;
  crypto = plain;
  compare_hash = λ h s. if beq h s then matches else mismatch;
  generate_hash = λ s. some s;
  new_confirm_code = some (codes "01234A");
  new_session_string = some (codes "s1");
  registers_session = true;
  updates_user = true;
  mailer = some true;
}

abbrev ann_user : User
ann_user = record {
  password_hash = codes "pw";
  status = normal_user;
  email_enabled = false;
  otp_enabled = false;
  otp_is_totp = true;
  otp_secret = [];
  otp_period = 0;
  otp_digits = 0;
  otp_counter = 0;
  recovery_codes = codes "aa22" ∷ [];
}

abbrev bob_user : User
bob_user = record ann_user { email_enabled = true; otp_enabled = true }

abbrev state : Option TCache → State
state c = record { users = (codes "ann", ann_user) ∷ (codes "bob", bob_user) ∷ []; pending = c }

ann_in : (post_login env (codes "ann") (codes "pw") (state none)).0 ≡ logged_in (codes "s1")
unfolding post_login effective_global_visibility_at lookup beq
ann_in = refl

post_login-ByPassword_example : ByPassword env (codes "ann") (codes "pw") (state none)
post_login-ByPassword_example =
    post_login-ByPassword env (codes "ann") (codes "pw") (codes "s1") (state none) ann_in

-- The cache after the first form of bob.
begun : TCache
begun = register (codes "bob") (codes "01234A eo") (some 600) 90 new_tcache

bob_asked : post_login env (codes "bob") (codes "pw") (state (some new_tcache)) ≡ (
  confirm (codes "pw01234A"),
  state (some (register (codes "bob") (codes "01234A eo") (some 600) 100 new_tcache)),
)
unfolding post_login effective_global_visibility_at lookup beq register insert push
bob_asked = refl

abbrev answer : ConfirmRequest
answer = record {
  key = some (codes "pw01234A");
  username = codes " bob";
  confirmation_code = codes "01234a";
  otp_code = codes "AA-22";
}

bob_in : (post_login_confirm env answer (state (some begun))).0 ≡ logged_in (codes "s1")
unfolding post_login_confirm begun register new_tcache lookup insert push get cut trim_space
    is_space beq verify_user_otp verify_recovery_code hash_recovery_code normalize_recovery_code
    remove_recovery_code
bob_in = refl

post_login_confirm-Confirmed_example : Confirmed env (trimmed answer) (state (some begun))
post_login_confirm-Confirmed_example =
    post_login_confirm-Confirmed env answer (state (some begun)) (codes "s1") bob_in
