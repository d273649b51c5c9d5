-- ===== src/Login/Password.antt =====
-- The first form: who is logged in with a password alone.
use gitus.Prelude.{
  none, some, Bytes, Bool, Option, lookup, ◌≡◌, if◌then◌else◌, arith, beq, false, true, ◌≢◌, refl,
}
use gitus.Login.{
  Env, matches, mismatch, broken, post_login, State, User, Comparison, TCache, is_turned_away,
  logged_in, login_of_user, maintenance, refused, second_step, effective_global_visibility_at,
  password_checked, challenged,
}
use gitus.Tcache.{TCache}
use gitus.Config.{effective_global_visibility_at, global_visibility_maintenance}

-- A user of the database who may log in, whose password matches, and who has no second factor.
pub record ByPassword (e : Env) (un ph : Bytes) (st : State) : Type 0 where
  pub user : User
  pub found : lookup un st.users ≡ some user
  pub welcome : is_turned_away user.status ≡ false
  pub matched : e.compare_hash user.password_hash ph ≡ matches
  pub no_email : user.email_enabled ≡ false
  pub no_otp : user.otp_enabled ≡ false

challenged_never :
    (e : Env) (un : Bytes) (u : User) (st : State) (c : TCache) (code key : Option Bytes)
    (s : Bytes)
    → (challenged e un u st c code key).0 ≢ logged_in s
challenged_never e un u st c none key s h = cc
challenged_never e un u st c (some code) none s h = cc
challenged_never e un u st c (some code) (some key) s h = absurd (ground arith)

second_step-never :
    (e : Env) (un : Bytes) (u : User) (st : State) (c : Option TCache) (s : Bytes)
    → (second_step e un u st c).0 ≢ logged_in s
second_step-never e un u st none s h = cc
second_step-never e un u st (some c) s h = challenged_never e un u st c _ _ s h

matched_ByPassword :
    (e : Env) (un ph s : Bytes) (u : User) (st : State) (c : Comparison) (b m o : Bool)
    → lookup un st.users ≡ some u
    → is_turned_away u.status ≡ b
    → e.compare_hash u.password_hash ph ≡ c
    → u.email_enabled ≡ m
    → u.otp_enabled ≡ o
    → (if b then (refused, st) else password_checked e un u st c).0 ≡ logged_in s
    → ByPassword e un ph st
matched_ByPassword e un ph s u st c true m o f t q x y h = absurd (ground arith)
matched_ByPassword e un ph s u st mismatch false m o f t q x y h = absurd (ground arith)
matched_ByPassword e un ph s u st broken false m o f t q x y h = absurd (ground arith)
matched_ByPassword e un ph s u st matches false true o f t q x y h =
    absurd (second_step-never e un u st st.pending s (ground arith))
matched_ByPassword e un ph s u st matches false false true f t q x y h =
    absurd (second_step-never e un u st st.pending s (ground arith))
matched_ByPassword e un ph s u st matches false false false f t q x y h = record {
  user = u;
  found = f;
  welcome = t;
  matched = q;
  no_email = x;
  no_otp = y;
}

user_ByPassword :
    (e : Env) (un ph s : Bytes) (st : State) (o : Option User)
    → lookup un st.users ≡ o
    → (login_of_user e un ph st o).0 ≡ logged_in s
    → ByPassword e un ph st
user_ByPassword e un ph s st none f h = absurd (ground arith)
user_ByPassword e un ph s st (some u) f h =
    matched_ByPassword e un ph s u st _ _ _ _ f refl refl refl refl h

mode_ByPassword :
    (e : Env) (un ph s : Bytes) (st : State) (b : Bool)
    → (if b then (maintenance, st) else login_of_user e un ph st (lookup un st.users)).0
      ≡ logged_in s
    → ByPassword e un ph st
mode_ByPassword e un ph s st true h = absurd (ground arith)
mode_ByPassword e un ph s st false h = user_ByPassword e un ph s st _ refl h

-- The first form logs in only a user of the database who is neither banned nor waiting for approval
-- or confirmation, whose password matches, and whose account has no second factor.
pub post_login-ByPassword :
    (e : Env) (un ph s : Bytes) (st : State)
    → (post_login e un ph st).0 ≡ logged_in s
    → ByPassword e un ph st
unfolding post_login
post_login-ByPassword e un ph s st h =
    mode_ByPassword e un ph s st
      (beq (effective_global_visibility_at e.config e.now) global_visibility_maintenance) h
