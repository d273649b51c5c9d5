-- ===== src/Login/Confirm.antt =====
-- The second form: every factor that the pending login asks for has been given.
use gitus.Prelude.{
  none, some, Bytes, cut, Bool, Option, ◌≡◌, lookup, ◌++◌, true, beq, map, ◌≢◌, arith, false,
  trim_space, is_empty, if◌then◌else◌, refl,
}
use gitus.Login.{
  Env, matches, mismatch, broken, ConfirmRequest, State, User, rest_or_empty, TCache,
  contains_letter, factor_checked, get, verify_user_otp, otp_step, logged_in, to_upper, Comparison,
  email_step, key_checked, pending_checked, post_login_confirm, stored_checked, user_checked,
  trimmed, expired, Outcome, refused,
}
use gitus.Tcache.{TCache, get}
use gitus.Otp.{to_upper}

abbrev pub challenge_of : Bytes → Bytes
challenge_of stored = (cut b' ' stored).0

abbrev pub pending_factors : Bytes → Bytes
pending_factors stored = rest_or_empty (cut b' ' stored).1

-- `r` has its username trimmed.
pub record Confirmed (e : Env) (r : ConfirmRequest) (st : State) : Type 0 where
  pub key : Bytes
  pub user : User
  pub cache : TCache
  pub stored : Bytes
  pub has_key : r.key ≡ some key
  pub found : lookup r.username st.users ≡ some user
  pub manager : st.pending ≡ some cache
  pub pending : get r.username e.now cache ≡ some stored
  pub proven : e.compare_hash key (user.password_hash ++ challenge_of stored) ≡ matches
  pub mailed_code :
      contains_letter b'e' (pending_factors stored) ≡ true
      → beq (map to_upper (trim_space r.confirmation_code)) (challenge_of stored) ≡ true
  pub app_code :
      contains_letter b'o' (pending_factors stored) ≡ true
      → factor_checked e user r.otp_code (verify_user_otp e user r.otp_code) ≢ none

otp_step-given :
    (e : Env) (r : ConfirmRequest) (u : User) (st : State) (factors s : Bytes) (b : Bool)
    (f : Option User)
    → contains_letter b'o' factors ≡ b
    → factor_checked e u r.otp_code (verify_user_otp e u r.otp_code) ≡ f
    → (otp_step e r u st factors).0 ≡ logged_in s
    → contains_letter b'o' factors ≡ true
    → factor_checked e u r.otp_code (verify_user_otp e u r.otp_code) ≢ none
otp_step-given e r u st factors s false f q p h t = absurd (ground arith)
otp_step-given e r u st factors s true none q p h t = absurd (ground arith)
otp_step-given e r u st factors s true (some v) q p h t = ground arith

email_step-given :
    (e : Env) (r : ConfirmRequest) (u : User) (st : State) (challenge factors s : Bytes)
    (b c : Bool)
    → contains_letter b'e' factors ≡ b
    → beq (map to_upper (trim_space r.confirmation_code)) challenge ≡ c
    → (email_step e r u st challenge factors).0 ≡ logged_in s
    → (contains_letter b'e' factors ≡ true
        → beq (map to_upper (trim_space r.confirmation_code)) challenge ≡ true)
      × ((otp_step e r u st factors).0 ≡ logged_in s)
email_step-given e r u st challenge factors s true true q p h = (λ t. p, ground arith)
email_step-given e r u st challenge factors s true false q p h = absurd (ground arith)
email_step-given e r u st challenge factors s false c q p h =
    (λ t. absurd (ground arith), ground arith)

-- The store of pending logins has one, and the cookie proves that it was this browser's.
stored-Confirmed :
    (e : Env) (r : ConfirmRequest) (st : State) (key stored s : Bytes) (u : User) (c : TCache)
    (b : Bool) (m : Comparison)
    → r.key ≡ some key
    → lookup r.username st.users ≡ some u
    → st.pending ≡ some c
    → get r.username e.now c ≡ some stored
    → is_empty stored ≡ b
    → e.compare_hash key (u.password_hash ++ challenge_of stored) ≡ m
    → (if b then (expired, st) else elim m as (λ x. Outcome × State) [
      | matches ↦ email_step e r u st (challenge_of stored) (pending_factors stored)
      | _ ↦ (refused, st)
    ]).0
      ≡ logged_in s
    → Confirmed e r st
stored-Confirmed e r st key stored s u c true m k f p g i q h = absurd (ground arith)
stored-Confirmed e r st key stored s u c false mismatch k f p g i q h = absurd (ground arith)
stored-Confirmed e r st key stored s u c false broken k f p g i q h = absurd (ground arith)
stored-Confirmed e r st key stored s u c false matches k f p g i q h =
    let (mail, rest) =
      email_step-given e r u st (challenge_of stored) (pending_factors stored) s _ _ refl refl h in
    record {
      key = key;
      user = u;
      cache = c;
      stored = stored;
      has_key = k;
      found = f;
      manager = p;
      pending = g;
      proven = q;
      mailed_code = mail;
      app_code = otp_step-given e r u st (pending_factors stored) s _ _ refl refl rest;
    }

pending-Confirmed :
    (e : Env) (r : ConfirmRequest) (st : State) (key s : Bytes) (u : User) (c : TCache)
    (o : Option Bytes)
    → r.key ≡ some key
    → lookup r.username st.users ≡ some u
    → st.pending ≡ some c
    → get r.username e.now c ≡ o
    → (stored_checked e r key u st o).0 ≡ logged_in s
    → Confirmed e r st
pending-Confirmed e r st key s u c none k f p g h = absurd (ground arith)
pending-Confirmed e r st key s u c (some stored) k f p g h =
    stored-Confirmed e r st key stored s u c _ _ k f p g refl refl h

user-Confirmed :
    (e : Env) (r : ConfirmRequest) (st : State) (key s : Bytes) (u : User) (o : Option TCache)
    → r.key ≡ some key
    → lookup r.username st.users ≡ some u
    → st.pending ≡ o
    → (pending_checked e r key u st o).0 ≡ logged_in s
    → Confirmed e r st
user-Confirmed e r st key s u none k f p h = absurd (ground arith)
user-Confirmed e r st key s u (some c) k f p h = pending-Confirmed e r st key s u c _ k f p refl h

key-Confirmed :
    (e : Env) (r : ConfirmRequest) (st : State) (s key : Bytes) (u : Option User)
    → r.key ≡ some key
    → lookup r.username st.users ≡ u
    → (user_checked e r key st u).0 ≡ logged_in s
    → Confirmed e r st
key-Confirmed e r st s key none k f h = absurd (ground arith)
key-Confirmed e r st s key (some u) k f h = user-Confirmed e r st key s u st.pending k f refl h

request-Confirmed :
    (e : Env) (r : ConfirmRequest) (st : State) (s : Bytes) (k : Option Bytes)
    → r.key ≡ k
    → (key_checked e r st k).0 ≡ logged_in s
    → Confirmed e r st
request-Confirmed e r st s none k h = absurd (ground arith)
request-Confirmed e r st s (some key) k h = key-Confirmed e r st s key _ k refl h

-- The second form logs in only with a login pending for the user, the cookie that was made of its
-- challenge, and each factor that it was started with: the code of the mail, and a code of the app
-- or an unused recovery code.
pub post_login_confirm-Confirmed :
    (e : Env) (r : ConfirmRequest) (st : State) (s : Bytes)
    → (post_login_confirm e r st).0 ≡ logged_in s
    → Confirmed e (trimmed r) st
unfolding post_login_confirm
post_login_confirm-Confirmed e r st s h = request-Confirmed e (trimmed r) st s r.key refl h
