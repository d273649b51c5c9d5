-- ===== src/Login.antt =====
-- routes/controller/login.go, the two forms of a login, with verifyUserOTP of controller/aux.go.
-- A handler gives its outcome, and the state that it has changed.
pub mod Password
pub mod Confirm
pub mod Pending
mod Tests
use gitus.Prelude.{
  ℕ, Bytes, Bool, Dict, Option, if◌then◌else◌, lookup, List, [], any, insert, some, ◌&&◌, ◌==◌,
  ◌||◌, ◌∷◌, beq, cut, is_empty, none, not, trim_space, ◌++◌, ◌+◌, map, true, ◌%◌, ◌^◌,
}
use gitus.Config.{Config, effective_global_visibility_at, global_visibility_maintenance}
use gitus.Tcache.{TCache, register, get}
use gitus.Otp.{
  verify_totp, Crypto, verify_code, remove_recovery_code, verify_recovery_code, to_upper,
}
use gitus.Model.{banned, normal_user_approval_needed, normal_user_confirm_needed}

-- bcrypt.CompareHashAndPassword
pub data Comparison : Type 0 where
  matches mismatch broken : Comparison

-- The parts of model.GitusUser that a login reads.
pub record User : Type 0 where
  pub password_hash : Bytes
  pub status : ℕ
  pub email_enabled : Bool
  pub otp_enabled : Bool
  pub otp_is_totp : Bool
  pub otp_secret : Bytes
  pub otp_period : ℕ
  pub otp_digits : ℕ
  pub otp_counter : ℕ
  pub recovery_codes : List Bytes

-- The services of the context, and what they answer to the request: `none` is an error, and
-- `mailer` is nil if there is none. A session store that takes a session gives `true`.
pub record Env : Type 0 where
  pub config : Config
  pub now : ℕ
  pub crypto : Crypto
  pub compare_hash : Bytes → Bytes → Comparison
  pub generate_hash : Bytes → Option Bytes
  pub new_confirm_code : Option Bytes
  pub new_session_string : Option Bytes
  pub registers_session : Bool
  pub updates_user : Bool
  pub mailer : Option Bool

-- The users of the database, and the confirm code manager, a timed cache that may be missing.
pub record State : Type 0 where
  pub users : Dict User
  pub pending : Option TCache

pub data Outcome : Type 0 where
  maintenance internal_error invalid_request expired : Outcome
  -- a form again, with a message
  refused : Outcome
  -- the second form, with the value of the cookie
  confirm : Bytes → Outcome
  -- a session of this name has been registered
  logged_in : Bytes → Outcome

-- The status by which the first form turns a user away.
abbrev pub is_turned_away : ℕ → Bool
is_turned_away s =
    s == banned || s == normal_user_approval_needed || s == normal_user_confirm_needed

-- The end of both handlers.
abbrev pub session_of : Env → Option Bytes → Outcome
session_of e none = internal_error
session_of e (some s) = if e.registers_session then logged_in s else internal_error

abbrev pub factors_of : User → Bytes
factors_of u =
    (if u.email_enabled then b'e' ∷ [] else []) ++ (if u.otp_enabled then b'o' ∷ [] else [])

abbrev ten_minutes : ℕ
ten_minutes = 600

-- Sending the mail with the code, if the account has asked for one.
abbrev pub mailed : User → Option Bool → Bytes → Outcome
mailed u none key = if u.email_enabled then internal_error else confirm key
mailed u (some sent) key = if u.email_enabled && not sent then internal_error else confirm key

abbrev pub challenged :
    Env → Bytes → User → State → TCache → Option Bytes → Option Bytes → Outcome × State
challenged e un u st c none key = (internal_error, st)
challenged e un u st c (some code) none = (internal_error, st)
challenged e un u st c (some code) (some key) = (
  mailed u e.mailer key,
  record st {
    pending = some (register un (code ++ (b' ' ∷ factors_of u)) (some ten_minutes) e.now c);
  },
)

abbrev hash_of : Env → User → Option Bytes → Option Bytes
hash_of e u none = none
hash_of e u (some code) = e.generate_hash (u.password_hash ++ code)

abbrev pub second_step : Env → Bytes → User → State → Option TCache → Outcome × State
second_step e un u st none = (internal_error, st)
second_step e un u st (some c) =
    challenged e un u st c e.new_confirm_code (hash_of e u e.new_confirm_code)

abbrev pub password_checked : Env → Bytes → User → State → Comparison → Outcome × State
password_checked e un u st mismatch = (refused, st)
password_checked e un u st broken = (refused, st)
password_checked e un u st matches =
    if u.email_enabled || u.otp_enabled
    then second_step e un u st st.pending
    else (session_of e e.new_session_string, st)

abbrev pub login_of_user : Env → Bytes → Bytes → State → Option User → Outcome × State
login_of_user e un ph st none = (internal_error, st)
login_of_user e un ph st (some u) =
    if is_turned_away u.status
    then (refused, st)
    else password_checked e un u st (e.compare_hash u.password_hash ph)

-- POST /login
unfoldable pub post_login : Env → Bytes → Bytes → State → Outcome × State
unfolding effective_global_visibility_at lookup register
post_login e un ph st =
    if beq (effective_global_visibility_at e.config e.now) global_visibility_maintenance
    then (maintenance, st)
    else login_of_user e un ph st (lookup un st.users)

-- `counter, ok, err := ...; if err != nil { return 0, false }`
abbrev verified : Option (Option ℕ) → Option ℕ
verified none = none
verified (some r) = r

unfoldable pub verify_user_otp : Env → User → Bytes → Option ℕ
unfolding verify_totp verify_code trim_space
verify_user_otp e u code =
    if is_empty (trim_space u.otp_secret)
    then none
    else if is_empty (trim_space code)
    then none
    else if u.otp_is_totp
    then verified (verify_totp e.crypto u.otp_secret code e.now u.otp_period u.otp_digits 1)
    else verified (verify_code e.crypto u.otp_secret code u.otp_counter u.otp_digits 10)

-- The user whose second factor has been accepted, `none` for a code that is not.
abbrev pub recovered : User → Option Bytes → Option User
recovered u none = none
recovered u (some used) =
    some (record u { recovery_codes = remove_recovery_code u.recovery_codes used })

abbrev pub factor_checked : Env → User → Bytes → Option ℕ → Option User
factor_checked e u code (some counter) =
    some (if u.otp_is_totp then u else record u { otp_counter = (counter + 1) % 2 ^ 64 })
factor_checked e u code none = recovered u (verify_recovery_code e.crypto u.recovery_codes code)

-- A TOTP code changes nothing, so the user is not written then.
abbrev pub is_changed : User → Option ℕ → Bool
is_changed u (some counter) = not u.otp_is_totp
is_changed u none = true

pub record ConfirmRequest : Type 0 where
  pub key : Option Bytes
  pub username : Bytes
  pub confirmation_code : Bytes
  pub otp_code : Bytes

abbrev pub contains_letter : ℕ → Bytes → Bool
contains_letter c s = any (λ x. x == c) s

abbrev pub otp_stored : Env → Bytes → State → Bool → Option User → Outcome × State
otp_stored e un st changed none = (refused, st)
otp_stored e un st changed (some u) =
    if not changed
    then (session_of e e.new_session_string, st)
    else if e.updates_user
    then (session_of e e.new_session_string, record st { users = insert un u st.users })
    else (internal_error, st)

abbrev pub otp_step : Env → ConfirmRequest → User → State → Bytes → Outcome × State
otp_step e r u st factors =
    if contains_letter b'o' factors
    then (let v = verify_user_otp e u r.otp_code in
        otp_stored e r.username st (is_changed u v) (factor_checked e u r.otp_code v))
    else (session_of e e.new_session_string, st)

abbrev pub email_step : Env → ConfirmRequest → User → State → Bytes → Bytes → Outcome × State
email_step e r u st challenge factors =
    if contains_letter b'e' factors
      && not (beq (map to_upper (trim_space r.confirmation_code)) challenge)
    then (refused, st)
    else otp_step e r u st factors

abbrev pub rest_or_empty : Option Bytes → Bytes
rest_or_empty none = []
rest_or_empty (some s) = s

abbrev pub stored_checked :
    Env → ConfirmRequest → Bytes → User → State → Option Bytes → Outcome × State
stored_checked e r key u st none = (expired, st)
stored_checked e r key u st (some stored) =
    if is_empty stored
    then (expired, st)
    else elim (e.compare_hash key (u.password_hash ++ (cut b' ' stored).0)) [
      | matches ↦ email_step e r u st (cut b' ' stored).0 (rest_or_empty (cut b' ' stored).1)
      | _ ↦ (refused, st)
    ]

abbrev pub pending_checked :
    Env → ConfirmRequest → Bytes → User → State → Option TCache → Outcome × State
pending_checked e r key u st none = (internal_error, st)
pending_checked e r key u st (some c) = stored_checked e r key u st (get r.username e.now c)

abbrev pub user_checked : Env → ConfirmRequest → Bytes → State → Option User → Outcome × State
user_checked e r key st none = (internal_error, st)
user_checked e r key st (some u) = pending_checked e r key u st st.pending

abbrev pub key_checked : Env → ConfirmRequest → State → Option Bytes → Outcome × State
key_checked e r st none = (invalid_request, st)
key_checked e r st (some key) = user_checked e r key st (lookup r.username st.users)

abbrev pub trimmed : ConfirmRequest → ConfirmRequest
trimmed r = record r { username = trim_space r.username }

-- POST /login/confirm
unfoldable pub post_login_confirm : Env → ConfirmRequest → State → Outcome × State
unfolding lookup insert cut get trim_space beq verify_user_otp verify_recovery_code
    remove_recovery_code
post_login_confirm e r st = key_checked e (trimmed r) st r.key
