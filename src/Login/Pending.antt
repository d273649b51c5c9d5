-- ===== src/Login/Pending.antt =====
-- What the second form leaves behind.
use gitus.Prelude.{
  none, some, Bytes, Bool, Option, ◌≡◌, Bool-cases, arith, if◌then◌else◌, refl, inl, ◌&&◌, inr, not,
  beq, map, trim_space, true, false,
}
use gitus.Login.{
  Env, matches, mismatch, broken, ConfirmRequest, post_login_confirm, State, User, email_step,
  otp_step, Comparison, TCache, key_checked, otp_stored, stored_checked, trimmed, user_checked,
  contains_letter, pending_checked, expired, Outcome, refused, to_upper,
}
use gitus.Tcache.{TCache}
use gitus.Login.Confirm.{challenge_of, pending_factors}
use gitus.Otp.{to_upper}

stored-pending :
    (e : Env) (un : Bytes) (st : State) (b : Bool) (o : Option User)
    → (otp_stored e un st b o).1.pending ≡ st.pending
stored-pending e un st b o = ground arith

otp_step-pending :
    (e : Env) (r : ConfirmRequest) (u : User) (st : State) (factors : Bytes)
    → (otp_step e r u st factors).1.pending ≡ st.pending
otp_step-pending e r u st factors = elim (Bool-cases (contains_letter b'o' factors)) [
  | inl h ↦ rw h (stored-pending e r.username st _ _)
  | inr h ↦ rw h refl
]

email_step-pending :
    (e : Env) (r : ConfirmRequest) (u : User) (st : State) (challenge factors : Bytes)
    → (email_step e r u st challenge factors).1.pending ≡ st.pending
email_step-pending e r u st challenge factors =
    elim (Bool-cases (
      contains_letter b'e' factors
      && not (beq (map to_upper (trim_space r.confirmation_code)) challenge))) [
        | inl h ↦ rw h refl
        | inr h ↦ rw h (otp_step-pending e r u st factors)
      ]

stored_by :
    (e : Env) (r : ConfirmRequest) (st : State) (stored : Bytes) (u : User) (b : Bool)
    (m : Comparison)
    → (if b then (expired, st) else elim m as (λ x. Outcome × State) [
      | matches ↦ email_step e r u st (challenge_of stored) (pending_factors stored)
      | _ ↦ (refused, st)
    ]).1.pending
      ≡ st.pending
stored_by e r st stored u true m = refl
stored_by e r st stored u false mismatch = refl
stored_by e r st stored u false broken = refl
stored_by e r st stored u false matches =
    email_step-pending e r u st (challenge_of stored) (pending_factors stored)

checked-pending :
    (e : Env) (r : ConfirmRequest) (key : Bytes) (u : User) (st : State) (o : Option Bytes)
    → (stored_checked e r key u st o).1.pending ≡ st.pending
checked-pending e r key u st none = refl
checked-pending e r key u st (some stored) = stored_by e r st stored u _ _

cache-pending :
    (e : Env) (r : ConfirmRequest) (key : Bytes) (u : User) (st : State) (o : Option TCache)
    → (pending_checked e r key u st o).1.pending ≡ st.pending
cache-pending e r key u st none = refl
cache-pending e r key u st (some c) = checked-pending e r key u st _

user-pending :
    (e : Env) (r : ConfirmRequest) (key : Bytes) (st : State) (o : Option User)
    → (user_checked e r key st o).1.pending ≡ st.pending
user-pending e r key st none = refl
user-pending e r key st (some u) = cache-pending e r key u st st.pending

key-pending :
    (e : Env) (r : ConfirmRequest) (st : State) (o : Option Bytes)
    → (key_checked e r st o).1.pending ≡ st.pending
key-pending e r st none = refl
key-pending e r st (some key) = user-pending e r key st _

-- The second form never ends a pending login, not even after it has logged its user in: cookie and
-- mailed code can be sent again until the entry expires.
pub post_login_confirm-pending :
    (e : Env) (r : ConfirmRequest) (st : State) → (post_login_confirm e r st).1.pending ≡ st.pending
unfolding post_login_confirm
post_login_confirm-pending e r st = key-pending e (trimmed r) st r.key
