-- ===== src/Middleware/Guards.antt =====
-- The checks before the pages of the administrators.
use gitus.Prelude.{
  if◌then◌else◌, List, Bool, ◌≡◌, Option, true, ◌∷◌, false, some, arith, [], refl, none, is_empty,
  not, ◌≢◌, beq, codes,
}
use gitus.Middleware.{
  crash, valid_post_request_required, global_visibility, check_global_visible_to_user,
  global_visibility_with, not_found, invalid_request, internal_error, too_many_requests, failed,
  Env, Answer, Handler, LoginInfo, generate_login_info_model, use_middleware, Attempt, Middleware,
  login_required, admin_required, got, page, csrf_check, csrf_verified, error_guard, redirect,
  is_in_forge_mode, Context, login_required_with,
}
use gitus.Model.{LoginInfo}
use gitus.Config.{
  is_in_forge_mode, Config, is_in_browse_only_mode, Time, effective_global_visibility_at,
  global_visibility_maintenance, global_visibility_shutdown, global_visibility_private,
}
use gitus.Middleware.Login.{
  IsSession, generate_login_info_model-IsSession, forge_not_browse, never_nil,
}

abbrev pub is_refusal : Answer → Bool
is_refusal (page c) = false
is_refusal crash = false
is_refusal (redirect p) = true
is_refusal not_found = true
is_refusal invalid_request = true
is_refusal internal_error = true
is_refusal too_many_requests = true

-- The context behind LoginRequired.
abbrev pub held : LoginInfo → Context
held l = record { login_info = some l; last_error = false }

check_global_visible_to_user-some :
    (cfg : Config) (now : Time) (l : LoginInfo)
    → check_global_visible_to_user cfg now (some l) ≢ none
unfolding check_global_visible_to_user
check_global_visible_to_user-some cfg now l h = ground arith

-- What each middleware leaves to show of its answer: that the refusals are fine, and the answer of
-- the handler behind it, with what the middleware has checked.
module _ {ℓ} (P : Answer → Type ℓ) (turn : (a : Answer) → is_refusal a ≡ true → P a) (e : Env)
    (g : Handler) where
  behind_post : (c : Context) (b : Bool) → P (g e c) → P (if not b then invalid_request else g e c)
  behind_post c true h = h
  behind_post c false h = turn invalid_request refl

  behind_csrf_verified :
      (c : Context) (l : LoginInfo) (a : Attempt Bool)
      → e.verify_session_full l.user_name l.user_session_id e.csrf_token ≡ a
      → (e.verify_session_full l.user_name l.user_session_id e.csrf_token ≡ got true → P (g e c))
      → P (csrf_verified g e c a)
  behind_csrf_verified c l failed q h = turn internal_error refl
  behind_csrf_verified c l (got false) q h = turn (redirect (codes "/")) refl
  behind_csrf_verified c l (got true) q h = h q

  behind_csrf_form :
      (c : Context) (form empty : Bool) (a : Answer)
      → P a
      → P (if not form then invalid_request else if empty then redirect (codes "/") else a)
  behind_csrf_form c false b a h = turn invalid_request refl
  behind_csrf_form c true true a h = turn (redirect (codes "/")) refl
  behind_csrf_form c true false a h = h

  behind_csrf_check :
      (l : LoginInfo)
      → (e.verify_session_full l.user_name l.user_session_id e.csrf_token ≡ got true
          → P (g e (held l)))
      → P (csrf_check g e (held l))
  unfolding csrf_check
  behind_csrf_check l h =
      behind_csrf_form (held l) e.parse_form (is_empty e.csrf_token) _
        (behind_csrf_verified (held l) l _ refl h)

  behind_forge : (b : Bool) {a : Answer} → P a → P (if b then a else not_found)
  behind_forge true h = h
  behind_forge false h = turn not_found refl

  behind_admin_checked :
      (c : Context) (l : LoginInfo) (b : Bool)
      → l.is_admin ≡ b
      → (l.is_admin ≡ true → P (g e c))
      → P (if not b then redirect (codes "/") else g e c)
  behind_admin_checked c l true q h = h q
  behind_admin_checked c l false q h = turn (redirect (codes "/")) refl

  behind_admin_required :
      (l : LoginInfo) → (l.is_admin ≡ true → P (g e (held l))) → P (admin_required g e (held l))
  unfolding admin_required
  behind_admin_required l h =
      behind_forge (is_in_forge_mode e.config) (behind_admin_checked (held l) l _ refl h)

  behind_login :
      (l : LoginInfo) (b : Bool)
      → l.logged_in ≡ b
      → generate_login_info_model e ≡ got (some l)
      → ((l : LoginInfo) → IsSession e l → P (g e (held l)))
      → P (if not b then redirect (codes "/login") else g e (held l))
  behind_login l false b q h = turn (redirect (codes "/login")) refl
  behind_login l true b q h = h l (generate_login_info_model-IsSession e l q b)

  behind_login_with :
      (a : Attempt (Option LoginInfo))
      → is_in_browse_only_mode e.config ≡ false
      → generate_login_info_model e ≡ a
      → ((l : LoginInfo) → IsSession e l → P (g e (held l)))
      → P (login_required_with g e a)
  behind_login_with failed m q h = turn (redirect (codes "/login")) refl
  behind_login_with (got none) m q h = absurd (never_nil e m q)
  behind_login_with (got (some l)) m q h = behind_login l l.logged_in refl q h

  behind_login_required :
      (c : Context)
      → is_in_forge_mode e.config ≡ true
      → ((l : LoginInfo) → IsSession e l → P (g e (held l)))
      → P (login_required g e c)
  unfolding login_required
  behind_login_required c m h =
      rw m (behind_login_with (generate_login_info_model e) (forge_not_browse e m) refl h)

  behind_turned_away :
      (c : Context) (m s p : Bool)
      → P (g e c)
      → P (
          if m
          then redirect (codes "/maintenance-notice")
          else if s
          then redirect (codes "/shutdown-notice")
          else if p
          then redirect (codes "/login")
          else g e c)
  behind_turned_away c true s p h = turn (redirect (codes "/maintenance-notice")) refl
  behind_turned_away c false true p h = turn (redirect (codes "/shutdown-notice")) refl
  behind_turned_away c false false true h = turn (redirect (codes "/login")) refl
  behind_turned_away c false false false h = h

  behind_visible :
      (c : Context) (o : Option Bool) → o ≢ none → P (g e c) → P (global_visibility_with g e c o)
  behind_visible c none n h = absurd (n refl)
  behind_visible c (some true) n h = h
  behind_visible c (some false) n h =
      behind_turned_away c
        (beq (effective_global_visibility_at e.config e.now) global_visibility_maintenance)
        (beq (effective_global_visibility_at e.config e.now) global_visibility_shutdown)
        (beq (effective_global_visibility_at e.config e.now) global_visibility_private) h

  behind_global_visibility : (l : LoginInfo) → P (g e (held l)) → P (global_visibility g e (held l))
  unfolding global_visibility
  behind_global_visibility l h =
      behind_visible (held l) (check_global_visible_to_user e.config e.now (some l))
        (check_global_visible_to_user-some e.config e.now l) h

-- The order in which the forms of the administration put their checks, behind Logged: those for the
-- site, its database, sessions, mail, receipts, lockdown and new users, and those of a user. Some
-- other routes, such as the lists and the deletions, have another order or fewer checks.
abbrev pub admin_chain : List Middleware
admin_chain =
    valid_post_request_required ∷ login_required ∷ csrf_check ∷ admin_required ∷ global_visibility
    ∷ error_guard ∷ []

-- The handler behind the checks was run, for an administrator with a session whose token the
-- request carries; or the visitor was turned away.
pub data Guarded (f : Handler) (e : Env) (answer : Answer) : Type 0 where
  ran :
      (l : LoginInfo)
      → IsSession e l
      → l.is_admin ≡ true
      → e.verify_session_full l.user_name l.user_session_id e.csrf_token ≡ got true
      → answer ≡ f e (held l)
      → Guarded f e answer
  refused : is_refusal answer ≡ true → Guarded f e answer

ran_behind_error_guard :
    (f : Handler) (e : Env) (l : LoginInfo)
    → IsSession e l
    → l.is_admin ≡ true
    → e.verify_session_full l.user_name l.user_session_id e.csrf_token ≡ got true
    → Guarded f e (error_guard f e (held l))
unfolding error_guard
ran_behind_error_guard f e l s a t = ran l s a t refl

turned : (f : Handler) (e : Env) (a : Answer) → is_refusal a ≡ true → Guarded f e a
turned f e a r = refused r

-- In forge mode, and whatever the session store, the database and the request say, a form of the
-- administration with its checks in this order is either refused, or handled for a visitor who has a
-- session, is an administrator, and whose request carries the token of the session.
pub admin_chain-Guarded :
    (f : Handler) (e : Env) (c : Context)
    → is_in_forge_mode e.config ≡ true
    → Guarded f e (use_middleware admin_chain f e c)
unfolding use_middleware valid_post_request_required
admin_chain-Guarded f e c m =
    let g = error_guard f in
    behind_post (Guarded f e) (turned f e) e
      (login_required (csrf_check (admin_required (global_visibility g)))) c e.parse_form
      (behind_login_required (Guarded f e) (turned f e) e
        (csrf_check (admin_required (global_visibility g))) c m
        λ l s.
          behind_csrf_check (Guarded f e) (turned f e) e (admin_required (global_visibility g)) l
            λ t. behind_admin_required (Guarded f e) (turned f e) e (global_visibility g) l λ a.
              behind_global_visibility (Guarded f e) (turned f e) e g l
                (ran_behind_error_guard f e l s a t))
