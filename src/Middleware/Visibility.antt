-- ===== src/Middleware/Visibility.antt =====
-- GlobalVisibility: who sees the site.
use gitus.Prelude.{
  none, if◌then◌else◌, Bytes, beq, Bool, ◌||◌, ◌≡◌, false, true, ◌&&◌, mem, refl, some, arith, ◌↔◌,
  ap, beq→eq, ◌∙◌,
}
use gitus.Middleware.{
  crash, Env, Config, global_visibility, Context, LoginInfo, check_global_visible_to_user, Handler,
  page, visible_at, turned_away,
}
use gitus.Middleware.Login.{forge_not_browse}
use gitus.Config.{
  Config, global_visibility_private, global_visibility_public, global_visibility_shutdown,
  is_in_forge_mode, global_visibility_maintenance, effective_global_visibility_at,
}
use gitus.Model.{LoginInfo}

-- Who may see a site in forge mode, as the modes mean it: everybody, whoever is logged in, the
-- listed users, or nobody.
abbrev pub may_see : Config → LoginInfo → Bytes → Bool
may_see cfg l mode =
    beq mode global_visibility_public
    || (beq mode global_visibility_private && l.logged_in)
    || (beq mode global_visibility_shutdown && mem l.user_name cfg.full_access_user)

-- The modes that the configuration may name, and that a schedule sets.
abbrev pub is_mode : Bytes → Bool
is_mode mode =
    beq mode global_visibility_public
    || beq mode global_visibility_private
    || beq mode global_visibility_shutdown
    || beq mode global_visibility_maintenance

apart : (a b mode : Bytes) → beq a b ≡ false → beq mode a ≡ true → beq mode b ≡ false
apart a b mode d h = ap (λ x. beq x b) (beq→eq mode a h) ∙ d

private_shutdown : beq global_visibility_private global_visibility_shutdown ≡ false
unfolding beq
private_shutdown = refl

private_maintenance : beq global_visibility_private global_visibility_maintenance ≡ false
unfolding beq
private_maintenance = refl

shutdown_maintenance : beq global_visibility_shutdown global_visibility_maintenance ≡ false
unfolding beq
shutdown_maintenance = refl

public_maintenance : beq global_visibility_public global_visibility_maintenance ≡ false
unfolding beq
public_maintenance = refl

public_shutdown : beq global_visibility_public global_visibility_shutdown ≡ false
unfolding beq
public_shutdown = refl

public_private : beq global_visibility_public global_visibility_private ≡ false
unfolding beq
public_private = refl

-- The answer by the tests of the mode.
visibility_by :
    (e : Env) (c : Context) (l : LoginInfo) (mode : Bytes)
    → is_mode mode ≡ true
    → (elim (visible_at e.config (some l) mode) [
      | none ↦ crash
      | some b ↦ if b then page c else turned_away (λ e c. page c) e c mode
    ]
        ≡ page c)
      ↔ (may_see e.config l mode ≡ true)
visibility_by e c l mode k = ground (
  arith,
  apart global_visibility_private global_visibility_shutdown mode private_shutdown,
  apart global_visibility_private global_visibility_maintenance mode private_maintenance,
  apart global_visibility_shutdown global_visibility_maintenance mode shutdown_maintenance,
  apart global_visibility_public global_visibility_maintenance mode public_maintenance,
  apart global_visibility_public global_visibility_shutdown mode public_shutdown,
  apart global_visibility_public global_visibility_private mode public_private,
)

-- For a visitor with a login info, in forge mode and in one of the four modes, the handler behind
-- GlobalVisibility is reached exactly if the visitor may see the site.
pub global_visibility-may_see :
    (e : Env) (c : Context) (l : LoginInfo)
    → is_in_forge_mode e.config ≡ true
    → c.login_info ≡ some l
    → is_mode (effective_global_visibility_at e.config e.now) ≡ true
    → (global_visibility (λ e c. page c) e c ≡ page c)
      ↔ (may_see e.config l (effective_global_visibility_at e.config e.now) ≡ true)
unfolding global_visibility
global_visibility-may_see e c l m q k = ground (
  arith,
  forge_not_browse e m,
  visibility_by e c l (effective_global_visibility_at e.config e.now) k,
)

-- In forge mode and for a visitor with a login info: in a mode that is none of the four, the visitor
-- may not see the site by CheckGlobalVisibleToUser, and yet GlobalVisibility runs the handler.
pub global_visibility_unknown :
    (f : Handler) (e : Env) (c : Context) (l : LoginInfo)
    → is_in_forge_mode e.config ≡ true
    → c.login_info ≡ some l
    → is_mode (effective_global_visibility_at e.config e.now) ≡ false
    → (check_global_visible_to_user e.config e.now (some l) ≡ some false)
      × (global_visibility f e c ≡ f e c)
unfolding global_visibility check_global_visible_to_user
global_visibility_unknown f e c l m q k = ground (arith, forge_not_browse e m)
