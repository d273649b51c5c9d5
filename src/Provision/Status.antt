-- ===== src/Provision/Status.antt =====
-- The status of a new account.
use gitus.Prelude.{◌≡◌, ◌⊎◌, arith, true}
use gitus.Model.{normal_user, normal_user_no_new_namespace, banned}
use gitus.Config.{Config}
use gitus.Provision.{final_status, valid_default_status}

-- With a default status that the site accepts, or none, a new account ends as a normal user, as one
-- that makes no namespaces, or banned: never at a gate, and never as an administrator.
pub final_status-resting :
    (cfg : Config)
    → (cfg.default_new_user_status ≡ 0) ⊎ (valid_default_status cfg.default_new_user_status ≡ true)
    → (final_status cfg ≡ normal_user)
      ⊎ ((final_status cfg ≡ normal_user_no_new_namespace) ⊎ (final_status cfg ≡ banned))
unfolding final_status valid_default_status
final_status-resting cfg h = ground arith
