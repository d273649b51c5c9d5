-- ===== src/Config/Tests.antt =====
-- The schedule at concrete times: maintenance from time 3 on, until time 5.
use gitus.Prelude.{Bool, false, trim_space, true, codes, is_space, ◌≡◌, beq, refl, ◌≢◌, arith}
use gitus.Config.{
  Config, effective_global_visibility_at, should_show_maintenance_announcement_at,
  global_visibility_public,
}
use gitus.Config.Samples.{forge_config}

abbrev planned : Bool → Config
planned restores = record forge_config {
  maintenance_announcement = record {
    enabled = true;
    message = codes "upgrade";
    starts_at = codes "3";
    ends_at = codes "5";
    mode = codes "maintenance";
    auto_restore = restores;
  };
}

shown_at_2 : should_show_maintenance_announcement_at (planned true) 2 ≡ true
unfolding should_show_maintenance_announcement_at trim_space is_space
shown_at_2 = refl

changed_at_4 : effective_global_visibility_at (planned false) 4 ≢ global_visibility_public
unfolding effective_global_visibility_at trim_space is_space beq
changed_at_4 = ground arith
