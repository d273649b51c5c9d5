-- ===== src/Config/Samples.antt =====
-- A configuration for the tests: an instance in forge mode, open to the public.
use gitus.Prelude.{ℕ, Bytes, Option, false, true, [], codes, none, ◌∷◌, some, ◌-◌}
use gitus.Config.{Config, MaintenanceAnnouncement, op_mode_forge, global_visibility_public}

abbrev pub no_announcement : MaintenanceAnnouncement
no_announcement = record {
  enabled = false;
  message = [];
  starts_at = [];
  ends_at = [];
  mode = [];
  auto_restore = false;
}

-- Times are written as strings of one digit.
abbrev pub read_digit : Bytes → Option ℕ
read_digit [] = none
read_digit (c ∷ s) = some (c - 48)

abbrev pub forge_config : Config
forge_config = record {
  operation_mode = op_mode_forge;
  use_namespace = true;
  git_root = codes "/srv/git";
  global_visibility = global_visibility_public;
  maintenance_announcement = no_announcement;
  full_access_user = codes "root" ∷ [];
  uses_authorized_keys_command = true;
  allow_v2 = true;
  allow_v1_dumb = true;
  default_new_user_status = 1;
  default_new_user_namespace = codes "shared";
  parse_rfc3339 = read_digit;
}
