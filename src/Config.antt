-- ===== src/Config.antt =====
-- pkg/gitus/config.go: the part of the configuration that access control reads.
pub mod Visibility
pub mod Samples
mod Tests
use gitus.Prelude.{
  ℕ, Bool, Bytes, Option, List, beq, codes, false, if◌then◌else◌, some, is_empty, not, ◌==◌, ltb,
  true, ◌&&◌, ◌||◌, leb, none,
}
use gitus.Prelude.{trim_space}

abbrev pub global_visibility_public : Bytes
global_visibility_public = codes "public"

abbrev pub global_visibility_private : Bytes
global_visibility_private = codes "private"

abbrev pub global_visibility_shutdown : Bytes
global_visibility_shutdown = codes "shutdown"

abbrev pub global_visibility_maintenance : Bytes
global_visibility_maintenance = codes "maintenance"

abbrev pub op_mode_browse_only : Bytes
op_mode_browse_only = codes "browse-only"

abbrev pub op_mode_host : Bytes
op_mode_host = codes "host"

abbrev pub op_mode_forge : Bytes
op_mode_forge = codes "forge"

-- A time is the seconds since Go's zero time, which is 0.
abbrev pub Time : Type 0
Time = ℕ

pub record MaintenanceAnnouncement : Type 0 where
  pub enabled : Bool
  pub message : Bytes
  pub starts_at : Bytes
  pub ends_at : Bytes
  pub mode : Bytes
  pub auto_restore : Bool

pub record Config : Type 0 where
  pub operation_mode : Bytes
  pub use_namespace : Bool
  pub git_root : Bytes
  pub global_visibility : Bytes
  pub maintenance_announcement : MaintenanceAnnouncement
  pub full_access_user : List Bytes
  pub uses_authorized_keys_command : Bool
  pub allow_v2 : Bool
  pub allow_v1_dumb : Bool
  pub default_new_user_status : ℕ
  pub default_new_user_namespace : Bytes
  -- time.Parse for RFC 3339: `none` is an error.
  pub parse_rfc3339 : Bytes → Option Time

unfoldable pub is_in_browse_only_mode : Config → Bool
is_in_browse_only_mode cfg = beq cfg.operation_mode op_mode_browse_only

unfoldable pub is_in_forge_mode : Config → Bool
is_in_forge_mode cfg = beq cfg.operation_mode op_mode_forge

unfoldable pub is_in_host_mode : Config → Bool
is_in_host_mode cfg = beq cfg.operation_mode op_mode_host

unfoldable pub parse_announcement_time : Config → Bytes → Option Time
parse_announcement_time cfg s =
    let t = trim_space s in if is_empty t then some 0 else cfg.parse_rfc3339 t

unfoldable pub after_mode : MaintenanceAnnouncement → Bytes
after_mode a =
    if beq (trim_space a.mode) global_visibility_maintenance
    then global_visibility_maintenance
    else global_visibility_shutdown

-- `err == nil && !end.IsZero() && !now.Before(end)`
unfoldable pub has_ended : Option Time → Time → Bool
has_ended none now = false
has_ended (some end) now = not (end == 0) && leb end now

-- From the parsed start on.
unfoldable pub visibility_from_start : Config → Time → Option Time → Bytes
unfolding has_ended parse_announcement_time after_mode
visibility_from_start cfg now none = cfg.global_visibility
visibility_from_start cfg now (some begin) =
    if begin == 0
    then cfg.global_visibility
    else if ltb now begin
    then cfg.global_visibility
    else if cfg.maintenance_announcement.auto_restore
        && has_ended (parse_announcement_time cfg cfg.maintenance_announcement.ends_at) now
    then cfg.global_visibility
    else after_mode cfg.maintenance_announcement

unfoldable pub effective_global_visibility_at : Config → Time → Bytes
unfolding visibility_from_start
effective_global_visibility_at cfg now =
    if not cfg.maintenance_announcement.enabled
    then cfg.global_visibility
    else visibility_from_start cfg now
        (parse_announcement_time cfg cfg.maintenance_announcement.starts_at)

abbrev shows_before : Option Time → Time → Bool
shows_before none now = false
shows_before (some begin) now = if begin == 0 then true else ltb now begin

unfoldable pub should_show_maintenance_announcement_at : Config → Time → Bool
unfolding parse_announcement_time
should_show_maintenance_announcement_at cfg now =
    if not cfg.maintenance_announcement.enabled
      || is_empty (trim_space cfg.maintenance_announcement.message)
    then false
    else shows_before (parse_announcement_time cfg cfg.maintenance_announcement.starts_at) now
