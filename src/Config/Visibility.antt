-- ===== src/Config/Visibility.antt =====
-- The schedule of a maintenance announcement.
use gitus.Prelude.{◌≡◌, false, true, arith, ◌≢◌, ◌≤◌}
use gitus.Config.{
  Config, Time, effective_global_visibility_at, should_show_maintenance_announcement_at, after_mode,
  parse_announcement_time, has_ended, false, true,
}

-- The banner announces a mode that is not in effect yet: while it is shown, the site is in the
-- configured mode.
pub banner-before_mode :
    (cfg : Config) (now : Time)
    → should_show_maintenance_announcement_at cfg now ≡ true
    → effective_global_visibility_at cfg now ≡ cfg.global_visibility
unfolding should_show_maintenance_announcement_at effective_global_visibility_at
banner-before_mode cfg now h = ground arith

-- Without AutoRestore the site never leaves the announced mode: if it is in effect at a time that
-- the configured mode does not explain, it is in effect at every later time.
pub announced_mode_stays :
    (cfg : Config) (now later : Time)
    → cfg.maintenance_announcement.auto_restore ≡ false
    → effective_global_visibility_at cfg now ≢ cfg.global_visibility
    → now ≤ later
    → effective_global_visibility_at cfg later ≡ after_mode cfg.maintenance_announcement
unfolding effective_global_visibility_at has_ended parse_announcement_time
announced_mode_stays cfg now later a h le = ground arith
