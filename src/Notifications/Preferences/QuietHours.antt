-- ===== src/Notifications/Preferences/QuietHours.antt =====
-- The window of the quiet hours as a stretch of the clock (preference-resolver.service.ts).
use armstrong_bot.Prelude.{
  ℕ, ◌+◌, ◌-◌, ◌%◌, ◌≤◌, ◌<◌, ◌≡◌, ◌↔◌, String, Bool, true, false, Option, arith, ◌&&◌, ◌||◌, eqb,
  ltb, leb, if◌then◌else◌, inl, inr, Bool-cases,
}
use armstrong_bot.Notifications.Preferences.{QuietHoursConfig, hour_in_zone, in_quiet_hours}

-- How many hours after `start` the clock shows `hour`.
abbrev pub hours_after : ℕ → ℕ → ℕ
hours_after start hour = (hour + 24 - start) % 24

abbrev window : ℕ → ℕ → ℕ → Bool
window start end hour =
    if eqb start end
    then false
    else if ltb end start
    then leb start hour || ltb hour end
    else leb start hour && ltb hour end

hours_after-later : (s h : ℕ) → s ≤ h → h < 24 → hours_after s h ≡ h - s
hours_after-later s h le lt = omega (arith, le, lt)

hours_after-earlier : (s h : ℕ) → h < s → s < 24 → hours_after s h ≡ h + 24 - s
hours_after-earlier s h lt top = omega (arith, lt, top)

window_iff :
    (s e h : ℕ)
    → s < 24
    → e < 24
    → h < 24
    → (window s e h ≡ true) ↔ (hours_after s h < hours_after s e)
window_iff s e h s_ok e_ok h_ok = elim (Bool-cases (leb s h)) [
  | inl later ↦ elim (Bool-cases (leb s e)) [
    | inl after ↦ ground (arith, hours_after-later s h, hours_after-later s e)
    | inr before ↦ ground (arith, hours_after-later s h, hours_after-earlier s e)
  ]
  | inr earlier ↦ elim (Bool-cases (leb s e)) [
    | inl after ↦ ground (arith, hours_after-earlier s h, hours_after-later s e)
    | inr before ↦ ground (arith, hours_after-earlier s h, hours_after-earlier s e)
  ]
]

-- Enabled quiet hours hold exactly when the clock in the zone has run fewer hours since the start
-- than the window is long, whether it wraps around midnight or not.
pub in_quiet_hours_iff :
    (format_hour : String → ℕ → Option ℕ) (utc_hours : ℕ → ℕ) (q : QuietHoursConfig) (now : ℕ)
    → q.is_enabled ≡ true
    → q.start_hour < 24
    → q.end_hour < 24
    → hour_in_zone format_hour utc_hours now q.timezone < 24
    → (in_quiet_hours format_hour utc_hours q now ≡ true) ↔ (
        hours_after q.start_hour (hour_in_zone format_hour utc_hours now q.timezone)
        < hours_after q.start_hour q.end_hour)
unfolding in_quiet_hours
in_quiet_hours_iff format_hour utc_hours q now on start_ok end_ok hour_ok = rw on (
    window_iff q.start_hour q.end_hour (hour_in_zone format_hour utc_hours now q.timezone) start_ok
      end_ok hour_ok)
