-- ===== src/Notifications/Tests.antt =====
-- Runs of the preferences at concrete inputs.
use armstrong_bot.Prelude.{
  ℕ, ◌≡◌, ◌↔◌, ◌<◌, refl, String, true, false, List, [], ◌∷◌, Option, none, some, arith, In,
}
use armstrong_bot.Notifications.Preferences.{
  email, push, normal, QuietHoursConfig, NotificationsGuildConfig, PreferenceRow,
  ResolveChannelsInput, ChannelDecision, user_disabled, hour_in_zone, in_quiet_hours,
  resolve_channels,
}
use armstrong_bot.Notifications.Preferences.QuietHours.{hours_after, in_quiet_hours_iff}
use armstrong_bot.Notifications.Preferences.Channels.{IsCandidate}
use armstrong_bot.Notifications.Preferences.Decided.{IsDecision, resolve_channels_iff}

-- A zone that is an hour ahead.
abbrev format_hour : String → ℕ → Option ℕ
format_hour zone now = some 24

abbrev utc_hours : ℕ → ℕ
utc_hours now = 23

abbrev night : QuietHoursConfig
night = record { is_enabled = true; start_hour = 23; end_hour = 7; timezone = "Europe/Lisbon" }

abbrev guild_config : NotificationsGuildConfig
guild_config = record {
  enabled_channels = push ∷ email ∷ [];
  quiet_hours = record night { is_enabled = false };
}

abbrev sample_input : ResolveChannelsInput
sample_input = record {
  guild_id = some "g";
  user_id = some "u";
  category = "digest";
  priority = normal;
  forced_channels = [];
  now = 0;
}

abbrev sample_rows : List PreferenceRow
sample_rows = record { category = "digest"; channel = push; is_enabled = false } ∷ []

in_quiet_hours_iff_example :
    (in_quiet_hours format_hour utc_hours night 0 ≡ true)
    ↔ (hours_after 23 (hour_in_zone format_hour utc_hours 0 "Europe/Lisbon") < hours_after 23 7)
in_quiet_hours_iff_example =
    in_quiet_hours_iff format_hour utc_hours night 0 refl (omega arith) (omega arith) (omega arith)

decisions :
    resolve_channels format_hour utc_hours sample_input guild_config sample_rows
    ≡ record { channel = email; allowed = true; reason = none }
      ∷ record { channel = push; allowed = false; reason = some user_disabled }
      ∷ []
unfolding resolve_channels
decisions = refl

abbrev email_passes : ChannelDecision
email_passes = record { channel = email; allowed = true; reason = none }

resolve_channels_iff_example :
    In email_passes (resolve_channels format_hour utc_hours sample_input guild_config sample_rows)
    ↔ (IsCandidate sample_input guild_config email
        × IsDecision format_hour utc_hours sample_input guild_config sample_rows email_passes)
resolve_channels_iff_example =
    resolve_channels_iff format_hour utc_hours sample_input guild_config sample_rows email_passes
