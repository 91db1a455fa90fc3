-- ===== src/Notifications/Preferences.antt =====
-- src/modules/notifications/domain/preference-resolver.service.ts. The rows of the repository and
-- the time zone's formatter are inputs, and so is the cache, which only repeats the rows. A key of
-- the preferences is the pair of which the source joins the texts: no channel's name has a colon.
pub mod QuietHours
pub mod Channels
pub mod Decided
use armstrong_bot.Prelude.{
  ℕ, ◌%◌, String, Bool, true, false, ◌&&◌, ◌||◌, not, List, [], ◌∷◌, ◌++◌, map, Option, none, some,
  filter, eqb, ltb, leb, if◌then◌else◌, ◌==◌,
}

pub data NotificationChannel : Type 0 where
  discord_dm discord_channel webhook email push : NotificationChannel

pub data NotificationPriority : Type 0 where
  low normal high critical : NotificationPriority

pub record QuietHoursConfig : Type 0 where
  pub is_enabled : Bool
  pub start_hour : ℕ
  pub end_hour : ℕ
  pub timezone : String

pub record NotificationsGuildConfig : Type 0 where
  pub enabled_channels : List NotificationChannel
  pub quiet_hours : QuietHoursConfig

pub record PreferenceRow : Type 0 where
  pub category : String
  pub channel : NotificationChannel
  pub is_enabled : Bool

pub record ResolveChannelsInput : Type 0 where
  pub guild_id : Option String
  pub user_id : Option String
  pub category : String
  pub priority : NotificationPriority
  pub forced_channels : List NotificationChannel
  pub now : ℕ

pub data SkipReason : Type 0 where
  user_disabled quiet : SkipReason

pub record ChannelDecision : Type 0 where
  pub channel : NotificationChannel
  pub allowed : Bool
  pub reason : Option SkipReason

abbrev pub all_channels : List NotificationChannel
all_channels = discord_dm ∷ discord_channel ∷ webhook ∷ email ∷ push ∷ []

abbrev pub channel_eq : NotificationChannel → NotificationChannel → Bool
channel_eq discord_dm discord_dm = true
channel_eq discord_channel discord_channel = true
channel_eq webhook webhook = true
channel_eq email email = true
channel_eq push push = true
channel_eq _ _ = false

abbrev pub has_channel : NotificationChannel → List NotificationChannel → Bool
has_channel c [] = false
has_channel c (d ∷ ds) = channel_eq d c || has_channel c ds

abbrev pub is_critical : NotificationPriority → Bool
is_critical critical = true
is_critical _ = false

-- `[...new Set(channels)]`, with what is in the set so far.
pub dedupe_from : List NotificationChannel → List NotificationChannel → List NotificationChannel
dedupe_from seen [] = seen
dedupe_from seen (c ∷ cs) =
    let added = if has_channel c seen then seen else seen ++ c ∷ [] in dedupe_from added cs

abbrev pub candidates_of :
    List NotificationChannel → List NotificationChannel → List NotificationChannel
candidates_of [] enabled = filter (λ c. has_channel c enabled) all_channels
candidates_of (c ∷ forced) enabled = dedupe_from [] (c ∷ forced)

unfoldable pub candidate_channels :
    ResolveChannelsInput → NotificationsGuildConfig → List NotificationChannel
unfolding dedupe_from
candidate_channels input config = candidates_of input.forced_channels config.enabled_channels

abbrev pub same_key : String → NotificationChannel → PreferenceRow → Bool
same_key category channel r = r.category == category && channel_eq r.channel channel

-- The value that the map has after all rows are set: the last one of a key.
abbrev pub pref_of : String → NotificationChannel → List PreferenceRow → Option Bool
pref_of category channel [] = none
pref_of category channel (r ∷ rows) = elim (pref_of category channel rows) [
  | some b ↦ some b
  | none ↦ if same_key category channel r then some r.is_enabled else none
]

abbrev pub non_empty : Option String → Bool
non_empty none = false
non_empty (some s) = not (s == "")

-- `loadUserPrefs`: none without a guild or a user.
abbrev pub load_user_prefs : ResolveChannelsInput → List PreferenceRow → List PreferenceRow
load_user_prefs input rows =
    if non_empty input.guild_id && non_empty input.user_id then rows else []

abbrev pub decide_quiet : NotificationChannel → Bool → ChannelDecision
decide_quiet channel true = record { channel = channel; allowed = false; reason = some quiet }
decide_quiet channel false = record { channel = channel; allowed = true; reason = none }

abbrev pub decide : NotificationChannel → Option Bool → Bool → ChannelDecision
decide channel (some false) is_quiet = record {
  channel = channel;
  allowed = false;
  reason = some user_disabled;
}
decide channel (some true) is_quiet = decide_quiet channel is_quiet
decide channel none is_quiet = decide_quiet channel is_quiet

-- The formatter's hour, or none if it throws or gives no number.
module _ (format_hour : String → ℕ → Option ℕ) (utc_hours : ℕ → ℕ) where
  abbrev pub hour_in_zone : ℕ → String → ℕ
  hour_in_zone now timezone = elim (format_hour timezone now) [
    | none ↦ utc_hours now
    | some hour ↦ hour % 24
  ]

  unfoldable pub in_quiet_hours : QuietHoursConfig → ℕ → Bool
  in_quiet_hours q now =
      if not q.is_enabled
      then false
      else let hour = hour_in_zone now q.timezone in
        if eqb q.start_hour q.end_hour
        then false
        else if ltb q.end_hour q.start_hour
        then leb q.start_hour hour || ltb hour q.end_hour
        else leb q.start_hour hour && ltb hour q.end_hour

  abbrev pub is_quiet : ResolveChannelsInput → NotificationsGuildConfig → Bool
  is_quiet input config =
      not (is_critical input.priority) && in_quiet_hours config.quiet_hours input.now

  unfoldable pub resolve_channels :
      ResolveChannelsInput → NotificationsGuildConfig → List PreferenceRow → List ChannelDecision
  unfolding candidate_channels in_quiet_hours
  resolve_channels input config rows =
      map
        (λ c.
          decide c (pref_of input.category c (load_user_prefs input rows)) (is_quiet input config))
        (candidate_channels input config)
