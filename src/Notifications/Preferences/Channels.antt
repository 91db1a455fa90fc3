-- ===== src/Notifications/Preferences/Channels.antt =====
-- The channels that `resolve` of preference-resolver.service.ts decides on.
use armstrong_bot.Prelude.{
  ◌≡◌, ◌↔◌, refl, sym, subst, ◌⊎◌, inl, inr, Bool, true, List, [], ◌∷◌, ◌++◌, arith, filter, In,
  In-append, Bool-cases,
}
use armstrong_bot.Notifications.Preferences.{
  NotificationChannel, discord_dm, discord_channel, webhook, email, push, NotificationsGuildConfig,
  ResolveChannelsInput, all_channels, channel_eq, has_channel, dedupe_from, candidates_of,
  candidate_channels,
}

-- The channels that a notification may use: those that are forced, or, if none is, those of the
-- guild.
abbrev pub IsCandidate :
    ResolveChannelsInput → NotificationsGuildConfig → NotificationChannel → Type 0
IsCandidate input config c =
    (In c input.forced_channels) ⊎ ((input.forced_channels ≡ []) × In c config.enabled_channels)

pub channel_eq_iff : (c d : NotificationChannel) → (channel_eq c d ≡ true) ↔ (c ≡ d)
channel_eq_iff discord_dm d = elim d [
  | discord_dm ↦ ground arith
  | discord_channel ↦ ground arith
  | webhook ↦ ground arith
  | email ↦ ground arith
  | push ↦ ground arith
]
channel_eq_iff discord_channel d = elim d [
  | discord_dm ↦ ground arith
  | discord_channel ↦ ground arith
  | webhook ↦ ground arith
  | email ↦ ground arith
  | push ↦ ground arith
]
channel_eq_iff webhook d = elim d [
  | discord_dm ↦ ground arith
  | discord_channel ↦ ground arith
  | webhook ↦ ground arith
  | email ↦ ground arith
  | push ↦ ground arith
]
channel_eq_iff email d = elim d [
  | discord_dm ↦ ground arith
  | discord_channel ↦ ground arith
  | webhook ↦ ground arith
  | email ↦ ground arith
  | push ↦ ground arith
]
channel_eq_iff push d = elim d [
  | discord_dm ↦ ground arith
  | discord_channel ↦ ground arith
  | webhook ↦ ground arith
  | email ↦ ground arith
  | push ↦ ground arith
]

has_channel_iff :
    (c : NotificationChannel) (cs : List NotificationChannel) → (has_channel c cs ≡ true) ↔ In c cs
has_channel_iff c [] = (λ h. cc, λ h. absurd h)
has_channel_iff c (d ∷ ds) = ground (arith, channel_eq_iff d c, has_channel_iff c ds)

In-all_channels : (c : NotificationChannel) → In c all_channels
In-all_channels discord_dm = inl refl
In-all_channels discord_channel = inr (inl refl)
In-all_channels webhook = inr (inr (inl refl))
In-all_channels email = inr (inr (inr (inl refl)))
In-all_channels push = inr (inr (inr (inr (inl refl))))

In-filter :
    (p : NotificationChannel → Bool) (c : NotificationChannel) (cs : List NotificationChannel)
    → In c (filter p cs) ↔ (In c cs × (p c ≡ true))
In-filter p c [] = (λ h. absurd h, λ h. h.0)
In-filter p c (d ∷ ds) =
    let (into, back) = In-filter p c ds in
    elim (Bool-cases (p d)) [
      | inl kept ↦ rw kept (
        λ h. elim h [
          | inl same ↦ (inl same, subst (λ (x : NotificationChannel). p x ≡ true) (sym same) kept)
          | inr later ↦ (inr (into later).0, (into later).1)
        ],
        λ h. elim h.0 [ inl same ↦ inl same | inr later ↦ inr (back (later, h.1)) ],
      )
      | inr gone ↦ rw gone (
        λ h. (inr (into h).0, (into h).1),
        λ h. elim h.0 [
          | inl same ↦ absurd (cc (subst (λ (x : NotificationChannel). p x ≡ true) same h.1, gone))
          | inr later ↦ back (later, h.1)
        ],
      )
    ]

In-dedupe_from :
    (c : NotificationChannel) (seen cs : List NotificationChannel)
    → In c (dedupe_from seen cs) ↔ (In c seen ⊎ In c cs)
unfolding dedupe_from
In-dedupe_from c seen [] = ground arith
In-dedupe_from c seen (d ∷ cs) = elim (Bool-cases (has_channel d seen)) [
  | inl known ↦ rw known (
      let inside : In d seen = (has_channel_iff d seen).0 known in
      let (into, back) = In-dedupe_from c seen cs in
      (
        λ h. elim (into h) [ inl i ↦ inl i | inr i ↦ inr (inr i) ],
        λ h. back (elim h [
          | inl i ↦ inl i
          | inr (inl same) ↦ inl (subst (λ (x : NotificationChannel). In x seen) (sym same) inside)
          | inr (inr i) ↦ inr i
        ]),
      ))
  | inr new ↦ rw new (
      let (into, back) = In-dedupe_from c (seen ++ d ∷ []) cs in
      let (split, join) = In-append c seen (d ∷ []) in
      (
        λ h. elim (into h) [
          | inl i ↦ elim (split i) [
            | inl old ↦ inl old
            | inr (inl same) ↦ inr (inl same)
            | inr (inr none_left) ↦ absurd none_left
          ]
          | inr i ↦ inr (inr i)
        ],
        λ h. back (elim h [
          | inl i ↦ inl (join (inl i))
          | inr (inl same) ↦ inl (join (inr (inl same)))
          | inr (inr i) ↦ inr i
        ]),
      ))
]

candidates_of_iff :
    (forced enabled : List NotificationChannel) (c : NotificationChannel)
    → In c (candidates_of forced enabled) ↔ (In c forced ⊎ ((forced ≡ []) × In c enabled))
candidates_of_iff [] enabled c =
    let (into, back) = In-filter (λ x. has_channel x enabled) c all_channels in
    (
      λ h. inr (refl, (has_channel_iff c enabled).0 (into h).1),
      λ h. elim h [
        | inl i ↦ absurd i
        | inr k ↦ back (In-all_channels c, (has_channel_iff c enabled).1 k.1)
      ],
    )
candidates_of_iff (d ∷ forced) enabled c =
    let (into, back) = In-dedupe_from c [] (d ∷ forced) in
    (
      λ h. elim (into h) [ inl i ↦ absurd i | inr i ↦ inl i ],
      λ h. elim h [ inl i ↦ back (inr i) | inr k ↦ absurd (cc k.0) ],
    )

pub candidate_channels_iff :
    (input : ResolveChannelsInput) (config : NotificationsGuildConfig) (c : NotificationChannel)
    → In c (candidate_channels input config) ↔ IsCandidate input config c
unfolding candidate_channels
candidate_channels_iff input config c =
    candidates_of_iff input.forced_channels config.enabled_channels c
