-- ===== src/Notifications/Preferences/Decided.antt =====
-- What `resolve` of preference-resolver.service.ts decides on each channel.
use armstrong_bot.Prelude.{
  ℕ, ◌≡◌, ◌≢◌, ◌↔◌, refl, sym, ap, ◌∙◌, subst, ◌⊎◌, inl, inr, String, Bool, true, false, not, List,
  [], ◌∷◌, map, Option, none, some, arith, In, All, eq_iff,
}
use armstrong_bot.Notifications.Preferences.{
  NotificationChannel, NotificationPriority, low, normal, high, critical, NotificationsGuildConfig,
  PreferenceRow, ResolveChannelsInput, ChannelDecision, SkipReason, user_disabled, quiet,
  decide_quiet, candidate_channels, same_key, pref_of, non_empty, load_user_prefs, decide,
  in_quiet_hours, is_critical, is_quiet, resolve_channels,
}
use armstrong_bot.Notifications.Preferences.Channels.{
  IsCandidate, channel_eq_iff, candidate_channels_iff,
}

abbrev pub IsAbout : String → NotificationChannel → PreferenceRow → Type 0
IsAbout category c r = (r.category ≡ category) × (r.channel ≡ c)

-- The last row about a category and a channel turns it off.
abbrev pub LastTurnsOff : String → NotificationChannel → List PreferenceRow → Type 0
LastTurnsOff category c [] = ⊥
LastTurnsOff category c (r ∷ rows) =
    LastTurnsOff category c rows
    ⊎ (IsAbout category c r
        × (r.is_enabled ≡ false)
        × All (λ (x : PreferenceRow). ¬ IsAbout category c x) rows)

-- A text that is there and not empty.
abbrev pub IsGiven : Option String → Type 0
IsGiven none = ⊥
IsGiven (some s) = s ≢ ""

-- The notification is for a user of a guild, who turned the channel off for its category.
abbrev pub IsTurnedOff : ResolveChannelsInput → List PreferenceRow → NotificationChannel → Type 0
IsTurnedOff input rows c =
    IsGiven input.guild_id × IsGiven input.user_id × LastTurnsOff input.category c rows

same_key_iff :
    (category : String) (c : NotificationChannel) (r : PreferenceRow)
    → (same_key category c r ≡ true) ↔ IsAbout category c r
same_key_iff category c r = ground (arith, eq_iff r.category category, channel_eq_iff r.channel c)

pref_of-none :
    (category : String) (c : NotificationChannel) (rows : List PreferenceRow)
    → (pref_of category c rows ≡ none) ↔ All (λ (x : PreferenceRow). ¬ IsAbout category c x) rows
pref_of-none category c [] = (λ h. tt, λ h. refl)
pref_of-none category c (r ∷ rows) =
    let later = pref_of-none category c rows in
    let about = same_key_iff category c r in ground (arith, later, about)

pref_of_iff :
    (category : String) (c : NotificationChannel) (rows : List PreferenceRow)
    → (pref_of category c rows ≡ some false) ↔ LastTurnsOff category c rows
pref_of_iff category c [] = (λ h. cc, λ h. absurd h)
pref_of_iff category c (r ∷ rows) =
    let later = pref_of_iff category c rows in
    let unsaid = pref_of-none category c rows in
    let about = same_key_iff category c r in ground (arith, later, unsaid, about)

non_empty_iff : (o : Option String) → (non_empty o ≡ true) ↔ IsGiven o
non_empty_iff none = (λ h. cc, λ h. absurd h)
non_empty_iff (some s) = ground (arith, eq_iff s "")

pref_of-IsTurnedOff :
    (input : ResolveChannelsInput) (rows : List PreferenceRow) (c : NotificationChannel)
    → (pref_of input.category c (load_user_prefs input rows) ≡ some false)
      ↔ IsTurnedOff input rows c
pref_of-IsTurnedOff input rows c = ground (
  arith,
  non_empty_iff input.guild_id,
  non_empty_iff input.user_id,
  pref_of_iff input.category c rows,
)

not_critical_iff : (p : NotificationPriority) → (not (is_critical p) ≡ true) ↔ (p ≢ critical)
not_critical_iff low = (λ h e. cc, λ h. refl)
not_critical_iff normal = (λ h e. cc, λ h. refl)
not_critical_iff high = (λ h e. cc, λ h. refl)
not_critical_iff critical = (λ h. cc, λ h. absurd (h refl))

-- A decision, by whether the user turned the channel off and whether it is quiet.
abbrev pub Rules : (A B : Type 0) → ChannelDecision → Type 0
Rules A B x =
    (A × (x.allowed ≡ false) × (x.reason ≡ some user_disabled))
    ⊎ ((¬ A) × B × (x.allowed ≡ false) × (x.reason ≡ some quiet))
    ⊎ ((¬ A) × (¬ B) × (x.allowed ≡ true) × (x.reason ≡ none))

decision_iff :
    (x : ChannelDecision) (c : NotificationChannel) (b : Bool) (r : Option SkipReason)
    → (x ≡ record { channel = c; allowed = b; reason = r })
      ↔ ((x.channel ≡ c) × (x.allowed ≡ b) × (x.reason ≡ r))
decision_iff x c b r = (
  λ h. (
    ap (λ (y : ChannelDecision). y.channel) h,
    ap (λ (y : ChannelDecision). y.allowed) h,
    ap (λ (y : ChannelDecision). y.reason) h,
  ),
  λ (h, k, l). cc (h, k, l),
)

decide_quiet-Rules :
    (x : ChannelDecision) (c : NotificationChannel) (A : Type 0) (q : Bool)
    → ¬ A
    → (x ≡ decide_quiet c q) ↔ ((x.channel ≡ c) × Rules A (q ≡ true) x)
decide_quiet-Rules x c A true wanted =
    let (into, back) = decision_iff x c false (some quiet) in
    (
      λ h. let (n, a, r) = into h in (n, inr (inl (wanted, refl, a, r))),
      λ (n, rule). elim rule [
        | inl off ↦ absurd (wanted off.0)
        | inr (inl (w, q, a, r)) ↦ back (n, a, r)
        | inr (inr (w, loud, a, r)) ↦ absurd (loud refl)
      ],
    )
decide_quiet-Rules x c A false wanted =
    let (into, back) = decision_iff x c true none in
    (
      λ h. let (n, a, r) = into h in (n, inr (inr (wanted, (λ e. cc e), a, r))),
      λ (n, rule). elim rule [
        | inl off ↦ absurd (wanted off.0)
        | inr (inl (w, q, a, r)) ↦ absurd (cc q)
        | inr (inr (w, loud, a, r)) ↦ back (n, a, r)
      ],
    )

decide-Rules :
    (x : ChannelDecision) (c : NotificationChannel) (pref : Option Bool) (q : Bool)
    → (x ≡ decide c pref q) ↔ ((x.channel ≡ c) × Rules (pref ≡ some false) (q ≡ true) x)
decide-Rules x c none q = decide_quiet-Rules x c (none ≡ some false) q (λ e. cc e)
decide-Rules x c (some true) q = decide_quiet-Rules x c (some true ≡ some false) q (λ e. cc e)
decide-Rules x c (some false) q =
    let (into, back) = decision_iff x c false (some user_disabled) in
    (
      λ h. let (n, a, r) = into h in (n, inl (refl, a, r)),
      λ (n, rule). elim rule [
        | inl (off, a, r) ↦ back (n, a, r)
        | inr (inl (w, q, a, r)) ↦ absurd (w refl)
        | inr (inr (w, loud, a, r)) ↦ absurd (w refl)
      ],
    )

Rules-same : (x : ChannelDecision) (A B C D : Type 0) → A ↔ C → B ↔ D → Rules A B x ↔ Rules C D x
Rules-same x A B C D (ac, ca) (bd, db) = (
  λ rule. elim rule [
    | inl (off, a, r) ↦ inl (ac off, a, r)
    | inr (inl (w, q, a, r)) ↦ inr (inl ((λ off. w (ca off)), bd q, a, r))
    | inr (inr (w, loud, a, r)) ↦ inr (inr ((λ off. w (ca off)), (λ q. loud (db q)), a, r))
  ],
  λ rule. elim rule [
    | inl (off, a, r) ↦ inl (ca off, a, r)
    | inr (inl (w, q, a, r)) ↦ inr (inl ((λ off. w (ac off)), db q, a, r))
    | inr (inr (w, loud, a, r)) ↦ inr (inr ((λ off. w (ac off)), (λ q. loud (bd q)), a, r))
  ],
)

In-map :
    (f : NotificationChannel → ChannelDecision) (cs : List NotificationChannel)
    (x : ChannelDecision)
    → In x (map f cs) ↔ ((c : NotificationChannel) × In c cs × (x ≡ f c))
In-map f [] x = (λ h. absurd h, λ (c, i, e). absurd i)
In-map f (d ∷ cs) x =
    let (into, back) = In-map f cs x in
    (
      λ h. elim h [
        | inl same ↦ (d, inl refl, same)
        | inr i ↦ ((into i).0, inr (into i).1, (into i).2)
      ],
      λ (c, i, e). elim i [ inl same ↦ inl (e ∙ ap f same) | inr j ↦ inr (back (c, j, e)) ],
    )

module _ (format_hour : String → ℕ → Option ℕ) (utc_hours : ℕ → ℕ) where
  -- The notification is not critical, and the hours of the guild are quiet.
  abbrev pub IsHeldBack : ResolveChannelsInput → NotificationsGuildConfig → Type 0
  IsHeldBack input config =
      (input.priority ≢ critical)
      × (in_quiet_hours format_hour utc_hours config.quiet_hours input.now ≡ true)

  -- What a channel gets: refused for the user who turned it off, or else refused while the
  -- notification is held back, or else let through.
  abbrev pub IsDecision :
      ResolveChannelsInput
      → NotificationsGuildConfig
      → List PreferenceRow
      → ChannelDecision
      → Type 0
  IsDecision input config rows x =
      Rules (IsTurnedOff input rows x.channel) (IsHeldBack input config) x

  is_quiet_iff :
      (input : ResolveChannelsInput) (config : NotificationsGuildConfig)
      → (is_quiet format_hour utc_hours input config ≡ true) ↔ IsHeldBack input config
  is_quiet_iff input config = ground (arith, not_critical_iff input.priority)

  -- A decision is among those returned exactly if it is about a candidate channel and is the right
  -- one for it: refused as disabled if the user of a guild turned the channel off for the category,
  -- by the last row about both; or else refused as quiet if the notification is not critical and the
  -- hours of the guild are quiet; or else let through, with no reason.
  pub resolve_channels_iff :
      (input : ResolveChannelsInput) (config : NotificationsGuildConfig) (rows : List PreferenceRow)
      (x : ChannelDecision)
      → In x (resolve_channels format_hour utc_hours input config rows)
        ↔ (IsCandidate input config x.channel × IsDecision input config rows x)
  unfolding resolve_channels
  resolve_channels_iff input config rows x =
      let pref =
        λ (d : NotificationChannel). pref_of input.category d (load_user_prefs input rows) in
      let q = is_quiet format_hour utc_hours input config in
      let f : NotificationChannel → ChannelDecision = λ d. decide d (pref d) q in
      let cs = candidate_channels input config in
      let (into, back) = In-map f cs x in
      let (named, candidates) = candidate_channels_iff input config x.channel in
      let (ruled, made) = decide-Rules x x.channel (pref x.channel) q in
      let (meant, given) =
        Rules-same x (pref x.channel ≡ some false) (q ≡ true) (IsTurnedOff input rows x.channel)
          (IsHeldBack input config) (pref_of-IsTurnedOff input rows x.channel)
          (is_quiet_iff input config) in
      (
        λ h.
            let (c, there, is) = into h in
            let same : x.channel ≡ c = ((decide-Rules x c (pref c) q).0 is).0 in
            (
              named (subst (λ y. In y cs) (sym same) there),
              meant (ruled (subst (λ y. x ≡ f y) (sym same) is)).1,
            ),
        λ (candidate, rule). back (x.channel, candidates candidate, made (refl, given rule)),
      )
