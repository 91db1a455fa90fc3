-- ===== src/Permissions/Service/Tests.antt =====
-- Runs of the permission service at concrete inputs.
use armstrong_bot.Prelude.{
  ◌==◌, In, same_codes, same_codes_iff, eq_refl, inl, inr, ◌≡◌, ◌≢◌, refl, ap, zero, suc, sym, ◌∙◌,
  eq_iff, ℕ, String, true, false, List, [], ◌∷◌, none, some, codes, ok, arith,
}
use armstrong_bot.Prelude.Int.{pos}
use armstrong_bot.Permissions.Claim.{Text}
use armstrong_bot.Permissions.Resolver.{grant, deny, resolve}
use armstrong_bot.Permissions.Service.Tables.{StoredGroup, find_group_by_key, upsert_grant}
use armstrong_bot.Permissions.Service.{
  Actor, PermissionState, Request, can_request, set_request, deliver_request, can, handle_requests,
  set_claim_grant, remove_claim_grant, on_guild_created,
}
use armstrong_bot.Permissions.Service.Tiers.{on_guild_created-again}
use armstrong_bot.Permissions.Service.Grants.{IsCollation, IsNamed, effect_of, claim_grants_after}

abbrev member_of : String → String → StoredGroup
member_of id guild = record {
  id = id;
  guild_id = guild;
  key = "member";
  name = "Member";
  priority = pos 100;
  is_system = true;
  deleted = false;
}

-- The groups of members of two guilds, where the members of the first may view tickets.
abbrev sample_state : PermissionState
sample_state = record {
  db = record {
    groups = member_of "m1" "one" ∷ member_of "m2" "two" ∷ [];
    grants =
        record { guild_id = "one"; group_id = "m1"; claim = codes "tickets.view"; effect = grant }
        ∷ [];
    inheritances = [];
    mappings = [];
    made_ids = 2;
    same_claim = same_codes;
    same_group_key = λ a b. a == b;
  };
  snapshots = [];
  events = [];
  pending = [];
}

guilds_apart : ◌≢◌ {A = String} "one" "two"
guilds_apart same = ground (arith, eq_iff "one" "two", same)

abbrev sample_actor : Actor
sample_actor = record {
  user_id = "u";
  guild_id = "one";
  discord_role_ids = [];
  is_guild_owner = false;
}

abbrev view : Text
view = codes "tickets.view"

-- The snapshot is cached by the first request, the claim is then denied, and the event is handled.
abbrev sample_requests : List Request
sample_requests =
    can_request sample_actor view
    ∷ set_request "one" "member" view deny
    ∷ set_request "two" "member" view grant
    ∷ deliver_request "one"
    ∷ []

viewed_before : (can [] sample_actor view sample_state).0 ≡ ok true
unfolding can resolve
viewed_before = refl

viewed_after :
    (can [] sample_actor view (handle_requests [] sample_requests sample_state)).0 ≡ ok false
unfolding can resolve handle_requests find_group_by_key upsert_grant
viewed_after = refl

-- Until the event is handled, the cached snapshot answers.
viewed_stale :
    (can [] sample_actor view (
      handle_requests []
        (can_request sample_actor view ∷ set_request "one" "member" view deny ∷ [])
        sample_state)).0
    ≡ ok true
unfolding can resolve handle_requests find_group_by_key upsert_grant
viewed_stale = refl

abbrev served : PermissionState
served = handle_requests [] sample_requests sample_state

same_codes_self : (a : Text) → same_codes a a ≡ true
same_codes_self a = (same_codes_iff a a).1 refl

sample-IsCollation : IsCollation same_codes
sample-IsCollation = (
  same_codes_self,
  λ a b h. (same_codes_iff b a).1 (sym ((same_codes_iff a b).0 h)),
  λ a b c h k. (same_codes_iff a c).1 ((same_codes_iff a b).0 h ∙ (same_codes_iff b c).0 k),
)

sample-IsNamed : IsNamed "one" "member" sample_state.db (member_of "m1" "one")
sample-IsNamed = record {
  there = inl refl;
  of_guild = refl;
  live = refl;
  keyed = refl;
  only = only_one;
}
  where
    only_one :
        (h : StoredGroup)
        → In h sample_state.db.groups
        → h.guild_id ≡ "one"
        → sample_state.db.same_group_key h.key "member" ≡ true
        → h ≡ member_of "m1" "one"
    only_one h (inl here) of_guild keyed = here
    only_one h (inr (inl there)) of_guild keyed =
        absurd (guilds_apart (sym of_guild ∙ ap (λ x. x.guild_id) there))
    only_one h (inr (inr none_left)) of_guild keyed = elim none_left [ ]

claim_grants_after_example :
    ((set_claim_grant "one" "member" view deny sample_state).0 ≡ ok tt)
    × (effect_of same_codes "m1" view
          (set_claim_grant "one" "member" view deny sample_state).1.db.grants
        ≡ some deny)
    × (effect_of same_codes "m1" view
          (remove_claim_grant "one" "member" view sample_state).db.grants
        ≡ none)
claim_grants_after_example =
    claim_grants_after "one" "member" view deny "m1" view (member_of "m1" "one") sample_state
      sample-IsCollation sample-IsNamed

abbrev id_of : ℕ → String
id_of zero = "o"
id_of (suc zero) = "a"
id_of (suc (suc n)) = "m"

-- The members of the second guild were denied a claim that is a default.
abbrev denied_state : PermissionState
denied_state = (set_claim_grant "two" "member" (codes "tickets.create") deny sample_state).1

on_guild_created-again_example :
    (on_guild_created id_of "two" (on_guild_created id_of "two" denied_state)
      ≡ on_guild_created id_of "two" denied_state)
    × (effect_of same_codes "m2"
          (codes "tickets.create")
          (on_guild_created id_of "two" denied_state).db.grants
        ≡ some deny)
unfolding set_claim_grant find_group_by_key upsert_grant
on_guild_created-again_example =
    on_guild_created-again id_of "two" denied_state "m2" (codes "tickets.create") same_codes_self
      (λ a. eq_refl a)
