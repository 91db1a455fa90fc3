-- ===== src/Permissions/Service/Fresh.antt =====
-- src/core/permissions/application/permission.service.ts: no request leaves a cached snapshot that
-- the tables no longer give.
use armstrong_bot.Prelude.{
  includes, ◌||◌, ◌++◌, if◌then◌else◌, true, false, Bool, ◌≡◌, refl, sym, subst, ◌∙◌, inl, inr,
  String, Bool, true, false, List, [], ◌∷◌, Option, none, some, lookup, lookup-insert,
  lookup-remove, Bool-cases, ◌==◌, eq_iff, arith, ok, err,
}
use armstrong_bot.Permissions.Claim.{Text}
use armstrong_bot.Permissions.Resolver.{Effect}
use armstrong_bot.Permissions.Service.Tables.{
  Database, StoredGroup, find_group_by_key, upsert_mapping, remove_mapping, upsert_grant,
  remove_grant,
}
use armstrong_bot.Permissions.Service.{
  Actor, Snapshot, PermissionState, PermissionEvent, group_assigned, group_unassigned,
  claim_grant_changed, Answered, load_snapshot, cached_or_loaded, changed, invalidate, explain, can,
  denied_unless, assert_permission, assign_found, assign_group, unassign_found, unassign_group,
  set_found, set_claim_grant, remove_found, remove_claim_grant, Request, explain_request,
  can_request, assert_request, assign_request, unassign_request, set_request, remove_request,
  expire_request, deliver_request, deliver_event, take_pending, handle_request, handle_requests,
}
use armstrong_bot.Permissions.Service.Others.{
  HasOwnIds, Keeps, find_group_by_key-there, upsert_mapping-Keeps, remove_mapping-Keeps,
  upsert_grant-Keeps, remove_grant-Keeps,
}

-- A cached snapshot of a guild for which no event is queued is what loading it now gives.
abbrev pub IsFresh : PermissionState → Type 0
IsFresh s =
    (guild : String) (snapshot : Snapshot)
    → lookup guild s.snapshots ≡ some snapshot
    → includes guild s.pending ≡ false
    → snapshot ≡ load_snapshot guild s.db

abbrev pub IsCurrent : PermissionState → Type 0
IsCurrent s = IsFresh s × HasOwnIds s.db.groups

includes-append :
    (guild other : String) (gs : List String)
    → includes other (gs ++ guild ∷ []) ≡ (includes other gs || guild == other)
includes-append guild other [] = ground arith
includes-append guild other (g ∷ gs) = ground (arith, includes-append guild other gs)

includes-take_pending :
    (guild other : String) (gs : List String)
    → (guild == other) ≡ false
    → includes other (take_pending guild gs) ≡ includes other gs
includes-take_pending guild other [] apart = refl
includes-take_pending guild other (g ∷ gs) apart = ground (
  arith,
  apart,
  eq_iff g guild,
  eq_iff g other,
  eq_iff guild other,
  includes-take_pending guild other gs apart,
)

pub changed-IsCurrent :
    (guild : String) (db : Database) (event : PermissionEvent) (s : PermissionState)
    → IsCurrent s
    → Keeps guild db s.db
    → IsCurrent (changed guild db event s)
changed-IsCurrent guild db event s (fresh, own) (groups, others) = (
  λ other snapshot cached handled.
      let queued = includes-append guild other s.pending in
      let apart : (guild == other) ≡ false = ground (arith, queued, handled) in
      let before : includes other s.pending ≡ false = ground (arith, queued, handled) in
      fresh other snapshot cached before ∙ sym (others other apart),
  subst HasOwnIds (sym groups) own,
)

-- The handler of an event of a guild leaves no snapshot of it.
deliver_event-IsCurrent :
    (guild : String) (s : PermissionState) → IsCurrent s → IsCurrent (deliver_event guild s)
unfolding deliver_event
deliver_event-IsCurrent guild s (fresh, own) =
    let handled : PermissionState =
      invalidate guild (record s { pending = take_pending guild s.pending }) in
    let after : IsCurrent handled = (
      λ other snapshot cached quiet.
          let left = lookup-remove guild other s.snapshots in
          elim (Bool-cases (guild == other)) [
            | inl same ↦ absurd (cc (rw (left, same) at cached))
            | inr apart ↦
                let old : lookup other s.snapshots ≡ some snapshot =
                  ground (arith, left, apart, cached) in
                let before : includes other s.pending ≡ false =
                  sym (includes-take_pending guild other s.pending apart) ∙ quiet in
                fresh other snapshot old before
          ],
      own,
    ) in
    elim (Bool-cases (includes guild s.pending)) [
      | inl queued ↦ subst (λ (b : Bool). IsCurrent (if b then handled else s)) (sym queued) after
      | inr idle ↦
          subst (λ (b : Bool). IsCurrent (if b then handled else s)) (sym idle) (fresh, own)
    ]

pub invalidate-IsCurrent :
    (guild : String) (s : PermissionState) → IsCurrent s → IsCurrent (invalidate guild s)
invalidate-IsCurrent guild s (fresh, own) = (
  λ other snapshot cached handled.
      let left = lookup-remove guild other s.snapshots in
      fresh other snapshot (ground (arith, left, cached)) handled,
  own,
)

-- What reading through the cache gives: what loading gives, if no event of the guild is queued, and a
-- state that is current.
abbrev Reads : String → Option Snapshot → PermissionState → Type 0
Reads guild found s =
    (includes guild s.pending ≡ false
      → (cached_or_loaded guild found s).0 ≡ load_snapshot guild s.db)
    × ((cached_or_loaded guild found s).1.db ≡ s.db)
    × IsCurrent (cached_or_loaded guild found s).1

Reads-found :
    (guild : String) (found : Option Snapshot) (s : PermissionState)
    → IsCurrent s
    → lookup guild s.snapshots ≡ found
    → Reads guild found s
unfolding cached_or_loaded
Reads-found guild (some snapshot) s (fresh, own) there =
    ((λ handled. fresh guild snapshot there handled), refl, (fresh, own))
Reads-found guild none s (fresh, own) there =
    let kept : IsFresh (cached_or_loaded guild none s).1 = λ other snapshot cached handled.
      let after = lookup-insert guild other (load_snapshot guild s.db) s.snapshots in
      elim (Bool-cases (guild == other)) [
        | inl same ↦
            let is_loaded : some (load_snapshot guild s.db) ≡ some snapshot =
              ground (arith, after, same, cached) in
            let names : guild ≡ other = (eq_iff guild other).0 same in
            subst (λ g. snapshot ≡ load_snapshot g s.db) names (cc)
        | inr apart ↦ fresh other snapshot (ground (arith, after, apart, cached)) handled
      ] in
    ((λ handled. refl), refl, (kept, own))

pub cached_or_loaded-Reads :
    (guild : String) (s : PermissionState) → IsCurrent s → Reads guild (lookup guild s.snapshots) s
cached_or_loaded-Reads guild s current = Reads-found guild (lookup guild s.snapshots) s current refl

explain-IsCurrent :
    (owners : List String) (actor : Actor) (claim : Text) (s : PermissionState)
    → IsCurrent s
    → IsCurrent (explain owners actor claim s).1 × ((explain owners actor claim s).1.db ≡ s.db)
unfolding explain
explain-IsCurrent owners actor claim s current =
    let (_, db, after) = cached_or_loaded-Reads actor.guild_id s current in (after, db)

denied_unless-IsCurrent :
    (actor : Actor) (claim : Text) (answered : Answered Bool)
    → IsCurrent answered.1
    → IsCurrent (denied_unless actor claim answered).1
unfolding denied_unless
denied_unless-IsCurrent actor claim (err e, s) current = current
denied_unless-IsCurrent actor claim (ok true, s) current = current
denied_unless-IsCurrent actor claim (ok false, s) current = current

-- A change of a group that a key may name.
assign_found-IsCurrent :
    (guild role key : String) (found : Option StoredGroup) (s : PermissionState)
    → IsCurrent s
    → IsCurrent (assign_found guild role key found s).1
unfolding assign_found
assign_found-IsCurrent guild role key none s current = current
assign_found-IsCurrent guild role key (some g) s current =
    changed-IsCurrent guild (upsert_mapping guild role g.id s.db) (group_assigned guild role key) s
      current (upsert_mapping-Keeps guild role g.id s.db)

unassign_found-IsCurrent :
    (guild role key : String) (found : Option StoredGroup) (s : PermissionState)
    → IsCurrent s
    → IsCurrent (unassign_found guild role key found s)
unfolding unassign_found
unassign_found-IsCurrent guild role key none s current = current
unassign_found-IsCurrent guild role key (some g) s current =
    changed-IsCurrent guild (remove_mapping guild role g.id s.db) (group_unassigned guild role key)
      s current (remove_mapping-Keeps guild role g.id s.db)

set_found-IsCurrent :
    (guild key : String) (claim : Text) (effect : Effect) (found : Option StoredGroup)
    (s : PermissionState)
    → IsCurrent s
    → find_group_by_key guild key s.db ≡ found
    → IsCurrent (set_found guild key claim effect found s).1
unfolding set_found
set_found-IsCurrent guild key claim effect none s current there = current
set_found-IsCurrent guild key claim effect (some g) s current there =
    changed-IsCurrent guild (upsert_grant guild g.id claim effect s.db)
      (claim_grant_changed guild key claim (some effect)) s current
      (upsert_grant-Keeps guild claim effect s.db current.1 g
        (find_group_by_key-there guild key s.db g there))

remove_found-IsCurrent :
    (guild key : String) (claim : Text) (found : Option StoredGroup) (s : PermissionState)
    → IsCurrent s
    → find_group_by_key guild key s.db ≡ found
    → IsCurrent (remove_found guild key claim found s)
unfolding remove_found
remove_found-IsCurrent guild key claim none s current there = current
remove_found-IsCurrent guild key claim (some g) s current there =
    changed-IsCurrent guild (remove_grant g.id claim s.db)
      (claim_grant_changed guild key claim none) s current
      (remove_grant-Keeps guild claim s.db current.1 g
        (find_group_by_key-there guild key s.db g there))

handle_request-IsCurrent :
    (owners : List String) (r : Request) (s : PermissionState)
    → IsCurrent s
    → IsCurrent (handle_request owners r s)
unfolding handle_request can assert_permission assign_group unassign_group set_claim_grant
    remove_claim_grant
handle_request-IsCurrent owners (explain_request actor claim) s current =
    (explain-IsCurrent owners actor claim s current).0
handle_request-IsCurrent owners (can_request actor claim) s current =
    (explain-IsCurrent owners actor claim s current).0
handle_request-IsCurrent owners (assert_request actor claim) s current =
    denied_unless-IsCurrent actor claim (can owners actor claim s)
      (explain-IsCurrent owners actor claim s current).0
handle_request-IsCurrent owners (assign_request guild role key) s current =
    assign_found-IsCurrent guild role key (find_group_by_key guild key s.db) s current
handle_request-IsCurrent owners (unassign_request guild role key) s current =
    unassign_found-IsCurrent guild role key (find_group_by_key guild key s.db) s current
handle_request-IsCurrent owners (set_request guild key claim effect) s current =
    set_found-IsCurrent guild key claim effect (find_group_by_key guild key s.db) s current refl
handle_request-IsCurrent owners (remove_request guild key claim) s current =
    remove_found-IsCurrent guild key claim (find_group_by_key guild key s.db) s current refl
handle_request-IsCurrent owners (deliver_request guild) s current =
    deliver_event-IsCurrent guild s current
handle_request-IsCurrent owners (expire_request guild) s current =
    invalidate-IsCurrent guild s current

pub handle_requests-IsCurrent :
    (owners : List String) (rs : List Request) (s : PermissionState)
    → IsCurrent s
    → IsCurrent (handle_requests owners rs s)
unfolding handle_requests
handle_requests-IsCurrent owners [] s current = current
handle_requests-IsCurrent owners (r ∷ rest) s current =
    handle_requests-IsCurrent owners rest (handle_request owners r s)
      (handle_request-IsCurrent owners r s current)
