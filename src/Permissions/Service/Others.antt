-- ===== src/Permissions/Service/Others.antt =====
-- src/core/permissions: a change of one guild's tables leaves the snapshot of every other guild, since
-- a group is named by an id that no other guild's group has.
use armstrong_bot.Prelude.{
  ◌≡◌, refl, sym, subst, inl, inr, String, Bool, true, false, List, [], ◌∷◌, some, map, filter,
  In-find, not, In, ◌==◌, eq_iff, arith,
}
use armstrong_bot.Permissions.Claim.{Text}
use armstrong_bot.Permissions.Resolver.{Effect}
use armstrong_bot.Permissions.Snapshot.{GroupRow}
use armstrong_bot.Permissions.Service.Tables.{
  Database, StoredGroup, StoredGrant, StoredMapping, is_live_in, has_key, find_group_by_key,
  grants_of, row_of, load_rows, mappings_of, load_mappings, with_mapping, is_mapping,
  upsert_mapping, remove_mapping, with_grant, is_grant, upsert_grant, remove_grant,
}
use armstrong_bot.Permissions.Service.{load_snapshot}

-- Groups with the same id are of the same guild.
abbrev pub HasOwnIds : List StoredGroup → Type 0
HasOwnIds groups =
    (g h : StoredGroup) → In g groups → In h groups → g.id ≡ h.id → g.guild_id ≡ h.guild_id

-- The group that a key of a guild names is a group of that guild.
pub find_group_by_key-there :
    (guild key : String) (db : Database) (g : StoredGroup)
    → find_group_by_key guild key db ≡ some g
    → In g db.groups × (g.guild_id ≡ guild)
unfolding find_group_by_key
find_group_by_key-there guild key db g found =
    let (there, ok) = In-find (has_key db.same_group_key guild key) db.groups g found in
    (there, ground (arith, ok, eq_iff g.guild_id guild))

mappings_of-with_mapping :
    (guild other role id : String) (ms : List StoredMapping)
    → (guild == other) ≡ false
    → mappings_of other (with_mapping guild role id ms) ≡ mappings_of other ms
mappings_of-with_mapping guild other role id [] apart = ground (arith, apart)
mappings_of-with_mapping guild other role id (m ∷ ms) apart =
    ground (arith, apart, mappings_of-with_mapping guild other role id ms apart)

mappings_of-filter :
    (guild other role id : String) (ms : List StoredMapping)
    → (guild == other) ≡ false
    → mappings_of other (filter (λ m. not (is_mapping guild role id m)) ms) ≡ mappings_of other ms
mappings_of-filter guild other role id [] apart = refl
mappings_of-filter guild other role id (m ∷ ms) apart = ground (
  arith,
  apart,
  eq_iff m.guild_id guild,
  eq_iff m.guild_id other,
  eq_iff guild other,
  mappings_of-filter guild other role id ms apart,
)

grants_of-with_grant :
    (same : Text → Text → Bool) (guild id other : String) (claim : Text) (effect : Effect)
    (grants : List StoredGrant)
    → (id == other) ≡ false
    → grants_of other (with_grant same guild id claim effect grants) ≡ grants_of other grants
grants_of-with_grant same guild id other claim effect [] apart = ground (arith, apart)
grants_of-with_grant same guild id other claim effect (r ∷ rest) apart = ground (
  arith,
  apart,
  eq_iff r.group_id id,
  eq_iff r.group_id other,
  eq_iff id other,
  grants_of-with_grant same guild id other claim effect rest apart,
)

grants_of-filter :
    (same : Text → Text → Bool) (id other : String) (claim : Text) (grants : List StoredGrant)
    → (id == other) ≡ false
    → grants_of other (filter (λ r. not (is_grant same id claim r)) grants) ≡ grants_of other grants
grants_of-filter same id other claim [] apart = refl
grants_of-filter same id other claim (r ∷ rest) apart = ground (
  arith,
  apart,
  eq_iff r.group_id id,
  eq_iff r.group_id other,
  eq_iff id other,
  grants_of-filter same id other claim rest apart,
)

-- The rows of the live groups are the same when each of them has the same row.
map-live :
    (guild : String) (f h : StoredGroup → GroupRow) (groups : List StoredGroup)
    → ((g : StoredGroup) → In g groups → g.guild_id ≡ guild → f g ≡ h g)
    → map f (filter (is_live_in guild) groups) ≡ map h (filter (is_live_in guild) groups)
map-live guild f h [] same = refl
map-live guild f h (g ∷ gs) same =
    let rest = map-live guild f h gs (λ x there. same x (inr there)) in
    step (g.guild_id == guild) refl g.deleted refl rest
  where
    step :
        (b : Bool)
        → (g.guild_id == guild) ≡ b
        → (d : Bool) → g.deleted ≡ d
        → map f (filter (is_live_in guild) gs) ≡ map h (filter (is_live_in guild) gs)
        → map f (filter (is_live_in guild) (g ∷ gs)) ≡ map h (filter (is_live_in guild) (g ∷ gs))
    step true e false d rest =
        let here = same g (inl refl) ((eq_iff g.guild_id guild).0 e) in
        ground (arith, e, d, here, rest)
    step true e true d rest = ground (arith, e, d, rest)
    step false e d live rest = ground (arith, e, rest)

load_rows-grants :
    (other id : String) (grants : List StoredGrant) (db : Database)
    → HasOwnIds db.groups
    → (g : StoredGroup) → In g db.groups
    → g.id ≡ id
    → (g.guild_id == other) ≡ false
    → ((x : String) → (id == x) ≡ false → grants_of x grants ≡ grants_of x db.grants)
    → load_rows other (record db { grants = grants }) ≡ load_rows other db
unfolding load_rows
load_rows-grants other id grants db own g there named apart same =
    map-live other (row_of (record db { grants = grants })) (row_of db) db.groups row_same
  where
    row_same :
        (x : StoredGroup)
        → In x db.groups
        → x.guild_id ≡ other
        → row_of (record db { grants = grants }) x ≡ row_of db x
    row_same x in_db of_other =
        let differs : (id == x.id) ≡ false = ground (
          arith,
          eq_iff id x.id,
          eq_iff g.guild_id other,
          named,
          apart,
          of_other,
          own g x there in_db,
        ) in
        let grants_same = same x.id differs in cc

-- What a change of one guild's tables leaves: the snapshots of the other guilds, and the groups.
abbrev pub Keeps : String → Database → Database → Type 0
Keeps guild new old =
    (new.groups ≡ old.groups)
    × ((other : String)
        → (guild == other) ≡ false
        → load_snapshot other new ≡ load_snapshot other old)

pub upsert_mapping-Keeps :
    (guild role id : String) (db : Database) → Keeps guild (upsert_mapping guild role id db) db
unfolding upsert_mapping load_snapshot load_mappings load_rows
upsert_mapping-Keeps guild role id db = (
  refl,
  λ other apart. let same = mappings_of-with_mapping guild other role id db.mappings apart in cc,
)

pub remove_mapping-Keeps :
    (guild role id : String) (db : Database) → Keeps guild (remove_mapping guild role id db) db
unfolding remove_mapping load_snapshot load_mappings load_rows
remove_mapping-Keeps guild role id db =
    (refl, λ other apart. let same = mappings_of-filter guild other role id db.mappings apart in cc)

grants-Keeps :
    (guild id : String) (grants : List StoredGrant) (db : Database)
    → HasOwnIds db.groups
    → (g : StoredGroup) → In g db.groups × (g.guild_id ≡ guild)
    → g.id ≡ id
    → ((x : String) → (id == x) ≡ false → grants_of x grants ≡ grants_of x db.grants)
    → Keeps guild (record db { grants = grants }) db
unfolding load_snapshot load_mappings
grants-Keeps guild id grants db own g (there, of_guild) named same = (
  refl,
  λ other apart.
      let differs : (g.guild_id == other) ≡ false =
        subst (λ x. (x == other) ≡ false) (sym of_guild) apart in
      let rows = load_rows-grants other id grants db own g there named differs same in cc,
)

pub upsert_grant-Keeps :
    (guild : String) (claim : Text) (effect : Effect) (db : Database)
    → HasOwnIds db.groups
    → (g : StoredGroup) → In g db.groups × (g.guild_id ≡ guild)
    → Keeps guild (upsert_grant guild g.id claim effect db) db
unfolding upsert_grant
upsert_grant-Keeps guild claim effect db own g there =
    grants-Keeps guild g.id (with_grant db.same_claim guild g.id claim effect db.grants) db own g
      there refl
      (λ x apart. grants_of-with_grant db.same_claim guild g.id x claim effect db.grants apart)

pub remove_grant-Keeps :
    (guild : String) (claim : Text) (db : Database)
    → HasOwnIds db.groups
    → (g : StoredGroup) → In g db.groups × (g.guild_id ≡ guild)
    → Keeps guild (remove_grant g.id claim db) db
unfolding remove_grant
remove_grant-Keeps guild claim db own g there =
    grants-Keeps guild g.id (filter (λ r. not (is_grant db.same_claim g.id claim r)) db.grants) db
      own g there refl (λ x apart. grants_of-filter db.same_claim g.id x claim db.grants apart)
