-- ===== src/Storage/Objects.antt =====
-- src/modules/storage: the rows of infrastructure/storage-object.repository.ts with their changes,
-- the keys of domain/content-hash.util.ts and the bytes that a driver holds under them. The times in
-- the rows and their metadata are left out; a row is deleted when its `deletedAt` is set.
use armstrong_bot.Prelude.{
  ℕ, String, Bool, true, ◌&&◌, not, List, [], ◌∷◌, ◌++◌, Option, none, some, eqb, if◌then◌else◌,
  find, codes, same_option, same_codes, ◌==◌,
}
use armstrong_bot.Prelude.Int.{ℤ, pos, minus, ◌+ℤ◌}

pub data StorageNamespace : Type 0 where
  transcripts backups rank_cards exports plugin : StorageNamespace

pub record StorageObject : Type 0 where
  pub id : ℕ
  pub guild_id : Option String
  pub namespace : StorageNamespace
  pub key : List ℕ
  pub content_hash : List ℕ
  pub size : ℕ
  pub content_type : String
  pub filename : Option String
  pub owner_type : String
  pub owner_id : String
  pub immutable : Bool
  pub ref_count : ℤ
  pub deleted : Bool

pub record StorageUsage : Type 0 where
  pub used_bytes : ℤ
  pub object_count : ℤ

pub data StorageEvent : Type 0 where
  object_stored : ℕ → Bool → StorageEvent
  object_accessed object_deleted : ℕ → StorageEvent
  quota_exceeded : String → ℤ → ℕ → StorageEvent

-- The two tables, the bytes of the driver, and the events.
pub record StorageState : Type 0 where
  pub objects : List StorageObject
  pub usages : List (String × StorageUsage)
  pub stored : List (List ℕ × List ℕ)
  pub events : List StorageEvent
  pub next_id : ℕ

unfoldable pub namespace_name : StorageNamespace → String
namespace_name transcripts = "TRANSCRIPTS"
namespace_name backups = "BACKUPS"
namespace_name rank_cards = "RANK_CARDS"
namespace_name exports = "EXPORTS"
namespace_name plugin = "PLUGIN"

unfoldable pub namespace_segment : StorageNamespace → List ℕ
namespace_segment transcripts = codes "transcripts"
namespace_segment backups = codes "backups"
namespace_segment rank_cards = codes "rank-cards"
namespace_segment exports = codes "exports"
namespace_segment plugin = codes "plugin"

unfoldable pub guild_segment : Option String → List ℕ
guild_segment none = codes "global"
guild_segment (some guild) = codes guild

unfoldable pub build_object_key : Option String → StorageNamespace → List ℕ → List ℕ
unfolding guild_segment namespace_segment
build_object_key guild ns hash =
    (guild_segment guild ++ codes "/" ++ namespace_segment ns ++ codes "/") ++ hash

-- `where: { guildId, namespace, contentHash, deletedAt: null }`
unfoldable pub has_hash : Option String → StorageNamespace → List ℕ → StorageObject → Bool
unfolding namespace_name
has_hash guild ns hash o =
    same_option o.guild_id guild
    && namespace_name o.namespace == namespace_name ns
    && same_codes o.content_hash hash
    && not o.deleted

unfoldable pub find_by_hash :
    Option String → StorageNamespace → List ℕ → List StorageObject → Option StorageObject
unfolding has_hash
find_by_hash guild ns hash objects = find (has_hash guild ns hash) objects

-- `where: { id, deletedAt: null }`
abbrev pub is_live : ℕ → StorageObject → Bool
is_live id o = eqb o.id id && not o.deleted

abbrev pub find_by_id : ℕ → List StorageObject → Option StorageObject
find_by_id id objects = find (is_live id) objects

-- `update({ where: { id }, data })`
abbrev pub update_object :
    ℕ → (StorageObject → StorageObject) → List StorageObject → List StorageObject
update_object id change [] = []
update_object id change (o ∷ rest) =
    (if eqb o.id id then change o else o) ∷ update_object id change rest

abbrev pub change_ref_count : ℤ → StorageObject → StorageObject
change_ref_count delta o = record o { ref_count = o.ref_count +ℤ delta }

unfoldable pub increment_ref_count : ℕ → List StorageObject → List StorageObject
increment_ref_count id objects = update_object id (change_ref_count (pos 1)) objects

unfoldable pub decrement_ref_count : ℕ → List StorageObject → List StorageObject
decrement_ref_count id objects = update_object id (change_ref_count (minus 1)) objects

abbrev pub mark_deleted : StorageObject → StorageObject
mark_deleted o = record o { deleted = true }

unfoldable pub soft_delete_object : ℕ → List StorageObject → List StorageObject
soft_delete_object id objects = update_object id mark_deleted objects

abbrev pub usage_in : String → List (String × StorageUsage) → StorageUsage
usage_in guild [] = record { used_bytes = pos 0; object_count = pos 0 }
usage_in guild ((g, u) ∷ rest) = if g == guild then u else usage_in guild rest

-- The upsert of the usage: a guild with no row gets one with the deltas.
unfoldable pub add_usage :
    String → ℤ → ℤ → List (String × StorageUsage) → List (String × StorageUsage)
add_usage guild bytes count [] = (guild, record { used_bytes = bytes; object_count = count }) ∷ []
add_usage guild bytes count ((g, u) ∷ rest) =
    if g == guild
    then (g, record { used_bytes = u.used_bytes +ℤ bytes; object_count = u.object_count +ℤ count })
      ∷ rest
    else (g, u) ∷ add_usage guild bytes count rest

-- What a driver holds under a key: what was put there last.
unfoldable pub get_bytes : List ℕ → List (List ℕ × List ℕ) → Option (List ℕ)
get_bytes key [] = none
get_bytes key ((k, body) ∷ rest) = if same_codes k key then some body else get_bytes key rest
