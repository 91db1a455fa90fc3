-- ===== src/Storage/Service.antt =====
-- src/modules/storage/application/storage.service.ts: storing with deduplication and a quota,
-- reading, signing and deleting. The digest and the quotas of the guilds are parameters; whether the
-- driver fails to put is an input of a call, and reads and events do not fail.
pub mod Rows
pub mod Accounting
pub mod Quota
pub mod RoundTrip
pub mod Shared
use armstrong_bot.Prelude.{
  ℕ, ◌+◌, String, Bool, true, false, ◌&&◌, not, List, [], ◌∷◌, Option, none, some, eqb, min, max,
  if◌then◌else◌, length, Result, ok, err, same_option, ◌==◌,
}
use armstrong_bot.Prelude.Int.{ℤ, pos, minus, ◌+ℤ◌, ltb_ℤ}
use armstrong_bot.Storage.Objects.{
  StorageNamespace, StorageObject, StorageEvent, object_stored, object_accessed, object_deleted,
  quota_exceeded, StorageState, build_object_key, find_by_hash, find_by_id, increment_ref_count,
  decrement_ref_count, soft_delete_object, usage_in, add_usage, get_bytes,
}

pub data StorageError : Type 0 where
  quota_exceeded_error : String → ℤ → ℕ → StorageError
  not_found : ℕ → StorageError
  driver_error : StorageError

pub record StoreParams : Type 0 where
  pub guild_id : Option String
  pub namespace : StorageNamespace
  pub body : List ℕ
  pub content_type : String
  pub filename : Option String
  pub owner_type : String
  pub owner_id : String
  pub immutable : Option Bool

pub record StoredObjectRef : Type 0 where
  pub id : ℕ
  pub key : List ℕ
  pub namespace : StorageNamespace
  pub size : ℕ
  pub content_hash : List ℕ
  pub deduped : Bool

abbrev pub Answered : Type 0 → Type 0
Answered A = Result StorageError A × StorageState

pub to_ref : Bool → StorageObject → StoredObjectRef
to_ref deduped o = record {
  id = o.id;
  key = o.key;
  namespace = o.namespace;
  size = o.size;
  content_hash = o.content_hash;
  deduped = deduped;
}

abbrev pub emit : StorageEvent → StorageState → StorageState
emit event s = record s { events = event ∷ s.events }

-- `if (guildId) await repo.addUsage(…)`: the empty text counts as no guild.
unfoldable pub account : Option String → ℤ → ℤ → StorageState → StorageState
account none bytes count s = s
account (some guild) bytes count s =
    if guild == "" then s else record s { usages = add_usage guild bytes count s.usages }

abbrev pub or_true : Option Bool → Bool
or_true none = true
or_true (some b) = b

unfoldable pub new_object : ℕ → List ℕ → List ℕ → StoreParams → StorageObject
new_object id hash key p = record {
  id = id;
  guild_id = p.guild_id;
  namespace = p.namespace;
  key = key;
  content_hash = hash;
  size = length p.body;
  content_type = p.content_type;
  filename = p.filename;
  owner_type = p.owner_type;
  owner_id = p.owner_id;
  immutable = or_true p.immutable;
  ref_count = pos 1;
  deleted = false;
}

-- `storeDeduped`: the bytes are there.
unfoldable pub store_deduped : StorageObject → StorageState → Answered StoredObjectRef
unfolding to_ref
store_deduped existing s = (
  ok (to_ref true existing),
  emit (object_stored existing.id true)
      (record s { objects = increment_ref_count existing.id s.objects }),
)

abbrev pub cataloged : StorageObject → List ℕ → StorageState → StorageState
cataloged o body s = record s {
  objects = o ∷ s.objects;
  stored = (o.key, body) ∷ s.stored;
  next_id = s.next_id + 1;
}

-- `storeFresh`: the bytes, then the row, then the usage.
unfoldable pub store_fresh :
    Bool → List ℕ → List ℕ → StoreParams → StorageState → Answered StoredObjectRef
unfolding to_ref new_object account
store_fresh put_fails hash key p s =
    if put_fails
    then (err driver_error, s)
    else let o = new_object s.next_id hash key p in
      (
        ok (to_ref false o),
        emit (object_stored o.id false)
            (account p.guild_id (pos o.size) (pos 1) (cataloged o p.body s)),
      )

unfoldable pub store_found :
    Bool
    → List ℕ
    → List ℕ
    → StoreParams
    → Option StorageObject
    → StorageState
    → Answered StoredObjectRef
unfolding store_fresh store_deduped
store_found put_fails hash key p none s = store_fresh put_fails hash key p s
store_found put_fails hash key p (some existing) s = store_deduped existing s

module _ (quota_bytes : String → ℕ) where
  -- `projected > quotaBytes` of a guild whose quota is not 0, which stands for no limit.
  unfoldable pub over_quota : String → ℕ → StorageState → Bool
  over_quota guild size s =
      not (eqb (quota_bytes guild) 0)
      && ltb_ℤ (pos (quota_bytes guild)) ((usage_in guild s.usages).used_bytes +ℤ pos size)

  unfoldable pub assert_within_quota : Option String → ℕ → StorageState → Answered (Unit {0})
  unfolding over_quota
  assert_within_quota none size s = (ok tt, s)
  assert_within_quota (some guild) size s =
      let projected = (usage_in guild s.usages).used_bytes +ℤ pos size in
      if over_quota guild size s
      then (
        err (quota_exceeded_error guild projected (quota_bytes guild)),
        emit (quota_exceeded guild projected (quota_bytes guild)) s,
      )
      else (ok tt, s)

module _ (sha256_hex : List ℕ → List ℕ) where
  unfoldable pub store_checked : Bool → StoreParams → Answered (Unit {0}) → Answered StoredObjectRef
  unfolding store_found
  store_checked put_fails p (err e, s) = (err e, s)
  store_checked put_fails p (ok _, s) =
      let hash = sha256_hex p.body in
      store_found put_fails hash (build_object_key p.guild_id p.namespace hash) p
        (find_by_hash p.guild_id p.namespace hash s.objects) s

  -- `store`
  unfoldable pub store : (String → ℕ) → Bool → StoreParams → StorageState → Answered StoredObjectRef
  unfolding store_checked assert_within_quota
  store quota_bytes put_fails p s =
      store_checked put_fails p (assert_within_quota quota_bytes p.guild_id (length p.body) s)

-- The scope of a call: `undefined`, or a guild or null that the object has to belong to.
unfoldable pub in_scope : Option (Option String) → StorageObject → Bool
in_scope none o = true
in_scope (some guild) o = same_option o.guild_id guild

unfoldable pub require_found :
    ℕ → Option (Option String) → Option StorageObject → Result StorageError StorageObject
unfolding in_scope
require_found id scope none = err (not_found id)
require_found id scope (some o) = if in_scope scope o then ok o else err (not_found id)

unfoldable pub require_object :
    ℕ → Option (Option String) → StorageState → Result StorageError StorageObject
unfolding require_found
require_object id scope s = require_found id scope (find_by_id id s.objects)

unfoldable pub read_bytes : StorageObject → Option (List ℕ) → StorageState → Answered (List ℕ)
read_bytes o none s = (err driver_error, s)
read_bytes o (some body) s = (ok body, emit (object_accessed o.id) s)

unfoldable pub get_buffer_of : Result StorageError StorageObject → StorageState → Answered (List ℕ)
unfolding read_bytes
get_buffer_of (err e) s = (err e, s)
get_buffer_of (ok o) s = read_bytes o (get_bytes o.key s.stored) s

-- `getBuffer`
unfoldable pub get_buffer : ℕ → StorageState → Answered (List ℕ)
unfolding require_object get_buffer_of
get_buffer id s = get_buffer_of (require_object id none s) s

-- `boundedTtl`
unfoldable pub bounded_ttl : ℕ → Option ℕ → ℕ
bounded_ttl most none = most
bounded_ttl most (some requested) = min (max 1 requested) most

-- What the driver is asked to sign: the key, the seconds and the name of the file.
pub record SignRequest : Type 0 where
  pub key : List ℕ
  pub expires_in_seconds : ℕ
  pub download_filename : Option String

unfoldable pub sign_of :
    ℕ → Option ℕ → Result StorageError StorageObject → StorageState → Answered SignRequest
unfolding bounded_ttl
sign_of most ttl (err e) s = (err e, s)
sign_of most ttl (ok o) s = (
  ok (record {
    key = o.key;
    expires_in_seconds = bounded_ttl most ttl;
    download_filename = o.filename;
  }),
  emit (object_accessed o.id) s,
)

-- `signDownloadUrl`, up to the call of the driver; `most` is `maxSignedUrlSeconds`.
unfoldable pub sign_download_url : ℕ → ℕ → Option ℕ → StorageState → Answered SignRequest
unfolding require_object sign_of
sign_download_url most id ttl s = sign_of most ttl (require_object id none s) s

unfoldable pub delete_of : Result StorageError StorageObject → StorageState → Answered (Unit {0})
unfolding account
delete_of (err e) s = (err e, s)
delete_of (ok o) s = (
  ok tt,
  emit (object_deleted o.id) (
      account o.guild_id (minus o.size) (minus 1)
        (record s { objects = decrement_ref_count o.id (soft_delete_object o.id s.objects) })),
)

-- `delete`
unfoldable pub delete : ℕ → Option (Option String) → StorageState → Answered (Unit {0})
unfolding require_object delete_of
delete id scope s = delete_of (require_object id scope s) s

-- One call of the service, with whether the driver fails to put.
pub data Request : Type 0 where
  store_request : Bool → StoreParams → Request
  read_request : ℕ → Request
  sign_request : ℕ → ℕ → Option ℕ → Request
  delete_request : ℕ → Option (Option String) → Request

unfoldable pub handle_storage :
    (List ℕ → List ℕ) → (String → ℕ) → Request → StorageState → StorageState
unfolding store get_buffer sign_download_url delete
handle_storage sha quota (store_request put_fails p) s = (store sha quota put_fails p s).1
handle_storage sha quota (read_request id) s = (get_buffer id s).1
handle_storage sha quota (sign_request most id ttl) s = (sign_download_url most id ttl s).1
handle_storage sha quota (delete_request id scope) s = (delete id scope s).1

unfoldable pub handle_all :
    (List ℕ → List ℕ) → (String → ℕ) → List Request → StorageState → StorageState
unfolding handle_storage
handle_all sha quota [] s = s
handle_all sha quota (r ∷ rest) s = handle_all sha quota rest (handle_storage sha quota r s)

abbrev pub empty_storage : StorageState
empty_storage = record { objects = []; usages = []; stored = []; events = []; next_id = 0 }
