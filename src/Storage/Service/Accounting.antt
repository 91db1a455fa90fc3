-- ===== src/Storage/Service/Accounting.antt =====
-- src/modules/storage/application/storage.service.ts: the usage of a guild is what its live objects
-- take, after any calls.
use armstrong_bot.Prelude.{
  ℕ, ◌+◌, ◌≡◌, ◌≢◌, inl, inr, refl, sym, ap, ◌∙◌, subst, String, Bool, true, false, List, [], ◌∷◌,
  Option, none, some, if◌then◌else◌, find, length, Result, ok, err, eq_iff, arith, Bool-cases,
  Option-cases, Result-cases,
}
use armstrong_bot.Prelude.Int.{ℤ, pos, minus, ◌+ℤ◌, pos-add, pos-add-minus}
use armstrong_bot.Storage.Objects.{
  StorageObject, StorageState, StorageEvent, object_accessed, quota_exceeded, get_bytes, find_by_id,
  is_live, update_object, change_ref_count, mark_deleted, increment_ref_count, decrement_ref_count,
  soft_delete_object, usage_in,
}
use armstrong_bot.Storage.Service.{
  StorageError, quota_exceeded_error, store_request, read_request, sign_request, delete_request,
  StoreParams, Answered, account, new_object, cataloged, store_deduped, store_found, store_checked,
  assert_within_quota, over_quota, store, require_object, require_found, in_scope, get_buffer,
  get_buffer_of, read_bytes, sign_download_url, sign_of, delete, delete_of, Request, handle_storage,
  handle_all, empty_storage, emit,
}
use armstrong_bot.Storage.Service.Rows.{
  is_of_guild, live_bytes, live_count, HasNoId, HasUniqueIds, AllBelow, IsConsistent,
  usage_in-add_usage, update_object-HasUniqueIds, update_object-AllBelow, live-change_ref_count,
  live-mark_deleted,
}

HasNoId-of_below : (n : ℕ) (objects : List StorageObject) → AllBelow n objects → HasNoId n objects
HasNoId-of_below n [] h = tt
HasNoId-of_below n (o ∷ rest) h = (omega arith, HasNoId-of_below n rest h.1)

AllBelow-mono :
    (n : ℕ) (objects : List StorageObject) → AllBelow n objects → AllBelow (n + 1) objects
AllBelow-mono n [] h = tt
AllBelow-mono n (o ∷ rest) h = (omega arith, AllBelow-mono n rest h.1)

pub emit-IsConsistent :
    (event : StorageEvent) (s : StorageState) → IsConsistent s → IsConsistent (emit event s)
emit-IsConsistent event s c = record { unique = c.unique; below = c.below; accounted = c.accounted }

-- The usages when the objects of one guild take more.
account-more :
    (guild : Option String) (bytes count : ℕ) (s : StorageState) (g : String)
    (old_bytes old_count : ℕ)
    → g ≢ ""
    → ((usage_in g s.usages).used_bytes ≡ pos old_bytes)
      × ((usage_in g s.usages).object_count ≡ pos old_count)
    → ((usage_in g (account guild (pos bytes) (pos count) s).usages).used_bytes
        ≡ pos ((if is_of_guild g guild then bytes else 0) + old_bytes))
      × ((usage_in g (account guild (pos bytes) (pos count) s).usages).object_count
          ≡ pos ((if is_of_guild g guild then count else 0) + old_count))
unfolding account
account-more none bytes count s g ob oc ne h =
    (h.0 ∙ ap pos (omega arith), h.1 ∙ ap pos (omega arith))
account-more (some guild) bytes count s g ob oc ne h = ground (
  arith,
  eq_iff guild "",
  eq_iff guild g,
  usage_in-add_usage g guild (pos bytes) (pos count) s.usages,
  pos-add ob bytes,
  pos-add oc count,
)

-- The usages when the objects of one guild take less.
account-less :
    (guild : Option String) (bytes count : ℕ) (s : StorageState) (g : String)
    (old_bytes old_count new_bytes new_count : ℕ)
    → g ≢ ""
    → ((usage_in g s.usages).used_bytes ≡ pos old_bytes)
      × ((usage_in g s.usages).object_count ≡ pos old_count)
    → (new_bytes + (if is_of_guild g guild then bytes else 0) ≡ old_bytes)
      × (new_count + (if is_of_guild g guild then count else 0) ≡ old_count)
    → ((usage_in g (account guild (minus bytes) (minus count) s).usages).used_bytes ≡ pos new_bytes)
      × ((usage_in g (account guild (minus bytes) (minus count) s).usages).object_count
          ≡ pos new_count)
unfolding account
account-less none bytes count s g ob oc nb nc ne h k =
    (h.0 ∙ ap pos (omega arith), h.1 ∙ ap pos (omega arith))
account-less (some guild) bytes count s g ob oc nb nc ne h k = ground (
  arith,
  eq_iff guild "",
  eq_iff guild g,
  usage_in-add_usage g guild (minus bytes) (minus count) s.usages,
  pos-add-minus ob bytes nb,
  pos-add-minus oc count nc,
)

-- The tables that `account` leaves alone.
pub account-same :
    (guild : Option String) (bytes count : ℤ) (s : StorageState)
    → ((account guild bytes count s).objects ≡ s.objects)
      × ((account guild bytes count s).next_id ≡ s.next_id)
unfolding account
account-same none bytes count s = (refl, refl)
account-same (some guild) bytes count s = ground arith

store_deduped-IsConsistent :
    (o : StorageObject) (s : StorageState) → IsConsistent s → IsConsistent (store_deduped o s).1
unfolding store_deduped increment_ref_count
store_deduped-IsConsistent o s c = record {
  unique =
      update_object-HasUniqueIds o.id (change_ref_count (pos 1)) (λ y. refl) s.objects c.unique;
  below =
      update_object-AllBelow o.id (change_ref_count (pos 1)) (λ y. refl) s.next_id s.objects
        c.below;
  accounted = λ g ne.
      let (bytes, count) = live-change_ref_count g o.id (pos 1) s.objects in
      ((c.accounted g ne).0 ∙ ap pos (sym bytes), (c.accounted g ne).1 ∙ ap pos (sym count));
}

fresh-IsConsistent :
    (hash key : List ℕ) (p : StoreParams) (s : StorageState)
    → IsConsistent s
    → IsConsistent (
        account p.guild_id
          (pos (length p.body))
          (pos 1)
          (cataloged (new_object s.next_id hash key p) p.body s))
unfolding new_object
fresh-IsConsistent hash key p s c =
    let o = new_object s.next_id hash key p in
    let t = cataloged o p.body s in
    let (objects, next) = account-same p.guild_id (pos (length p.body)) (pos 1) t in
    record {
      unique =
          subst HasUniqueIds (sym objects) (HasNoId-of_below s.next_id s.objects c.below, c.unique);
      below =
          subst (λ n. AllBelow n (account p.guild_id (pos (length p.body)) (pos 1) t).objects)
            (sym next)
            (subst (AllBelow (s.next_id + 1)) (sym objects)
              (omega arith, AllBelow-mono s.next_id s.objects c.below));
      accounted = λ g ne.
          subst
            (λ os.
              ((usage_in g (account p.guild_id (pos (length p.body)) (pos 1) t).usages).used_bytes
                ≡ pos (live_bytes g os))
              × ((usage_in g
                    (account p.guild_id (pos (length p.body)) (pos 1) t).usages).object_count
                  ≡ pos (live_count g os)))
            (sym objects)
            (account-more p.guild_id (length p.body) 1 t g (live_bytes g s.objects)
              (live_count g s.objects) ne (c.accounted g ne));
    }

store_found-IsConsistent :
    (fails : Bool) (hash key : List ℕ) (p : StoreParams) (found : Option StorageObject)
    (s : StorageState)
    → IsConsistent s
    → IsConsistent (store_found fails hash key p found s).1
unfolding store_found
store_found-IsConsistent true hash key p none s c = c
store_found-IsConsistent false hash key p none s c =
    emit-IsConsistent _ _ (fresh-IsConsistent hash key p s c)
store_found-IsConsistent fails hash key p (some o) s c = store_deduped-IsConsistent o s c

delete-IsConsistent :
    (o : StorageObject) (s : StorageState)
    → find_by_id o.id s.objects ≡ some o
    → IsConsistent s
    → IsConsistent (delete_of (ok o) s).1
unfolding delete_of decrement_ref_count soft_delete_object
delete-IsConsistent o s found c =
    let gone = update_object o.id mark_deleted s.objects in
    let left = update_object o.id (change_ref_count (minus 1)) gone in
    let t = record s { objects = left } in
    let (objects, next) = account-same o.guild_id (minus o.size) (minus 1) t in
    emit-IsConsistent _ _ (record {
      unique = rw objects (
          update_object-HasUniqueIds o.id (change_ref_count (minus 1)) (λ y. refl) gone
            (update_object-HasUniqueIds o.id mark_deleted (λ y. refl) s.objects c.unique));
      below =
          rw (objects, next)
            (update_object-AllBelow o.id (change_ref_count (minus 1)) (λ y. refl) s.next_id gone
              (update_object-AllBelow o.id mark_deleted (λ y. refl) s.next_id s.objects c.below));
      accounted = λ g ne.
          let (bytes, count) = live-mark_deleted g o.id s.objects o c.unique found in
          let (bytes', count') = live-change_ref_count g o.id (minus 1) gone in
          rw objects (
            account-less o.guild_id o.size 1 t g (live_bytes g s.objects) (live_count g s.objects)
              (live_bytes g left) (live_count g left) ne (c.accounted g ne)
              (omega (arith, bytes, bytes'), omega (arith, count, count')));
    })

pub find-holds {ℓ} :
    {A : Type ℓ} (p : A → Bool) (xs : List A) (x : A) → find p xs ≡ some x → p x ≡ true
find-holds p [] x h = cc
find-holds p (y ∷ xs) x h = elim (Bool-cases (p y)) [
  | inl t ↦ ground (arith, t)
  | inr f ↦ find-holds p xs x (ground (arith, f))
]

pub find_by_id_self :
    (id : ℕ) (objects : List StorageObject) (o : StorageObject)
    → find_by_id id objects ≡ some o
    → find_by_id o.id objects ≡ some o
find_by_id_self id objects o h =
    let live = find-holds (is_live id) objects o h in
    let same : o.id ≡ id = ground arith in subst (λ n. find_by_id n objects ≡ some o) (sym same) h

-- What `requireObject` gives is the live row of its id, in the scope.
pub require_object-found :
    (id : ℕ) (scope : Option (Option String)) (s : StorageState) (o : StorageObject)
    → require_object id scope s ≡ ok o
    → (find_by_id id s.objects ≡ some o) × (in_scope scope o ≡ true)
unfolding require_object
require_object-found id scope s o h = elim (Option-cases (find_by_id id s.objects)) [
  | inl absent ↦ cc (ap (require_found id scope) (sym absent) ∙ h)
  | inr (x, there) ↦
      let h' = ap (require_found id scope) (sym there) ∙ h in
      elim (Bool-cases (in_scope scope x)) [
        | inl inside ↦ (ground (arith, there, h', inside), ground (arith, h', inside))
        | inr outside ↦ ground (arith, h', outside)
      ]
]

delete-keeps :
    (id : ℕ) (scope : Option (Option String)) (s : StorageState)
    → IsConsistent s
    → IsConsistent (delete id scope s).1
unfolding delete
delete-keeps id scope s c = elim (Result-cases (require_object id scope s)) [
  | inl (o, there) ↦
      let found = (require_object-found id scope s o there).0 in
      subst (λ r. IsConsistent (delete_of r s).1) (sym there)
        (delete-IsConsistent o s (find_by_id_self id s.objects o found) c)
  | inr (e, thrown) ↦ subst (λ r. IsConsistent (delete_of r s).1) (sym thrown) (failed e)
]
  where
    failed : (e : StorageError) → IsConsistent (delete_of (err e) s).1
    failed e = c

get_buffer-keeps : (id : ℕ) (s : StorageState) → IsConsistent s → IsConsistent (get_buffer id s).1
unfolding get_buffer
get_buffer-keeps id s c = of_result (require_object id none s)
  where
    of_bytes : (o : StorageObject) (b : Option (List ℕ)) → IsConsistent (read_bytes o b s).1
    of_bytes o none = c
    of_bytes o (some body) = emit-IsConsistent (object_accessed o.id) s c

    of_result : (r : Result StorageError StorageObject) → IsConsistent (get_buffer_of r s).1
    of_result (err e) = c
    of_result (ok o) = of_bytes o (get_bytes o.key s.stored)

sign-keeps :
    (most id : ℕ) (ttl : Option ℕ) (s : StorageState)
    → IsConsistent s
    → IsConsistent (sign_download_url most id ttl s).1
unfolding sign_download_url
sign-keeps most id ttl s c = of_result (require_object id none s)
  where
    of_result : (r : Result StorageError StorageObject) → IsConsistent (sign_of most ttl r s).1
    of_result (err e) = c
    of_result (ok o) = emit-IsConsistent (object_accessed o.id) s c

module _ (quota_bytes : String → ℕ) where
  -- The quota check leaves the tables as they are.
  pub assert_within_quota-tables :
      (guild : Option String) (size : ℕ) (s : StorageState)
      → ((assert_within_quota quota_bytes guild size s).1.objects ≡ s.objects)
        × ((assert_within_quota quota_bytes guild size s).1.usages ≡ s.usages)
        × ((assert_within_quota quota_bytes guild size s).1.stored ≡ s.stored)
        × ((assert_within_quota quota_bytes guild size s).1.next_id ≡ s.next_id)
  unfolding assert_within_quota
  assert_within_quota-tables none size s = (refl, refl, refl, refl)
  assert_within_quota-tables (some guild) size s =
      elim (over_quota quota_bytes guild size s)
        as (λ b. Tables (
          if b
          then (
            err (quota_exceeded_error guild (projected guild) (quota_bytes guild)),
            emit (quota_exceeded guild (projected guild) (quota_bytes guild)) s,
          )
          else (ok tt, s))) [ true ↦ (refl, refl, refl, refl) | false ↦ (refl, refl, refl, refl) ]
    where
      projected : String → ℤ
      projected g = (usage_in g s.usages).used_bytes +ℤ pos size

      Tables : Answered (Unit {0}) → Type 0
      Tables r =
          (r.1.objects ≡ s.objects)
          × (r.1.usages ≡ s.usages)
          × (r.1.stored ≡ s.stored)
          × (r.1.next_id ≡ s.next_id)

  pub assert-keeps :
      (guild : Option String) (size : ℕ) (s : StorageState)
      → IsConsistent s
      → IsConsistent (assert_within_quota quota_bytes guild size s).1
  assert-keeps guild size s c =
      let (objects, usages, stored, next) = assert_within_quota-tables guild size s in
      record {
        unique = rw objects c.unique;
        below = rw (objects, next) c.below;
        accounted = λ g ne. rw (objects, usages) (c.accounted g ne);
      }

module _ (sha256_hex : List ℕ → List ℕ) (quota_bytes : String → ℕ) where
  store_checked-keeps :
      (fails : Bool) (p : StoreParams) (r : Answered (Unit {0}))
      → IsConsistent r.1
      → IsConsistent (store_checked sha256_hex fails p r).1
  unfolding store_checked
  store_checked-keeps fails p (err e, s) c = c
  store_checked-keeps fails p (ok _, s) c = store_found-IsConsistent fails _ _ p _ s c

  -- Every call of the service keeps the ids apart and the usages true.
  pub handle_storage-IsConsistent :
      (r : Request) (s : StorageState)
      → IsConsistent s
      → IsConsistent (handle_storage sha256_hex quota_bytes r s)
  unfolding handle_storage store
  handle_storage-IsConsistent (store_request fails p) s c =
      store_checked-keeps fails p (assert_within_quota quota_bytes p.guild_id (length p.body) s)
        (assert-keeps quota_bytes p.guild_id (length p.body) s c)
  handle_storage-IsConsistent (read_request id) s c = get_buffer-keeps id s c
  handle_storage-IsConsistent (sign_request most id ttl) s c = sign-keeps most id ttl s c
  handle_storage-IsConsistent (delete_request id scope) s c = delete-keeps id scope s c

  pub handle_all-keeps :
      (rs : List Request) (s : StorageState)
      → IsConsistent s
      → IsConsistent (handle_all sha256_hex quota_bytes rs s)
  unfolding handle_all
  handle_all-keeps [] s c = c
  handle_all-keeps (r ∷ rest) s c =
      handle_all-keeps rest (handle_storage sha256_hex quota_bytes r s)
        (handle_storage-IsConsistent r s c)

  pub empty_storage-IsConsistent : IsConsistent empty_storage
  empty_storage-IsConsistent = record { unique = tt; below = tt; accounted = λ g ne. (refl, refl) }

  -- After any calls on an empty store, the usage of every guild, which is not the empty text, is the
  -- number and the total size of its live objects.
  pub handle_all-accounted :
      (rs : List Request) (g : String)
      → g ≢ ""
      → ((usage_in g (handle_all sha256_hex quota_bytes rs empty_storage).usages).used_bytes
          ≡ pos (live_bytes g (handle_all sha256_hex quota_bytes rs empty_storage).objects))
        × ((usage_in g (handle_all sha256_hex quota_bytes rs empty_storage).usages).object_count
            ≡ pos (live_count g (handle_all sha256_hex quota_bytes rs empty_storage).objects))
  handle_all-accounted rs = (handle_all-keeps rs empty_storage empty_storage-IsConsistent).accounted
