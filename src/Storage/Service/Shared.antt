-- ===== src/Storage/Service/Shared.antt =====
-- src/modules/storage/application/storage.service.ts: two owners that store the same body share one
-- row, and the first deletion takes it away from both.
use mathlib.Core.Path.{ap₂}
use armstrong_bot.Prelude.{
  ℕ, ◌≡◌, inl, inr, refl, sym, ap, ◌∙◌, subst, String, Bool, true, false, ◌&&◌, List, [], ◌∷◌,
  Option, none, some, eqb, if◌then◌else◌, find, length, ok, err, arith, Bool-cases, same_codes_iff,
  same_option_iff, eq_refl,
}
use armstrong_bot.Prelude.Int.{ℤ, pos, minus}
use armstrong_bot.Storage.Objects.{
  StorageNamespace, namespace_name, StorageObject, StorageState, update_object, change_ref_count,
  mark_deleted, find_by_id, is_live, increment_ref_count, decrement_ref_count, soft_delete_object,
  build_object_key, find_by_hash, has_hash,
}
use armstrong_bot.Storage.Service.{
  not_found, StoreParams, StoredObjectRef, Answered, new_object, cataloged, store_deduped,
  store_found, store_checked, assert_within_quota, store, require_object, require_found, get_buffer,
  get_buffer_of, delete, delete_of, Request, handle_all, empty_storage, to_ref,
}
use armstrong_bot.Storage.Service.Accounting.{
  account-same, handle_all-keeps, empty_storage-IsConsistent, assert_within_quota-tables,
  find-holds,
}
use armstrong_bot.Storage.Service.RoundTrip.Stored.{
  store-IsStored, find-after, find-first, find-later, some-injective_lem,
}

-- No row of the id is live once the id is deleted.
find-deleted :
    (id : ℕ) (objects : List StorageObject)
    → find_by_id id (update_object id mark_deleted objects) ≡ none
find-deleted id [] = refl
find-deleted id (o ∷ rest) = elim (Bool-cases (eqb o.id id)) [
  | inl same ↦
      rw same (find-later (is_live id) (mark_deleted o) _ (dead id o) ∙ find-deleted id rest)
  | inr other ↦ rw other (find-later (is_live id) o _ (rw other refl) ∙ find-deleted id rest)
]
  where
    dead : (id : ℕ) (o : StorageObject) → is_live id (mark_deleted o) ≡ false
    dead id o = elim (eqb o.id id) as (λ b. (b && false) ≡ false) [ true ↦ refl | false ↦ refl ]

find-referred :
    (id j : ℕ) (d : ℤ) (objects : List StorageObject)
    → find_by_id j objects ≡ none
    → find_by_id j (update_object id (change_ref_count d) objects) ≡ none
find-referred id j d [] h = refl
find-referred id j d (o ∷ rest) h = elim (Bool-cases (is_live j o)) [
  | inl t ↦ cc (find-first (is_live j) o rest t ∙ refl)
  | inr f ↦
      let behind = find-referred id j d rest (sym (find-later (is_live j) o rest f) ∙ h) in
      elim (eqb o.id id)
        as (λ b.
          find_by_id j
            ((if b then change_ref_count d o else o) ∷ update_object id (change_ref_count d) rest)
          ≡ none) [
            | true ↦
                find-later (is_live j) (change_ref_count d o)
                  (update_object id (change_ref_count d) rest) f
                ∙ behind
            | false ↦
                find-later (is_live j) o (update_object id (change_ref_count d) rest) f ∙ behind
          ]
]

-- After a deletion the object is not found.
get_buffer-delete_of :
    (o : StorageObject) (s : StorageState)
    → (get_buffer o.id (delete_of (ok o) s).1).0 ≡ err (not_found o.id)
unfolding get_buffer delete_of decrement_ref_count soft_delete_object
get_buffer-delete_of o s =
    let gone = update_object o.id mark_deleted s.objects in
    let left = update_object o.id (change_ref_count (minus 1)) gone in
    let same = (account-same o.guild_id (minus o.size) (minus 1) (record s { objects = left })).0 in
    let absent = find-referred o.id o.id (minus 1) gone (find-deleted o.id s.objects) in
    ap (λ found. (get_buffer_of (require_found o.id none found) (delete_of (ok o) s).1).0)
      (ap (find_by_id o.id) same ∙ absent)

has_hash-new :
    (n : ℕ) (hash key : List ℕ) (p : StoreParams)
    → has_hash p.guild_id p.namespace hash (new_object n hash key p) ≡ true
unfolding has_hash new_object
has_hash-new n hash key p =
    rw
      (
        (same_option_iff p.guild_id p.guild_id).1 refl,
        eq_refl (namespace_name p.namespace),
        (same_codes_iff hash hash).1 refl,
      )
      refl

find-hash-after :
    (guild : Option String) (ns : StorageNamespace) (hash : List ℕ) (id : ℕ)
    (objects : List StorageObject) (x : StorageObject)
    → find_by_hash guild ns hash objects ≡ some x
    → (y : StorageObject) × (find_by_hash guild ns hash
          (update_object id (change_ref_count (pos 1)) objects)
        ≡ some y)
      × (y.id ≡ x.id)
unfolding find_by_hash has_hash
find-hash-after guild ns hash id [] x h = cc
find-hash-after guild ns hash id (o ∷ rest) x h =
    let later = update_object id (change_ref_count (pos 1)) rest in
    let test = has_hash guild ns hash in
    elim (Bool-cases (test o)) [
      | inl t ↦
          let e = some-injective_lem o x (sym (find-first test o rest t) ∙ h) in
          elim (eqb o.id id)
            as (λ b.
              (y : StorageObject) × (find test
                  ((if b then change_ref_count (pos 1) o else o) ∷ later)
                ≡ some y)
              × (y.id ≡ x.id)) [
                | true ↦ (
                  change_ref_count (pos 1) o,
                  find-first test (change_ref_count (pos 1) o) later t,
                  ap (λ (z : StorageObject). z.id) e,
                )
                | false ↦ (o, find-first test o later t, ap (λ (z : StorageObject). z.id) e)
              ]
      | inr f ↦
          let (y, there, same) =
            find-hash-after guild ns hash id rest x (sym (find-later test o rest f) ∙ h) in
          (
            y,
            elim (eqb o.id id)
                as (λ b.
                  find test ((if b then change_ref_count (pos 1) o else o) ∷ later) ≡ some y) [
                    | true ↦ find-later test (change_ref_count (pos 1) o) later f ∙ there
                    | false ↦ find-later test o later f ∙ there
                  ],
            same,
          )
    ]

-- A live object is deleted, and is not found from then on.
delete-found :
    (id : ℕ) (s : StorageState) (o : StorageObject)
    → find_by_id id s.objects ≡ some o
    → ((delete id none s).0 ≡ ok tt) × ((get_buffer id (delete id none s).1).0 ≡ err (not_found id))
unfolding delete require_object delete_of
delete-found id s o there =
    let named : o.id ≡ id = ground (arith, find-holds (is_live id) s.objects o there) in
    let step = ap (λ found. delete_of (require_found id none found) s) there in
    (
      ap (λ (r : Answered (Unit {0})). r.0) step,
      ap (λ (r : Answered (Unit {0})). (get_buffer id r.1).0) step
          ∙ subst (λ i. (get_buffer i (delete_of (ok o) s).1).0 ≡ err (not_found i)) named
              (get_buffer-delete_of o s),
    )

deduped-id :
    (y : StorageObject) (s : StorageState) (ref : StoredObjectRef)
    → (store_deduped y s).0 ≡ ok ref
    → ref.id ≡ y.id
unfolding store_deduped to_ref
deduped-id y s ref k = ground arith

module _ (sha256_hex : List ℕ → List ℕ) (quota_bytes : String → ℕ) where
  -- The row that the dedupe finds after a store is the stored one.
  found-FindsAgain :
      (fails : Bool) (p : StoreParams) (hash key : List ℕ) (s : StorageState)
      (ref : StoredObjectRef) (found : Option StorageObject)
      → find_by_hash p.guild_id p.namespace hash s.objects ≡ found
      → (store_found fails hash key p found s).0 ≡ ok ref
      → (y : StorageObject) × (find_by_hash p.guild_id p.namespace hash
            (store_found fails hash key p found s).1.objects
          ≡ some y)
        × (y.id ≡ ref.id)
  unfolding store_found find_by_hash to_ref increment_ref_count
  found-FindsAgain true p hash key s ref none e h = cc
  found-FindsAgain false p hash key s ref none e h =
      let o = new_object s.next_id hash key p in
      let objects = (account-same p.guild_id (pos o.size) (pos 1) (cataloged o p.body s)).0 in
      (
        o,
        ap (find_by_hash p.guild_id p.namespace hash) objects
            ∙ find-first (has_hash p.guild_id p.namespace hash) o s.objects
                (has_hash-new s.next_id hash key p),
        ground arith,
      )
  found-FindsAgain fails p hash key s ref (some x) e h =
      let (y, there, same) = find-hash-after p.guild_id p.namespace hash x.id s.objects x e in
      (y, there, same ∙ ground arith)

  checked-FindsAgain :
      (fails : Bool) (p : StoreParams) (r : Answered (Unit {0})) (ref : StoredObjectRef)
      → (store_checked sha256_hex fails p r).0 ≡ ok ref
      → (y : StorageObject) × (find_by_hash p.guild_id p.namespace
            (sha256_hex p.body)
            (store_checked sha256_hex fails p r).1.objects
          ≡ some y)
        × (y.id ≡ ref.id)
  unfolding store_checked
  checked-FindsAgain fails p (err e, s) ref h = cc
  checked-FindsAgain fails p (ok _, s) ref h =
      found-FindsAgain fails p (sha256_hex p.body)
        (build_object_key p.guild_id p.namespace (sha256_hex p.body)) s ref _ refl h

  -- A store of a body whose row is found gives that row, with one reference more.
  checked-Shares :
      (fails : Bool) (q : StoreParams) (r : Answered (Unit {0})) (ref : StoredObjectRef)
      (y : StorageObject)
      → find_by_hash q.guild_id q.namespace (sha256_hex q.body) r.1.objects ≡ some y
      → (store_checked sha256_hex fails q r).0 ≡ ok ref
      → (ref.id ≡ y.id)
        × ((store_checked sha256_hex fails q r).1.objects ≡ increment_ref_count y.id r.1.objects)
  unfolding store_checked store_found
  checked-Shares fails q (err e, s) ref y there h = cc
  checked-Shares fails q (ok _, s) ref y there h =
      let hash = sha256_hex q.body in
      let key = build_object_key q.guild_id q.namespace hash in
      subst
        (λ found.
          (store_found fails hash key q found s).0 ≡ ok ref
          → (ref.id ≡ y.id)
            × ((store_found fails hash key q found s).1.objects
                ≡ increment_ref_count y.id s.objects))
        (sym there) (λ k. (shared_id k, refl)) h
    where
      shared_id : (store_deduped y s).0 ≡ ok ref → ref.id ≡ y.id
      shared_id k = deduped-id y s ref k

  module _ (before : List Request) (p q : StoreParams) (fails fails' : Bool) where
    abbrev pub start : StorageState
    start = handle_all sha256_hex quota_bytes before empty_storage

    abbrev pub both : StorageState
    both = (store sha256_hex quota_bytes fails' q (store sha256_hex quota_bytes fails p start).1).1

    -- Two owners store the same body in one namespace of one guild, after any calls on an empty
    -- store, and both succeed: they get the same id, the first may delete it, and then the second
    -- does not find what it has stored.
    pub delete-shared :
        (mine theirs : StoredObjectRef)
        → q.guild_id ≡ p.guild_id
        → q.namespace ≡ p.namespace
        → q.body ≡ p.body
        → (store sha256_hex quota_bytes fails p start).0 ≡ ok mine
        → (store sha256_hex quota_bytes fails' q (store sha256_hex quota_bytes fails p start).1).0
          ≡ ok theirs
        → (theirs.id ≡ mine.id)
          × ((delete mine.id none both).0 ≡ ok tt)
          × ((get_buffer theirs.id (delete mine.id none both).1).0 ≡ err (not_found theirs.id))
    unfolding store increment_ref_count
    delete-shared mine theirs guilds namespaces bodies h k =
        let c =
          handle_all-keeps sha256_hex quota_bytes before empty_storage
            (empty_storage-IsConsistent sha256_hex quota_bytes) in
        let t = (store sha256_hex quota_bytes fails p start).1 in
        let (made, digests, (z, there)) =
          store-IsStored sha256_hex quota_bytes fails p start mine c h in
        let (y, again, same) =
          checked-FindsAgain fails p
            (assert_within_quota quota_bytes p.guild_id (length p.body) start) mine h in
        let checked = assert_within_quota quota_bytes q.guild_id (length q.body) t in
        let tables = assert_within_quota-tables quota_bytes q.guild_id (length q.body) t in
        let found : find_by_hash q.guild_id q.namespace (sha256_hex q.body) checked.1.objects
            ≡ some y =
          rw (tables.0, guilds, namespaces, bodies) again in
        let (shared, objects) = checked-Shares fails' q checked theirs y found k in
        let one : theirs.id ≡ mine.id = shared ∙ same in
        let left : both.objects ≡ update_object mine.id (change_ref_count (pos 1)) t.objects =
          objects ∙ ap₂ (λ i os. update_object i (change_ref_count (pos 1)) os) same tables.0 in
        let live : find_by_id mine.id both.objects ≡ some (change_ref_count (pos 1) z) =
          ap (find_by_id mine.id) left ∙ find-after mine.id (pos 1) t.objects z there in
        let (deleted, gone) = delete-found mine.id both (change_ref_count (pos 1) z) live in
        (
          one,
          deleted,
          subst (λ i. (get_buffer i (delete mine.id none both).1).0 ≡ err (not_found i)) (sym one)
              gone,
        )
