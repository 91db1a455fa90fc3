-- ===== src/Storage/Service/RoundTrip/Stored.antt =====
-- src/modules/storage/application/storage.service.ts: what a successful store leaves.
use armstrong_bot.Prelude.{
  ℕ, ◌<◌, ◌≡◌, ◌≢◌, inl, inr, refl, sym, ap, ◌∙◌, subst, String, Bool, true, false, List, [], ◌∷◌,
  Option, none, some, eqb, if◌then◌else◌, find, length, ok, err, arith, All, Bool-cases,
  Option-cases, same_codes_iff,
}
use armstrong_bot.Prelude.Int.{ℤ, pos}
use armstrong_bot.Storage.Objects.{
  StorageNamespace, StorageObject, StorageState, update_object, change_ref_count, find_by_id,
  is_live, increment_ref_count, build_object_key, find_by_hash, has_hash,
}
use armstrong_bot.Storage.Service.{
  StoreParams, StoredObjectRef, Answered, account, new_object, cataloged, store_deduped,
  store_found, store_checked, assert_within_quota, store, to_ref,
}
use armstrong_bot.Storage.Service.Rows.{HasNoId, HasUniqueIds, AllBelow, IsConsistent}
use armstrong_bot.Storage.Service.Accounting.{assert-keeps, find-holds}
use armstrong_bot.Storage.Service.RoundTrip.Backed.{account-tables, All-update}

pub All-find {ℓ} :
    {A : Type 0} (P : A → Type ℓ) (p : A → Bool) (xs : List A) (x : A)
    → All P xs
    → find p xs ≡ some x
    → P x
All-find P p [] x all h = cc
All-find P p (y ∷ xs) x all h = elim (Bool-cases (p y)) [
  | inl t ↦ subst P (ground (arith, t)) all.0
  | inr f ↦ All-find P p xs x all.1 (ground (arith, f))
]

pub some-injective_lem {ℓ} : {A : Type ℓ} (x y : A) → some x ≡ some y → x ≡ y
some-injective_lem x y h = cc

-- All rows of the id have the digest.
abbrev pub HasDigest : ℕ → List ℕ → StorageObject → Type 0
HasDigest id hash o = o.id ≡ id → o.content_hash ≡ hash

-- The id is handed out, its row has the digest, and the row is live.
abbrev pub IsStored : ℕ → List ℕ → StorageState → Type 0
IsStored id hash s =
    (id < s.next_id)
    × All (HasDigest id hash) s.objects
    × ((o : StorageObject) × (find_by_id id s.objects ≡ some o))

below-HasDigest :
    (n : ℕ) (hash : List ℕ) (objects : List StorageObject)
    → AllBelow n objects
    → All (HasDigest n hash) objects
below-HasDigest n hash [] h = tt
below-HasDigest n hash (o ∷ rest) h =
    (λ e. absurd (omega (arith, h.0)), below-HasDigest n hash rest h.1)

absent-HasDigest :
    (id : ℕ) (hash : List ℕ) (objects : List StorageObject)
    → HasNoId id objects
    → All (HasDigest id hash) objects
absent-HasDigest id hash [] h = tt
absent-HasDigest id hash (o ∷ rest) h = (λ e. absurd (h.0 e), absent-HasDigest id hash rest h.1)

HasNoId-find :
    (id : ℕ) (p : StorageObject → Bool) (objects : List StorageObject) (x : StorageObject)
    → HasNoId id objects
    → find p objects ≡ some x
    → x.id ≢ id
HasNoId-find id p [] x u h = λ e. cc
HasNoId-find id p (o ∷ rest) x u h = elim (Bool-cases (p o)) [
  | inl t ↦ let e : o ≡ x = ground (arith, t) in subst (λ (y : StorageObject). y.id ≢ id) e u.0
  | inr f ↦ HasNoId-find id p rest x u.1 (ground (arith, f))
]

live-itself : (x : StorageObject) → x.deleted ≡ false → is_live x.id x ≡ true
live-itself x live = rw live (ground arith)

other-id : (id : ℕ) (o : StorageObject) → id ≢ o.id → is_live id o ≡ false
other-id id o ne = ground arith

-- A row that is found, by a test that only live rows pass, is the live row of its id.
found_unique :
    (p : StorageObject → Bool) (objects : List StorageObject) (x : StorageObject)
    → HasUniqueIds objects
    → ((o : StorageObject) → p o ≡ true → o.deleted ≡ false)
    → find p objects ≡ some x
    → All (HasDigest x.id x.content_hash) objects × (find_by_id x.id objects ≡ some x)
found_unique p [] x u live h = cc
found_unique p (o ∷ rest) x u live h = elim (Bool-cases (p o)) [
  | inl t ↦
      let e : o ≡ x = ground (arith, t) in
      subst
        (λ (y : StorageObject).
          ((o.id ≡ y.id → o.content_hash ≡ y.content_hash)
            × All (HasDigest y.id y.content_hash) rest)
          × (find_by_id y.id (o ∷ rest) ≡ some y))
        e
        (
          (λ s. refl, absent-HasDigest o.id o.content_hash rest u.0),
          rw (live-itself o (live o t)) refl,
        )
  | inr f ↦
      let behind : find p rest ≡ some x = ground (arith, f) in
      let ne = HasNoId-find o.id p rest x u.0 behind in
      let (digests, itself) = found_unique p rest x u.1 live behind in
      ((λ s. absurd (ne (sym s)), digests), rw (other-id x.id o ne) itself)
]

pub find-first {ℓ} :
    {A : Type ℓ} (p : A → Bool) (x : A) (xs : List A) → p x ≡ true → find p (x ∷ xs) ≡ some x
find-first p x xs t = rw t refl

pub find-later {ℓ} :
    {A : Type ℓ} (p : A → Bool) (x : A) (xs : List A) → p x ≡ false → find p (x ∷ xs) ≡ find p xs
find-later p x xs f = rw f refl

abbrev changed : ℕ → ℤ → StorageObject → StorageObject
changed id d o = if eqb o.id id then change_ref_count d o else o

changed-live : (id : ℕ) (d : ℤ) (o : StorageObject) → is_live id (changed id d o) ≡ is_live id o
changed-live id d o =
    elim (eqb o.id id) as (λ b. is_live id (if b then change_ref_count d o else o) ≡ is_live id o) [
      | true ↦ refl
      | false ↦ refl
    ]

changed_self :
    (id : ℕ) (d : ℤ) (o : StorageObject)
    → is_live id o ≡ true
    → changed id d o ≡ change_ref_count d o
changed_self id d o live =
    let same : eqb o.id id ≡ true = ground arith in
    ap (λ b. if b then change_ref_count d o else o) same

-- After a change of the references, the row of the id is there.
pub find-after :
    (id : ℕ) (d : ℤ) (objects : List StorageObject) (x : StorageObject)
    → find_by_id id objects ≡ some x
    → find_by_id id (update_object id (change_ref_count d) objects) ≡ some (change_ref_count d x)
find-after id d [] x h = cc
find-after id d (o ∷ rest) x h =
    let later = update_object id (change_ref_count d) rest in
    elim (Bool-cases (is_live id o)) [
      | inl t ↦
          let e : o ≡ x = some-injective_lem o x (sym (find-first (is_live id) o rest t) ∙ h) in
          find-first (is_live id) (changed id d o) later (changed-live id d o ∙ t)
          ∙ ap some (changed_self id d o t ∙ ap (change_ref_count d) e)
      | inr f ↦
          find-later (is_live id) (changed id d o) later (changed-live id d o ∙ f)
          ∙ find-after id d rest x (sym (find-later (is_live id) o rest f) ∙ h)
    ]

fresh-IsStored :
    (fails : Bool) (p : StoreParams) (hash key : List ℕ) (s : StorageState) (ref : StoredObjectRef)
    → IsConsistent s
    → (store_found fails hash key p none s).0 ≡ ok ref
    → IsStored ref.id hash (store_found fails hash key p none s).1
unfolding store_found to_ref new_object
fresh-IsStored true p hash key s ref c h = cc
fresh-IsStored false p hash key s ref c h =
    let o = new_object s.next_id hash key p in
    let t = cataloged o p.body s in
    let (objects, stored, next) = account-tables p.guild_id (pos (length p.body)) (pos 1) t in
    let e : ref.id ≡ s.next_id = ground arith in
    subst (λ i. IsStored i hash (account p.guild_id (pos (length p.body)) (pos 1) t)) (sym e)
      (
        rw next (omega arith),
        subst (All (HasDigest s.next_id hash)) (sym objects)
            (λ z. refl, below-HasDigest s.next_id hash s.objects c.below),
        (
          o,
          subst (λ os. find_by_id s.next_id os ≡ some o) (sym objects)
              (find-first (is_live s.next_id) o s.objects (live-itself o refl)),
        ),
      )

hash-facts :
    (guild : Option String) (ns : StorageNamespace) (hash : List ℕ) (o : StorageObject)
    → has_hash guild ns hash o ≡ true
    → (o.content_hash ≡ hash) × (o.deleted ≡ false)
unfolding has_hash
hash-facts guild ns hash o h = (ground (arith, same_codes_iff o.content_hash hash), ground arith)

below-find :
    (n : ℕ) (p : StorageObject → Bool) (objects : List StorageObject) (x : StorageObject)
    → AllBelow n objects
    → find p objects ≡ some x
    → x.id < n
below-find n p [] x below h = cc
below-find n p (o ∷ rest) x below h = elim (Bool-cases (p o)) [
  | inl t ↦
      let e : o ≡ x = some-injective_lem o x (sym (find-first p o rest t) ∙ h) in
      subst (λ (y : StorageObject). y.id < n) e below.0
  | inr f ↦ below-find n p rest x below.1 (sym (find-later p o rest f) ∙ h)
]

deduped-IsStored :
    (fails : Bool) (p : StoreParams) (hash key : List ℕ) (s : StorageState) (ref : StoredObjectRef)
    (x : StorageObject)
    → IsConsistent s
    → find_by_hash p.guild_id p.namespace hash s.objects ≡ some x
    → (store_found fails hash key p (some x) s).0 ≡ ok ref
    → IsStored ref.id hash (store_found fails hash key p (some x) s).1
unfolding store_found to_ref find_by_hash increment_ref_count
deduped-IsStored fails p hash key s ref x c there h =
    let test = has_hash p.guild_id p.namespace hash in
    let (digest, live) =
      hash-facts p.guild_id p.namespace hash x (find-holds test s.objects x there) in
    let (digests, itself) =
      found_unique test s.objects x c.unique (λ o t. (hash-facts p.guild_id p.namespace hash o t).1)
        there in
    let e : ref.id ≡ x.id = ground arith in
    subst (λ i. IsStored i hash (store_deduped x s).1) (sym e)
      (
        below-find s.next_id test s.objects x c.below there,
        All-update (HasDigest x.id hash) x.id (change_ref_count (pos 1)) s.objects (λ o d. d)
            (subst (λ d. All (HasDigest x.id d) s.objects) digest digests),
        (change_ref_count (pos 1) x, find-after x.id (pos 1) s.objects x itself),
      )

-- A successful store leaves its object stored with the digest of the body.
pub store_found-IsStored :
    (fails : Bool) (p : StoreParams) (hash : List ℕ) (key : List ℕ) (s : StorageState)
    (ref : StoredObjectRef)
    → IsConsistent s
    → (store_found fails hash key p (find_by_hash p.guild_id p.namespace hash s.objects) s).0
      ≡ ok ref
    → IsStored ref.id hash
        (store_found fails hash key p (find_by_hash p.guild_id p.namespace hash s.objects) s).1
store_found-IsStored fails p hash key s ref c h =
    elim (Option-cases (find_by_hash p.guild_id p.namespace hash s.objects)) [
      | inl absent ↦
          subst
            (λ o.
              (store_found fails hash key p o s).0 ≡ ok ref
              → IsStored ref.id hash (store_found fails hash key p o s).1)
            (sym absent) (fresh-IsStored fails p hash key s ref c) h
      | inr (x, there) ↦
          subst
            (λ o.
              (store_found fails hash key p o s).0 ≡ ok ref
              → IsStored ref.id hash (store_found fails hash key p o s).1)
            (sym there) (deduped-IsStored fails p hash key s ref x c there) h
    ]

module _ (sha256_hex : List ℕ → List ℕ) (quota_bytes : String → ℕ) where
  checked-IsStored :
      (fails : Bool) (p : StoreParams) (r : Answered (Unit {0})) (ref : StoredObjectRef)
      → IsConsistent r.1
      → (store_checked sha256_hex fails p r).0 ≡ ok ref
      → IsStored ref.id (sha256_hex p.body) (store_checked sha256_hex fails p r).1
  unfolding store_checked
  checked-IsStored fails p (err e, s) ref c h = cc
  checked-IsStored fails p (ok _, s) ref c h =
      store_found-IsStored fails p (sha256_hex p.body)
        (build_object_key p.guild_id p.namespace (sha256_hex p.body)) s ref c h

  pub store-IsStored :
      (fails : Bool) (p : StoreParams) (s : StorageState) (ref : StoredObjectRef)
      → IsConsistent s
      → (store sha256_hex quota_bytes fails p s).0 ≡ ok ref
      → IsStored ref.id (sha256_hex p.body) (store sha256_hex quota_bytes fails p s).1
  unfolding store
  store-IsStored fails p s ref c h =
      checked-IsStored fails p (assert_within_quota quota_bytes p.guild_id (length p.body) s) ref
        (assert-keeps quota_bytes p.guild_id (length p.body) s c) h
