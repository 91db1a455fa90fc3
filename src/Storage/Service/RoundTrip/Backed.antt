-- ===== src/Storage/Service/RoundTrip/Backed.antt =====
-- src/modules/storage/application/storage.service.ts: under the key of every row the driver holds
-- bytes with the row's digest.
use armstrong_bot.Prelude.{
  ℕ, ◌≤◌, ◌≡◌, inl, inr, refl, sym, ap, ◌∙◌, String, Bool, true, false, List, [], ◌∷◌, ◌++◌, Option,
  none, some, eqb, if◌then◌else◌, length, length-append, Result, ok, err, arith, All, Bool-cases,
  same_codes, same_codes_iff,
}
use armstrong_bot.Prelude.Int.{ℤ, pos, minus}
use armstrong_bot.Storage.Objects.{
  StorageNamespace, StorageObject, StorageState, update_object, change_ref_count, mark_deleted,
  increment_ref_count, decrement_ref_count, soft_delete_object, get_bytes, build_object_key,
}
use armstrong_bot.Storage.Service.{
  StorageError, StoreParams, Answered, account, new_object, cataloged, store_found, store_checked,
  assert_within_quota, store, require_object, get_buffer, get_buffer_of, read_bytes,
  sign_download_url, sign_of, delete, delete_of, Request, store_request, read_request, sign_request,
  delete_request, handle_storage, handle_all,
}
use armstrong_bot.Storage.Service.Accounting.{assert_within_quota-tables}

-- Equal texts whose ends are equally long have equal ends.
append-end : (xs ys h k : List ℕ) → xs ++ h ≡ ys ++ k → length h ≡ length k → h ≡ k
append-end [] [] h k e same = e
append-end [] (y ∷ ys) h k e same =
    absurd (omega (arith, ap length e, length-append {0} (y ∷ ys) k))
append-end (x ∷ xs) [] h k e same =
    absurd (omega (arith, ap length e, length-append {0} (x ∷ xs) h))
append-end (x ∷ xs) (y ∷ ys) h k e same = append-end xs ys h k (ap rest_of e) same
  where
    rest_of : List ℕ → List ℕ
    rest_of [] = []
    rest_of (z ∷ zs) = zs

pub All-update :
    (P : StorageObject → Type 0) (id : ℕ) (change : StorageObject → StorageObject)
    (objects : List StorageObject)
    → ((o : StorageObject) → P o → P (change o))
    → All P objects
    → All P (update_object id change objects)
All-update P id change [] keeps h = tt
All-update P id change (o ∷ rest) keeps h = (
  elim (eqb o.id id) as (λ b. P (if b then change o else o)) [ true ↦ keeps o h.0 | false ↦ h.0 ],
  All-update P id change rest keeps h.1,
)

pub All-map :
    (P Q : StorageObject → Type 0) (objects : List StorageObject)
    → ((o : StorageObject) → P o → Q o)
    → All P objects
    → All Q objects
All-map P Q [] f h = tt
All-map P Q (o ∷ rest) f h = (f o h.0, All-map P Q rest f h.1)

-- The tables that reading, and a check of the quota, leave alone.
abbrev pub SameTables : StorageState → StorageState → Type 0
SameTables new old =
    (new.objects ≡ old.objects) × (new.stored ≡ old.stored) × (new.next_id ≡ old.next_id)

pub account-tables :
    (guild : Option String) (bytes count : ℤ) (s : StorageState)
    → SameTables (account guild bytes count s) s
unfolding account
account-tables none bytes count s = (refl, refl, refl)
account-tables (some guild) bytes count s = ground arith

get_buffer-tables : (id : ℕ) (s : StorageState) → SameTables (get_buffer id s).1 s
unfolding get_buffer
get_buffer-tables id s = of_result (require_object id none s)
  where
    of_bytes : (o : StorageObject) (b : Option (List ℕ)) → SameTables (read_bytes o b s).1 s
    of_bytes o none = (refl, refl, refl)
    of_bytes o (some body) = (refl, refl, refl)

    of_result : (r : Result StorageError StorageObject) → SameTables (get_buffer_of r s).1 s
    of_result (err e) = (refl, refl, refl)
    of_result (ok o) = of_bytes o (get_bytes o.key s.stored)

sign-tables :
    (most id : ℕ) (ttl : Option ℕ) (s : StorageState)
    → SameTables (sign_download_url most id ttl s).1 s
unfolding sign_download_url
sign-tables most id ttl s = of_result (require_object id none s)
  where
    of_result : (r : Result StorageError StorageObject) → SameTables (sign_of most ttl r s).1 s
    of_result (err e) = (refl, refl, refl)
    of_result (ok o) = (refl, refl, refl)

module _ (sha256_hex : List ℕ → List ℕ) (quota_bytes : String → ℕ)
    (hex_length : (b : List ℕ) → length (sha256_hex b) ≡ 64) where
  -- The bytes under the key have the digest, with which the key ends.
  abbrev pub IsBacked : List (List ℕ × List ℕ) → StorageObject → Type 0
  IsBacked stored o =
      ((b : List ℕ) × (get_bytes o.key stored ≡ some b) × (sha256_hex b ≡ o.content_hash))
      × ((start : List ℕ) × (o.key ≡ start ++ o.content_hash))

  get_bytes-put :
      (key k body : List ℕ) (stored : List (List ℕ × List ℕ))
      → get_bytes key ((k, body) ∷ stored)
        ≡ (if same_codes k key then some body else get_bytes key stored)
  unfolding get_bytes
  get_bytes-put key k body stored = refl

  -- To put bytes under a key that ends with their digest keeps every row backed.
  pub put-IsBacked :
      (start body : List ℕ) (stored : List (List ℕ × List ℕ)) (o : StorageObject)
      → IsBacked stored o
      → IsBacked ((start ++ sha256_hex body, body) ∷ stored) o
  put-IsBacked start body stored o ((b, there, digest), (pre, named)) = (
    elim (Bool-cases (same_codes (start ++ sha256_hex body) o.key)) [
      | inl same ↦
          let equal = (same_codes_iff (start ++ sha256_hex body) o.key).0 same in
          (
            body,
            get_bytes-put o.key (start ++ sha256_hex body) body stored ∙ rw same refl,
            append-end start pre (sha256_hex body) o.content_hash (equal ∙ named)
                (hex_length body ∙ sym (hex_length b) ∙ ap length digest),
          )
      | inr other ↦
          (b, get_bytes-put o.key (start ++ sha256_hex body) body stored ∙ rw other there, digest)
    ],
    (pre, named),
  )

-- A property of each row, with the bytes, that no call of the service takes away.
module _ (sha256_hex : List ℕ → List ℕ) (quota_bytes : String → ℕ)
    (P : List (List ℕ × List ℕ) → StorageObject → Type 0) (low : ℕ)
    (referred : (stored : List (List ℕ × List ℕ)) (o : StorageObject) (d : ℤ)
      → P stored o
      → P stored (change_ref_count d o))
    (marked : (stored : List (List ℕ × List ℕ)) (o : StorageObject)
      → P stored o
      → P stored (mark_deleted o))
    (put : (guild : Option String) (ns : StorageNamespace) (body : List ℕ)
        (stored : List (List ℕ × List ℕ)) (o : StorageObject)
      → P stored o
      → P ((build_object_key guild ns (sha256_hex body), body) ∷ stored) o)
    (fresh : (n : ℕ) (p : StoreParams) (stored : List (List ℕ × List ℕ))
      → low ≤ n
      → P ((build_object_key p.guild_id p.namespace (sha256_hex p.body), p.body) ∷ stored) (
          new_object n
            (sha256_hex p.body)
            (build_object_key p.guild_id p.namespace (sha256_hex p.body))
            p)) where
  abbrev pub Keeping : StorageState → Type 0
  Keeping s = (low ≤ s.next_id) × All (P s.stored) s.objects

  Keeping-same : (new old : StorageState) → SameTables new old → Keeping old → Keeping new
  Keeping-same new old (objects, stored, next) (le, all) = (rw next le, rw (objects, stored) all)

  Keeping-found :
      (fails : Bool) (p : StoreParams) (found : Option StorageObject) (s : StorageState)
      → Keeping s
      → Keeping
          (store_found fails
            (sha256_hex p.body)
            (build_object_key p.guild_id p.namespace (sha256_hex p.body))
            p
            found
            s).1
  unfolding store_found new_object increment_ref_count
  Keeping-found true p none s k = k
  Keeping-found false p none s (le, all) =
      let key = build_object_key p.guild_id p.namespace (sha256_hex p.body) in
      let o = new_object s.next_id (sha256_hex p.body) key p in
      Keeping-same (account p.guild_id (pos (length p.body)) (pos 1) (cataloged o p.body s))
        (cataloged o p.body s)
        (account-tables p.guild_id (pos (length p.body)) (pos 1) (cataloged o p.body s))
        (
          omega arith,
          (
            fresh s.next_id p s.stored le,
            All-map (P s.stored) (P ((key, p.body) ∷ s.stored)) s.objects
                (put p.guild_id p.namespace p.body s.stored) all,
          ),
        )
  Keeping-found fails p (some o) s (le, all) = (
    le,
    All-update (P s.stored) o.id (change_ref_count (pos 1)) s.objects
        (λ x. referred s.stored x (pos 1)) all,
  )

  Keeping-deleted :
      (r : Result StorageError StorageObject) (s : StorageState)
      → Keeping s
      → Keeping (delete_of r s).1
  unfolding delete_of decrement_ref_count soft_delete_object
  Keeping-deleted (err e) s k = k
  Keeping-deleted (ok o) s (le, all) =
      let gone = update_object o.id mark_deleted s.objects in
      let left = update_object o.id (change_ref_count (minus 1)) gone in
      let t = record s { objects = left } in
      Keeping-same (account o.guild_id (minus o.size) (minus 1) t) t
        (account-tables o.guild_id (minus o.size) (minus 1) t)
        (
          le,
          All-update (P s.stored) o.id (change_ref_count (minus 1)) gone
              (λ x. referred s.stored x (minus 1))
              (All-update (P s.stored) o.id mark_deleted s.objects (marked s.stored) all),
        )

  Keeping-checked :
      (fails : Bool) (p : StoreParams) (r : Answered (Unit {0}))
      → Keeping r.1
      → Keeping (store_checked sha256_hex fails p r).1
  unfolding store_checked
  Keeping-checked fails p (err e, s) k = k
  Keeping-checked fails p (ok _, s) k = Keeping-found fails p _ s k

  pub Keeping-handle :
      (r : Request) (s : StorageState)
      → Keeping s
      → Keeping (handle_storage sha256_hex quota_bytes r s)
  unfolding handle_storage store delete
  Keeping-handle (store_request fails p) s k =
      let t = (assert_within_quota quota_bytes p.guild_id (length p.body) s).1 in
      let (objects, usages, stored, next) =
        assert_within_quota-tables quota_bytes p.guild_id (length p.body) s in
      Keeping-checked fails p (assert_within_quota quota_bytes p.guild_id (length p.body) s)
        (Keeping-same t s (objects, stored, next) k)
  Keeping-handle (read_request id) s k =
      Keeping-same (get_buffer id s).1 s (get_buffer-tables id s) k
  Keeping-handle (sign_request most id ttl) s k =
      Keeping-same (sign_download_url most id ttl s).1 s (sign-tables most id ttl s) k
  Keeping-handle (delete_request id scope) s k = Keeping-deleted (require_object id scope s) s k

  pub Keeping-all :
      (rs : List Request) (s : StorageState)
      → Keeping s
      → Keeping (handle_all sha256_hex quota_bytes rs s)
  unfolding handle_all
  Keeping-all [] s k = k
  Keeping-all (r ∷ rest) s k =
      Keeping-all rest (handle_storage sha256_hex quota_bytes r s) (Keeping-handle r s k)
