-- ===== src/Storage/Service/RoundTrip/Reading.antt =====
-- src/modules/storage/application/storage.service.ts: a stored object is read back as it was stored,
-- then and after any further calls, until it is deleted.
use armstrong_bot.Prelude.{
  ℕ, ◌+◌, ◌<◌, ◌≤◌, ◌≡◌, ◌⊎◌, inl, inr, refl, ap, ◌∙◌, subst, String, Bool, List, [], ◌∷◌, Option,
  none, some, length, ok, err, arith, All, Option-cases, same_codes_iff,
}
use armstrong_bot.Storage.Objects.{
  StorageNamespace, StorageObject, StorageState, find_by_id, is_live, get_bytes, build_object_key,
}
use armstrong_bot.Storage.Service.{
  not_found, StoreParams, StoredObjectRef, new_object, store, require_found, get_buffer,
  get_buffer_of, read_bytes, Request, store_request, handle_all, empty_storage,
}
use armstrong_bot.Storage.Service.Accounting.{
  find-holds, handle_all-keeps, empty_storage-IsConsistent,
}
use armstrong_bot.Storage.Service.RoundTrip.Backed.{IsBacked, put-IsBacked, Keeping-all}
use armstrong_bot.Storage.Service.RoundTrip.Stored.{All-find, HasDigest, store-IsStored}

get_bytes-own :
    (key body : List ℕ) (stored : List (List ℕ × List ℕ))
    → get_bytes key ((key, body) ∷ stored) ≡ some body
unfolding get_bytes
get_bytes-own key body stored = rw ((same_codes_iff key key).1 refl) refl

module _ (sha256_hex : List ℕ → List ℕ) (quota_bytes : String → ℕ)
    (hex_length : (b : List ℕ) → length (sha256_hex b) ≡ 64) where
  abbrev AllBacked : StorageState → Type 0
  AllBacked s = All (IsBacked sha256_hex quota_bytes hex_length s.stored) s.objects

  key-IsBacked :
      (guild : Option String) (ns : StorageNamespace) (body : List ℕ)
      (stored : List (List ℕ × List ℕ)) (o : StorageObject)
      → IsBacked sha256_hex quota_bytes hex_length stored o
      → IsBacked sha256_hex quota_bytes hex_length
          ((build_object_key guild ns (sha256_hex body), body) ∷ stored)
          o
  unfolding build_object_key
  key-IsBacked guild ns body stored o b =
      put-IsBacked sha256_hex quota_bytes hex_length _ body stored o b

  new-IsBacked :
      (n : ℕ) (p : StoreParams) (stored : List (List ℕ × List ℕ))
      → 0 ≤ n
      → IsBacked sha256_hex quota_bytes hex_length
          ((build_object_key p.guild_id p.namespace (sha256_hex p.body), p.body) ∷ stored)
          (new_object n
            (sha256_hex p.body)
            (build_object_key p.guild_id p.namespace (sha256_hex p.body))
            p)
  unfolding new_object build_object_key
  new-IsBacked n p stored le = ((p.body, get_bytes-own _ p.body stored, refl), (_, refl))

  all-AllBacked :
      (rs : List Request) (s : StorageState)
      → AllBacked s
      → AllBacked (handle_all sha256_hex quota_bytes rs s)
  all-AllBacked rs s b =
      (Keeping-all sha256_hex quota_bytes (IsBacked sha256_hex quota_bytes hex_length) 0
        (λ stored o d k. k) (λ stored o k. k) key-IsBacked new-IsBacked rs s (omega arith, b)).1

  -- Calls keep the digest of an id that has been handed out.
  All-HasDigest :
      (id : ℕ) (hash : List ℕ) (rs : List Request) (s : StorageState)
      → id < s.next_id
      → All (HasDigest id hash) s.objects
      → All (HasDigest id hash) (handle_all sha256_hex quota_bytes rs s).objects
  unfolding new_object
  All-HasDigest id hash rs s made all =
      (Keeping-all sha256_hex quota_bytes (λ stored o. HasDigest id hash o) (id + 1)
        (λ stored o d k. k) (λ stored o k. k) (λ guild ns body stored o k. k)
        (λ n p stored le e. absurd (omega (arith, le, e))) rs s (omega (arith, made), all)).1

  -- A live row of the id is read as the only text with its digest.
  read-body :
      (id : ℕ) (body : List ℕ) (s : StorageState) (o : StorageObject)
      → ((b : List ℕ) → sha256_hex b ≡ sha256_hex body → b ≡ body)
      → AllBacked s
      → All (HasDigest id (sha256_hex body)) s.objects
      → find_by_id id s.objects ≡ some o
      → (get_buffer id s).0 ≡ ok body
  unfolding get_buffer get_bytes
  read-body id body s o only backed digests there =
      let ((b, bytes, hashed), ends) =
        All-find (IsBacked sha256_hex quota_bytes hex_length s.stored) (is_live id) s.objects o
          backed there in
      let live = find-holds (is_live id) s.objects o there in
      let named : o.id ≡ id = ground arith in
      let digest =
        All-find (HasDigest id (sha256_hex body)) (is_live id) s.objects o digests there named in
      ap (λ found. (get_buffer_of (require_found id none found) s).0) there
      ∙ ap (λ held. (read_bytes o held s).0) bytes
      ∙ ap ok (only b (hashed ∙ digest))

  read-none :
      (id : ℕ) (s : StorageState)
      → find_by_id id s.objects ≡ none
      → (get_buffer id s).0 ≡ err (not_found id)
  unfolding get_buffer
  read-none id s absent = ap (λ found. (get_buffer_of (require_found id none found) s).0) absent

  handle-store :
      (fails : Bool) (p : StoreParams) (s : StorageState)
      → handle_all sha256_hex quota_bytes (store_request fails p ∷ []) s
        ≡ (store sha256_hex quota_bytes fails p s).1
  unfolding handle_all
  handle-store fails p s = refl

  -- When a store succeeds, after any calls on an empty store, reading the object gives the body; and
  -- so does reading it after any further calls, or the object is not found. The digest has 64 digits,
  -- and no other text has the digest of the body.
  pub get_buffer-store :
      (before later : List Request) (fails : Bool) (p : StoreParams) (ref : StoredObjectRef)
      → ((b : List ℕ) → sha256_hex b ≡ sha256_hex p.body → b ≡ p.body)
      → (store sha256_hex quota_bytes fails p
          (handle_all sha256_hex quota_bytes before empty_storage)).0
        ≡ ok ref
      → ((get_buffer ref.id
            (store sha256_hex quota_bytes fails p
              (handle_all sha256_hex quota_bytes before empty_storage)).1).0
          ≡ ok p.body)
        × (((get_buffer ref.id (
                handle_all sha256_hex quota_bytes later
                  (store sha256_hex quota_bytes fails p
                    (handle_all sha256_hex quota_bytes before empty_storage)).1)).0
              ≡ ok p.body)
            ⊎ ((get_buffer ref.id (
                  handle_all sha256_hex quota_bytes later
                    (store sha256_hex quota_bytes fails p
                      (handle_all sha256_hex quota_bytes before empty_storage)).1)).0
                ≡ err (not_found ref.id)))
  get_buffer-store before later fails p ref only h =
      let s = handle_all sha256_hex quota_bytes before empty_storage in
      let c =
        handle_all-keeps sha256_hex quota_bytes before empty_storage
          (empty_storage-IsConsistent sha256_hex quota_bytes) in
      let t = (store sha256_hex quota_bytes fails p s).1 in
      let (made, digests, (o, there)) = store-IsStored sha256_hex quota_bytes fails p s ref c h in
      let backed : AllBacked t =
        subst AllBacked (handle-store fails p s)
          (all-AllBacked (store_request fails p ∷ []) s (all-AllBacked before empty_storage tt)) in
      let u = handle_all sha256_hex quota_bytes later t in
      (
        read-body ref.id p.body t o only backed digests there,
        elim (Option-cases (find_by_id ref.id u.objects)) [
          | inl absent ↦ inr (read-none ref.id u absent)
          | inr (x, held) ↦ inl (
              read-body ref.id p.body u x only (all-AllBacked later t backed)
                (All-HasDigest ref.id (sha256_hex p.body) later t made digests) held)
        ],
      )
