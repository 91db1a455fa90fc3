-- ===== src/Storage/Service/Quota.antt =====
-- src/modules/storage/application/storage.service.ts: the quota bounds what the live objects of a
-- guild take.
use armstrong_bot.Prelude.{
  ℕ, ◌+◌, ◌≤◌, ◌≡◌, ◌≢◌, inl, inr, refl, sym, ap, ◌∙◌, subst, String, Bool, true, false, List, [],
  ◌∷◌, Option, none, some, if◌then◌else◌, length, Result, ok, err, ◌==◌, eq_iff, arith, Bool-cases,
  Result-cases,
}
use armstrong_bot.Prelude.Int.{pos, minus, pos-add}
use armstrong_bot.Storage.Objects.{
  StorageObject, StorageState, find_by_id, find_by_hash, update_object, change_ref_count,
  mark_deleted, increment_ref_count, decrement_ref_count, soft_delete_object, get_bytes,
  build_object_key,
}
use armstrong_bot.Storage.Service.{
  StorageError, StoreParams, new_object, cataloged, store_deduped, store_found, store_checked,
  assert_within_quota, over_quota, store, require_object, get_buffer, get_buffer_of, read_bytes,
  sign_download_url, sign_of, delete, delete_of, Request, store_request, read_request, sign_request,
  delete_request, handle_storage, handle_all, empty_storage,
}
use armstrong_bot.Storage.Service.Rows.{
  is_of_guild, live_bytes, IsConsistent, live-change_ref_count, live-mark_deleted,
}
use armstrong_bot.Storage.Service.Accounting.{
  account-same, require_object-found, find_by_id_self, handle_storage-IsConsistent,
  empty_storage-IsConsistent,
}

-- No more than before for any guild.
abbrev NoMore : StorageState → StorageState → Type 0
NoMore new old = (g : String) → live_bytes g new.objects ≤ live_bytes g old.objects

store_deduped-NoMore : (o : StorageObject) (s : StorageState) → NoMore (store_deduped o s).1 s
unfolding store_deduped increment_ref_count
store_deduped-NoMore o s g = omega (arith, (live-change_ref_count g o.id (pos 1) s.objects).0)

delete_of-NoMore :
    (o : StorageObject) (s : StorageState)
    → IsConsistent s
    → find_by_id o.id s.objects ≡ some o
    → NoMore (delete_of (ok o) s).1 s
unfolding delete_of decrement_ref_count soft_delete_object
delete_of-NoMore o s c found g =
    let gone = update_object o.id mark_deleted s.objects in
    let left = update_object o.id (change_ref_count (minus 1)) gone in
    let same = account-same o.guild_id (minus o.size) (minus 1) (record s { objects = left }) in
    omega (
      arith,
      ap (live_bytes g) same.0,
      (live-mark_deleted g o.id s.objects o c.unique found).0,
      (live-change_ref_count g o.id (minus 1) gone).0,
    )

delete-NoMore :
    (id : ℕ) (scope : Option (Option String)) (s : StorageState)
    → IsConsistent s
    → NoMore (delete id scope s).1 s
unfolding delete
delete-NoMore id scope s c = elim (Result-cases (require_object id scope s)) [
  | inl (o, there) ↦
      let found = (require_object-found id scope s o there).0 in
      subst (λ r. NoMore (delete_of r s).1 s) (sym there)
        (delete_of-NoMore o s c (find_by_id_self id s.objects o found))
  | inr (e, thrown) ↦ subst (λ r. NoMore (delete_of r s).1 s) (sym thrown) (failed e)
]
  where
    failed : (e : StorageError) → NoMore (delete_of (err e) s).1 s
    failed e g = omega arith

get_buffer-objects : (id : ℕ) (s : StorageState) → (get_buffer id s).1.objects ≡ s.objects
unfolding get_buffer
get_buffer-objects id s = of_result (require_object id none s)
  where
    of_bytes : (o : StorageObject) (b : Option (List ℕ)) → (read_bytes o b s).1.objects ≡ s.objects
    of_bytes o none = refl
    of_bytes o (some body) = refl

    of_result : (r : Result StorageError StorageObject) → (get_buffer_of r s).1.objects ≡ s.objects
    of_result (err e) = refl
    of_result (ok o) = of_bytes o (get_bytes o.key s.stored)

sign-objects :
    (most id : ℕ) (ttl : Option ℕ) (s : StorageState)
    → (sign_download_url most id ttl s).1.objects ≡ s.objects
unfolding sign_download_url
sign-objects most id ttl s = of_result (require_object id none s)
  where
    of_result :
        (r : Result StorageError StorageObject) → (sign_of most ttl r s).1.objects ≡ s.objects
    of_result (err e) = refl
    of_result (ok o) = refl

module _ (sha256_hex : List ℕ → List ℕ) (quota_bytes : String → ℕ) where
  -- Every guild with a quota, which is not 0, keeps to it. The empty text is no guild.
  abbrev pub IsWithinQuota : StorageState → Type 0
  IsWithinQuota s =
      (g : String) → g ≢ "" → quota_bytes g ≢ 0 → live_bytes g s.objects ≤ quota_bytes g

  NoMore-IsWithinQuota :
      (new old : StorageState) → NoMore new old → IsWithinQuota old → IsWithinQuota new
  NoMore-IsWithinQuota new old less w g ne limited = omega (arith, less g, w g ne limited)

  -- What passes the check fits.
  fits :
      (guild : String) (size : ℕ) (s : StorageState)
      → IsConsistent s
      → guild ≢ ""
      → quota_bytes guild ≢ 0
      → over_quota quota_bytes guild size s ≡ false
      → size + live_bytes guild s.objects ≤ quota_bytes guild
  unfolding over_quota
  fits guild size s c ne limited h =
      ground (arith, c.accounted guild ne, pos-add (live_bytes guild s.objects) size)

  -- A store adds at most the body, to its own guild.
  store_found-live :
      (fails : Bool) (hash key : List ℕ) (p : StoreParams) (found : Option StorageObject)
      (s : StorageState) (g : String)
      → live_bytes g (store_found fails hash key p found s).1.objects
        ≤ (if is_of_guild g p.guild_id then length p.body else 0) + live_bytes g s.objects
  unfolding store_found new_object
  store_found-live true hash key p none s g = omega arith
  store_found-live false hash key p none s g = omega (
    arith,
    ap (live_bytes g)
        (account-same p.guild_id (pos (length p.body)) (pos 1)
          (cataloged (new_object s.next_id hash key p) p.body s)).0,
  )
  store_found-live fails hash key p (some o) s g = omega (arith, store_deduped-NoMore o s g)

  fitted :
      (fails : Bool) (p : StoreParams) (guild : String) (s : StorageState)
      → p.guild_id ≡ some guild
      → IsConsistent s
      → IsWithinQuota s
      → over_quota quota_bytes guild (length p.body) s ≡ false
      → IsWithinQuota (store_checked sha256_hex fails p (ok tt, s)).1
  unfolding store_checked
  fitted fails p guild s e c w under g ne limited =
      let hash = sha256_hex p.body in
      let added =
        store_found-live fails hash (build_object_key p.guild_id p.namespace hash) p
          (find_by_hash p.guild_id p.namespace hash s.objects) s g in
      elim (Bool-cases (guild == g)) [
        | inl same ↦
            let at = (eq_iff guild g).0 same in
            let fit : length p.body + live_bytes g s.objects ≤ quota_bytes g =
              subst (λ x. length p.body + live_bytes x s.objects ≤ quota_bytes x) at
                (fits guild (length p.body) s c (λ z. ne (sym at ∙ z))
                  (λ z. limited (ap quota_bytes (sym at) ∙ z)) under) in
            let more : (if is_of_guild g p.guild_id then length p.body else 0) ≡ length p.body =
              rw (e, same) refl in
            omega (arith, added, more, fit)
        | inr other ↦
            let still : (if is_of_guild g p.guild_id then length p.body else 0) ≡ 0 =
              rw (e, other) refl in
            omega (arith, added, still, w g ne limited)
      ]

  store-IsWithinQuota :
      (fails : Bool) (p : StoreParams) (guild : Option String) (s : StorageState)
      → p.guild_id ≡ guild
      → IsConsistent s
      → IsWithinQuota s
      → IsWithinQuota
          (store_checked sha256_hex fails p
            (assert_within_quota quota_bytes guild (length p.body) s)).1
  unfolding store_checked assert_within_quota
  store-IsWithinQuota fails p none s e c w = λ g ne limited.
      let hash = sha256_hex p.body in
      let added =
        store_found-live fails hash (build_object_key p.guild_id p.namespace hash) p
          (find_by_hash p.guild_id p.namespace hash s.objects) s g in
      let still : (if is_of_guild g p.guild_id then length p.body else 0) ≡ 0 = rw e refl in
      omega (arith, added, still, w g ne limited)
  store-IsWithinQuota fails p (some guild) s e c w =
      elim (Bool-cases (over_quota quota_bytes guild (length p.body) s)) [
        | inl over ↦ rw over w
        | inr under ↦ rw under (λ g ne limited. fitted fails p guild s e c w under g ne limited)
      ]

  handle_storage-IsWithinQuota :
      (r : Request) (s : StorageState)
      → IsConsistent s
      → IsWithinQuota s
      → IsWithinQuota (handle_storage sha256_hex quota_bytes r s)
  unfolding handle_storage store
  handle_storage-IsWithinQuota (store_request fails p) s c w =
      store-IsWithinQuota fails p p.guild_id s refl c w
  handle_storage-IsWithinQuota (read_request id) s c w =
      λ g ne limited. rw (get_buffer-objects id s) (w g ne limited)
  handle_storage-IsWithinQuota (sign_request most id ttl) s c w =
      λ g ne limited. rw (sign-objects most id ttl s) (w g ne limited)
  handle_storage-IsWithinQuota (delete_request id scope) s c w =
      NoMore-IsWithinQuota (delete id scope s).1 s (delete-NoMore id scope s c) w

  handle_all-keeps_quota :
      (rs : List Request) (s : StorageState)
      → IsConsistent s
      → IsWithinQuota s
      → IsWithinQuota (handle_all sha256_hex quota_bytes rs s)
  unfolding handle_all
  handle_all-keeps_quota [] s c w = w
  handle_all-keeps_quota (r ∷ rest) s c w =
      handle_all-keeps_quota rest (handle_storage sha256_hex quota_bytes r s)
        (handle_storage-IsConsistent sha256_hex quota_bytes r s c)
        (handle_storage-IsWithinQuota r s c w)

  -- After any calls on an empty store, one after the other, the live objects of no guild with a
  -- quota other than 0 take more than its quota; the guild is not the empty text.
  pub handle_all-within :
      (rs : List Request) (g : String)
      → g ≢ ""
      → quota_bytes g ≢ 0
      → live_bytes g (handle_all sha256_hex quota_bytes rs empty_storage).objects ≤ quota_bytes g
  handle_all-within rs =
      handle_all-keeps_quota rs empty_storage (empty_storage-IsConsistent sha256_hex quota_bytes)
        (λ g ne limited. omega arith)
