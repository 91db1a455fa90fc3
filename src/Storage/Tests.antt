-- ===== src/Storage/Tests.antt =====
-- Runs of the storage service at concrete calls.
use armstrong_bot.Prelude.{
  ℕ, ◌≤◌, ◌≡◌, ◌⊎◌, refl, String, Bool, true, false, List, [], ◌∷◌, none, some, suc, zero,
  if◌then◌else◌, length, ok, err, arith, same_codes, same_codes_iff, Bool-cases, inl, inr, sym, ap,
  ◌∙◌,
}
use armstrong_bot.Prelude.Int.{pos, ◌+ℤ◌}
use armstrong_bot.Storage.Objects.{
  StorageNamespace, usage_in, build_object_key, find_by_hash, add_usage, increment_ref_count,
  get_bytes,
}
use armstrong_bot.Storage.Service.{
  StoreParams, StoredObjectRef, not_found, store, get_buffer, delete, Request, store_request,
  read_request, delete_request, handle_all, empty_storage,
}
use armstrong_bot.Storage.Service.Rows.{live_bytes, live_count}
use armstrong_bot.Storage.Service.Accounting.{handle_all-accounted}
use armstrong_bot.Storage.Service.Quota.{handle_all-within}
use armstrong_bot.Storage.Service.RoundTrip.Reading.{get_buffer-store}
use armstrong_bot.Storage.Service.Shared.{both, delete-shared}

abbrev body : List ℕ
body = 104 ∷ 105 ∷ []

abbrev repeat : ℕ → ℕ → List ℕ
repeat zero c = []
repeat (suc n) c = c ∷ repeat n c

-- A digest of 64 digits that tells the body from all other texts.
abbrev digest : List ℕ → List ℕ
digest b = if same_codes b body then repeat 64 48 else repeat 64 49

digest-length : (b : List ℕ) → length (digest b) ≡ 64
digest-length b =
    elim (same_codes b body) as (λ t. length (if t then repeat 64 48 else repeat 64 49) ≡ 64) [
      | true ↦ refl
      | false ↦ refl
    ]

abbrev first_of : List ℕ → ℕ
first_of [] = 0
first_of (c ∷ _) = c

digest-only : (b : List ℕ) → digest b ≡ digest body → b ≡ body
digest-only b h = elim (Bool-cases (same_codes b body)) [
  | inl same ↦ (same_codes_iff b body).0 same
  | inr other ↦ absurd (distinct (sym (chosen other) ∙ h))
]
  where
    chosen : same_codes b body ≡ false → digest b ≡ repeat 64 49
    chosen e = ap (λ t. if t then repeat 64 48 else repeat 64 49) e

    distinct : repeat 64 49 ≡ repeat 64 48 → ⊥
    distinct e = absurd (omega (arith, ap first_of e))

abbrev quota : String → ℕ
quota guild = 5

abbrev mine_params : StoreParams
mine_params = record {
  guild_id = some "g";
  namespace = StorageNamespace.exports;
  body = body;
  content_type = "text/plain";
  filename = none;
  owner_type = "ticket";
  owner_id = "1";
  immutable = none;
}

abbrev their_params : StoreParams
their_params = record mine_params { owner_id = "2" }

abbrev other_params : StoreParams
other_params = record mine_params { body = 1 ∷ 2 ∷ 3 ∷ 4 ∷ [] }

abbrev ref : Bool → StoredObjectRef
ref deduped = record {
  id = 0;
  key = build_object_key (some "g") StorageNamespace.exports (repeat 64 48);
  namespace = StorageNamespace.exports;
  size = 2;
  content_hash = repeat 64 48;
  deduped = deduped;
}

-- The second body does not fit; the first one is stored, read and deleted.
abbrev requests : List Request
requests =
    store_request false mine_params
    ∷ store_request false other_params
    ∷ store_request true their_params
    ∷ read_request 0
    ∷ []

stored :
    (store digest quota false mine_params (handle_all digest quota [] empty_storage)).0
    ≡ ok (ref false)
unfolding store handle_all build_object_key ◌+ℤ◌ find_by_hash add_usage increment_ref_count
    get_bytes
stored = refl

stored_again :
    (store digest quota false their_params
      (store digest quota false mine_params (handle_all digest quota [] empty_storage)).1).0
    ≡ ok (ref true)
unfolding store handle_all build_object_key ◌+ℤ◌ find_by_hash add_usage increment_ref_count
    get_bytes
stored_again = refl

used : (usage_in "g" (handle_all digest quota requests empty_storage).usages).used_bytes ≡ pos 2
unfolding handle_all build_object_key ◌+ℤ◌ find_by_hash add_usage increment_ref_count get_bytes
used = refl

handle_all-accounted_example :
    ((usage_in "g" (handle_all digest quota requests empty_storage).usages).used_bytes
      ≡ pos (live_bytes "g" (handle_all digest quota requests empty_storage).objects))
    × ((usage_in "g" (handle_all digest quota requests empty_storage).usages).object_count
        ≡ pos (live_count "g" (handle_all digest quota requests empty_storage).objects))
handle_all-accounted_example = handle_all-accounted digest quota requests "g" (λ e. cc)

handle_all-within_example :
    live_bytes "g" (handle_all digest quota requests empty_storage).objects ≤ quota "g"
handle_all-within_example = handle_all-within digest quota requests "g" (λ e. cc) (omega arith)

abbrev deletion : List Request
deletion = delete_request 0 (some (some "g")) ∷ []

get_buffer-store_example :
    ((get_buffer 0
        (store digest quota false mine_params (handle_all digest quota [] empty_storage)).1).0
      ≡ ok body)
    × (((get_buffer 0 (
            handle_all digest quota deletion
              (store digest quota false mine_params
                (handle_all digest quota [] empty_storage)).1)).0
          ≡ ok body)
        ⊎ ((get_buffer 0 (
              handle_all digest quota deletion
                (store digest quota false mine_params
                  (handle_all digest quota [] empty_storage)).1)).0
            ≡ err (not_found 0)))
get_buffer-store_example =
    get_buffer-store digest quota digest-length [] deletion false mine_params (ref false)
      digest-only stored

delete-shared_example :
    ((ref true).id ≡ (ref false).id)
    × ((delete 0 none (both digest quota [] mine_params their_params false false)).0 ≡ ok tt)
    × ((get_buffer 0
          (delete 0 none (both digest quota [] mine_params their_params false false)).1).0
        ≡ err (not_found 0))
delete-shared_example =
    delete-shared digest quota [] mine_params their_params false false (ref false) (ref true) refl
      refl refl stored stored_again
