-- ===== src/Cache/MemoryStore/Refines/Runs.antt =====
-- src/cache/stores/memory-cache.store.ts: sequences of calls, from a new store on.
use text.Mathlib.Text.{starts_with}
use armstrong_bot.Prelude.{
  ℕ, ◌≡◌, refl, ◌∙◌, subst, String, true, false, List, [], ◌∷◌, Option, none, some, arith,
  if◌then◌else◌, ltb, length, lookup,
}
use mathlib.Core.Path.{ap₂}
use armstrong_bot.Cache.MemoryStore.Lru.{Items, call_list, run_list}
use armstrong_bot.Cache.MemoryStore.{
  MemoryCacheStore, CacheEntry, evict, evict_option, evict_tail, set_new, LruNode, Call,
  evict_prefix, get_found, set_found, has_found, call_store, run_store, empty_store,
}
use armstrong_bot.Cache.MemoryStore.Represents.{Holds}
use armstrong_bot.Cache.MemoryStore.Refines.Calls.{call-Agrees}

module _ {V : Type 0} where
  pub empty_store-Holds : (max : ℕ) (nodes : ℕ → LruNode V) → Holds (empty_store max nodes) []
  unfolding empty_store
  empty_store-Holds max nodes = (
    [],
    record {
      chain = record { forth = tt; head = refl; tail = refl; distinct = tt };
      mapped = λ a i. absurd i;
      listed = λ k a h. cc;
      made = λ a i. absurd i;
      unique = tt;
      sized = refl;
    },
    refl,
  )

  evict_prefix-max :
      (prefix : String) (m : List (String × ℕ)) (count : ℕ) (s : MemoryCacheStore V)
      → (evict_prefix prefix m count s).0.max_items ≡ s.max_items
  unfolding evict_prefix
  evict_prefix-max prefix [] count s = refl
  evict_prefix-max prefix ((k, a) ∷ m) count s =
      evict_prefix-max prefix m _ _
      ∙ elim (starts_with k prefix) as (λ b. (if b then evict a s else s).max_items ≡ s.max_items) [
        | true ↦ refl
        | false ↦ refl
      ]

  evict_option-max :
      (o : Option ℕ) (s : MemoryCacheStore V) → (evict_option o s).max_items ≡ s.max_items
  unfolding evict_option
  evict_option-max none s = refl
  evict_option-max (some a) s = refl

  get_found-max :
      (now : ℕ) (o : Option ℕ) (s : MemoryCacheStore V)
      → (get_found now o s).0.max_items ≡ s.max_items
  unfolding get_found
  get_found-max now none s = refl
  get_found-max now (some a) s = ground arith

  set_found-max :
      (k : String) (entry : CacheEntry V) (o : Option ℕ) (s : MemoryCacheStore V)
      → (set_found k entry o s).0.max_items ≡ s.max_items
  unfolding set_found
  set_found-max k entry none s =
      elim (ltb s.max_items (length (set_new k entry s).entries))
        as (λ b.
          (if b then evict_tail (set_new k entry s) else set_new k entry s).max_items
          ≡ s.max_items) [
            | true ↦ evict_option-max (set_new k entry s).links.tail (set_new k entry s)
            | false ↦ refl
          ]
  set_found-max k entry (some a) s = refl

  has_found-max :
      (now : ℕ) (o : Option ℕ) (s : MemoryCacheStore V)
      → (has_found now o s).0.max_items ≡ s.max_items
  unfolding has_found
  has_found-max now none s = refl
  has_found-max now (some a) s = ground arith

  -- No call changes the limit.
  call_store-max :
      (now : ℕ) (call : Call V) (s : MemoryCacheStore V)
      → (call_store now call s).0.max_items ≡ s.max_items
  unfolding call_store
  call_store-max now (Call.get k) s = get_found-max now (lookup k s.entries) s
  call_store-max now (Call.set k entry) s = set_found-max k entry (lookup k s.entries) s
  call_store-max now (Call.delete k) s = evict_option-max (lookup k s.entries) s
  call_store-max now (Call.delete_by_prefix prefix) s = evict_prefix-max prefix s.entries 0 s
  call_store-max now (Call.has k) s = has_found-max now (lookup k s.entries) s

  run-Agrees :
      (calls : List (ℕ × Call V)) (s : MemoryCacheStore V) (items : Items V)
      → Holds s items
      → Holds (run_store calls s).0 (run_list s.max_items calls items).0
        × ((run_store calls s).1 ≡ (run_list s.max_items calls items).1)
  unfolding run_store run_list
  run-Agrees [] s items h = (h, refl)
  run-Agrees ((now, call) ∷ rest) s items h =
      let (held, said) = call-Agrees now call s items h in
      let (held', said') =
        subst
          (λ max.
            Holds (run_store rest (call_store now call s).0).0
              (run_list max rest (call_list s.max_items now call items).0).0
            × ((run_store rest (call_store now call s).0).1
                ≡ (run_list max rest (call_list s.max_items now call items).0).1))
          (call_store-max now call s)
          (run-Agrees rest (call_store now call s).0 (call_list s.max_items now call items).0
            held) in
      (held', ap₂ ◌∷◌ said said')

  -- From a new store on, every sequence of calls, at any times and with any limit, gets the answers
  -- that the list of the items in order of use gives, and leaves nodes and a map that stand for that
  -- list.
  pub run_store_refines :
      (max : ℕ) (nodes : ℕ → LruNode V) (calls : List (ℕ × Call V))
      → Holds (run_store calls (empty_store max nodes)).0 (run_list max calls []).0
        × ((run_store calls (empty_store max nodes)).1 ≡ (run_list max calls []).1)
  unfolding empty_store
  run_store_refines max nodes calls =
      run-Agrees calls (empty_store max nodes) [] (empty_store-Holds max nodes)
