-- ===== src/Cache/MemoryStore/Refines/Size.antt =====
-- src/cache/stores/memory-cache.store.ts: the limit of a store.
use armstrong_bot.Prelude.{
  ℕ, ◌-◌, ◌≤◌, ◌<◌, ◌≡◌, refl, ap, String, Bool, List, [], ◌∷◌, Option, none, some, arith, lookup,
  remove, length, filter, not,
}
use armstrong_bot.Cache.MemoryStore.Lru.{
  Items, starts, drop_last, use_item, put_item, test_item, call_list, run_list,
}
use armstrong_bot.Cache.MemoryStore.{CacheEntry, LruNode, Call, run_store, empty_store}
use armstrong_bot.Cache.MemoryStore.Represents.{item_of}
use armstrong_bot.Cache.MemoryStore.Represents.Keyed.{length-map}
use armstrong_bot.Cache.MemoryStore.Refines.Runs.{run_store_refines}

module _ {V : Type 0} where
  length-remove-le : (k : String) (items : Items V) → length (remove k items) ≤ length items
  length-remove-le k [] = omega arith
  length-remove-le k ((j, e) ∷ items) = ground (arith, length-remove-le k items)

  length-remove-lt :
      (k : String) (items : Items V) (entry : CacheEntry V)
      → lookup k items ≡ some entry
      → length (remove k items) < length items
  length-remove-lt k [] entry h = cc
  length-remove-lt k ((j, e) ∷ items) entry h =
      ground (arith, length-remove-le k items, length-remove-lt k items entry)

  length-drop_last : (items : Items V) → length (drop_last items) ≡ length items - 1
  unfolding drop_last
  length-drop_last [] = omega arith
  length-drop_last (x ∷ []) = omega arith
  length-drop_last (x ∷ y ∷ items) = omega (arith, length-drop_last (y ∷ items))

  length-filter-le :
      (p : String × CacheEntry V → Bool) (items : Items V) → length (filter p items) ≤ length items
  length-filter-le p [] = omega arith
  length-filter-le p (x ∷ items) = ground (arith, length-filter-le p items)

  use_item-size :
      (now : ℕ) (k : String) (o : Option (CacheEntry V)) (items : Items V)
      → lookup k items ≡ o
      → length (use_item now k o items).0 ≤ length items
  unfolding use_item
  use_item-size now k none items h = omega arith
  use_item-size now k (some entry) items h =
      ground (arith, length-remove-le k items, length-remove-lt k items entry h)

  put_item-size :
      (max : ℕ) (k : String) (entry : CacheEntry V) (o : Option (CacheEntry V)) (items : Items V)
      → lookup k items ≡ o
      → length items ≤ max
      → length (put_item max k entry o items).0 ≤ max
  unfolding put_item
  put_item-size max k entry none items h le = ground (arith, length-drop_last ((k, entry) ∷ items))
  put_item-size max k entry (some old) items h le = omega (arith, length-remove-lt k items old h)

  test_item-size :
      (now : ℕ) (k : String) (o : Option (CacheEntry V)) (items : Items V)
      → length (test_item now k o items).0 ≤ length items
  unfolding test_item
  test_item-size now k none items = omega arith
  test_item-size now k (some entry) items = ground (arith, length-remove-le k items)

  call_list-size :
      (max now : ℕ) (call : Call V) (items : Items V)
      → length items ≤ max
      → length (call_list max now call items).0 ≤ max
  unfolding call_list
  call_list-size max now (Call.get k) items le =
      omega (arith, use_item-size now k (lookup k items) items refl)
  call_list-size max now (Call.set k entry) items le =
      put_item-size max k entry (lookup k items) items refl le
  call_list-size max now (Call.delete k) items le = omega (arith, length-remove-le k items)
  call_list-size max now (Call.delete_by_prefix prefix) items le =
      omega (arith, length-filter-le (λ item. not (starts prefix item)) items)
  call_list-size max now (Call.has k) items le =
      omega (arith, test_item-size now k (lookup k items) items)

  run_list-size :
      (max : ℕ) (calls : List (ℕ × Call V)) (items : Items V)
      → length items ≤ max
      → length (run_list max calls items).0 ≤ max
  unfolding run_list
  run_list-size max [] items le = le
  run_list-size max ((now, call) ∷ rest) items le =
      run_list-size max rest (call_list max now call items).0 (call_list-size max now call items le)

  -- Whatever the calls are, the map of a store that started empty never has more keys than
  -- `maxItems` at their end.
  pub run_store-size :
      (max : ℕ) (nodes : ℕ → LruNode V) (calls : List (ℕ × Call V))
      → length (run_store calls (empty_store max nodes)).0.entries ≤ max
  run_store-size max nodes calls =
      let ((xs, r, e), said) = run_store_refines max nodes calls in
      omega (
        arith,
        r.sized,
        length-map (item_of (run_store calls (empty_store max nodes)).0.links) xs,
        ap length e,
        run_list-size max calls [],
      )
