-- ===== src/Cache/MemoryStore/Lru.antt =====
-- What the store promises: a list of keys with their entries, the latest used first.
use text.Mathlib.Text.{starts_with}
use armstrong_bot.Prelude.{
  ℕ, String, Bool, true, false, not, List, [], ◌∷◌, Option, none, some, leb, ltb, if◌then◌else◌,
  length, filter, lookup, remove,
}
use armstrong_bot.Cache.MemoryStore.{CacheEntry, Call, Answer}

abbrev pub Items : Type 0 → Type 0
Items V = List (String × CacheEntry V)

module _ {V : Type 0} where
  unfoldable pub drop_last : Items V → Items V
  drop_last [] = []
  drop_last (x ∷ []) = []
  drop_last (x ∷ y ∷ xs) = x ∷ drop_last (y ∷ xs)

  abbrev pub starts : String → String × CacheEntry V → Bool
  starts prefix item = starts_with item.0 prefix

  -- A key that is found and has not expired comes first; one that has expired goes.
  unfoldable pub use_item : ℕ → String → Option (CacheEntry V) → Items V → Items V × Answer V
  use_item now key none items = (items, Answer.found none)
  use_item now key (some entry) items =
      if leb entry.expires_at now
      then (remove key items, Answer.found none)
      else ((key, entry) ∷ remove key items, Answer.found (some entry))

  -- An old key comes first with its new entry, and so does a new one, at the cost of the last.
  unfoldable pub put_item :
      ℕ → String → CacheEntry V → Option (CacheEntry V) → Items V → Items V × Answer V
  unfolding drop_last
  put_item max key entry none items = (
    if ltb max (length ((key, entry) ∷ items))
        then drop_last ((key, entry) ∷ items)
        else (key, entry) ∷ items,
    Answer.done,
  )
  put_item max key entry (some old) items = ((key, entry) ∷ remove key items, Answer.done)

  -- A key that has expired goes, and the order stays.
  unfoldable pub test_item : ℕ → String → Option (CacheEntry V) → Items V → Items V × Answer V
  test_item now key none items = (items, Answer.present false)
  test_item now key (some entry) items =
      if leb entry.expires_at now
      then (remove key items, Answer.present false)
      else (items, Answer.present true)

  -- One call on the list, for a store of at most `max` items, at the time `now`.
  unfoldable pub call_list : ℕ → ℕ → Call V → Items V → Items V × Answer V
  unfolding use_item put_item test_item
  call_list max now (Call.get key) items = use_item now key (lookup key items) items
  call_list max now (Call.set key entry) items = put_item max key entry (lookup key items) items
  call_list max now (Call.delete key) items = (remove key items, Answer.done)
  call_list max now (Call.delete_by_prefix prefix) items = (
    filter (λ item. not (starts prefix item)) items,
    Answer.counted (length (filter (starts prefix) items)),
  )
  call_list max now (Call.has key) items = test_item now key (lookup key items) items

  unfoldable pub run_list : ℕ → List (ℕ × Call V) → Items V → Items V × List (Answer V)
  unfolding call_list
  run_list max [] items = (items, [])
  run_list max ((now, call) ∷ rest) items =
      let (items1, answer) = call_list max now call items in
      let (items2, answers) = run_list max rest items1 in (items2, answer ∷ answers)
