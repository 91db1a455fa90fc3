-- ===== src/Cache/Tests.antt =====
-- Runs of the store of the first level at concrete calls.
use armstrong_bot.Prelude.{ℕ, ◌≡◌, refl, false, List, [], ◌∷◌, none, some}
use armstrong_bot.Cache.MemoryStore.{CacheEntry, LruNode, Answer, Call, empty_store, run_store}
use armstrong_bot.Cache.MemoryStore.Lru.{run_list}
use armstrong_bot.Cache.MemoryStore.Represents.{Holds}
use armstrong_bot.Cache.MemoryStore.Refines.Runs.{run_store_refines}

abbrev entry : ℕ → ℕ → CacheEntry ℕ
entry value expires_at = record { value = value; stored_at = 0; expires_at = expires_at; tags = [] }

abbrev blank : ℕ → LruNode ℕ
blank a = record { key = ""; entry = entry 0 0; prev = none; next = none }

-- The third key drives out `b`, since `a` was read after it; `a` has expired at 60, and the keys
-- that start with `c` are taken away at once.
abbrev calls : List (ℕ × Call ℕ)
calls =
    (1, Call.set "a" (entry 10 50))
    ∷ (2, Call.set "b" (entry 20 90))
    ∷ (3, Call.get "a")
    ∷ (4, Call.set "c1" (entry 30 90))
    ∷ (5, Call.has "b")
    ∷ (60, Call.get "a")
    ∷ (61, Call.set "c2" (entry 40 90))
    ∷ (62, Call.delete_by_prefix "c")
    ∷ (63, Call.get "c1")
    ∷ []

answers :
    (run_store calls (empty_store 2 blank)).1
    ≡ Answer.done
      ∷ Answer.done
      ∷ Answer.found (some (entry 10 50))
      ∷ Answer.done
      ∷ Answer.present false
      ∷ Answer.found none
      ∷ Answer.done
      ∷ Answer.counted 2
      ∷ Answer.found none
      ∷ []
unfolding run_store empty_store
answers = refl

run_store_refines_example :
    Holds (run_store calls (empty_store 2 blank)).0 (run_list 2 calls []).0
    × ((run_store calls (empty_store 2 blank)).1 ≡ (run_list 2 calls []).1)
run_store_refines_example = run_store_refines 2 blank calls
