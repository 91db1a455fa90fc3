-- ===== src/Cache/MemoryStore/Refines/Calls.antt =====
-- src/cache/stores/memory-cache.store.ts: every call answers what the list in order of use answers.
use armstrong_bot.Prelude.{
  ◌+◌, ℕ, ◌≡◌, inl, inr, refl, sym, subst, String, true, false, ◌∷◌, Option, none, some, leb,
  lookup, remove, Option-cases, if◌then◌else◌,
}
use armstrong_bot.Cache.MemoryStore.Lru.{Items, call_list, use_item, put_item, test_item}
use armstrong_bot.Cache.MemoryStore.{
  MemoryCacheStore, CacheEntry, Answer, Call, missed, evict, call_store, get_found, set_found,
  delete_found, has_found, set_new, move_to_head,
}
use armstrong_bot.Cache.MemoryStore.Represents.{Holds}
use armstrong_bot.Cache.MemoryStore.Represents.Keyed.{remove_absent}
use armstrong_bot.Cache.MemoryStore.Represents.Evicting.{
  lookup-none-items, lookup-some-items, evict-Holds,
}
use armstrong_bot.Cache.MemoryStore.Represents.Moving.{missed-Holds, moved-Holds, set_old-Holds}
use armstrong_bot.Cache.MemoryStore.Represents.Adding.{set_new-Holds, trim_to_size-Holds}
use armstrong_bot.Cache.MemoryStore.Represents.Sweeping.{sweep-Holds}

module _ {V : Type 0} where
  -- Two outcomes that agree: the store holds the items, and the answers are equal.
  abbrev Agrees : MemoryCacheStore V × Answer V → Items V × Answer V → Type 0
  Agrees left right = Holds left.0 right.0 × (left.1 ≡ right.1)

  absent-items :
      (s : MemoryCacheStore V) (items : Items V) (k : String)
      → Holds s items
      → lookup k s.entries ≡ none
      → lookup k items ≡ none
  absent-items s items k (xs, r, e) h =
      subst (λ its. lookup k its ≡ none) e (lookup-none-items s xs r k h)

  present-items :
      (s : MemoryCacheStore V) (items : Items V) (k : String) (a : ℕ)
      → Holds s items
      → lookup k s.entries ≡ some a
      → lookup k items ≡ some (s.links.nodes a).entry
  present-items s items k a (xs, r, e) h =
      subst (λ its. lookup k its ≡ some (s.links.nodes a).entry) e (lookup-some-items s xs r k a h)

  -- A found key and its entry, or neither.
  data Finds (s : MemoryCacheStore V) (items : Items V) (k : String)
      : Option ℕ → Option (CacheEntry V) → Type 0 where
    missing : lookup k s.entries ≡ none → lookup k items ≡ none → Finds s items k none none
    found_at :
        (a : ℕ)
        → lookup k s.entries ≡ some a
        → Finds s items k (some a) (some (s.links.nodes a).entry)

  lookup-Finds :
      (s : MemoryCacheStore V) (items : Items V) (k : String)
      → Holds s items
      → Finds s items k (lookup k s.entries) (lookup k items)
  lookup-Finds s items k h = elim (Option-cases (lookup k s.entries)) [
    | inl none_there ↦
        let gone = absent-items s items k h none_there in
        subst (λ o. Finds s items k o (lookup k items)) (sym none_there)
          (subst (Finds s items k none) (sym gone) (missing none_there gone))
    | inr (a, at) ↦
        subst (λ o. Finds s items k o (lookup k items)) (sym at)
          (subst (Finds s items k (some a)) (sym (present-items s items k a h at)) (found_at a at))
  ]

  get-Agrees :
      (now : ℕ) (s : MemoryCacheStore V) (items : Items V) (k : String) (o : Option ℕ)
      (p : Option (CacheEntry V))
      → Holds s items
      → Finds s items k o p
      → Agrees (get_found now o s) (use_item now k p items)
  unfolding get_found use_item
  get-Agrees now s items k _ _ h (missing _ _) = (missed-Holds s items h, refl)
  get-Agrees now s items k _ _ h (found_at a at) =
      let held = record s { links = move_to_head a s.links; hits = s.hits + 1 } in
      let entry = (s.links.nodes a).entry in
      elim (leb entry.expires_at now)
        as (λ late.
          Agrees
            (if late
              then (missed (evict a s), Answer.found none)
              else (held, Answer.found (some entry)))
            (if late
              then (remove k items, Answer.found none)
              else ((k, entry) ∷ remove k items, Answer.found (some entry)))) [
                | true ↦
                    (missed-Holds (evict a s) (remove k items) (evict-Holds s items k a h at), refl)
                | false ↦ (moved-Holds s held items k a h at refl refl refl, refl)
              ]

  set-Agrees :
      (s : MemoryCacheStore V) (items : Items V) (k : String) (entry : CacheEntry V) (o : Option ℕ)
      (p : Option (CacheEntry V))
      → Holds s items
      → Finds s items k o p
      → Agrees (set_found k entry o s) (put_item s.max_items k entry p items)
  unfolding set_found put_item
  set-Agrees s items k entry _ _ h (missing absent _) = (
    trim_to_size-Holds (set_new k entry s) ((k, entry) ∷ items)
        (set_new-Holds s items k entry h absent),
    refl,
  )
  set-Agrees s items k entry _ _ h (found_at a at) = (set_old-Holds s items entry k a h at, refl)

  delete-Agrees :
      (s : MemoryCacheStore V) (items : Items V) (k : String) (o : Option ℕ)
      (p : Option (CacheEntry V))
      → Holds s items
      → Finds s items k o p
      → Agrees (delete_found o s) (remove k items, Answer.done)
  unfolding delete_found
  delete-Agrees s items k _ _ h (missing _ gone) =
      (subst (Holds s) (sym (remove_absent k items gone)) h, refl)
  delete-Agrees s items k _ _ h (found_at a at) = (evict-Holds s items k a h at, refl)

  has-Agrees :
      (now : ℕ) (s : MemoryCacheStore V) (items : Items V) (k : String) (o : Option ℕ)
      (p : Option (CacheEntry V))
      → Holds s items
      → Finds s items k o p
      → Agrees (has_found now o s) (test_item now k p items)
  unfolding has_found test_item
  has-Agrees now s items k _ _ h (missing _ _) = (h, refl)
  has-Agrees now s items k _ _ h (found_at a at) =
      elim (leb (s.links.nodes a).entry.expires_at now)
        as (λ late.
          Agrees (if late then (evict a s, Answer.present false) else (s, Answer.present true)) (
            if late
            then (remove k items, Answer.present false)
            else (items, Answer.present true))) [
              | true ↦ (evict-Holds s items k a h at, refl)
              | false ↦ (h, refl)
            ]

  pub call-Agrees :
      (now : ℕ) (call : Call V) (s : MemoryCacheStore V) (items : Items V)
      → Holds s items
      → Agrees (call_store now call s) (call_list s.max_items now call items)
  unfolding call_store call_list
  call-Agrees now (Call.get k) s items h = get-Agrees now s items k _ _ h (lookup-Finds s items k h)
  call-Agrees now (Call.set k entry) s items h =
      set-Agrees s items k entry _ _ h (lookup-Finds s items k h)
  call-Agrees now (Call.delete k) s items h =
      delete-Agrees s items k _ _ h (lookup-Finds s items k h)
  call-Agrees now (Call.delete_by_prefix prefix) s items h = sweep-Holds prefix s items h
  call-Agrees now (Call.has k) s items h = has-Agrees now s items k _ _ h (lookup-Finds s items k h)
