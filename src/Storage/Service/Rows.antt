-- ===== src/Storage/Service/Rows.antt =====
-- src/modules/storage/infrastructure/storage-object.repository.ts: what the live objects of a guild
-- take, and how the changes of the rows change it.
use armstrong_bot.Prelude.{
  ℕ, ◌+◌, ◌<◌, ◌≡◌, ◌≢◌, inl, inr, refl, sym, ◌∙◌, subst, String, Bool, true, false, ◌&&◌, not,
  List, [], ◌∷◌, Option, none, some, eqb, if◌then◌else◌, ◌==◌, eq_iff, arith, Bool-cases,
}
use armstrong_bot.Prelude.Int.{ℤ, pos, ◌+ℤ◌, zero-add_ℤ}
use armstrong_bot.Storage.Objects.{
  StorageObject, StorageUsage, StorageState, find_by_id, is_live, update_object, change_ref_count,
  mark_deleted, usage_in, add_usage,
}

abbrev pub is_of_guild : String → Option String → Bool
is_of_guild guild none = false
is_of_guild guild (some g) = g == guild

-- The object counts for the guild.
abbrev pub counts_for : String → StorageObject → Bool
counts_for guild o = not o.deleted && is_of_guild guild o.guild_id

-- What the live objects of a guild take, and how many there are.
abbrev pub live_bytes : String → List StorageObject → ℕ
live_bytes guild [] = 0
live_bytes guild (o ∷ rest) = (if counts_for guild o then o.size else 0) + live_bytes guild rest

abbrev pub live_count : String → List StorageObject → ℕ
live_count guild [] = 0
live_count guild (o ∷ rest) = (if counts_for guild o then 1 else 0) + live_count guild rest

-- No row has the id.
abbrev pub HasNoId : ℕ → List StorageObject → Type 0
HasNoId id [] = Unit
HasNoId id (o ∷ rest) = (o.id ≢ id) × HasNoId id rest

abbrev pub HasUniqueIds : List StorageObject → Type 0
HasUniqueIds [] = Unit
HasUniqueIds (o ∷ rest) = HasNoId o.id rest × HasUniqueIds rest

abbrev pub AllBelow : ℕ → List StorageObject → Type 0
AllBelow n [] = Unit
AllBelow n (o ∷ rest) = (o.id < n) × AllBelow n rest

-- Every guild's usage is what its live objects take. The empty text is no guild to the service.
abbrev pub IsAccounted : List StorageObject → List (String × StorageUsage) → Type 0
IsAccounted objects usages =
    (guild : String)
    → guild ≢ ""
    → ((usage_in guild usages).used_bytes ≡ pos (live_bytes guild objects))
      × ((usage_in guild usages).object_count ≡ pos (live_count guild objects))

pub record IsConsistent (s : StorageState) : Type 0 where
  pub unique : HasUniqueIds s.objects
  pub below : AllBelow s.next_id s.objects
  pub accounted : IsAccounted s.objects s.usages

abbrev pub moved_by : ℤ → ℤ → StorageUsage → StorageUsage
moved_by bytes count u = record {
  used_bytes = u.used_bytes +ℤ bytes;
  object_count = u.object_count +ℤ count;
}

-- A guild's usage after the upsert.
pub usage_in-add_usage :
    (g guild : String) (bytes count : ℤ) (usages : List (String × StorageUsage))
    → usage_in g (add_usage guild bytes count usages)
      ≡ (if guild == g then moved_by bytes count (usage_in g usages) else usage_in g usages)
unfolding add_usage
usage_in-add_usage g guild bytes count [] =
    ground (arith, eq_iff guild g, zero-add_ℤ bytes, zero-add_ℤ count)
usage_in-add_usage g guild bytes count ((j, u) ∷ rest) =
    ground (
      arith,
      eq_iff guild g,
      eq_iff j guild,
      eq_iff j g,
      usage_in-add_usage g guild bytes count rest,
    )

-- A change of one row that keeps ids.
abbrev pub KeepsId : (StorageObject → StorageObject) → Type 0
KeepsId change = (o : StorageObject) → (change o).id ≡ o.id

module _ (id : ℕ) (change : StorageObject → StorageObject) (keeps : KeepsId change) where
  pub update_object-HasNoId :
      (n : ℕ) (objects : List StorageObject)
      → HasNoId n objects
      → HasNoId n (update_object id change objects)
  update_object-HasNoId n [] h = tt
  update_object-HasNoId n (o ∷ rest) h = (ground (arith, keeps o), update_object-HasNoId n rest h.1)

  pub update_object-HasUniqueIds :
      (objects : List StorageObject)
      → HasUniqueIds objects
      → HasUniqueIds (update_object id change objects)
  update_object-HasUniqueIds [] h = tt
  update_object-HasUniqueIds (o ∷ rest) h = (
    elim (eqb o.id id)
        as (λ b. HasNoId (if b then change o else o).id (update_object id change rest)) [
          | true ↦ rw (keeps o) (update_object-HasNoId o.id rest h.0)
          | false ↦ update_object-HasNoId o.id rest h.0
        ],
    update_object-HasUniqueIds rest h.1,
  )

  pub update_object-AllBelow :
      (n : ℕ) (objects : List StorageObject)
      → AllBelow n objects
      → AllBelow n (update_object id change objects)
  update_object-AllBelow n [] h = tt
  update_object-AllBelow n (o ∷ rest) h =
      (ground (arith, keeps o), update_object-AllBelow n rest h.1)

  pub update_object-absent :
      (objects : List StorageObject)
      → HasNoId id objects
      → update_object id change objects ≡ objects
  update_object-absent [] h = refl
  update_object-absent (o ∷ rest) h = ground (arith, update_object-absent rest h.1)

-- Changing the references of a row changes what no guild's objects take.
pub live-change_ref_count :
    (guild : String) (id : ℕ) (delta : ℤ) (objects : List StorageObject)
    → (live_bytes guild (update_object id (change_ref_count delta) objects)
        ≡ live_bytes guild objects)
      × (live_count guild (update_object id (change_ref_count delta) objects)
          ≡ live_count guild objects)
live-change_ref_count guild id delta [] = (refl, refl)
live-change_ref_count guild id delta (o ∷ rest) =
    let ih = live-change_ref_count guild id delta rest in
    elim (eqb o.id id)
      as (λ b.
        (live_bytes guild (
            (if b then change_ref_count delta o else o)
            ∷ update_object id (change_ref_count delta) rest)
          ≡ live_bytes guild (o ∷ rest))
        × (live_count guild (
              (if b then change_ref_count delta o else o)
              ∷ update_object id (change_ref_count delta) rest)
            ≡ live_count guild (o ∷ rest))) [
              | true ↦ (omega (arith, ih.0), omega (arith, ih.1))
              | false ↦ (omega (arith, ih.0), omega (arith, ih.1))
            ]

pub eqb-eq : (a b : ℕ) → eqb a b ≡ true → a ≡ b
eqb-eq a b h = ground arith

pub find_by_id-none :
    (id : ℕ) (objects : List StorageObject) → HasNoId id objects → find_by_id id objects ≡ none
find_by_id-none id [] h = refl
find_by_id-none id (o ∷ rest) h = ground (arith, find_by_id-none id rest h.1)

pub found-behind :
    (id : ℕ) (x : StorageObject) (rest : List StorageObject) (o : StorageObject)
    → eqb x.id id ≡ false
    → find_by_id id (x ∷ rest) ≡ some o
    → find_by_id id rest ≡ some o
found-behind id x rest o other h = ground arith

pub skipped :
    (id : ℕ) (x : StorageObject) (rest : List StorageObject)
    → is_live id x ≡ false
    → find_by_id id rest ≡ find_by_id id (x ∷ rest)
skipped id x rest h = rw h refl

pub taken :
    (id : ℕ) (x : StorageObject) (rest : List StorageObject)
    → is_live id x ≡ true
    → find_by_id id (x ∷ rest) ≡ some x
taken id x rest h = rw h refl

pub some-eq : (x o : StorageObject) → some x ≡ some o → x ≡ o
some-eq x o h = cc

pub found-head :
    (id : ℕ) (x : StorageObject) (rest : List StorageObject) (o : StorageObject)
    → eqb x.id id ≡ true
    → find_by_id id rest ≡ none
    → find_by_id id (x ∷ rest) ≡ some o
    → (x ≡ o) × (x.deleted ≡ false)
found-head id x rest o same none_behind h = elim (Bool-cases (x.deleted)) [
  | inl gone ↦ cc (sym none_behind ∙ skipped id x rest (rw (same, gone) refl) ∙ h)
  | inr live ↦ (some-eq x o (sym (taken id x rest (rw (same, live) refl)) ∙ h), live)
]

pub taken-off :
    (guild : String) (x o : StorageObject) (bytes count : ℕ)
    → x ≡ o
    → x.deleted ≡ false
    → ((if counts_for guild (mark_deleted x) then x.size else 0)
          + bytes
          + (if is_of_guild guild o.guild_id then o.size else 0)
        ≡ (if counts_for guild x then x.size else 0) + bytes)
      × ((if counts_for guild (mark_deleted x) then 1 else 0)
            + count
            + (if is_of_guild guild o.guild_id then 1 else 0)
          ≡ (if counts_for guild x then 1 else 0) + count)
taken-off guild x o bytes count e live =
    subst
      (λ y.
        ((if counts_for guild (mark_deleted x) then x.size else 0)
            + bytes
            + (if is_of_guild guild y.guild_id then y.size else 0)
          ≡ (if counts_for guild x then x.size else 0) + bytes)
        × ((if counts_for guild (mark_deleted x) then 1 else 0)
              + count
              + (if is_of_guild guild y.guild_id then 1 else 0)
            ≡ (if counts_for guild x then 1 else 0) + count))
      e (rw live (omega arith, omega arith))

-- Deleting the live row of an id takes its size off its guild.
pub live-mark_deleted :
    (guild : String) (id : ℕ) (objects : List StorageObject) (o : StorageObject)
    → HasUniqueIds objects
    → find_by_id id objects ≡ some o
    → (live_bytes guild (update_object id mark_deleted objects)
          + (if is_of_guild guild o.guild_id then o.size else 0)
        ≡ live_bytes guild objects)
      × (live_count guild (update_object id mark_deleted objects)
            + (if is_of_guild guild o.guild_id then 1 else 0)
          ≡ live_count guild objects)
live-mark_deleted guild id [] o u h = cc
live-mark_deleted guild id (x ∷ rest) o u h = elim (Bool-cases (eqb x.id id)) [
  | inl same ↦
      let e = eqb-eq x.id id same in
      let absent : HasNoId id rest = subst (λ n. HasNoId n rest) e u.0 in
      let none_behind = find_by_id-none id rest absent in
      let live = found-head id x rest o same none_behind h in
      rw (same, update_object-absent id mark_deleted (λ y. refl) rest absent)
        (taken-off guild x o (live_bytes guild rest) (live_count guild rest) live.0 live.1)
  | inr other ↦
      let ih = live-mark_deleted guild id rest o u.1 (found-behind id x rest o other h) in
      rw other (omega (arith, ih.0), omega (arith, ih.1))
]
