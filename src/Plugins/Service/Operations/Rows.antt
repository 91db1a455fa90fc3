-- ===== src/Plugins/Service/Operations/Rows.antt =====
-- The rows of plugin.repository.ts: what an update of one row, or a new one, leaves.
use armstrong_bot.Prelude.{
  ℕ, ◌+◌, ◌<◌, ◌≡◌, ◌≢◌, refl, sym, ap, ◌∙◌, subst, inl, inr, String, Bool, true, false, List, [],
  ◌∷◌, ◌++◌, if◌then◌else◌, eqb, eqb_iff, eq_iff, arith, In, In-append, Bool-cases,
}
use armstrong_bot.Plugins.Service.{PluginRecord, name_taken, update_row}

-- A row after the update of the one of this id.
abbrev pub updated : ℕ → (PluginRecord → PluginRecord) → PluginRecord → PluginRecord
updated id f x = if eqb x.id id then f x else x

pub In-update_row :
    (id : ℕ) (f : PluginRecord → PluginRecord) (rows : List PluginRecord) (r : PluginRecord)
    → In r (update_row id f rows)
    → (x : PluginRecord) × In x rows × (r ≡ updated id f x)
In-update_row id f (x ∷ rows) r (inl here) = (x, inl refl, here)
In-update_row id f (x ∷ rows) r (inr there) =
    let (y, i, is) = In-update_row id f rows r there in (y, inr i, is)
In-update_row id f [] r none_left = elim none_left [ ]

pub In-updated :
    (id : ℕ) (f : PluginRecord → PluginRecord) (rows : List PluginRecord) (x : PluginRecord)
    → In x rows
    → In (updated id f x) (update_row id f rows)
In-updated id f (y ∷ rows) x (inl same) = inl (ap (updated id f) same)
In-updated id f (y ∷ rows) x (inr there) = inr (In-updated id f rows x there)
In-updated id f [] x none_left = elim none_left [ ]

-- An update that leaves the id and the name.
abbrev pub KeepsKeys : (PluginRecord → PluginRecord) → Type 0
KeepsKeys f = (x : PluginRecord) → ((f x).id ≡ x.id) × ((f x).name ≡ x.name)

updated-KeepsKeys :
    (id : ℕ) (f : PluginRecord → PluginRecord) → KeepsKeys f → KeepsKeys (updated id f)
updated-KeepsKeys id f keep x = elim (Bool-cases (eqb x.id id)) [
  | inl here ↦
      subst
        (λ (b : Bool). ((if b then f x else x).id ≡ x.id) × ((if b then f x else x).name ≡ x.name))
        (sym here) (keep x)
  | inr there ↦
      subst
        (λ (b : Bool). ((if b then f x else x).id ≡ x.id) × ((if b then f x else x).name ≡ x.name))
        (sym there) (refl, refl)
]

-- No two rows share an id or a name, the deleted ones included, and new ids are above all.
pub record IsTidy (rows : List PluginRecord) (next_id : ℕ) : Type 0 where
  pub own_ids : (r x : PluginRecord) → In r rows → In x rows → r.id ≡ x.id → r ≡ x
  pub own_names : (r x : PluginRecord) → In r rows → In x rows → r.name ≡ x.name → r ≡ x
  pub below : (r : PluginRecord) → In r rows → r.id < next_id

pub IsTidy-update_row :
    (rows : List PluginRecord) (next_id id : ℕ) (f : PluginRecord → PluginRecord)
    → IsTidy rows next_id
    → KeepsKeys f
    → IsTidy (update_row id f rows) next_id
IsTidy-update_row rows next_id id f tidy keep =
    let keeps = updated-KeepsKeys id f keep in
    record {
      own_ids = λ r x i j same.
          let (r', i', r_is) = In-update_row id f rows r i in
          let (x', j', x_is) = In-update_row id f rows x j in
          let ids =
            sym (keeps r').0
            ∙ sym (ap (λ (y : PluginRecord). y.id) r_is)
            ∙ same
            ∙ ap (λ (y : PluginRecord). y.id) x_is
            ∙ (keeps x').0 in
          r_is ∙ ap (updated id f) (tidy.own_ids r' x' i' j' ids) ∙ sym x_is;
      own_names = λ r x i j same.
          let (r', i', r_is) = In-update_row id f rows r i in
          let (x', j', x_is) = In-update_row id f rows x j in
          let names =
            sym (keeps r').1
            ∙ sym (ap (λ (y : PluginRecord). y.name) r_is)
            ∙ same
            ∙ ap (λ (y : PluginRecord). y.name) x_is
            ∙ (keeps x').1 in
          r_is ∙ ap (updated id f) (tidy.own_names r' x' i' j' names) ∙ sym x_is;
      below = λ r i.
          let (r', i', r_is) = In-update_row id f rows r i in
          let same = (keeps r').0 in
          let ids = ap (λ (y : PluginRecord). y.id) r_is in
          let lt = tidy.below r' i' in omega (arith, same, ids, lt);
    }

pub name_taken-In :
    (rows : List PluginRecord) (x : PluginRecord) → In x rows → name_taken x.name rows ≡ true
name_taken-In (y ∷ rows) x (inl same) =
    let names = ap (λ (z : PluginRecord). z.name) same in
    ground (arith, eq_iff y.name x.name, sym names)
name_taken-In (y ∷ rows) x (inr there) = ground (arith, name_taken-In rows x there)
name_taken-In [] x none_left = elim none_left [ ]

pub IsTidy-append :
    (rows : List PluginRecord) (r : PluginRecord)
    → IsTidy rows r.id
    → name_taken r.name rows ≡ false
    → IsTidy (rows ++ r ∷ []) (r.id + 1)
IsTidy-append rows r tidy free = record {
  own_ids = λ x y i j same. elim ((In-append x rows (r ∷ [])).0 i) [
    | inl a ↦ elim ((In-append y rows (r ∷ [])).0 j) [
      | inl b ↦ tidy.own_ids x y a b same
      | inr (inl b) ↦ absurd (old_id x a (same ∙ ap (λ (z : PluginRecord). z.id) b))
      | inr (inr b) ↦ absurd b
    ]
    | inr (inl a) ↦ elim ((In-append y rows (r ∷ [])).0 j) [
      | inl b ↦ absurd (old_id y b (sym same ∙ ap (λ (z : PluginRecord). z.id) a))
      | inr (inl b) ↦ a ∙ sym b
      | inr (inr b) ↦ absurd b
    ]
    | inr (inr a) ↦ absurd a
  ];
  own_names = λ x y i j same. elim ((In-append x rows (r ∷ [])).0 i) [
    | inl a ↦ elim ((In-append y rows (r ∷ [])).0 j) [
      | inl b ↦ tidy.own_names x y a b same
      | inr (inl b) ↦ absurd (old_name x a (same ∙ ap (λ (z : PluginRecord). z.name) b))
      | inr (inr b) ↦ absurd b
    ]
    | inr (inl a) ↦ elim ((In-append y rows (r ∷ [])).0 j) [
      | inl b ↦ absurd (old_name y b (sym same ∙ ap (λ (z : PluginRecord). z.name) a))
      | inr (inl b) ↦ a ∙ sym b
      | inr (inr b) ↦ absurd b
    ]
    | inr (inr a) ↦ absurd a
  ];
  below = λ x i. elim ((In-append x rows (r ∷ [])).0 i) [
    | inl a ↦ let lt = tidy.below x a in omega (arith, lt)
    | inr (inl a) ↦ let ids = ap (λ (z : PluginRecord). z.id) a in omega (arith, ids)
    | inr (inr a) ↦ absurd a
  ];
}
  where
    old_id : (x : PluginRecord) → In x rows → x.id ≢ r.id
    old_id x i same = let lt = tidy.below x i in omega (arith, lt, same)

    old_name : (x : PluginRecord) → In x rows → x.name ≢ r.name
    old_name x i same = cc (ap (λ n. name_taken n rows) (sym same) ∙ name_taken-In rows x i, free)

-- A row of the name that is not deleted.
abbrev pub IsLive : String → List PluginRecord → Type 0
IsLive n rows = (r : PluginRecord) × In r rows × (r.name ≡ n) × (r.deleted ≡ false)

pub IsLive-update_row :
    (n : String) (rows : List PluginRecord) (id : ℕ) (f : PluginRecord → PluginRecord)
    → KeepsKeys f
    → ((x : PluginRecord) → (f x).deleted ≡ x.deleted)
    → IsLive n rows
    → IsLive n (update_row id f rows)
IsLive-update_row n rows id f keep left (r, i, named, live) = (
  updated id f r,
  In-updated id f rows r i,
  (updated-KeepsKeys id f keep r).1 ∙ named,
  ground (arith, left r, live),
)

-- The update of a row of another name.
pub IsLive-other :
    (n : String) (rows : List PluginRecord) (next_id : ℕ) (x : PluginRecord)
    (f : PluginRecord → PluginRecord)
    → IsTidy rows next_id
    → In x rows
    → x.name ≢ n
    → IsLive n rows
    → IsLive n (update_row x.id f rows)
IsLive-other n rows next_id x f tidy there other (r, i, named, live) =
    let same : updated x.id f r ≡ r = elim (Bool-cases (eqb r.id x.id)) [
      | inl one ↦ absurd (
          other (
            sym (
              ap (λ (y : PluginRecord). y.name)
                (tidy.own_ids r x i there ((eqb_iff r.id x.id).0 one)))
            ∙ named))
      | inr two ↦ rw (two, updated) refl
    ] in
    (r, subst (λ y. In y (update_row x.id f rows)) same (In-updated x.id f rows r i), named, live)
