-- ===== src/Permissions/Snapshot/Keys.antt =====
-- The keys of a loaded snapshot, and the inheritance that it carries
-- (group.repository.ts, permission-cache.facade.ts).
use armstrong_bot.Prelude.{
  ◌≡◌, ◌≢◌, refl, sym, ap, ◌∙◌, subst, ◌⊎◌, inl, inr, String, List, [], ◌∷◌, some, lookup, insert,
  lookup-insert, arith, In, eq_iff, map,
}
use armstrong_bot.Permissions.Resolver.{ResolvedGroup}
use armstrong_bot.Permissions.Resolver.Reach.{KeysAgree, IsReachable, root, parent}
use armstrong_bot.Permissions.Snapshot.{GroupRow, load_resolved_group, fill_record, load_groups}

fill_record-KeysAgree :
    (m : List (String × ResolvedGroup)) (gs : List ResolvedGroup)
    → KeysAgree m
    → KeysAgree (fill_record m gs)
unfolding fill_record
fill_record-KeysAgree m [] h = h
fill_record-KeysAgree m (g ∷ gs) h =
    fill_record-KeysAgree (insert g.key g m) gs
      (λ k x s. ground (arith, lookup-insert g.key k g m, eq_iff g.key k, h k x))

-- Whatever the rows are, the snapshot stores each group under its own key.
pub load_groups-KeysAgree : (rows : List GroupRow) → KeysAgree (load_groups rows)
unfolding load_groups
load_groups-KeysAgree rows = fill_record-KeysAgree [] (map load_resolved_group rows) (λ k g h. cc)

-- A stored group comes from a row.
fill_record-from :
    (m : List (String × ResolvedGroup)) (gs : List ResolvedGroup) (k : String) (g : ResolvedGroup)
    → lookup k (fill_record m gs) ≡ some g
    → In g gs ⊎ (lookup k m ≡ some g)
unfolding fill_record
fill_record-from m [] k g h = inr h
fill_record-from m (x ∷ gs) k g h =
    ground (arith, fill_record-from (insert x.key x m) gs k g, lookup-insert x.key k x m)

row_of :
    (rows : List GroupRow) (g : ResolvedGroup)
    → In g (map load_resolved_group rows)
    → (r : GroupRow) × In r rows × (g.parents ≡ r.parent_group_ids) × (g.key ≡ r.key)
unfolding load_resolved_group
row_of [] g i = absurd i
row_of (r ∷ rs) g (inl e) =
    (r, inl refl, ap (λ (x : ResolvedGroup). x.parents) e, ap (λ (x : ResolvedGroup). x.key) e)
row_of (r ∷ rs) g (inr i) = let (x, at, e, k) = row_of rs g i in (x, inr at, e, k)

pub load_groups-row :
    (rows : List GroupRow) (k : String) (g : ResolvedGroup)
    → lookup k (load_groups rows) ≡ some g
    → (r : GroupRow) × In r rows × (g.parents ≡ r.parent_group_ids) × (g.key ≡ r.key)
unfolding load_groups
load_groups-row rows k g h = elim (fill_record-from [] (map load_resolved_group rows) k g h) [
  | inl i ↦ row_of rows g i
  | inr e ↦ absurd (cc)
]

-- No parent id of a row is the key of a row.
abbrev pub IdsAreNotKeys : List GroupRow → Type 0
IdsAreNotKeys rows =
    (child other : GroupRow) (p : String)
    → In child rows
    → In other rows
    → In p child.parent_group_ids
    → p ≢ other.key

-- If no parent id is spelled like a key, nothing is inherited: only the member's own groups are
-- reachable in a loaded snapshot.
pub load_groups-no-parents :
    (rows : List GroupRow) (roots : List String) (k : String)
    → IdsAreNotKeys rows
    → IsReachable (load_groups rows) roots k
    → In k roots
load_groups-no-parents rows roots k apart (root _ g i s) = i
load_groups-no-parents rows roots k apart (parent j _ g h r s i t) =
    let (child, at, up, _) = load_groups-row rows j g s in
    let (other, at', _, own) = load_groups-row rows k h t in
    absurd (
      apart child other k at at' (subst (λ (ps : List String). In k ps) up i)
        (sym (load_groups-KeysAgree rows k h t) ∙ own))
