-- ===== src/Conductor/Cluster/Delete/Rows.antt =====
-- `for ng in cluster.nodegroups: ng.destroy()` of magnum/conductor/handlers/cluster_conductor.py
-- and of magnum/service/periodic.py: it removes the rows that the request sees.
use magnum.Common.{
  ◌≡◌, refl, sym, ap, ◌∙◌, Bool, true, false, str_eq, str_eq_refl, eq_iff, List, [], ◌∷◌, select,
  any, All, arith, Bool-cases, inl, inr,
}
use mathlib.Core.Path.{subst}
use magnum.Errors.{ok}
use magnum.Objects.{NodeGroup, Database}
use magnum.Db.Table.{delete_where, select-delete_where_disjoint, delete_where_twice}
use magnum.Db.Tenant.{Context}
use magnum.Db.Nodegroups.{
  with_nodegroups, may_see, clashes, add_nodegroup_filters, list_cluster_nodegroups, no_filters,
}
use magnum.Db.Nodegroups.Laws.{Distinct}
use magnum.Session.{Session, for_each}
use magnum.Session.Store.{ng_destroy, nodegroups}
use magnum.Session.Store.Laws.{ng_row_of, HasNgRow, ng_destroy_lem}

-- Each of these nodegroups has its own row in the table, and no two have the same uuid.
abbrev pub HasRows : List NodeGroup → Database → Type 0
HasRows [] d = Unit
HasRows (n ∷ ns) d = HasNgRow n n d × (any (λ m. str_eq m.uuid n.uuid) ns ≡ false) × HasRows ns d

abbrev pub is_row_of_one : List NodeGroup → NodeGroup → Bool
is_row_of_one ns r = any (λ n. ng_row_of n r) ns

abbrev pub without : List NodeGroup → Session → Session
without ns s = record s {
  db = with_nodegroups s.db (delete_where (is_row_of_one ns) s.db.nodegroups);
}

HasRows-delete_where :
    (n : NodeGroup) (ns : List NodeGroup) (d : Database)
    → any (λ m. str_eq m.uuid n.uuid) ns ≡ false
    → HasRows ns d
    → HasRows ns (with_nodegroups d (delete_where (ng_row_of n) d.nodegroups))
HasRows-delete_where n [] d other h = tt
HasRows-delete_where n (m ∷ ms) d other h = (
  select-delete_where_disjoint (ng_row_of n) (ng_row_of m) d.nodegroups
        (λ r q. ground (arith, eq_iff m.uuid n.uuid, eq_iff r.uuid n.uuid, eq_iff r.uuid m.uuid))
      ∙ h.0,
  h.1,
  HasRows-delete_where n ms d (ground arith) h.2,
)

delete_where_none : (rs : List NodeGroup) → delete_where (λ _. false) rs ≡ rs
delete_where_none [] = refl
delete_where_none (r ∷ rs) = ap (λ (t : List NodeGroup). r ∷ t) (delete_where_none rs)

-- The loop destroys exactly the rows of its nodegroups.
pub for_each-ng_destroy :
    (ns : List NodeGroup) (s : Session)
    → HasRows ns s.db
    → for_each ns ng_destroy s ≡ (ok tt, without ns s)
unfolding for_each
for_each-ng_destroy [] s h = rw (delete_where_none s.db.nodegroups)
for_each-ng_destroy (n ∷ ns) s h =
    let s1 : Session = record s {
      db = with_nodegroups s.db (delete_where (ng_row_of n) s.db.nodegroups);
    } in
    rw (ng_destroy_lem n n s h.0) (
      for_each-ng_destroy ns s1 (HasRows-delete_where n ns s.db h.1 h.2)
      ∙ ap (λ (t : List NodeGroup). (ok tt, record s { db = with_nodegroups s.db t }))
          (delete_where_twice (ng_row_of n) (is_row_of_one ns) s.db.nodegroups))

row-select_nil :
    (n : NodeGroup) (ns : List NodeGroup)
    → any (clashes n) ns ≡ false
    → select (ng_row_of n) ns ≡ []
row-select_nil n [] h = refl
row-select_nil n (m ∷ ms) h = ground (arith, row-select_nil n ms)

abbrev HasUniqueRow : List NodeGroup → NodeGroup → Type 0
HasUniqueRow rows n = select (ng_row_of n) rows ≡ n ∷ []

row-cons :
    (x : NodeGroup) (rows ns : List NodeGroup)
    → any (clashes x) ns ≡ false
    → All (HasUniqueRow rows) ns
    → All (HasUniqueRow (x ∷ rows)) ns
row-cons x rows [] h a = tt
row-cons x rows (n ∷ ns) h a = (
  ground (arith, eq_iff x.uuid n.uuid, eq_iff n.uuid x.uuid),
  row-cons x rows ns (ground arith) a.1,
)

Distinct-rows : (ns : List NodeGroup) → Distinct ns → All (HasUniqueRow ns) ns
Distinct-rows [] h = tt
Distinct-rows (n ∷ ns) h = (
  ground (arith, str_eq_refl n.uuid, str_eq_refl n.cluster_id, row-select_nil n ns h.0),
  row-cons n ns ns h.0 (Distinct-rows ns h.1),
)

uuid-select :
    (p : NodeGroup → Bool) (n : NodeGroup) (ns : List NodeGroup)
    → any (clashes n) ns ≡ false
    → any (λ m. str_eq m.uuid n.uuid) (select p ns) ≡ false
uuid-select p n [] h = refl
uuid-select p n (m ∷ ms) h = ground (arith, uuid-select p n ms)

HasRows-select :
    (p : NodeGroup → Bool) (ns : List NodeGroup) (d : Database)
    → Distinct ns
    → All (HasUniqueRow d.nodegroups) ns
    → HasRows (select p ns) d
HasRows-select p [] d h a = tt
HasRows-select p (n ∷ ns) d h a = elim (Bool-cases (p n)) [
  | inl seen ↦ rw seen (a.0, uuid-select p n ns h.0, HasRows-select p ns d h.1 a.1)
  | inr unseen ↦ rw unseen (HasRows-select p ns d h.1 a.1)
]

abbrev IsFound : (NodeGroup → Bool) → List NodeGroup → NodeGroup → Type 0
IsFound p found r = p r ≡ true → is_row_of_one found r ≡ true

IsFound-cons :
    (p : NodeGroup → Bool) (x : NodeGroup) (found rows : List NodeGroup)
    → All (IsFound p found) rows
    → All (IsFound p (x ∷ found)) rows
IsFound-cons p x found [] a = tt
IsFound-cons p x found (r ∷ rs) a = ((λ h. ground (arith, a.0 h)), IsFound-cons p x found rs a.1)

IsFound-select :
    (p : NodeGroup → Bool) (rows : List NodeGroup) → All (IsFound p (select p rows)) rows
IsFound-select p [] = tt
IsFound-select p (r ∷ rs) = elim (Bool-cases (p r)) [
  | inl seen ↦
      let e : select p (r ∷ rs) ≡ r ∷ select p rs = rw seen in
      subst (λ l. All (IsFound p l) (r ∷ rs)) (sym e)
        (
          (λ _. ground (arith, str_eq_refl r.uuid, str_eq_refl r.cluster_id)),
          IsFound-cons p r (select p rs) rs (IsFound-select p rs),
        )
  | inr unseen ↦
      let e : select p (r ∷ rs) ≡ select p rs = rw unseen in
      subst (λ l. All (IsFound p l) (r ∷ rs)) (sym e)
        ((λ h. absurd (cc (h, unseen))), IsFound-select p rs)
]

select-without :
    (p : NodeGroup → Bool) (found rows : List NodeGroup)
    → All (IsFound p found) rows
    → select p (delete_where (is_row_of_one found) rows) ≡ []
select-without p found [] a = refl
select-without p found (r ∷ rs) a = ground (arith, a.0, select-without p found rs a.1)

select-no_filters : (rows : List NodeGroup) → select (add_nodegroup_filters no_filters) rows ≡ rows
unfolding add_nodegroup_filters
select-no_filters [] = refl
select-no_filters (r ∷ rs) = ap (λ (t : List NodeGroup). r ∷ t) (select-no_filters rs)

nodegroups_lem :
    (ctx : Context) (s : Session)
    → nodegroups ctx s ≡ select (may_see ctx s.cluster.uuid) s.db.nodegroups
unfolding nodegroups list_cluster_nodegroups
nodegroups_lem ctx s = select-no_filters (select (may_see ctx s.cluster.uuid) s.db.nodegroups)

-- The loop over the cluster's nodegroups succeeds where the table keeps its constraints, and then the
-- request sees no nodegroup of the cluster any more.
pub destroy_nodegroups_all :
    (ctx : Context) (s : Session)
    → Distinct s.db.nodegroups
    → (for_each (nodegroups ctx s) ng_destroy s ≡ (ok tt, without (nodegroups ctx s) s))
      × (nodegroups ctx (without (nodegroups ctx s) s) ≡ [])
destroy_nodegroups_all ctx s h =
    let p = may_see ctx s.cluster.uuid in
    (
      for_each-ng_destroy (nodegroups ctx s) s (
          rw (nodegroups_lem ctx s)
            (HasRows-select p s.db.nodegroups s.db h (Distinct-rows s.db.nodegroups h))),
      nodegroups_lem ctx (without (nodegroups ctx s) s)
          ∙ rw (nodegroups_lem ctx s) (
              select-without p (select p s.db.nodegroups) s.db.nodegroups
                (IsFound-select p s.db.nodegroups)),
    )
