-- ===== src/Db/Clusters/Lists/Counts.antt =====
-- The filters on numbers of nodes in magnum/db/sqlalchemy/api.py, and Cluster.node_count and
-- Cluster.master_count of magnum/objects/cluster.py.
use magnum.Common.{
  ℕ, ◌≡◌, refl, sym, ap, ◌∙◌, Bool, true, false, ◌&&◌, ◌==◌, String, str_eq, eq_of_str_eq, List, [],
  ◌∷◌, select, any, map, sum, arith, Bool-cases, inl, inr, select_comm, any-select,
}
use magnum.Objects.{NodeGroup}
use magnum.Db.Tenant.{Context}
use magnum.Db.Nodegroups.{list_cluster_nodegroups, no_filters, add_nodegroup_filters, may_see}
use magnum.Db.Clusters.Lists.{is_counted, group_sum, filter_node_count}
use magnum.Session.{Session}
use magnum.Session.Store.{nodegroups, node_count, master_count}

-- Some row of the cluster with a sum that is its own.
any-group :
    (f : String → Bool) (u : String) (rows : List NodeGroup)
    → any (λ (n : NodeGroup). f n.cluster_id && str_eq n.cluster_id u) rows
      ≡ (any (λ (n : NodeGroup). str_eq n.cluster_id u) rows && f u)
any-group f u [] = refl
any-group f u (n ∷ rows) = elim (Bool-cases (str_eq n.cluster_id u)) [
  | inl same ↦ ground (arith, any-group f u rows, ap f (eq_of_str_eq same))
  | inr other ↦ ground (arith, any-group f u rows)
]

-- An administrator sees all nodegroups of a cluster.
nodegroups-admin :
    (ctx : Context) (u : String) (rows : List NodeGroup)
    → ctx.is_admin ≡ true
    → select (add_nodegroup_filters no_filters) (select (may_see ctx u) rows)
      ≡ select (λ (n : NodeGroup). str_eq n.cluster_id u) rows
unfolding may_see add_nodegroup_filters
nodegroups-admin ctx u [] h = refl
nodegroups-admin ctx u (n ∷ rows) h = ground (arith, nodegroups-admin ctx u rows)

count_of_kind :
    (ctx : Context) (s : Session) (n : ℕ) (is_master : Bool)
    → ctx.is_admin ≡ true
    → let mine = select (is_counted is_master) (nodegroups ctx s) in
      filter_node_count s.db n is_master s.cluster ≡ (
        any (is_counted is_master) (nodegroups ctx s)
        && (sum (map (λ (g : NodeGroup). g.node_count) mine) == n))
unfolding filter_node_count nodegroups list_cluster_nodegroups
count_of_kind ctx s n is_master admin =
    let rows = select (is_counted is_master) s.db.nodegroups in
    let of_cluster = λ (g : NodeGroup). str_eq g.cluster_id s.cluster.uuid in
    any-group (λ u. group_sum u rows == n) s.cluster.uuid rows
    ∙ ap (λ b. b && (group_sum s.cluster.uuid rows == n))
        (any-select of_cluster (is_counted is_master) s.db.nodegroups)
    ∙ ap
        (λ gs.
          any (is_counted is_master) (select of_cluster s.db.nodegroups)
          && (sum (map (λ (g : NodeGroup). g.node_count) gs) == n))
        (select_comm of_cluster (is_counted is_master) s.db.nodegroups)
    ∙ ap
        (λ gs.
          any (is_counted is_master) gs
          && (sum (map (λ (g : NodeGroup). g.node_count) (select (is_counted is_master) gs)) == n))
        (sym (nodegroups-admin ctx s.cluster.uuid s.db.nodegroups admin))

-- The filters on node_count and master_count find what the properties of a cluster say: for an
-- administrator, a cluster passes exactly if it has a nodegroup of that kind and the property is the
-- number; so no number finds a cluster without such a nodegroup, not even 0.
pub filter_node_count_lem :
    (ctx : Context) (s : Session) (n : ℕ)
    → ctx.is_admin ≡ true
    → (filter_node_count s.db n false s.cluster
        ≡ (any (is_counted false) (nodegroups ctx s) && (node_count ctx s == n)))
      × (filter_node_count s.db n true s.cluster
          ≡ (any (is_counted true) (nodegroups ctx s) && (master_count ctx s == n)))
unfolding node_count master_count
filter_node_count_lem ctx s n admin =
    (count_of_kind ctx s n false admin, count_of_kind ctx s n true admin)
