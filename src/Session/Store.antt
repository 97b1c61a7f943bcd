-- ===== src/Session/Store.antt =====
-- The methods of magnum/objects/cluster.py and magnum/objects/nodegroup.py that reach the database,
-- and `notify_about_cluster_operation` of magnum/conductor/utils.py. `save` writes the columns that were
-- assigned since the object was read or saved, and no others.
pub mod Laws
use magnum.Common.{
  ℕ, Bool, true, false, not, String, str_eq, Option, none, some, List, [], ◌∷◌, select, head?,
  if◌then◌else◌, is_some, map, sum,
}
use magnum.Errors.{Error, Result, ok, err, index_error}
use magnum.Objects.{Cluster, NodeGroup, ClusterTemplate, Database}
use magnum.Db.Table.{Identity, uuid_like}
use magnum.Db.Tenant.{Context, Keystone}
use magnum.Db.Clusters.{
  create_cluster, update_cluster, destroy_cluster, get_cluster_template_by_uuid,
}
use magnum.Db.Nodegroups.{
  create_nodegroup, update_nodegroup, destroy_nodegroup, list_cluster_nodegroups, no_filters,
}
use magnum.Session.Monad.{
  CadfAction, CadfOutcome, notified, Session, Cloud, Action, pure, raise, lift, gets, asks, modify,
  on_cluster, on_nodegroup, tell, transact, ◌>>=◌, ◌>>◌,
}

-- `NodeGroup.save`, of an object with the changes f
unfoldable pub ng_save : NodeGroup → (NodeGroup → NodeGroup) → Action (Unit {0})
unfolding update_nodegroup
ng_save n f = transact (update_nodegroup n.cluster_id (uuid_like n.uuid) f)

-- and of the nodegroup in hand
unfoldable pub save_nodegroup : Action (Unit {0})
unfolding ng_save
save_nodegroup =
    (λ s. ng_save s.nodegroup s.ng_changes s) >> modify (λ s. record s { ng_changes = λ n. n })

-- `NodeGroup.destroy`; nobody uses the object afterwards.
unfoldable pub ng_destroy : NodeGroup → Action (Unit {0})
unfolding destroy_nodegroup
ng_destroy n = transact (destroy_nodegroup n.cluster_id (uuid_like n.uuid))

-- `Cluster.save` and `Cluster.destroy`
unfoldable pub cluster_save : Action (Unit {0})
unfolding update_cluster
cluster_save =
    (λ s.
      transact
        (update_cluster (uuid_like s.cluster.uuid)
          (record { has_uuid = false; assign = s.changes }))
        s)
    >> modify (λ s. record s { changes = λ c. c })

unfoldable pub cluster_destroy : Action (Unit {0})
unfolding destroy_cluster
cluster_destroy =
    (λ s. transact (destroy_cluster (uuid_like s.cluster.uuid)) s)
    >> modify (λ s. record s { changes = λ c. c })

-- `Cluster.create` reads the row back into the object.
unfoldable pub cluster_create_row : Cloud → Action (Unit {0})
unfolding create_cluster
cluster_create_row cloud s =
    elim (create_cluster (cloud.next_id s.events s.db) (cloud.generate_uuid s.events s.db) s.cluster
      s.db) [
        | ok (row, d) ↦ (ok tt, record s { cluster = row; changes = λ c. c; db = d })
        | err e ↦ (err e, s)
      ]

unfoldable pub ng_create : Cloud → NodeGroup → Action NodeGroup
unfolding create_nodegroup
ng_create cloud n s =
    elim (create_nodegroup (cloud.next_id s.events s.db) (cloud.generate_uuid s.events s.db) n
      s.db) [ ok (row, d) ↦ (ok row, record s { db = d }) | err e ↦ (err e, s) ]

abbrev pub is_master : NodeGroup → Bool
is_master n = str_eq n.role "master"

module _ (ctx : Context) where
  -- `Cluster.nodegroups`, fetched anew at each use
  unfoldable pub nodegroups : Session → List NodeGroup
  unfolding list_cluster_nodegroups
  nodegroups s = list_cluster_nodegroups ctx s.cluster.uuid no_filters s.db

  abbrev pub first_or_raise : List NodeGroup → Result NodeGroup
  first_or_raise [] = err index_error
  first_or_raise (n ∷ _) = ok n

  -- `Cluster.default_ng_worker` and `Cluster.default_ng_master`
  unfoldable pub default_ng_worker : Action NodeGroup
  unfolding list_cluster_nodegroups
  default_ng_worker = asks (λ s. first_or_raise (
      select (λ n. not (is_master n))
        (list_cluster_nodegroups ctx s.cluster.uuid (record no_filters { is_default = some true })
          s.db)))

  unfoldable pub default_ng_master : Action NodeGroup
  unfolding list_cluster_nodegroups
  default_ng_master = asks (λ s. first_or_raise (
      list_cluster_nodegroups ctx s.cluster.uuid
        (record no_filters { role = some "master"; is_default = some true }) s.db))

  -- `Cluster.node_count` and `Cluster.master_count`
  unfoldable pub node_count : Session → ℕ
  unfolding nodegroups
  node_count s = sum (map (λ n. n.node_count) (select (λ n. not (is_master n)) (nodegroups s)))

  unfoldable pub master_count : Session → ℕ
  unfolding nodegroups
  master_count s = sum (map (λ n. n.node_count) (select is_master (nodegroups s)))

  -- `conductor_utils.retrieve_cluster_template`
  unfoldable pub retrieve_cluster_template : Keystone → Action ClusterTemplate
  unfolding get_cluster_template_by_uuid
  retrieve_cluster_template k =
      asks (λ s. get_cluster_template_by_uuid k ctx s.cluster.cluster_template_id s.db)

-- `notify_about_cluster_operation(context, action, outcome, cluster)`
abbrev pub notify : CadfAction → CadfOutcome → Action (Unit {0})
notify action outcome s = tell (notified action outcome s.cluster.status) s
