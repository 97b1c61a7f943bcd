-- ===== src/Session/Store/Laws.antt =====
-- What `save` and `destroy` of magnum/objects do to the tables, where the row is there.
use magnum.Common.{◌≡◌, Bool, true, ◌&&◌, str_eq, [], ◌∷◌, select, arith}
use magnum.Errors.{ok}
use magnum.Objects.{Cluster, NodeGroup, Database}
use magnum.Db.Table.{update_where, delete_where}
use magnum.Db.Clusters.{with_clusters}
use magnum.Db.Nodegroups.{with_nodegroups}
use magnum.Session.Monad.{Session}
use magnum.Session.Store.{cluster_save, cluster_destroy, ng_save, save_nodegroup, ng_destroy}

-- The test for the row of an object.
abbrev pub row_of : Cluster → Cluster → Bool
row_of c b = str_eq b.uuid c.uuid

abbrev pub ng_row_of : NodeGroup → NodeGroup → Bool
ng_row_of n b = str_eq b.uuid n.uuid && str_eq b.cluster_id n.cluster_id

-- The one row of an object in its table.
abbrev pub HasRow : Cluster → Cluster → Database → Type 0
HasRow c row d = select (row_of c) d.clusters ≡ row ∷ []

abbrev pub HasNgRow : NodeGroup → NodeGroup → Database → Type 0
HasNgRow n row d = select (ng_row_of n) d.nodegroups ≡ row ∷ []

-- The changes of an object are written to its row.
abbrev pub write_cluster : Cluster → (Cluster → Cluster) → Database → Database
write_cluster c f d = with_clusters d (update_where (row_of c) f d.clusters)

abbrev pub write_nodegroup : NodeGroup → (NodeGroup → NodeGroup) → Database → Database
write_nodegroup n f d = with_nodegroups d (update_where (ng_row_of n) f d.nodegroups)

-- The session's object has one row, which the pending changes do not give to another object.
abbrev pub Saves : Session → Cluster → Type 0
Saves s row = HasRow s.cluster row s.db × (row_of s.cluster (s.changes row) ≡ true)

abbrev pub NgSaves : Session → NodeGroup → Type 0
NgSaves s row = HasNgRow s.nodegroup row s.db × (ng_row_of s.nodegroup (s.ng_changes row) ≡ true)

pub cluster_save_lem :
    (s : Session) (row : Cluster)
    → HasRow s.cluster row s.db
    → cluster_save s
      ≡ (ok tt, record s { changes = λ c. c; db = write_cluster s.cluster s.changes s.db })
unfolding cluster_save
cluster_save_lem s row h = ground arith

pub ng_save_lem :
    (n row : NodeGroup) (f : NodeGroup → NodeGroup) (s : Session)
    → HasNgRow n row s.db
    → ng_save n f s ≡ (ok tt, record s { db = write_nodegroup n f s.db })
unfolding ng_save
ng_save_lem n row f s h = ground (arith, h)

pub save_nodegroup_lem :
    (s : Session) (row : NodeGroup)
    → HasNgRow s.nodegroup row s.db
    → save_nodegroup s ≡ (
      ok tt,
      record s { ng_changes = λ n. n; db = write_nodegroup s.nodegroup s.ng_changes s.db },
    )
unfolding save_nodegroup
save_nodegroup_lem s row h = rw (ng_save_lem s.nodegroup row s.ng_changes s h)

pub cluster_destroy_lem :
    (s : Session) (row : Cluster)
    → HasRow s.cluster row s.db
    → cluster_destroy s ≡ (
      ok tt,
      record s {
        changes = λ c. c;
        db = with_clusters s.db (delete_where (row_of s.cluster) s.db.clusters);
      },
    )
unfolding cluster_destroy
cluster_destroy_lem s row h = ground arith

pub ng_destroy_lem :
    (n row : NodeGroup) (s : Session)
    → HasNgRow n row s.db
    → ng_destroy n s
      ≡ (ok tt, record s { db = with_nodegroups s.db (delete_where (ng_row_of n) s.db.nodegroups) })
unfolding ng_destroy
ng_destroy_lem n row s h = ground arith
