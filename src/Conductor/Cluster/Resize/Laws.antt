-- ===== src/Conductor/Cluster/Resize/Laws.antt =====
-- What cluster_resize of magnum/conductor/handlers/cluster_conductor.py leaves in the database.
use magnum.Common.{ℕ, ◌≡◌, refl, false, String, Option, none, some, List, [], ◌∷◌, select}
use magnum.Errors.{Error, ok, err, text_type, reraise}
use magnum.Status.{is_in, update_failed, update_in_progress}
use magnum.Objects.{Cluster, NodeGroup}
use magnum.Db.Table.{select-update_where}
use magnum.Session.{Session, Event, notified, action_update, outcome_pending, outcome_failure}
use magnum.Session.Store.Laws.{
  row_of, ng_row_of, HasNgRow, Saves, NgSaves, save_nodegroup_lem, write_cluster, write_nodegroup,
  cluster_save_lem,
}
use magnum.Conductor.Driver.{Driver, Env, ScaleManager}
use magnum.Conductor.Cluster.Update.Laws.{
  OnlyNotifies, check_status_refused, failed_cluster, save_failure_lem,
}
use magnum.Conductor.Cluster.Resize.{allow_resize_status, cluster_resize, resize_with}

-- In a status that allows no resize, cluster_resize raises NotSupported, sends one notification of
-- failure and does nothing else.
pub cluster_resize_refused :
    (env : Env) (n : ℕ) (nodes : List String) (s : Session)
    → is_in s.cluster.status allow_resize_status ≡ false
    → OnlyNotifies "Resizing a cluster when status is \"" s (cluster_resize env n nodes s)
unfolding cluster_resize
cluster_resize_refused env n nodes s closed =
    let head =
      check_status_refused allow_resize_status "Resizing a cluster when status is \"" s closed in
    (rw head, rw head)

module _ (driver : Driver) (manager : Option ScaleManager) (n : ℕ) (nodes : List String)
    (old : NodeGroup) (row : Cluster) (s : Session) (saves : Saves s row)
    (ng_saves : NgSaves s old) where
  abbrev pub resized : NodeGroup → NodeGroup
  resized r = record r { node_count = n; status = update_in_progress }

  -- The session as the driver finds it.
  abbrev pub before_resize : Session
  before_resize = record s {
    nodegroup = resized s.nodegroup;
    ng_changes = λ r. r;
    events = notified action_update outcome_pending s.cluster.status ∷ s.events;
    db = write_nodegroup s.nodegroup (λ r. resized (s.ng_changes r)) s.db;
  }

  -- The nodegroup after a resize that failed.
  abbrev pub restored : Error → NodeGroup → NodeGroup
  restored e r = record r {
    node_count = s.nodegroup.node_count;
    status = update_failed;
    status_reason = some (text_type e);
  }

  -- A failed resize restores the number of nodes: where the driver raises e and has changed neither
  -- the objects nor the database, the nodegroup's row has the number of nodes from before the call,
  -- UPDATE_FAILED and the text of e; so has the cluster's row its status; the last notification is
  -- of a failure, and the exception goes on. The objects are assumed to have one row each, whose
  -- uuid the pending changes keep.
  pub resize_failure_restores :
      (e : Error) (evs : List Event)
      → driver.resize_cluster manager n nodes before_resize
        ≡ (err e, record before_resize { events = evs })
      → let (r, s') = resize_with driver manager n nodes s in
        (r ≡ err (reraise e))
        × (select (ng_row_of s.nodegroup) s'.db.nodegroups ≡ restored e (s.ng_changes old) ∷ [])
        × (select (row_of s.cluster) s'.db.clusters ≡ failed_cluster e (s.changes row) ∷ [])
        × (s'.nodegroup.node_count ≡ s.nodegroup.node_count)
        × (s'.events ≡ notified action_update outcome_failure update_failed ∷ evs)
  unfolding resize_with
  resize_failure_restores e evs fails =
      let f = λ (r : NodeGroup). resized (s.ng_changes r) in
      let g = λ (c : Cluster). failed_cluster e (s.changes c) in
      let written : HasNgRow s.nodegroup (f old) (write_nodegroup s.nodegroup f s.db) =
        select-update_where (ng_row_of s.nodegroup) f old s.db.nodegroups ng_saves.0 ng_saves.1 in
      rw
        (save_nodegroup_lem (record s { nodegroup = resized s.nodegroup; ng_changes = f }) old
          ng_saves.0)
        (rw fails (
          rw (save_failure_lem e row (record before_resize { events = evs }) saves.0) (
            rw
              (save_nodegroup_lem
                (record before_resize {
                  nodegroup = restored e s.nodegroup;
                  ng_changes = restored e;
                  cluster = failed_cluster e s.cluster;
                  changes = λ c. c;
                  db = write_cluster s.cluster g before_resize.db;
                  events = evs;
                })
                (f old) written)
              (
                refl,
                select-update_where (ng_row_of s.nodegroup) (restored e) (f old) _ written
                    ng_saves.1,
                select-update_where (row_of s.cluster) g row s.db.clusters saves.0 saves.1,
                refl,
                refl,
              ))))

  -- A resize that the driver accepts is saved.
  pub resize_success_saves :
      (evs : List Event)
      → driver.resize_cluster manager n nodes before_resize
        ≡ (ok tt, record before_resize { events = evs })
      → let (r, s') = resize_with driver manager n nodes s in
        (r ≡ ok tt)
        × (select (ng_row_of s.nodegroup) s'.db.nodegroups ≡ resized (s.ng_changes old) ∷ [])
        × (select (row_of s.cluster) s'.db.clusters
            ≡ record (s.changes row) { status = update_in_progress; status_reason = none } ∷ [])
  unfolding resize_with
  resize_success_saves evs accepts =
      let f = λ (r : NodeGroup). resized (s.ng_changes r) in
      let g = λ (c : Cluster). record c { status = update_in_progress; status_reason = none } in
      let g' = λ (c : Cluster). g (s.changes c) in
      rw
        (save_nodegroup_lem (record s { nodegroup = resized s.nodegroup; ng_changes = f }) old
          ng_saves.0)
        (rw accepts (
          rw
            (cluster_save_lem
              (record before_resize { cluster = g s.cluster; changes = g'; events = evs }) row
              saves.0)
            (
              refl,
              select-update_where (ng_row_of s.nodegroup) f old s.db.nodegroups ng_saves.0
                  ng_saves.1,
              select-update_where (row_of s.cluster) g' row s.db.clusters saves.0 saves.1,
            )))
