-- ===== src/Conductor/Nodegroup/Laws.antt =====
-- What the methods of magnum/conductor/handlers/nodegroup_conductor.py leave in the database.
use magnum.Common.{◌≡◌, refl, true, false, String, some, List, [], ◌∷◌, select}
use magnum.Common.Text.{◌^+◌}
use magnum.Errors.{Error, ok, err, text_type, reraise, not_supported, http_not_found}
use magnum.Status.{
  ClusterStatus, is_in, value, update_failed, update_in_progress, delete_in_progress,
}
use magnum.Objects.{Cluster, NodeGroup}
use magnum.Db.Table.{select-update_where, select-delete_where}
use magnum.Session.{Session, Event, Action}
use magnum.Session.Store.Laws.{
  row_of, ng_row_of, HasRow, Saves, NgSaves, save_nodegroup_lem, write_cluster, write_nodegroup,
  cluster_save_lem, ng_destroy_lem,
}
use magnum.Conductor.Driver.{Driver, Env, get_driver_for_cluster}
use magnum.Conductor.Nodegroup.{
  allowed_nodegroup_states, allowed_operation, set_cluster, nodegroup_failed,
  nodegroup_delete_failed, update_body, nodegroup_create, nodegroup_update, nodegroup_delete,
}

-- How a refused call names itself and, in the place of the nodegroup's status, the cluster's.
abbrev pub refusal : Session → String → Error
refusal s fname =
    not_supported (fname ^+ " when nodegroup status is \"" ^+ value s.cluster.status ^+ "\"")

allowed_operation_refused :
    (fname : String) (m : Action (Unit {0})) (s : Session)
    → is_in s.nodegroup.status allowed_nodegroup_states ≡ false
    → allowed_operation fname true m s ≡ (err (refusal s fname), s)
unfolding allowed_operation
allowed_operation_refused fname m s closed = rw closed

-- A nodegroup whose status allows no operation is refused by nodegroup_create and nodegroup_update:
-- nothing is written and no driver is called. The text says that it is about the nodegroup's status,
-- and shows the status of the cluster.
pub nodegroup_operations_refused :
    (env : Env) (s : Session)
    → is_in s.nodegroup.status allowed_nodegroup_states ≡ false
    → (nodegroup_create env true s ≡ (err (refusal s "nodegroup_create"), s))
      × (nodegroup_update env true s ≡ (err (refusal s "nodegroup_update"), s))
unfolding nodegroup_create nodegroup_update
nodegroup_operations_refused env s closed =
    (allowed_operation_refused _ _ s closed, allowed_operation_refused _ _ s closed)

pub set_cluster_lem :
    (st : ClusterStatus) (row : Cluster) (s : Session)
    → HasRow s.cluster row s.db
    → let f = λ (c : Cluster). record c { status = st } in
      set_cluster st s ≡ (
        ok tt,
        record s {
          cluster = f s.cluster;
          changes = λ c. c;
          db = write_cluster s.cluster (λ c. f (s.changes c)) s.db;
        },
      )
unfolding set_cluster
set_cluster_lem st row s h =
    let f = λ (c : Cluster). record c { status = st } in
    cluster_save_lem (record s { cluster = f s.cluster; changes = λ c. f (s.changes c) }) row h

module _ (env : Env) (driver : Driver) (row : Cluster) (old : NodeGroup) (s : Session)
    (saves : Saves s row) (ng_saves : NgSaves s old) where
  abbrev pub updating : Cluster → Cluster
  updating c = record c { status = update_in_progress }

  -- The session as the driver finds it, with the nodegroup's status set on the object alone.
  abbrev pub in_hand : ClusterStatus → Session
  in_hand st = record s {
    cluster = updating s.cluster;
    changes = λ c. c;
    nodegroup = record s.nodegroup { status = st };
    ng_changes = λ (n : NodeGroup). record (s.ng_changes n) { status = st };
    db = write_cluster s.cluster (λ c. updating (s.changes c)) s.db;
  }

  pub updating_row :
      HasRow s.cluster
        (updating (s.changes row))
        (write_cluster s.cluster (λ c. updating (s.changes c)) s.db)
  updating_row =
      select-update_where (row_of s.cluster) (λ c. updating (s.changes c)) row s.db.clusters saves.0
        saves.1

  -- The nodegroup and the cluster after an update that failed.
  abbrev pub failed_nodegroup : Error → NodeGroup → NodeGroup
  failed_nodegroup e n = record n { status = update_failed; status_reason = some (text_type e) }

  -- An update of a nodegroup that the driver refuses with e is recorded: the nodegroup's row says
  -- UPDATE_FAILED and the text of e, the cluster's row UPDATE_FAILED, and e goes on, a bad request
  -- of Heat as InvalidParameterValue. The driver is assumed to have changed neither the objects nor
  -- the database. The objects are assumed to have one row each, whose uuid the pending changes
  -- keep.
  pub nodegroup_update_failure_recorded :
      (e : Error) (evs : List Event)
      → get_driver_for_cluster env (in_hand update_in_progress)
        ≡ (ok driver, in_hand update_in_progress)
      → driver.update_nodegroup (in_hand update_in_progress)
        ≡ (err e, record (in_hand update_in_progress) { events = evs })
      → let (r, s') = update_body env s in
        (r ≡ err (reraise e))
        × (select (ng_row_of s.nodegroup) s'.db.nodegroups
            ≡ failed_nodegroup e (s.ng_changes old) ∷ [])
        × (select (row_of s.cluster) s'.db.clusters
            ≡ record (s.changes row) { status = update_failed } ∷ [])
  unfolding update_body nodegroup_failed
  nodegroup_update_failure_recorded e evs chosen fails =
      let f = λ (c : Cluster). record c { status = update_failed } in
      let g = λ (n : NodeGroup). failed_nodegroup e (s.ng_changes n) in
      let t : Session = record (in_hand update_in_progress) {
        nodegroup = failed_nodegroup e s.nodegroup;
        ng_changes = g;
        events = evs;
      } in
      rw (set_cluster_lem update_in_progress row s saves.0) (
        rw chosen (
          rw fails (
            rw (save_nodegroup_lem t old ng_saves.0) (
              rw
                (set_cluster_lem update_failed (updating (s.changes row))
                  (record t { ng_changes = λ n. n; db = write_nodegroup s.nodegroup g t.db })
                  updating_row)
                (
                  refl,
                  select-update_where (ng_row_of s.nodegroup) g old s.db.nodegroups ng_saves.0
                      ng_saves.1,
                  select-update_where (row_of s.cluster) f (updating (s.changes row)) _ updating_row
                      saves.1,
                )))))

  -- If Heat has no stack of the nodegroup any more, nodegroup_delete removes its row and returns.
  pub nodegroup_delete_without_stack :
      (text : String) (evs : List Event)
      → get_driver_for_cluster env (in_hand delete_in_progress)
        ≡ (ok driver, in_hand delete_in_progress)
      → driver.delete_nodegroup (in_hand delete_in_progress)
        ≡ (err (http_not_found text), record (in_hand delete_in_progress) { events = evs })
      → let (r, s') = nodegroup_delete env s in
        (r ≡ ok tt) × (select (ng_row_of s.nodegroup) s'.db.nodegroups ≡ [])
  unfolding nodegroup_delete nodegroup_delete_failed
  nodegroup_delete_without_stack text evs chosen missing =
      rw (set_cluster_lem update_in_progress row s saves.0) (
        rw chosen (
          rw missing (
            rw
              (ng_destroy_lem (record s.nodegroup { status = delete_in_progress }) old
                (record (in_hand delete_in_progress) { events = evs }) ng_saves.0)
              (refl, select-delete_where (ng_row_of s.nodegroup) s.db.nodegroups))))

  -- A deletion of a nodegroup that the driver accepts is not saved: the object says
  -- DELETE_IN_PROGRESS and the nodegroup table is the one from before the call. The objects are
  -- assumed to have one row each, whose uuid the pending changes keep.
  pub nodegroup_delete_unsaved :
      (evs : List Event)
      → get_driver_for_cluster env (in_hand delete_in_progress)
        ≡ (ok driver, in_hand delete_in_progress)
      → driver.delete_nodegroup (in_hand delete_in_progress)
        ≡ (ok tt, record (in_hand delete_in_progress) { events = evs })
      → let (r, s') = nodegroup_delete env s in
        (r ≡ ok tt)
        × (s'.nodegroup.status ≡ delete_in_progress)
        × (s'.db.nodegroups ≡ s.db.nodegroups)
  unfolding nodegroup_delete
  nodegroup_delete_unsaved evs chosen accepted =
      rw (set_cluster_lem update_in_progress row s saves.0)
        (rw chosen (rw accepted (refl, refl, refl)))
