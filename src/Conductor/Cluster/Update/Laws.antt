-- ===== src/Conductor/Cluster/Update/Laws.antt =====
-- What cluster_update and cluster_upgrade of magnum/conductor/handlers/cluster_conductor.py leave in
-- the database on each path.
use magnum.Common.{
  ℕ, ◌≡◌, refl, Bool, true, false, ◌&&◌, ◌==◌, String, Option, none, some, List, [], ◌∷◌, select,
  arith, Bool-cases, inl, inr, if◌then◌else◌,
}
use magnum.Common.Text.{◌^+◌}
use magnum.Errors.{Error, Result, ok, err, text_type, reraise, not_supported}
use magnum.Status.{
  ClusterStatus, ClusterHealthStatus, is_in, value, update_failed, update_in_progress,
}
use magnum.Objects.{Dict, Cluster, NodeGroup, ClusterTemplate}
use magnum.Db.Table.{select-update_where, select-holds, update_where_undo}
use magnum.Session.{Session, Event, notified, action_update, outcome_pending, outcome_failure}
use magnum.Session.Store.{default_ng_worker}
use magnum.Session.Store.Laws.{
  row_of, ng_row_of, HasRow, Saves, HasNgRow, write_cluster, write_nodegroup, cluster_save_lem,
  ng_save_lem,
}
use magnum.Conductor.Driver.{Driver, Env, ScaleManager}
use magnum.Conductor.Cluster.Update.{
  allow_update_status, check_status, cluster_update, cluster_upgrade, scale, save_failure,
  same_health, same_dict,
}

-- A refused call: the exception, one failure notification, and nothing else.
abbrev pub OnlyNotifies {ℓ} : {A : Type ℓ} → String → Session → Result A × Session → Type ℓ
OnlyNotifies operation s (r, s') =
    (r ≡ err (not_supported (operation ^+ value s.cluster.status ^+ "\"")))
    × (s'
        ≡ record s { events = notified action_update outcome_failure s.cluster.status ∷ s.events })

pub check_status_refused :
    (allowed : List ClusterStatus) (operation : String) (s : Session)
    → is_in s.cluster.status allowed ≡ false
    → check_status allowed operation s ≡ (
      err (not_supported (operation ^+ value s.cluster.status ^+ "\"")),
      record s { events = notified action_update outcome_failure s.cluster.status ∷ s.events },
    )
unfolding check_status
check_status_refused allowed operation s closed = rw closed

-- In a status that allows no update, cluster_update and cluster_upgrade raise NotSupported with the
-- status in the text; all that they do is to send one notification of failure: the objects and the
-- database stay, and no driver is called.
pub cluster_update_refused :
    (env : Env) (n max_batch_size : ℕ) (h : Option ClusterHealthStatus) (reason : Option Dict)
    (rollback : Bool) (ct : ClusterTemplate) (s : Session)
    → is_in s.cluster.status allow_update_status ≡ false
    → OnlyNotifies "Updating a cluster when status is \"" s
        (cluster_update env n h reason rollback s)
      × OnlyNotifies "Upgrading a cluster when status is \"" s
          (cluster_upgrade env ct max_batch_size rollback s)
unfolding cluster_update cluster_upgrade
cluster_update_refused env n max_batch_size h reason rollback ct s closed =
    let update_head =
      check_status_refused allow_update_status "Updating a cluster when status is \"" s closed in
    let upgrade_head =
      check_status_refused allow_update_status "Upgrading a cluster when status is \"" s closed in
    ((rw update_head, rw update_head), (rw upgrade_head, rw upgrade_head))

-- The object of a cluster whose update has failed.
abbrev pub failed_cluster : Error → Cluster → Cluster
failed_cluster e c = record c { status = update_failed; status_reason = some (text_type e) }

pub save_failure_lem :
    (e : Error) (row : Cluster) (s : Session)
    → HasRow s.cluster row s.db
    → save_failure e s ≡ (
      ok tt,
      record s {
        cluster = failed_cluster e s.cluster;
        changes = λ c. c;
        db = write_cluster s.cluster (λ c. failed_cluster e (s.changes c)) s.db;
      },
    )
unfolding save_failure
save_failure_lem e row s h =
    cluster_save_lem
      (record s {
        cluster = failed_cluster e s.cluster;
        changes = λ c. failed_cluster e (s.changes c);
      })
      row h

module _ (env : Env) (driver : Driver) (manager : Option ScaleManager) (rollback : Bool) (n : ℕ)
    (w : NodeGroup) (row : Cluster) (s : Session) (saves : Saves s row)
    (has_ng_row : HasNgRow w w s.db) where
  -- The session as the driver finds it: the new number of nodes is saved.
  abbrev pub before_driver : Session
  before_driver = record s {
    events = notified action_update outcome_pending s.cluster.status ∷ s.events;
    db = write_nodegroup w (λ r. record r { node_count = n }) s.db;
  }

  -- A failed update restores the number of nodes: where the driver raises e and has changed neither
  -- the cluster nor the database, the nodegroup table is the one from before the call, the
  -- cluster's row says UPDATE_FAILED and the text of e, a failure is notified last, and the
  -- exception goes on, a bad request of Heat as InvalidParameterValue. The objects are assumed to
  -- have one row each, whose uuid the pending changes keep.
  pub scale_failure_restores :
      (e : Error) (evs : List Event)
      → driver.update_cluster manager rollback before_driver
        ≡ (err e, record before_driver { events = evs })
      → let (r, s') = scale env n rollback w driver manager s in
        (r ≡ err (reraise e))
        × (s'.db.nodegroups ≡ s.db.nodegroups)
        × (select (row_of s.cluster) s'.db.clusters ≡ failed_cluster e (s.changes row) ∷ [])
        × (s'.events ≡ notified action_update outcome_failure update_failed ∷ evs)
  unfolding scale
  scale_failure_restores e evs fails =
      let f = λ (r : NodeGroup). record r { node_count = n } in
      let g = λ (r : NodeGroup). record r { node_count = w.node_count } in
      let itself : ng_row_of w w ≡ true = select-holds (ng_row_of w) w s.db.nodegroups has_ng_row in
      let written : HasNgRow w (f w) (write_nodegroup w f s.db) =
        select-update_where (ng_row_of w) f w s.db.nodegroups has_ng_row itself in
      rw
        (ng_save_lem w w f
          (record s { events = notified action_update outcome_pending s.cluster.status ∷ s.events })
          has_ng_row)
        (rw fails (
          rw (save_failure_lem e row (record before_driver { events = evs }) saves.0) (
            rw
              (ng_save_lem w (f w) g
                (record before_driver {
                  cluster = failed_cluster e s.cluster;
                  changes = λ c. c;
                  db =
                      write_cluster s.cluster (λ c. failed_cluster e (s.changes c))
                        before_driver.db;
                  events = evs;
                })
                written)
              (
                refl,
                update_where_undo (ng_row_of w) f g w s.db.nodegroups has_ng_row itself refl,
                select-update_where (row_of s.cluster) (λ c. failed_cluster e (s.changes c)) row
                    s.db.clusters saves.0 saves.1,
                refl,
              ))))

  -- A cluster whose update has begun.
  abbrev pub updating_cluster : Cluster → Cluster
  updating_cluster c = record c { status = update_in_progress; status_reason = none }

  -- An update that the driver accepts is saved: the worker nodegroup's row has the new number of
  -- nodes and is otherwise the old one, and the cluster's row says UPDATE_IN_PROGRESS with no
  -- reason. The hypothesis on the driver is that it changes neither the cluster nor the database.
  pub scale_success_saves :
      (evs : List Event)
      → driver.update_cluster manager rollback before_driver
        ≡ (ok tt, record before_driver { events = evs })
      → let (r, s') = scale env n rollback w driver manager s in
        (r ≡ ok tt)
        × (select (ng_row_of w) s'.db.nodegroups ≡ record w { node_count = n } ∷ [])
        × (select (row_of s.cluster) s'.db.clusters ≡ updating_cluster (s.changes row) ∷ [])
  unfolding scale
  scale_success_saves evs accepts =
      let f = λ (r : NodeGroup). record r { node_count = n } in
      let itself : ng_row_of w w ≡ true = select-holds (ng_row_of w) w s.db.nodegroups has_ng_row in
      rw
        (ng_save_lem w w f
          (record s { events = notified action_update outcome_pending s.cluster.status ∷ s.events })
          has_ng_row)
        (rw accepts (
          rw
            (cluster_save_lem
              (record before_driver {
                cluster = updating_cluster s.cluster;
                changes = λ c. updating_cluster (s.changes c);
                events = evs;
              })
              row saves.0)
            (
              refl,
              select-update_where (ng_row_of w) f w s.db.nodegroups has_ng_row itself,
              select-update_where (row_of s.cluster) (λ c. updating_cluster (s.changes c)) row
                  s.db.clusters saves.0 saves.1,
            )))

pub check_status_passes :
    (allowed : List ClusterStatus) (operation : String) (s : Session)
    → is_in s.cluster.status allowed ≡ true
    → check_status allowed operation s ≡ (ok tt, s)
unfolding check_status
check_status_passes allowed operation s open_status = rw open_status

same_number : (n : ℕ) → (n == n) ≡ true
same_number n = ground arith

-- Where the number of nodes stays, cluster_update calls no driver and notifies nobody: if the health
-- stays too it changes nothing at all and returns None; otherwise it saves the cluster with the new
-- health, and its status stays.
pub cluster_update_without_scaling :
    (env : Env) (h : Option ClusterHealthStatus) (reason : Option Dict) (rollback : Bool)
    (w : NodeGroup) (row : Cluster) (s : Session)
    → is_in s.cluster.status allow_update_status ≡ true
    → default_ng_worker env.context s ≡ (ok w, s)
    → HasRow s.cluster row s.db
    → let f = λ (c : Cluster). record c { health_status = h; health_status_reason = reason } in
      cluster_update env w.node_count h reason rollback s ≡ (
        if same_health s.cluster.health_status h && same_dict s.cluster.health_status_reason reason
        then (ok false, s)
        else (
          ok true,
          record s {
            cluster = f s.cluster;
            changes = λ c. c;
            db = write_cluster s.cluster (λ c. f (s.changes c)) s.db;
          },
        ))
unfolding cluster_update
cluster_update_without_scaling env h reason rollback w row s open_status worker has_row =
    rw
      (check_status_passes allow_update_status "Updating a cluster when status is \"" s open_status)
      (rw worker (
        rw (same_number w.node_count)
          (elim (Bool-cases (
            same_health s.cluster.health_status h
            && same_dict s.cluster.health_status_reason reason)) [
              | inl same ↦ rw same
              | inr other ↦ rw other (
                  rw (
                    cluster_save_lem
                      (record s {
                        cluster = record s.cluster {
                          health_status = h;
                          health_status_reason = reason;
                        };
                        changes = λ (c : Cluster). record (s.changes c) {
                          health_status = h;
                          health_status_reason = reason;
                        };
                      })
                      row has_row))
            ])))
