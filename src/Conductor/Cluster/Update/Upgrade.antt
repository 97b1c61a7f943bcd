-- ===== src/Conductor/Cluster/Update/Upgrade.antt =====
-- What cluster_upgrade of magnum/conductor/handlers/cluster_conductor.py leaves in the database.
use magnum.Common.{ℕ, ◌≡◌, refl, Bool, true, none, some, [], ◌∷◌, select}
use magnum.Errors.{Error, Result, ok, err, text_type, reraise}
use magnum.Status.{is_in, update_failed, update_in_progress}
use magnum.Objects.{Cluster, NodeGroup, ClusterTemplate}
use magnum.Db.Table.{select-update_where}
use magnum.Session.{Session, notified, action_update, outcome_pending, outcome_failure}
use magnum.Session.Store.Laws.{
  row_of, ng_row_of, Saves, NgSaves, save_nodegroup_lem, cluster_save_lem, write_cluster,
  write_nodegroup,
}
use magnum.Conductor.Driver.{Driver, Env}
use magnum.Conductor.Cluster.Update.{allow_update_status, driver_of_template, cluster_upgrade}
use magnum.Conductor.Cluster.Update.Laws.{check_status_passes, failed_cluster, save_failure_lem}

module _ (env : Env) (driver : Driver) (template : ClusterTemplate) (batch : ℕ) (rollback : Bool)
    (old : NodeGroup) (row : Cluster) (s t : Session) where
  -- The session as the driver finds it; it leaves the session t.
  abbrev pub before_upgrade : Session
  before_upgrade = record s {
    events = notified action_update outcome_pending s.cluster.status ∷ s.events;
  }

  abbrev pub upgrading_ng : NodeGroup → NodeGroup
  upgrading_ng n = record n { status = update_in_progress }

  abbrev pub upgrading : Cluster → Cluster
  upgrading c = record c { status = update_in_progress; status_reason = none }

  abbrev pub failed_ng : Error → NodeGroup → NodeGroup
  failed_ng e n = record n { status = update_failed; status_reason = some (text_type e) }

  -- What the conductor leaves, by how the driver's upgrade ends.
  abbrev pub Upgraded : Result (Unit {0}) → Result (Unit {0}) × Session → Type 0
  Upgraded (ok _) (r, s') =
      (r ≡ ok tt)
      × (select (ng_row_of t.nodegroup) s'.db.nodegroups ≡ upgrading_ng (t.ng_changes old) ∷ [])
      × (select (row_of t.cluster) s'.db.clusters ≡ upgrading (t.changes row) ∷ [])
      × (s'.events ≡ t.events)
  Upgraded (err e) (r, s') =
      (r ≡ err (reraise e))
      × (select (ng_row_of t.nodegroup) s'.db.nodegroups ≡ failed_ng e (t.ng_changes old) ∷ [])
      × (select (row_of t.cluster) s'.db.clusters ≡ failed_cluster e (t.changes row) ∷ [])
      × (s'.events ≡ notified action_update outcome_failure update_failed ∷ t.events)

  -- How cluster_upgrade ends where the status allows it, by how the driver's upgrade ends, whatever
  -- the driver has changed of the objects and of the database by then: if it returns, the
  -- nodegroup's and the cluster's row say UPDATE_IN_PROGRESS; if it raises, both say UPDATE_FAILED
  -- with the exception's text, a failure is notified, and the exception is raised, a bad request of
  -- Heat as InvalidParameterValue. In both cases the rows have all else that the driver assigned to
  -- the objects, so an upgrade that fails is not undone. The objects that the driver leaves are
  -- assumed to have one row each, whose uuid the pending changes keep.
  pub cluster_upgrade_outcome :
      (r : Result (Unit {0}))
      → is_in s.cluster.status allow_update_status ≡ true
      → driver_of_template env s ≡ (ok driver, s)
      → Saves t row
      → NgSaves t old
      → driver.upgrade_cluster template batch rollback before_upgrade ≡ (r, t)
      → Upgraded r (cluster_upgrade env template batch rollback s)
  unfolding cluster_upgrade
  cluster_upgrade_outcome (ok _) open_status chosen saves ng_saves ends =
      rw
        (check_status_passes allow_update_status "Upgrading a cluster when status is \"" s
          open_status)
        (rw chosen (
          rw ends (
            rw
              (save_nodegroup_lem
                (record t {
                  cluster = upgrading t.cluster;
                  changes = λ c. upgrading (t.changes c);
                  nodegroup = upgrading_ng t.nodegroup;
                  ng_changes = λ n. upgrading_ng (t.ng_changes n);
                })
                old ng_saves.0)
              (rw
                (cluster_save_lem
                  (record t {
                    cluster = upgrading t.cluster;
                    changes = λ c. upgrading (t.changes c);
                    nodegroup = upgrading_ng t.nodegroup;
                    ng_changes = λ n. n;
                    db = write_nodegroup t.nodegroup (λ n. upgrading_ng (t.ng_changes n)) t.db;
                  })
                  row saves.0)
                (
                  refl,
                  select-update_where (ng_row_of t.nodegroup) (λ n. upgrading_ng (t.ng_changes n))
                      old t.db.nodegroups ng_saves.0 ng_saves.1,
                  select-update_where (row_of t.cluster) (λ c. upgrading (t.changes c)) row
                      t.db.clusters saves.0 saves.1,
                  refl,
                )))))
  cluster_upgrade_outcome (err e) open_status chosen saves ng_saves ends =
      rw
        (check_status_passes allow_update_status "Upgrading a cluster when status is \"" s
          open_status)
        (rw chosen (
          rw ends (
            rw (save_failure_lem e row t saves.0) (
              rw
                (save_nodegroup_lem
                  (record t {
                    cluster = failed_cluster e t.cluster;
                    changes = λ c. c;
                    db = write_cluster t.cluster (λ c. failed_cluster e (t.changes c)) t.db;
                    nodegroup = failed_ng e t.nodegroup;
                    ng_changes = λ n. failed_ng e (t.ng_changes n);
                  })
                  old ng_saves.0)
                (
                  refl,
                  select-update_where (ng_row_of t.nodegroup) (λ n. failed_ng e (t.ng_changes n))
                      old t.db.nodegroups ng_saves.0 ng_saves.1,
                  select-update_where (row_of t.cluster) (λ c. failed_cluster e (t.changes c)) row
                      t.db.clusters saves.0 saves.1,
                  refl,
                )))))
