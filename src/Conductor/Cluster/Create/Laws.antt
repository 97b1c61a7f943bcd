-- ===== src/Conductor/Cluster/Create/Laws.antt =====
-- What cluster_create of magnum/conductor/handlers/cluster_conductor.py leaves in the database.
use magnum.Common.{ℕ, ◌≡◌, refl, Bool, true, Option, none, some, [], ◌∷◌, ◌++◌, select, arith}
use magnum.Errors.{Error, ok, err, text_type, reraise}
use magnum.Status.{create_in_progress, create_failed}
use magnum.Objects.{Cluster, ClusterTemplate}
use magnum.Db.Table.{select-update_where}
use magnum.Db.Clusters.{create_cluster}
use magnum.Session.{Cloud, Session, notified, action_create, outcome_failure}
use magnum.Session.Store.{cluster_create_row}
use magnum.Session.Store.Laws.{row_of, HasRow, Saves, write_cluster, cluster_save_lem}
use magnum.Conductor.Driver.{Env, template}
use magnum.Conductor.Cluster.Create.{
  create_has_failed, create_stack_of_cluster, cluster_create, create_nodegroups,
  get_nodegroup_object, min_node_count,
}

abbrev pub creation_failed : Error → Cluster → Cluster
creation_failed e c = record c { status = create_failed; status_reason = some (text_type e) }

create_has_failed_lem :
    (e : Error) (row : Cluster) (s : Session)
    → HasRow s.cluster row s.db
    → create_has_failed e s ≡ (
      err (reraise e),
      record s {
        cluster = creation_failed e s.cluster;
        changes = λ c. c;
        db = write_cluster s.cluster (λ c. creation_failed e (s.changes c)) s.db;
        events = notified action_create outcome_failure create_failed ∷ s.events;
      },
    )
unfolding create_has_failed
create_has_failed_lem e row s h = rw (
    cluster_save_lem
      (record s {
        cluster = creation_failed e s.cluster;
        changes = λ c. creation_failed e (s.changes c);
      })
      row h)

-- The session in which cluster_create begins to write.
abbrev pub creating : Session → Session
creating s = record s {
  cluster = record s.cluster { status = create_in_progress; status_reason = none };
  changes =
      λ (c : Cluster). record (s.changes c) { status = create_in_progress; status_reason = none };
}

-- A creation that fails under `try` is recorded: whatever exception e the trust, the certificates,
-- the choice of a driver, the driver or the saves raise, the cluster's row says CREATE_FAILED and
-- the text of e, the nodegroup rows are those that were there, one failure is notified, and e goes
-- on, a bad request of Heat as InvalidParameterValue. The cluster is assumed to have one row, whose
-- uuid the pending changes keep.
pub cluster_create_failure_recorded :
    (env : Env) (masters nodes : ℕ) (timeout : Option ℕ) (e : Error) (row : Cluster)
    (s s1 s2 s3 : Session)
    → cluster_create_row env.cloud (creating s) ≡ (ok tt, s1)
    → create_nodegroups env masters nodes s1 ≡ (ok tt, s2)
    → create_stack_of_cluster env timeout s2 ≡ (err e, s3)
    → Saves s3 row
    → let (r, s') = cluster_create env masters nodes timeout s in
      (r ≡ err (reraise e))
      × (select (row_of s3.cluster) s'.db.clusters ≡ creation_failed e (s3.changes row) ∷ [])
      × (s'.db.nodegroups ≡ s3.db.nodegroups)
      × (s'.events ≡ notified action_create outcome_failure create_failed ∷ s3.events)
unfolding cluster_create
cluster_create_failure_recorded env masters nodes timeout e row s s1 s2 s3 stored ngs fails saves =
    rw stored (
      rw ngs (
        rw fails (
          rw (create_has_failed_lem e row s3 saves.0) (
            refl,
            select-update_where (row_of s3.cluster) (λ c. creation_failed e (s3.changes c)) row
                s3.db.clusters saves.0 saves.1,
            refl,
            refl,
          ))))

get_nodegroup_object_fails :
    (env : Env) (n : ℕ) (master : Bool) (ct : ClusterTemplate) (e : Error) (s : Session)
    → template env s ≡ (ok ct, s)
    → min_node_count env.cloud s.cluster.labels ≡ err e
    → get_nodegroup_object env n master s ≡ (err e, s)
unfolding get_nodegroup_object
get_nodegroup_object_fails env n master ct e s found bad = rw found (rw bad)

create_nodegroups_fail :
    (env : Env) (masters nodes : ℕ) (ct : ClusterTemplate) (e : Error) (s : Session)
    → template env s ≡ (ok ct, s)
    → min_node_count env.cloud s.cluster.labels ≡ err e
    → create_nodegroups env masters nodes s ≡ (err e, s)
unfolding create_nodegroups
create_nodegroups_fail env masters nodes ct e s found bad =
    rw (get_nodegroup_object_fails env masters true ct e s found bad)

cluster_create_row_lem :
    (cloud : Cloud) (s s1 : Session)
    → cluster_create_row cloud s ≡ (ok tt, s1)
    → (s1.db.clusters ≡ s.db.clusters ++ s1.cluster ∷ [])
      × (s1.cluster.status ≡ s.cluster.status)
      × (s1.db.nodegroups ≡ s.db.nodegroups)
      × (s1.events ≡ s.events)
unfolding cluster_create_row create_cluster
cluster_create_row_lem cloud s s1 h = ground arith

-- A creation that fails before `try` is not recorded. Where the label min_node_count is no number,
-- the exception e of the field leaves cluster_create after the cluster's row has been written: that
-- row stays in CREATE_IN_PROGRESS with no stack, no nodegroup is stored and nobody is notified.
pub cluster_create_bad_label_sticks :
    (env : Env) (masters nodes : ℕ) (timeout : Option ℕ) (ct : ClusterTemplate) (e : Error)
    (s s1 : Session)
    → cluster_create_row env.cloud (creating s) ≡ (ok tt, s1)
    → template env s1 ≡ (ok ct, s1)
    → min_node_count env.cloud s1.cluster.labels ≡ err e
    → (cluster_create env masters nodes timeout s ≡ (err e, s1))
      × (s1.db.clusters ≡ s.db.clusters ++ s1.cluster ∷ [])
      × (s1.cluster.status ≡ create_in_progress)
      × (s1.db.nodegroups ≡ s.db.nodegroups)
      × (s1.events ≡ s.events)
unfolding cluster_create
cluster_create_bad_label_sticks env masters nodes timeout ct e s s1 stored found bad =
    let row_written = cluster_create_row_lem env.cloud (creating s) s1 stored in
    (
      rw stored (rw (create_nodegroups_fail env masters nodes ct e s1 found bad)),
      row_written.0,
      row_written.1,
      row_written.2,
      row_written.3,
    )
