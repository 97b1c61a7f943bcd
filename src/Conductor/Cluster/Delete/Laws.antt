-- ===== src/Conductor/Cluster/Delete/Laws.antt =====
-- What cluster_delete of magnum/conductor/handlers/cluster_conductor.py leaves in the database, by
-- how the driver's deletion ends.
use magnum.Common.{◌≡◌, refl, ◌∙◌, Bool, true, false, String, none, some, [], ◌∷◌, select}
use magnum.Errors.{
  Result, Error, ok, err, text_type, http_not_found, http_conflict, operation_in_progress,
}
use magnum.Status.{delete_in_progress, delete_failed}
use magnum.Objects.{Cluster}
use magnum.Db.Table.{select-update_where, select-delete_where}
use magnum.Db.Nodegroups.Laws.{Distinct}
use magnum.Session.{Session, notified, action_delete, outcome_pending, outcome_failure}
use magnum.Session.Store.{nodegroups}
use magnum.Session.Store.Laws.{row_of, HasRow, cluster_save_lem, cluster_destroy_lem}
use magnum.Conductor.Driver.{Driver, Env}
use magnum.Conductor.Trust.{delete_trustee_and_trust}
use magnum.Conductor.Trust.Laws.{delete_trustee_and_trust_never_raises}
use magnum.Conductor.Certs.{delete_certificates_from_cluster}
use magnum.Conductor.Certs.Laws.{delete_certificates_never_raises}
use magnum.Conductor.Cluster.Delete.{
  destroy_rows, remove_without_stack, delete_has_failed, delete_unexpected, delete_with,
}
use magnum.Conductor.Cluster.Delete.Rows.{without, destroy_nodegroups_all}

-- A session whose tables keep their constraints, with a row for the cluster.
abbrev pub Kept : Cluster → Session → Type 0
Kept row s = Distinct s.db.nodegroups × HasRow s.cluster row s.db

-- Nothing of the cluster is left that the request sees.
abbrev pub Gone : Env → Session → Type 0
Gone env s = (nodegroups env.context s ≡ []) × (select (row_of s.cluster) s.db.clusters ≡ [])

pub destroy_rows_all :
    (env : Env) (row : Cluster) (s : Session)
    → Kept row s
    → let (r, s') = destroy_rows env s in (r ≡ ok tt) × Gone env s'
unfolding destroy_rows nodegroups
destroy_rows_all env row s (distinct, has_row) =
    let (loop, none_left) = destroy_nodegroups_all env.context s distinct in
    let s1 : Session = without (nodegroups env.context s) s in
    rw loop (
      rw (cluster_destroy_lem s1 row has_row)
        (refl, (none_left, select-delete_where (row_of s.cluster) s.db.clusters)))

-- Same database and same cluster: the facts above carry over.
Kept-same :
    (row : Cluster) (s t : Session) → t.db ≡ s.db → t.cluster ≡ s.cluster → Kept row s → Kept row t
Kept-same row s t d c (distinct, has_row) = (rw d distinct, rw (d, c) has_row)

remove_without_stack_all :
    (env : Env) (row : Cluster) (s : Session)
    → Kept row s
    → let (r, s') = remove_without_stack env s in (r ≡ ok tt) × Gone env s'
unfolding remove_without_stack
remove_without_stack_all env row s kept =
    let (fine1, db1, c1, _) = delete_trustee_and_trust_never_raises env.cloud s in
    let s1 : Session = (delete_trustee_and_trust env.cloud s).1 in
    let (fine2, db2, c2, _) = delete_certificates_never_raises env.cloud s1 in
    let s2 : Session = (delete_certificates_from_cluster env.cloud s1).1 in
    let e1 : delete_trustee_and_trust env.cloud s ≡ (ok tt, s1) = cc fine1 in
    let e2 : delete_certificates_from_cluster env.cloud s1 ≡ (ok tt, s2) = cc fine2 in
    let (done, gone) =
      destroy_rows_all env row s2 (Kept-same row s s2 (db2 ∙ db1) (c2 ∙ c1) kept) in
    let e3 : destroy_rows env s2 ≡ (ok tt, (destroy_rows env s2).1) = cc done in
    rw e1 (rw e2 (rw e3 (refl, gone)))

-- Neither of the two exceptions of Heat that the method treats by themselves.
abbrev pub is_unexpected : Error → Bool
is_unexpected (http_not_found _) = false
is_unexpected (http_conflict _) = false
is_unexpected _ = true

delete_has_failed_lem :
    (env : Env) (e : Error) → is_unexpected e ≡ true → delete_has_failed env e ≡ delete_unexpected e
unfolding delete_has_failed
delete_has_failed_lem env (http_not_found t) h = cc
delete_has_failed_lem env (http_conflict t) h = cc
delete_has_failed_lem env _ h = refl

-- The session as the driver finds it.
abbrev pub deleting : Session → Session
deleting s = record s {
  events = notified action_delete outcome_pending s.cluster.status ∷ s.events;
}

module _ (env : Env) (driver : Driver) (row : Cluster) (s t : Session) (kept : Kept row t)
    (saves : row_of t.cluster (t.changes row) ≡ true) where
  -- If Heat has no stack of the cluster any more, cluster_delete itself removes what is left: it
  -- returns, and neither a nodegroup of the cluster that the request sees nor the cluster's row
  -- remains, whatever Keystone and the certificate store answer. The hypotheses are that the driver
  -- ends with HTTPNotFound in a session t whose tables keep their constraints, with one row for the
  -- cluster.
  pub cluster_delete_without_stack :
      (text : String)
      → driver.delete_cluster (deleting s) ≡ (err (http_not_found text), t)
      → let (r, s') = delete_with env driver s in (r ≡ ok tt) × Gone env s'
  unfolding delete_with delete_has_failed nodegroups
  cluster_delete_without_stack text missing =
      let (done, gone) = remove_without_stack_all env row t kept in
      let e : remove_without_stack env t ≡ (ok tt, (remove_without_stack env t).1) = cc done in
      rw missing (rw e (refl, gone))

  -- A deletion that Heat accepts is saved as under way.
  pub cluster_delete_accepted :
      driver.delete_cluster (deleting s) ≡ (ok tt, t)
      → let (r, s') = delete_with env driver s in
        (r ≡ ok tt)
        × (select (row_of t.cluster) s'.db.clusters
            ≡ record (t.changes row) { status = delete_in_progress; status_reason = none } ∷ [])
  unfolding delete_with
  cluster_delete_accepted accepted =
      let f = λ (c : Cluster). record c { status = delete_in_progress; status_reason = none } in
      let g = λ (c : Cluster). f (t.changes c) in
      rw accepted (
        rw (cluster_save_lem (record t { cluster = f t.cluster; changes = g }) row kept.1)
          (refl, select-update_where (row_of t.cluster) g row t.db.clusters kept.1 saves))

  -- If Heat is busy with the stack, OperationInProgress with the cluster's name is raised, a failure
  -- is notified, and neither the cluster nor the database changes from how the driver left them.
  pub cluster_delete_conflict :
      (text : String)
      → driver.delete_cluster (deleting s) ≡ (err (http_conflict text), t)
      → delete_with env driver s ≡ (
        err (operation_in_progress t.cluster.name),
        record t { events = notified action_delete outcome_failure t.cluster.status ∷ t.events },
      )
  unfolding delete_with delete_has_failed nodegroups
  cluster_delete_conflict text busy = rw busy

  abbrev pub deletion_failed : Error → Cluster → Cluster
  deletion_failed e c = record c { status = delete_failed; status_reason = some (text_type e) }

  -- Any other exception of the driver is raised again as it is, a bad request of Heat too, after the
  -- cluster's row has been set to DELETE_FAILED with its text.
  pub cluster_delete_unexpected :
      (e : Error)
      → is_unexpected e ≡ true
      → driver.delete_cluster (deleting s) ≡ (err e, t)
      → let (r, s') = delete_with env driver s in
        (r ≡ err e)
        × (select (row_of t.cluster) s'.db.clusters ≡ deletion_failed e (t.changes row) ∷ [])
        × (s'.db.nodegroups ≡ t.db.nodegroups)
  unfolding delete_with delete_unexpected
  cluster_delete_unexpected e unexpected fails = rw fails (
      rw (delete_has_failed_lem env e unexpected) (
        rw
          (cluster_save_lem
            (record t {
              cluster = deletion_failed e t.cluster;
              changes = λ c. deletion_failed e (t.changes c);
              events = notified action_delete outcome_failure t.cluster.status ∷ t.events;
            })
            row kept.1)
          (
            refl,
            select-update_where (row_of t.cluster) (λ c. deletion_failed e (t.changes c)) row
                t.db.clusters kept.1 saves,
            refl,
          )))

  -- How cluster_delete ends, by how the driver's deletion has ended.
  abbrev pub Ending : Result (Unit {0}) → Result (Unit {0}) × Session → Type 0
  Ending (ok _) (r, s') =
      (r ≡ ok tt)
      × (select (row_of t.cluster) s'.db.clusters
          ≡ record (t.changes row) { status = delete_in_progress; status_reason = none } ∷ [])
  Ending (err (http_not_found _)) (r, s') = (r ≡ ok tt) × Gone env s'
  Ending (err (http_conflict _)) (r, s') =
      (r ≡ err (operation_in_progress t.cluster.name)) × (s'.db ≡ t.db) × (s'.cluster ≡ t.cluster)
  Ending (err e) (r, s') =
      (r ≡ err e)
      × (select (row_of t.cluster) s'.db.clusters ≡ deletion_failed e (t.changes row) ∷ [])
      × (s'.db.nodegroups ≡ t.db.nodegroups)

  -- How cluster_delete ends, for every way in which the driver's deletion may end in a session t
  -- whose tables keep their constraints, with one row for the cluster. If the driver returns, the
  -- row says DELETE_IN_PROGRESS. If Heat has no stack (HTTPNotFound), the call returns and neither
  -- a nodegroup of the cluster that the request sees nor the cluster's row remains, whatever
  -- Keystone and the certificate store answer. If Heat is busy (HTTPConflict), OperationInProgress
  -- with the cluster's name is raised, and the cluster and the database stay as the driver left
  -- them. Any other exception is raised again as it is, the row says DELETE_FAILED with its text,
  -- and the nodegroup table stays. The cluster is assumed to have one row, whose uuid the pending
  -- changes keep.
  pub cluster_delete_outcome :
      (r : Result (Unit {0}))
      → driver.delete_cluster (deleting s) ≡ (r, t)
      → Ending r (delete_with env driver s)
  cluster_delete_outcome (ok _) h = cluster_delete_accepted h
  cluster_delete_outcome (err (http_not_found text)) h = cluster_delete_without_stack text h
  cluster_delete_outcome (err (http_conflict text)) h =
      let whole = cluster_delete_conflict text h in rw whole (refl, refl, refl)
  cluster_delete_outcome (err e) h = cluster_delete_unexpected e refl h
