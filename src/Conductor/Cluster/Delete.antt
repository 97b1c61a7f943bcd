-- ===== src/Conductor/Cluster/Delete.antt =====
-- cluster_delete of magnum/conductor/handlers/cluster_conductor.py.
pub mod Rows
pub mod Laws
use magnum.Common.{String, Option, none, some, List, [], ◌∷◌, ◌≡◌, refl, true, false}
use magnum.Errors.{
  Error, Result, ok, err, ◌>>=◌ as bind, text_type, http_not_found, http_conflict,
  cluster_not_found, operation_in_progress,
}
use magnum.Status.{delete_in_progress, delete_failed}
use magnum.Objects.{Cluster, NodeGroup}
use magnum.Db.Clusters.{get_cluster_by_uuid}
use magnum.Session.{
  Action, Session, pure, raise, lift, gets, asks, modify, on_cluster, try_except, try_else,
  for_each, action_delete, outcome_pending, outcome_success, outcome_failure, ◌>>=◌, ◌>>◌,
}
use magnum.Session.Store.{cluster_save, cluster_destroy, ng_destroy, nodegroups, notify}
use magnum.Conductor.Driver.{Driver, Env, template, get_driver}
use magnum.Conductor.Trust.{delete_trustee_and_trust}
use magnum.Conductor.Certs.{delete_certificates_from_cluster}
use magnum.Conductor.Cluster.Update.{driver_of_template}

-- `except exception.ClusterNotFound: LOG.info(…)`: deleted by others.
abbrev pub deleted_by_others : Error → Action (Unit {0})
deleted_by_others (cluster_not_found _) = pure tt
deleted_by_others e = raise e

abbrev pub unless_deleted : Action (Unit {0}) → Action (Unit {0})
unless_deleted m = try_except m deleted_by_others

-- `except Exception as unexp`
unfoldable pub delete_unexpected : Error → Action (Unit {0})
delete_unexpected e = do
  notify action_delete outcome_failure
  on_cluster
      (λ (c : Cluster). record c { status = delete_failed; status_reason = some (text_type e) })
  cluster_save
  raise e

module _ (env : Env) where
  -- `objects.Cluster.get_by_uuid(context, uuid)` gives the handler its cluster.
  unfoldable pub fetch : String → Action (Unit {0})
  fetch uuid = do
    c ← asks (λ s. get_cluster_by_uuid env.keystone env.context uuid s.db)
    modify (λ s. record s { cluster = c; changes = λ b. b })

  -- The rows of the cluster's nodegroups are deleted one after the other, and then its own.
  unfoldable pub destroy_rows : Action (Unit {0})
  destroy_rows = do ngs ← gets (nodegroups env.context); for_each ngs ng_destroy; cluster_destroy

  -- The stack is gone already: what belongs to the cluster is removed here.
  unfoldable pub remove_without_stack : Action (Unit {0})
  remove_without_stack = unless_deleted (do
    delete_trustee_and_trust env.cloud
    delete_certificates_from_cluster env.cloud
    destroy_rows)

  -- The `except` clauses.
  unfoldable pub delete_has_failed : Error → Action (Unit {0})
  delete_has_failed (http_not_found _) = do
    remove_without_stack
    notify action_delete outcome_success
  delete_has_failed (http_conflict _) = do
    notify action_delete outcome_failure
    name ← gets (λ s. s.cluster.name)
    raise (operation_in_progress name)
  delete_has_failed e = delete_unexpected e

  -- The body of `try`, and the `cluster.save()` behind it, which a return or a raise of an `except`
  -- clause passes by.
  unfoldable pub delete_with : Driver → Action (Unit {0})
  delete_with driver =
      try_else
        (do
          notify action_delete outcome_pending
          driver.delete_cluster
          on_cluster
              (λ (c : Cluster). record c { status = delete_in_progress; status_reason = none }))
        (λ _. cluster_save) delete_has_failed

  unfoldable pub cluster_delete : String → Action (Unit {0})
  cluster_delete uuid = do fetch uuid; driver ← driver_of_template env; delete_with driver
