-- ===== src/Conductor/Nodegroup.antt =====
-- The handler of magnum/conductor/handlers/nodegroup_conductor.py. The cluster and the nodegroup that
-- a method is given are those of the session; `has_status` says whether the field `status` of the
-- nodegroup object is set.
pub mod Laws
use magnum.Common.{
  ℕ, Bool, true, false, not, ◌&&◌, String, Option, none, some, List, [], ◌∷◌, if◌then◌else◌,
}
use magnum.Common.Text.{◌^+◌}
use magnum.Errors.{
  Error, Result, ok, err, text_type, reraise, not_supported, http_not_found, http_conflict,
  nodegroup_not_found, ng_operation_in_progress,
}
use magnum.Status.{
  ClusterStatus, create_complete, create_in_progress, create_failed, update_complete,
  update_in_progress, update_failed, resume_complete, restore_complete, rollback_complete,
  snapshot_complete, check_complete, adopt_complete, delete_in_progress, delete_failed, is_in,
  value,
}
use magnum.Objects.{Cluster, NodeGroup}
use magnum.Session.{
  Action, Session, pure, raise, gets, modify, on_cluster, on_nodegroup, take_nodegroup, try_except,
  try_else, ◌>>=◌, ◌>>◌,
}
use magnum.Session.Store.{cluster_save, save_nodegroup, ng_create, ng_destroy}
use magnum.Conductor.Driver.{Driver, Env, get_driver_for_cluster}

abbrev pub allowed_nodegroup_states : List ClusterStatus
allowed_nodegroup_states =
    create_complete ∷ update_complete ∷ update_in_progress ∷ update_failed ∷ resume_complete
    ∷ restore_complete ∷ rollback_complete ∷ snapshot_complete ∷ check_complete ∷ adopt_complete
    ∷ []

-- The decorator `allowed_operation`, around a method of the name `fname`.
unfoldable pub allowed_operation : String → Bool → Action (Unit {0}) → Action (Unit {0})
allowed_operation fname has_status method s =
    if has_status && not (is_in s.nodegroup.status allowed_nodegroup_states)
    then (
      err (
          not_supported
            (fname ^+ " when nodegroup status is \"" ^+ value s.cluster.status ^+ "\"")),
      s,
    )
    else method s

-- `cluster.status = UPDATE_IN_PROGRESS; cluster.save()`
unfoldable pub set_cluster : ClusterStatus → Action (Unit {0})
set_cluster st = do on_cluster (λ (c : Cluster). record c { status = st }); cluster_save

-- The `except Exception` clause of nodegroup_create and nodegroup_update.
unfoldable pub nodegroup_failed : ClusterStatus → Error → Action (Unit {0})
nodegroup_failed st e = do
  on_nodegroup (λ (n : NodeGroup). record n { status = st; status_reason = some (text_type e) })
  save_nodegroup
  set_cluster update_failed
  raise (reraise e)

abbrev set_nodegroup : ClusterStatus → Action (Unit {0})
set_nodegroup st = on_nodegroup (λ (n : NodeGroup). record n { status = st })

-- `except exception.NodeGroupNotFound: LOG.info(…)`
abbrev pub nodegroup_deleted_by_others : Error → Action (Unit {0})
nodegroup_deleted_by_others (nodegroup_not_found _) = pure tt
nodegroup_deleted_by_others e = raise e

-- The `except` clauses of nodegroup_delete.
unfoldable pub nodegroup_delete_failed : Error → Action (Unit {0})
nodegroup_delete_failed (http_not_found _) =
    try_except (λ s. ng_destroy s.nodegroup s) nodegroup_deleted_by_others
nodegroup_delete_failed (http_conflict _) = λ s. raise (ng_operation_in_progress s.nodegroup.name) s
nodegroup_delete_failed e = do
  on_nodegroup
      (λ (n : NodeGroup). record n { status = delete_failed; status_reason = some (text_type e) })
  save_nodegroup
  set_cluster update_failed
  raise e

module _ (env : Env) where
  -- What the two methods do once the decorator has let them pass.
  unfoldable pub create_body : Action (Unit {0})
  create_body = do
    set_cluster update_in_progress
    set_nodegroup create_in_progress
    ng ← (λ s. ng_create env.cloud s.nodegroup s)
    take_nodegroup ng
    try_except (do driver ← get_driver_for_cluster env; driver.create_nodegroup; save_nodegroup)
        (nodegroup_failed create_failed)

  unfoldable pub update_body : Action (Unit {0})
  update_body = do
    set_cluster update_in_progress
    set_nodegroup update_in_progress
    try_except (do driver ← get_driver_for_cluster env; driver.update_nodegroup; save_nodegroup)
        (nodegroup_failed update_failed)

  -- This method has no decorator.
  unfoldable pub nodegroup_delete : Action (Unit {0})
  nodegroup_delete = do
    set_cluster update_in_progress
    set_nodegroup delete_in_progress
    try_except (do driver ← get_driver_for_cluster env; driver.delete_nodegroup)
        nodegroup_delete_failed

  unfoldable pub nodegroup_create : Bool → Action (Unit {0})
  nodegroup_create has_status = allowed_operation "nodegroup_create" has_status create_body

  unfoldable pub nodegroup_update : Bool → Action (Unit {0})
  nodegroup_update has_status = allowed_operation "nodegroup_update" has_status update_body
