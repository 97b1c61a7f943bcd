-- ===== src/Conductor/Cluster/Resize.antt =====
-- cluster_resize of magnum/conductor/handlers/cluster_conductor.py.
pub mod Laws
use magnum.Common.{ℕ, ◌++◌, String, Option, none, some, List, [], ◌∷◌, ◌≡◌, refl}
use magnum.Errors.{Error, Result, ok, err, text_type, reraise}
use magnum.Status.{ClusterStatus, update_failed, update_in_progress}
use magnum.Objects.{Cluster, NodeGroup}
use magnum.Session.{
  Action, Session, pure, raise, gets, on_cluster, on_nodegroup, try_except, action_update,
  outcome_pending, ◌>>=◌, ◌>>◌,
}
use magnum.Session.Store.{cluster_save, save_nodegroup, notify}
use magnum.Conductor.Driver.{Driver, Env, ScaleManager, get_scale_manager}
use magnum.Conductor.Cluster.Update.{
  allow_update_status, check_status, driver_of_template, save_failure, fail_update, set_in_progress,
}

-- The statuses in which a cluster may be resized: also while an update is under way, and after one
-- that failed.
abbrev pub allow_resize_status : List ClusterStatus
allow_resize_status = allow_update_status ++ update_failed ∷ update_in_progress ∷ []

-- The `try` statement and the final save. The nodegroup in hand is the one that is resized.
unfoldable pub resize_with : Driver → Option ScaleManager → ℕ → List String → Action (Unit {0})
resize_with driver manager node_count nodes_to_remove = do
  old_node_count ← gets (λ s. s.nodegroup.node_count)
  try_except
      (do
        on_nodegroup
            (λ (n : NodeGroup). record n { node_count = node_count; status = update_in_progress })
        save_nodegroup
        notify action_update outcome_pending
        driver.resize_cluster manager node_count nodes_to_remove
        set_in_progress)
      (λ e. do
        save_failure e
        on_nodegroup (λ (n : NodeGroup). record n {
          node_count = old_node_count;
          status = update_failed;
          status_reason = some (text_type e);
        })
        save_nodegroup
        fail_update e)
  cluster_save

module _ (env : Env) where
  unfoldable pub cluster_resize : ℕ → List String → Action (Unit {0})
  cluster_resize node_count nodes_to_remove = do
    check_status allow_resize_status "Resizing a cluster when status is \""
    manager ← get_scale_manager env
    driver ← driver_of_template env
    resize_with driver manager node_count nodes_to_remove
