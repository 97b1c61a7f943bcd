-- ===== src/Conductor/Cluster/Update.antt =====
-- cluster_update and cluster_upgrade of magnum/conductor/handlers/cluster_conductor.py.
pub mod Laws
pub mod Upgrade
use magnum.Common.{
  ℕ, Bool, true, false, not, ◌&&◌, ◌==◌, String, str_eq, Option, none, some, List, [], ◌∷◌, all,
  length, if◌then◌else◌, ◌≡◌, refl,
}
use magnum.Common.Text.{◌^+◌}
use magnum.Errors.{Error, Result, ok, err, text_type, reraise, not_supported}
use magnum.Status.{
  ClusterStatus, ClusterHealthStatus, healthy, unhealthy, unknown, create_complete, update_complete,
  resume_complete, restore_complete, rollback_complete, snapshot_complete, check_complete,
  adopt_complete, update_in_progress, update_failed, is_in, value,
}
use magnum.Objects.{Dict, Cluster, NodeGroup, ClusterTemplate}
use magnum.Session.{
  Cloud, Action, Session, pure, raise, lift, gets, on_cluster, on_nodegroup, try_except,
  action_update, outcome_pending, outcome_failure, ◌>>=◌, ◌>>◌,
}
use magnum.Session.Store.{cluster_save, ng_save, save_nodegroup, default_ng_worker, notify}
use magnum.Conductor.Driver.{Driver, Env, ScaleManager, template, get_driver, get_scale_manager}
use magnum.Common.Dicts.{lookup}

-- The statuses in which a cluster may be updated or upgraded, and its CA rotated.
abbrev pub allow_update_status : List ClusterStatus
allow_update_status =
    create_complete ∷ update_complete ∷ resume_complete ∷ restore_complete ∷ rollback_complete
    ∷ snapshot_complete ∷ check_complete ∷ adopt_complete ∷ []

-- The guard at the head of the methods: another status is refused, and a failure is notified.
unfoldable pub check_status : List ClusterStatus → String → Action (Unit {0})
check_status allowed operation s =
    if is_in s.cluster.status allowed
    then (ok tt, s)
    else (notify action_update outcome_failure
          >> raise (not_supported (operation ^+ value s.cluster.status ^+ "\"")))
        s

abbrev pub same_text : Option String → String → Bool
same_text none _ = false
same_text (some s) t = str_eq s t

unfoldable pub same_health : Option ClusterHealthStatus → Option ClusterHealthStatus → Bool
same_health none none = true
same_health (some healthy) (some healthy) = true
same_health (some unhealthy) (some unhealthy) = true
same_health (some unknown) (some unknown) = true
same_health _ _ = false

-- Equality of dicts.
unfoldable pub same_dict : Option Dict → Option Dict → Bool
same_dict none none = true
same_dict none (some _) = false
same_dict (some _) none = false
same_dict (some a) (some b) = (length a == length b) && all (λ kv. same_text (lookup kv.0 b) kv.1) a

-- What the `except` clauses of this handler do once they have restored what they restore.
abbrev pub fail_update : Error → Action (Unit {0})
fail_update e = do notify action_update outcome_failure; raise (reraise e)

-- `cluster.status = UPDATE_FAILED; cluster.status_reason = six.text_type(e); cluster.save()`
unfoldable pub save_failure : Error → Action (Unit {0})
save_failure e = do
  on_cluster
      (λ (c : Cluster). record c { status = update_failed; status_reason = some (text_type e) })
  cluster_save

abbrev pub set_in_progress : Action (Unit {0})
set_in_progress =
    on_cluster (λ (c : Cluster). record c { status = update_in_progress; status_reason = none })

module _ (env : Env) where
  -- The driver that the methods take by the ClusterTemplate.
  unfoldable pub driver_of_template : Action Driver
  driver_of_template = do
    ct ← template env
    lift (get_driver env.definitions ct.server_type ct.cluster_distro ct.coe_name)

  -- The part of cluster_update that changes the number of nodes.
  unfoldable pub scale : ℕ → Bool → NodeGroup → Driver → Option ScaleManager → Action (Unit {0})
  scale node_count rollback worker_ng driver manager = do
    try_except
        (do
          notify action_update outcome_pending
          ng_save worker_ng (λ (n : NodeGroup). record n { node_count = node_count })
          driver.update_cluster manager rollback
          set_in_progress)
        (λ e. do
          save_failure e
          ng_save worker_ng (λ (n : NodeGroup). record n { node_count = worker_ng.node_count })
          fail_update e)
    cluster_save

  -- The answer is whether the cluster is returned; it is not where nothing is to be changed.
  unfoldable pub cluster_update : ℕ → Option ClusterHealthStatus → Option Dict → Bool → Action Bool
  cluster_update node_count health_status health_status_reason rollback = do
    check_status allow_update_status "Updating a cluster when status is \""
    worker_ng ← default_ng_worker env.context
    c ← gets (λ s. s.cluster)
    if (worker_ng.node_count == node_count)
          && (same_health c.health_status health_status
              && same_dict c.health_status_reason health_status_reason)
        then pure false
        else (do
          on_cluster (λ (c : Cluster). record c {
            health_status = health_status;
            health_status_reason = health_status_reason;
          })
          if worker_ng.node_count == node_count then (do cluster_save; pure true) else (do
            manager ← get_scale_manager env
            driver ← driver_of_template
            scale node_count rollback worker_ng driver manager
            pure true))

  unfoldable pub cluster_upgrade : ClusterTemplate → ℕ → Bool → Action (Unit {0})
  cluster_upgrade cluster_template max_batch_size rollback = do
    check_status allow_update_status "Upgrading a cluster when status is \""
    driver ← driver_of_template
    try_except
        (do
          notify action_update outcome_pending
          driver.upgrade_cluster cluster_template max_batch_size rollback
          on_cluster (λ (c : Cluster). record c { status = update_in_progress })
          on_nodegroup (λ (n : NodeGroup). record n { status = update_in_progress })
          on_cluster (λ (c : Cluster). record c { status_reason = none }))
        (λ e. do
          save_failure e
          on_nodegroup (λ (n : NodeGroup). record n {
            status = update_failed;
            status_reason = some (text_type e);
          })
          save_nodegroup
          fail_update e)
    save_nodegroup
    cluster_save
