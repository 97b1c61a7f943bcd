-- ===== src/Periodic/Sync.antt =====
-- Which clusters the periodic tasks of magnum/service/periodic.py start a job for. The jobs run side
-- by side, each once.
pub mod Coverage
use magnum.Common.{Bool, true, none, some, List, [], ◌∷◌}
use magnum.Errors.{Result, ok, err}
use magnum.Status.{
  create_complete, create_in_progress, update_complete, update_in_progress, delete_in_progress,
  rollback_in_progress,
}
use magnum.Objects.{Cluster, Database}
use magnum.Db.Tenant.{Context, Keystone}
use magnum.Db.Clusters.Lists.{ClusterFilters, no_cluster_filters, get_cluster_list}

-- `make_admin_context`; its user, which is None, is not looked at.
abbrev pub make_admin_context : Bool → Context
make_admin_context all_tenants = record {
  is_admin = true;
  all_tenants = all_tenants;
  project_id = none;
  domain_id = none;
  user_id = "None";
}

-- `except Exception`: a round whose list fails starts no job.
abbrev pub jobs : Result (List Cluster) → List Cluster
jobs (ok clusters) = clusters
jobs (err e) = []

unfoldable pub sync_cluster_status : Keystone → Database → List Cluster
unfolding get_cluster_list
sync_cluster_status k d =
    let status =
      create_in_progress ∷ update_in_progress ∷ delete_in_progress ∷ rollback_in_progress ∷ [] in
    jobs (
      get_cluster_list k (make_admin_context true)
        (record no_cluster_filters { status = some status }) d)

unfoldable pub sync_cluster_health_status : Keystone → Database → List Cluster
unfolding get_cluster_list
sync_cluster_health_status k d =
    let status =
      create_complete ∷ update_complete ∷ update_in_progress ∷ rollback_in_progress ∷ [] in
    jobs (
      get_cluster_list k (make_admin_context true)
        (record no_cluster_filters { status = some status }) d)
