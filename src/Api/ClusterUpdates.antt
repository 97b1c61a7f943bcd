-- ===== src/Api/ClusterUpdates.antt =====
-- `patch`, `delete` and `get_one` of ClustersController in magnum/api/controllers/v1/cluster.py.
pub mod Laws
use magnum.Common.{
  ℕ, Bool, true, false, not, ◌&&◌, ◌||◌, ltb, ◌==◌, String, str_eq, Option, none, some, List, [],
  ◌∷◌, if◌then◌else◌, select, map, or_else,
}
use magnum.Common.Text.{codes, ends_with}
use magnum.Errors.{Error, Result, ok, err, ◌>>=◌, zero_node_count_not_supported}
use magnum.Status.{
  ClusterStatus, ClusterHealthStatus, create_failed, update_failed, delete_failed, rollback_failed,
  resume_failed, is_in, value,
}
use magnum.Objects.{Dict, Cluster, NodeGroup, Database}
use magnum.Db.Tenant.{Context}
use magnum.Db.Nodegroups.{list_cluster_nodegroups, no_filters}
use magnum.Api.Resources.{Services, Cast, cluster_update, cluster_delete, elevate, get_cluster}
use magnum.Api.ClusterActions.{default_worker_of}
use magnum.Api.Validation.{validate_cluster_properties}

-- `ClusterStatus.STATUS_FAILED`
abbrev pub status_failed : List ClusterStatus
status_failed = create_failed ∷ update_failed ∷ delete_failed ∷ rollback_failed ∷ resume_failed ∷ []

-- An operation of a JSON patch, as far as `_patch` reads it itself.
pub record PatchOp : Type 0 where
  pub path : String
  pub value : Option ℕ

-- The patched document: which fields differ from the cluster's, and the values that are sent on.
pub record PatchedCluster : Type 0 where
  pub delta : List String
  pub node_count : ℕ
  pub health_status : Option ClusterHealthStatus
  pub health_status_reason : Option Dict

-- `p.get('value') or new_cluster.node_count`
abbrev pub value_or : Option ℕ → ℕ → ℕ
value_or none other = other
value_or (some n) other = if n == 0 then other else n

-- The loop over the patch: the last operation on the number of nodes counts.
unfoldable pub patched_node_count : ℕ → ℕ → List PatchOp → ℕ
patched_node_count other size [] = size
patched_node_count other size (p ∷ ps) =
    patched_node_count other (if str_eq p.path "/node_count" then value_or p.value other else size)
      ps

module _ (api : Services) (ctx : Context)
    (apply : Cluster → List PatchOp → Result PatchedCluster) where
  -- `_patch`; `apply` is what jsonpatch and the API's types make of a patch.
  unfoldable pub patch_request :
      String
      → List PatchOp
      → Database
      → Result (Cluster × ℕ × Option ClusterHealthStatus × Option Dict)
  unfolding elevate get_cluster validate_cluster_properties default_worker_of patched_node_count
  patch_request ident patch d = do
    seen_by ← elevate api ctx "cluster:update_all_projects"
    cluster ← get_cluster api seen_by ident d
    _ ← api.enforce seen_by "cluster:update" (some cluster)
    _ ← api.enforce seen_by "cluster:update_health_status" none
    new ← apply cluster patch
    _ ← validate_cluster_properties new.delta
    worker ← default_worker_of seen_by cluster d
    ok (
      cluster,
      patched_node_count new.node_count worker.node_count patch,
      new.health_status,
      new.health_status_reason,
    )

  abbrev pub send_update :
      Bool → Cluster × ℕ × Option ClusterHealthStatus × Option Dict → Result Cast
  send_update rollback (c, n, h, reason) = ok (cluster_update c n h reason rollback)

  abbrev pub refuse_zero :
      Bool → Cluster × ℕ × Option ClusterHealthStatus × Option Dict → Result Cast
  refuse_zero rollback (c, n, h, reason) =
      if n == 0
      then err zero_node_count_not_supported
      else ok (cluster_update c n h reason rollback)

  -- `patch` of the versions 1.1 and 1.2, of those up to 1.9, and from 1.10 on
  unfoldable pub patch_1_1 : String → List PatchOp → Database → Result Cast
  unfolding patch_request
  patch_1_1 ident patch d = patch_request ident patch d >>= refuse_zero false

  unfoldable pub patch_1_3 : String → Bool → List PatchOp → Database → Result Cast
  unfolding patch_request
  patch_1_3 ident rollback patch d = patch_request ident patch d >>= refuse_zero rollback

  unfoldable pub patch_1_10 : String → Bool → List PatchOp → Database → Result Cast
  unfolding patch_request
  patch_1_10 ident rollback patch d = patch_request ident patch d >>= send_update rollback

module _ (api : Services) (ctx : Context) where
  unfoldable pub delete : String → Database → Result Cast
  unfolding elevate get_cluster
  delete ident d = do
    seen_by ← elevate api ctx "cluster:delete_all_projects"
    cluster ← get_cluster api seen_by ident d
    _ ← api.enforce seen_by "cluster:delete" (some cluster)
    ok (cluster_delete cluster.uuid)

  -- `_collect_fault_info`: the reasons of the nodegroups that failed, by name
  unfoldable pub collect_fault_info : Context → Cluster → Database → List (String × Option String)
  unfolding list_cluster_nodegroups
  collect_fault_info seen_by c d =
      map (λ (n : NodeGroup). (n.name, n.status_reason))
        (select (λ (n : NodeGroup). ends_with (codes (value n.status)) (codes "FAILED"))
          (list_cluster_nodegroups seen_by c.uuid no_filters d))

  -- `get_one`: the cluster, and its faults if it has failed
  unfoldable pub get_one :
      String → Database → Result (Cluster × Option (List (String × Option String)))
  unfolding elevate get_cluster collect_fault_info
  get_one ident d = do
    seen_by ← elevate api ctx "cluster:get_one_all_projects"
    cluster ← get_cluster api seen_by ident d
    _ ← api.enforce seen_by "cluster:get" (some cluster)
    ok (
      cluster,
      if is_in cluster.status status_failed
          then some (collect_fault_info seen_by cluster d)
          else none,
    )
