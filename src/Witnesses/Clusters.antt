-- ===== src/Witnesses/Clusters.antt =====
-- Runs of the laws of Api/Clusters, Api/ClusterUpdates and Api/OsResources on the rows of Samples.
use magnum.Common.{
  ℕ, ◌≤◌, ◌<◌, ◌≡◌, refl, Bool, true, false, none, some, List, [], ◌∷◌, ◌⊎◌, all, any, not, ◌&&◌,
  ◌||◌,
}
use magnum.Errors.{Result, ok}
use magnum.Objects.{Cluster, ClusterTemplate, Database}
use magnum.Db.Table.{one_or}
use magnum.Db.Tenant.{tenant_filter}
use magnum.Status.{healthy}
use magnum.Api.Resources.{cluster_create, elevate, identity_of}
use magnum.Api.OsResources.{
  OpenStack, is_one_of, supported_image_providers, is_docker, validate_labels_image_providers,
}
use magnum.Api.OsResources.Laws.{is_ok, has_runtime, lowered, validate_labels_image_providers_lem}
use magnum.Api.Clusters.{ClusterRequest, new_cluster, post_request}
use magnum.Api.Clusters.Laws.{
  label, expected_label, post_request_outcome, post_request_within_quota,
}
use magnum.Api.ClusterUpdates.{PatchOp, PatchedCluster, patch_request}
use magnum.Api.ClusterUpdates.Laws.{served as served_patch, patch_keeps_nodegroups}
use magnum.Conductor.Cluster.Update.{cluster_update}
use magnum.Db.Clusters.{create_cluster, with_clusters}
use magnum.Db.Clusters.Templates.{get_cluster_template}
use magnum.Db.Quotas.{cluster_limit, get_cluster_count_all}
use magnum.Samples.{other, k8s, admin, prod, worker, tables, ann, keystone, env}
use magnum.Witnesses.Controllers.{api, own_labels}

-- A new cluster of the ClusterTemplate t-1, in a cloud that has what the template names.
abbrev labelled_template : ClusterTemplate
labelled_template = record k8s { labels = some (("tag", "v1") ∷ []) }

abbrev template_tables : Database
template_tables = record tables { templates = labelled_template ∷ [] }

abbrev cli : OpenStack
cli = record {
  is_uuid_like = λ _. false;
  get_image = λ _. ok (some "fedora-coreos");
  list_images = λ _. ok (some "fedora-coreos" ∷ []);
  list_flavors = ok (("m1", "f-1") ∷ []);
  get_keypair = λ _. ok tt;
  list_external_networks = ok (("public", "net-1") ∷ []);
  is_json = λ _. true;
}

abbrev staging : ClusterRequest
staging = record {
  name = some "staging";
  cluster_template_id = "t-1";
  keypair = none;
  node_count = 2;
  master_count = 1;
  docker_volume_size = none;
  labels = some own_labels;
  merge_labels = true;
  master_flavor_id = none;
  flavor_id = none;
  fixed_network = none;
  fixed_subnet = none;
  floating_ip_enabled = none;
  master_lb_enabled = none;
  create_timeout = some 60;
}

abbrev staging_cluster : Cluster
staging_cluster = new_cluster api staging labelled_template (some own_labels) "blue" "ann"

staging_accepted :
    post_request api cli ann 20 [] staging template_tables
    ≡ ok (cluster_create staging_cluster 1 2 (some 60))
unfolding post_request tenant_filter new_cluster
staging_accepted = refl

post_request_outcome_example :
    (ct : ClusterTemplate) × (c : Cluster) × (limit count : ℕ) × (get_cluster_template keystone ann
        (identity_of api "t-1")
        template_tables
      ≡ ok ct)
    × (cluster_limit 20 ann [] ≡ ok limit)
    × (get_cluster_count_all keystone ann template_tables ≡ ok count)
    × (count < limit)
    × (cluster_create staging_cluster 1 2 (some 60) ≡ cluster_create c 1 2 (some 60))
    × (c.cluster_template_id ≡ ct.uuid)
    × (label "tag" c.labels
        ≡ expected_label "tag" true (("tag", "v2") ∷ []) (label "tag" ct.labels))
    × ((1 ≤ 1) ⊎ (c.master_lb_enabled ≡ true))
post_request_outcome_example =
    post_request_outcome api cli ann 20 [] staging template_tables
      (cluster_create staging_cluster 1 2 (some 60)) "tag" (refl, tt) staging_accepted

abbrev staging_row : Cluster
staging_row = record staging_cluster { id = 9 }

staging_created :
    create_cluster 9 "u-8" staging_cluster template_tables
    ≡ ok (staging_row, with_clusters template_tables (prod ∷ other ∷ staging_row ∷ []))
unfolding create_cluster new_cluster
staging_created = refl

post_request_within_quota_example :
    (limit count : ℕ) × (cluster_limit 20 ann [] ≡ ok limit)
    × (get_cluster_count_all keystone ann
          (with_clusters template_tables (prod ∷ other ∷ staging_row ∷ []))
        ≡ ok count)
    × (count ≤ limit)
post_request_within_quota_example =
    post_request_within_quota api cli ann 20 [] staging template_tables staging_cluster staging_row
      1 2 9 (some 60) "u-8" (with_clusters template_tables (prod ∷ other ∷ staging_row ∷ []))
      staging_accepted staging_created

-- A patch of the health alone.
abbrev health_patch : List PatchOp
health_patch = record { path = "/health_status"; value = none } ∷ []

abbrev patched : Cluster → List PatchOp → Result PatchedCluster
patched _ _ = ok (record {
  delta = "health_status" ∷ [];
  node_count = 3;
  health_status = some healthy;
  health_status_reason = none;
})

patch_accepted :
    patch_request api admin patched "c-1" health_patch tables ≡ ok (prod, 3, some healthy, none)
unfolding patch_request tenant_filter one_or
patch_accepted = refl

elevated : elevate api admin "cluster:update_all_projects" ≡ ok env.context
unfolding elevate
elevated = refl

patch_keeps_nodegroups_example :
    let (r, s') = cluster_update env 3 (some healthy) none false (
      served_patch api admin patched "c-1" health_patch tables prod 3 (some healthy) none worker) in
    ((done : Bool) × (r ≡ ok done)) × (s'.db.nodegroups ≡ tables.nodegroups) × (s'.events ≡ [])
patch_keeps_nodegroups_example =
    patch_keeps_nodegroups api admin patched "c-1" health_patch tables prod 3 (some healthy) none
      env worker false elevated patch_accepted refl refl refl

validate_labels_image_providers_lem_example :
    is_ok (validate_labels_image_providers "docker,appc" (some "docker/runtime")) ≡ (
      all (is_one_of supported_image_providers) (lowered "docker,appc")
      && (not (any is_docker (lowered "docker,appc")) || has_runtime (some "docker/runtime")))
validate_labels_image_providers_lem_example =
    validate_labels_image_providers_lem "docker,appc" (some "docker/runtime")
