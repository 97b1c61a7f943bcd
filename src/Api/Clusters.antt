-- ===== src/Api/Clusters.antt =====
-- ClustersController of magnum/api/controllers/v1/cluster.py. The decorators of `post` are those of
-- Api/Validation.
pub mod Laws
use magnum.Common.{
  ℕ, Bool, true, false, not, any, ◌++◌, ◌&&◌, ◌||◌, ltb, ◌==◌, String, str_eq, Option, none, some,
  List, [], ◌∷◌, if◌then◌else◌, select, map, or_else,
}
use magnum.Common.Dicts.{update}
use magnum.Errors.{Error, Result, ok, err, ◌>>=◌, unexpected, zero_node_count_not_supported}
use magnum.Status.{ClusterStatus, ClusterHealthStatus, create_in_progress, is_in}
use magnum.Objects.{Dict, Cluster, NodeGroup, ClusterTemplate, Database}
use magnum.Db.Tenant.{Context}
use magnum.Db.Clusters.Templates.{get_cluster_template}
use magnum.Db.Nodegroups.{list_cluster_nodegroups, no_filters}
use magnum.Db.Quotas.{Quota, check_cluster_quota_limit}
use magnum.Api.Resources.{
  Services, Cast, cluster_create, cluster_update, cluster_delete, elevate, get_cluster, identity_of,
}
use magnum.Api.OsResources.{OpenStack, Resources, validate_os_resources, validate_master_count}
use magnum.Api.Validation.{validate_cluster_properties}

-- The body of a POST, as far as the method reads it. What is Unset is `none`.
pub record ClusterRequest : Type 0 where
  pub name : Option String
  pub cluster_template_id : String
  pub keypair : Option String
  pub node_count : ℕ
  pub master_count : ℕ
  pub docker_volume_size : Option ℕ
  pub labels : Option Dict
  pub merge_labels : Bool
  pub master_flavor_id : Option String
  pub flavor_id : Option String
  pub fixed_network : Option String
  pub fixed_subnet : Option String
  pub floating_ip_enabled : Option Bool
  pub master_lb_enabled : Option Bool
  pub create_timeout : Option ℕ

-- `if getattr(cluster, attr) == Unset or not getattr(cluster, attr)`: the template's value
abbrev pub text_or : Option String → Option String → Option String
text_or none other = other
text_or (some t) other = if str_eq t "" then other else some t

abbrev pub size_or : Option ℕ → Option ℕ → Option ℕ
size_or none other = other
size_or (some n) other = if n == 0 then other else some n

abbrev pub flag_or : Option Bool → Bool → Bool
flag_or none other = other
flag_or (some b) other = b

-- `labels == Unset or not labels`: an empty dict counts as absent.
unfoldable pub cluster_labels : ClusterRequest → ClusterTemplate → Result (Option Dict)
unfolding update
cluster_labels req ct = elim req.labels [
  | none ↦ ok ct.labels
  | some [] ↦ ok ct.labels
  | some (item ∷ items) ↦
      if req.merge_labels
      then elim ct.labels [
        | none ↦ err (unexpected "'NoneType' object has no attribute 'update'")
        | some labels ↦ ok (some (update labels (item ∷ items)))
      ]
      else ok (some (item ∷ items))
]

-- `cluster.labels.get('cinder_csi_enabled', True)`: the value only decides on a warning.
unfoldable pub read_labels : Option Dict → Result (Unit {0})
read_labels none = err (unexpected "'NoneType' object has no attribute 'get'")
read_labels (some _) = ok tt

module _ (api : Services) where
  -- `cluster_dict`, as the new object has it
  unfoldable pub new_cluster :
      ClusterRequest → ClusterTemplate → Option Dict → String → String → Cluster
  new_cluster req ct labels project user = record {
    id = 0;
    uuid = api.generate_uuid;
    name = or_else (text_or req.name none) (some api.generate_name);
    project_id = project;
    user_id = user;
    cluster_template_id = ct.uuid;
    keypair = or_else req.keypair ct.keypair_id;
    docker_volume_size = size_or req.docker_volume_size ct.docker_volume_size;
    labels = labels;
    master_flavor_id = text_or req.master_flavor_id ct.master_flavor_id;
    flavor_id = text_or req.flavor_id ct.flavor_id;
    fixed_network = text_or req.fixed_network ct.fixed_network;
    fixed_subnet = text_or req.fixed_subnet ct.fixed_subnet;
    floating_ip_enabled = flag_or req.floating_ip_enabled ct.floating_ip_enabled;
    master_lb_enabled = flag_or req.master_lb_enabled ct.master_lb_enabled;
    stack_id = none;
    status = create_in_progress;
    status_reason = none;
    health_status = none;
    health_status_reason = none;
    create_timeout = req.create_timeout;
    api_address = none;
    ca_cert_ref = none;
    magnum_cert_ref = none;
    etcd_ca_cert_ref = none;
    front_proxy_ca_cert_ref = none;
    trust_id = none;
    trustee_username = none;
    trustee_password = none;
    trustee_user_id = none;
    coe_version = none;
    container_version = none;
  }

-- The attributes that `validate_os_resources` looks at.
abbrev pub resources_of : Cluster → Resources
resources_of c = record {
  image_id = none;
  flavor_id = c.flavor_id;
  master_flavor_id = c.master_flavor_id;
  external_network_id = none;
  labels = c.labels;
}

abbrev pub template_resources : ClusterTemplate → Resources
template_resources ct = record {
  image_id = ct.image_id;
  flavor_id = ct.flavor_id;
  master_flavor_id = ct.master_flavor_id;
  external_network_id = ct.external_network_id;
  labels = ct.labels;
}

-- A request without a project: the empty text stands for None.
abbrev pub project_or_empty : Option String → String
project_or_empty none = ""
project_or_empty (some p) = p

module _ (api : Services) (cli : OpenStack) (ctx : Context) where
  -- `_post`
  unfoldable pub post_request : ℕ → List Quota → ClusterRequest → Database → Result Cast
  unfolding check_cluster_quota_limit get_cluster_template identity_of cluster_labels read_labels
      new_cluster validate_os_resources validate_master_count
  post_request max_clusters_per_project quotas req d = do
    _ ← api.enforce ctx "cluster:create" none
    _ ← check_cluster_quota_limit api.keystone max_clusters_per_project ctx quotas d
    ct ← get_cluster_template api.keystone ctx (identity_of api req.cluster_template_id) d
    labels ← cluster_labels req ct
    _ ← read_labels labels
    let c = new_cluster api req ct labels
    _ ← validate_os_resources cli (template_resources ct) (resources_of (c "" "")) (c "" "").keypair
    _ ← validate_master_count req.master_count (c "" "").master_lb_enabled
    ok (
        cluster_create (c (project_or_empty ctx.project_id) ctx.user_id) req.master_count
          req.node_count req.create_timeout)

  -- `post` up to version 1.9 of the API, and from 1.10 on
  unfoldable pub post_1_1 : ℕ → List Quota → ClusterRequest → Database → Result Cast
  unfolding post_request
  post_1_1 max_clusters_per_project quotas req d =
      if req.node_count == 0
      then err zero_node_count_not_supported
      else post_request max_clusters_per_project quotas req d

  unfoldable pub post_1_10 : ℕ → List Quota → ClusterRequest → Database → Result Cast
  unfolding post_request
  post_1_10 max_clusters_per_project quotas req d =
      post_request max_clusters_per_project quotas req d
