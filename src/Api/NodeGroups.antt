-- ===== src/Api/NodeGroups.antt =====
-- NodeGroupController of magnum/api/controllers/v1/nodegroup.py.
pub mod Laws
pub mod Deletion
use magnum.Common.{
  ℕ, Bool, true, false, not, ◌&&◌, ltb, ◌==◌, String, str_eq, Option, none, some, List, [], ◌∷◌,
  if◌then◌else◌, contains, map, or_else,
}
use magnum.Common.Dicts.{update}
use magnum.Errors.{
  Error, Result, ok, err, ◌>>=◌, cluster_api_address_unavailable, nodegroup_already_exists,
  nodegroup_invalid_input, create_master_nodegroup, deleting_default_ng_not_supported, unexpected,
}
use magnum.Status.{create_in_progress}
use magnum.Objects.{Dict, Cluster, NodeGroup, ClusterTemplate, Database}
use magnum.Db.Tenant.{Context}
use magnum.Db.Clusters.{get_cluster_template_by_uuid}
use magnum.Db.Nodegroups.{list_cluster_nodegroups, Filters, no_filters}
use magnum.Api.Resources.{
  Services, Cast, nodegroup_create, nodegroup_update, nodegroup_delete, elevate, get_cluster,
  get_nodegroup, project_of,
}

-- The body of a POST, as far as the method reads it.
pub record NodeGroupRequest : Type 0 where
  pub name : String
  pub docker_volume_size : Option ℕ
  pub labels : Option Dict
  pub merge_labels : Bool
  pub flavor_id : Option String
  pub image_id : Option String
  pub node_count : ℕ
  pub role : String
  pub min_node_count : ℕ
  pub max_node_count : Option ℕ
  pub is_default : Bool

-- `_validate_node_count`; the texts leave out the numbers. A maximum of 0 is none.
unfoldable pub check_min : String → ℕ → ℕ → Result (Unit {0})
check_min name least size =
    if ltb size least then err (nodegroup_invalid_input "min_node_count" name) else ok tt

unfoldable pub validate_node_count : String → ℕ → ℕ → Option ℕ → Result (Unit {0})
unfolding check_min
validate_node_count name size least none = check_min name least size
validate_node_count name size least (some m) =
    if m == 0
    then check_min name least size
    else if ltb m least
    then err (nodegroup_invalid_input "max_node_count" name)
    else if ltb m size
    then err (nodegroup_invalid_input "max_node_count" name)
    else check_min name least size

-- `'api_address' not in cluster or not cluster.api_address`, negated
abbrev pub has_address : Option String → Bool
has_address none = false
has_address (some a) = not (str_eq a "")

-- The labels of the new nodegroup.
unfoldable pub nodegroup_labels : NodeGroupRequest → Cluster → Result (Option Dict)
unfolding update
nodegroup_labels req c = elim req.labels [
  | none ↦ ok c.labels
  | some own ↦
      if req.merge_labels
      then elim c.labels [
        | none ↦ err (unexpected "'NoneType' object has no attribute 'update'")
        | some labels ↦ ok (some (update labels own))
      ]
      else ok (some own)
]

-- Merging changes the dict of the cluster object in place, which is sent along.
unfoldable pub sent_cluster : NodeGroupRequest → Cluster → Option Dict → Cluster
sent_cluster req c labels = elim req.labels [
  | none ↦ c
  | some own ↦ if req.merge_labels then record c { labels = labels } else c
]

module _ (api : Services) (ctx : Context) where
  -- `cluster.cluster_template.image_id`, where the request names no image
  unfoldable pub image_of : NodeGroupRequest → Cluster → Database → Result (Option String)
  unfolding get_cluster_template_by_uuid
  image_of req c d = elim req.image_id [
    | some i ↦ ok (some i)
    | none ↦ (do
      ct ← get_cluster_template_by_uuid api.keystone ctx c.cluster_template_id d
      ok ct.image_id)
  ]

  abbrev names_of : List NodeGroup → List String
  names_of ns = map (λ (n : NodeGroup). n.name) ns

  -- The tests that come before the defaults.
  unfoldable pub check_new : NodeGroupRequest → Cluster → Database → Result (Unit {0})
  unfolding list_cluster_nodegroups validate_node_count
  check_new req c d =
      if not (has_address c.api_address)
      then err cluster_api_address_unavailable
      else if contains req.name (names_of (list_cluster_nodegroups ctx c.uuid no_filters d))
      then err (nodegroup_already_exists req.name (elim c.name [ none ↦ "None" | some n ↦ n ]))
      else (do
        _ ← validate_node_count req.name req.node_count req.min_node_count req.max_node_count
        if str_eq req.role "master" then err create_master_nodegroup else ok tt)

  -- The new object; the columns that the request does not give are the table's defaults.
  unfoldable pub new_nodegroup :
      NodeGroupRequest → Cluster → String → Option String → Option Dict → NodeGroup
  new_nodegroup req c project image_id labels = record {
    id = 0;
    uuid = api.generate_uuid;
    name = req.name;
    cluster_id = c.uuid;
    project_id = project;
    docker_volume_size = req.docker_volume_size;
    labels = labels;
    flavor_id = or_else req.flavor_id c.flavor_id;
    image_id = image_id;
    node_addresses = [];
    node_count = req.node_count;
    role = req.role;
    max_node_count = req.max_node_count;
    min_node_count = req.min_node_count;
    is_default = req.is_default;
    stack_id = none;
    status = create_in_progress;
    status_reason = none;
  }

  unfoldable pub post : String → NodeGroupRequest → Database → Result Cast
  unfolding get_cluster check_new image_of nodegroup_labels sent_cluster new_nodegroup project_of
  post cluster_id req d = do
    _ ← api.enforce ctx "nodegroup:create" none
    cluster ← get_cluster api ctx cluster_id d
    _ ← check_new req cluster d
    image_id ← image_of req cluster d
    labels ← nodegroup_labels req cluster
    project ← project_of ctx
    ok (
        nodegroup_create (sent_cluster req cluster labels)
          (new_nodegroup req cluster project image_id labels))

  -- `_patch` and `patch`. A JSON patch may name the two bounds only, and `apply` is what they are in
  -- the patched document.
  unfoldable pub patch :
      String → String → (NodeGroup → Result (ℕ × Option ℕ)) → Database → Result Cast
  unfolding get_cluster get_nodegroup validate_node_count
  patch cluster_id nodegroup_id apply d = do
    cluster ← get_cluster api ctx cluster_id d
    _ ← api.enforce ctx "nodegroup:update" none
    nodegroup ← get_nodegroup api ctx cluster.uuid nodegroup_id d
    bounds ← apply nodegroup
    _ ← validate_node_count nodegroup.name nodegroup.node_count bounds.0 bounds.1
    ok (
        nodegroup_update cluster
          (record nodegroup { min_node_count = bounds.0; max_node_count = bounds.1 }))

  unfoldable pub delete : String → String → Database → Result Cast
  unfolding get_cluster get_nodegroup
  delete cluster_id nodegroup_id d = do
    _ ← api.enforce ctx "nodegroup:delete" none
    cluster ← get_cluster api ctx cluster_id d
    nodegroup ← get_nodegroup api ctx cluster.uuid nodegroup_id d
    if nodegroup.is_default
        then err deleting_default_ng_not_supported
        else ok (nodegroup_delete cluster nodegroup)

  -- `get_all`, without pages
  unfoldable pub get_all : String → Option String → Database → Result (List NodeGroup)
  unfolding elevate get_cluster list_cluster_nodegroups
  get_all cluster_id role d = do
    _ ← api.enforce ctx "nodegroup:get_all" none
    seen_by ← elevate api ctx "nodegroup:get_all_all_projects"
    cluster ← get_cluster api seen_by cluster_id d
    ok (list_cluster_nodegroups seen_by cluster.uuid (record no_filters { role = role }) d)
