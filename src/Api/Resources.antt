-- ===== src/Api/Resources.antt =====
-- What the controllers of magnum/api/controllers/v1 share: the request's services, how a resource is
-- found (magnum/api/utils.py and magnum/objects), and the messages to the conductor
-- (magnum/conductor/api.py).
use magnum.Common.{
  ℕ, Bool, true, ◌||◌, ltb, ◌==◌, String, str_eq, Option, none, some, List, if◌then◌else◌,
}
use magnum.Common.Int.{ℤ, pos, negsuc}
use magnum.Common.Text.{◌^+◌}
use magnum.Errors.{Result, ok, err, ◌>>=◌, client_side_error, unexpected}
use magnum.Status.{ClusterHealthStatus}
use magnum.Objects.{Dict, Cluster, NodeGroup, ClusterTemplate, Database}
use magnum.Db.Table.{Identity, int_like, uuid_like, unlike}
use magnum.Db.Tenant.{Context, Keystone}
use magnum.Db.Clusters.{get_cluster_by_name, get_cluster_by_uuid, get_cluster_template_by_uuid}
use magnum.Db.Clusters.Templates.{get_cluster_template_by_name}
use magnum.Db.Nodegroups.{get_nodegroup_by_id, get_nodegroup_by_uuid, get_nodegroup_by_name}

-- What a controller calls that is not part of the program: oslo_policy's enforcer (the rule, and the
-- cluster that is its target), the tests of oslo_utils on identifiers, and the generators of names
-- and uuids. `max_limit` is an option of the configuration.
pub record Services : Type 0 where
  pub enforce : Context → String → Option Cluster → Result (Unit {0})
  pub keystone : Keystone
  pub is_int_like : String → Option ℕ
  pub is_uuid_like : String → Bool
  pub generate_name : String
  pub generate_uuid : String
  pub max_limit : ℕ

-- A message to the conductor. A controller sends one at most, as the last thing that it does.
pub data Cast : Type 0 where
  cluster_create : Cluster → ℕ → ℕ → Option ℕ → Cast
  cluster_update : Cluster → ℕ → Option ClusterHealthStatus → Option Dict → Bool → Cast
  cluster_delete : String → Cast
  cluster_resize : Cluster → ℕ → List String → NodeGroup → Cast
  cluster_upgrade : Cluster → ClusterTemplate → ℕ → NodeGroup → Cast
  nodegroup_create nodegroup_update nodegroup_delete : Cluster → NodeGroup → Cast

-- The branches of the methods `get` of magnum/objects.
unfoldable pub identity_of : Services → String → Identity
identity_of api ident = elim (api.is_int_like ident) [
  | some n ↦ int_like n
  | none ↦ if api.is_uuid_like ident then uuid_like ident else unlike ident
]

-- An object's field `project_id` cannot be None.
unfoldable pub project_of : Context → Result String
project_of ctx = elim ctx.project_id [
  | none ↦ err (unexpected "Field `project_id' cannot be None")
  | some p ↦ ok p
]

-- `if context.is_admin: context.all_tenants = True`, behind the rule for all projects.
unfoldable pub elevate : Services → Context → String → Result Context
elevate api ctx rule =
    if ctx.is_admin
    then (do _ ← api.enforce ctx rule none; ok (record ctx { all_tenants = true }))
    else ok ctx

module _ (api : Services) (ctx : Context) where
  -- `get_resource('Cluster', ident)`
  unfoldable pub get_cluster : String → Database → Result Cluster
  unfolding get_cluster_by_uuid get_cluster_by_name
  get_cluster ident d =
      if api.is_uuid_like ident
      then get_cluster_by_uuid api.keystone ctx ident d
      else get_cluster_by_name api.keystone ctx ident d

  -- `get_resource('ClusterTemplate', ident)`
  unfoldable pub get_template : String → Database → Result ClusterTemplate
  unfolding get_cluster_template_by_uuid get_cluster_template_by_name
  get_template ident d =
      if api.is_uuid_like ident
      then get_cluster_template_by_uuid api.keystone ctx ident d
      else get_cluster_template_by_name api.keystone ctx ident d

  -- `NodeGroup.get(context, cluster_id, ident)`
  unfoldable pub get_nodegroup : String → String → Database → Result NodeGroup
  unfolding identity_of get_nodegroup_by_id get_nodegroup_by_uuid get_nodegroup_by_name
  get_nodegroup cluster_id ident d = elim (identity_of api ident) [
    | int_like n ↦ get_nodegroup_by_id ctx cluster_id n d
    | uuid_like u ↦ get_nodegroup_by_uuid ctx cluster_id u d
    | unlike t ↦ get_nodegroup_by_name ctx cluster_id t d
  ]

unfoldable pub validate_limit : Services → Option ℤ → Result ℕ
validate_limit api none = ok api.max_limit
validate_limit api (some (negsuc n)) = err (client_side_error "Limit must be positive")
validate_limit api (some (pos n)) =
    if n == 0
    then err (client_side_error "Limit must be positive")
    else ok (if ltb n api.max_limit then n else api.max_limit)

unfoldable pub validate_sort_dir : String → Result String
validate_sort_dir sort_dir =
    if str_eq sort_dir "asc" || str_eq sort_dir "desc"
    then ok sort_dir
    else err (
        client_side_error
          ("Invalid sort direction: " ^+ sort_dir ^+ ". Acceptable values are 'asc' or 'desc'"))
