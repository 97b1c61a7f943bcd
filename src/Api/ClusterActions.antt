-- ===== src/Api/ClusterActions.antt =====
-- ActionsController of magnum/api/controllers/v1/cluster_actions.py.
pub mod Laws
use magnum.Common.{
  ℕ, Bool, true, false, not, ◌&&◌, ◌||◌, ltb, ◌==◌, String, str_eq, Option, none, some, List, [],
  ◌∷◌, if◌then◌else◌, select,
}
use magnum.Common.Text.{◌^+◌}
use magnum.Errors.{
  Error, Result, ok, err, ◌>>=◌, master_ng_resize_not_supported, ng_resize_out_bounds,
  zero_node_count_not_supported, cluster_upgrade_not_supported,
  invalid_cluster_template_for_upgrade,
}
use magnum.Objects.{Cluster, NodeGroup, ClusterTemplate, Database}
use magnum.Db.Tenant.{Context}
use magnum.Db.Clusters.{get_cluster_template_by_uuid}
use magnum.Db.Nodegroups.{list_cluster_nodegroups, no_filters}
use magnum.Session.Store.{first_or_raise, is_master}
use magnum.Api.Resources.{
  Services, Cast, cluster_resize, cluster_upgrade, elevate, get_cluster, get_nodegroup,
  get_template,
}

pub record ClusterResizeRequest : Type 0 where
  pub node_count : ℕ
  pub nodes_to_remove : List String
  pub nodegroup : Option String

pub record ClusterUpgradeRequest : Type 0 where
  pub max_batch_size : ℕ
  pub nodegroup : Option String
  pub cluster_template : String

-- `cluster.default_ng_worker`, of a cluster that was read
unfoldable pub default_worker_of : Context → Cluster → Database → Result NodeGroup
unfolding list_cluster_nodegroups
default_worker_of ctx c d = first_or_raise ctx (
    select (λ n. not (is_master n))
      (list_cluster_nodegroups ctx c.uuid (record no_filters { is_default = some true }) d))

-- The two tests that a size lies within the bounds of a nodegroup; a maximum of 0 is none.
unfoldable pub check_max : String → Option ℕ → ℕ → Result (Unit {0})
check_max name none size = ok tt
check_max name (some m) size =
    if not (m == 0) && ltb m size then err (ng_resize_out_bounds name) else ok tt

unfoldable pub check_bounds : NodeGroup → ℕ → Result (Unit {0})
unfolding check_max
check_bounds n size =
    if ltb size n.min_node_count
    then err (ng_resize_out_bounds n.name)
    else check_max n.name n.max_node_count size

-- `if nodegroup.role == 'master'`, and the bounds
unfoldable pub check_resize : NodeGroup → ℕ → Result (Unit {0})
unfolding check_bounds
check_resize n size =
    if str_eq n.role "master" then err master_ng_resize_not_supported else check_bounds n size

-- A name that is not given, or empty.
abbrev pub named : Option String → Option String
named none = none
named (some t) = if str_eq t "" then none else some t

-- The nodegroup that a request is about: the default worker nodegroup, if it names none.
unfoldable pub chosen_nodegroup :
    Services → Context → Cluster → Option String → Database → Result NodeGroup
unfolding default_worker_of get_nodegroup
chosen_nodegroup api ctx c name d = elim (named name) [
  | none ↦ default_worker_of ctx c d
  | some t ↦ get_nodegroup api ctx c.uuid t d
]

module _ (api : Services) (ctx : Context) where
  -- `_resize`
  unfoldable pub resize_request : String → ClusterResizeRequest → Database → Result Cast
  unfolding get_cluster chosen_nodegroup check_resize
  resize_request ident req d = do
    cluster ← get_cluster api ctx ident d
    _ ← api.enforce ctx "cluster:resize" (some cluster)
    nodegroup ← chosen_nodegroup api ctx cluster req.nodegroup d
    _ ← check_resize nodegroup req.node_count
    ok (cluster_resize cluster req.node_count req.nodes_to_remove nodegroup)

  -- `resize` up to version 1.9 of the API, and from 1.10 on
  unfoldable pub resize_1_7 : String → ClusterResizeRequest → Database → Result Cast
  unfolding resize_request
  resize_1_7 ident req d =
      if req.node_count == 0 then err zero_node_count_not_supported else resize_request ident req d

  unfoldable pub resize_1_10 : String → ClusterResizeRequest → Database → Result Cast
  unfolding resize_request
  resize_1_10 ident req d = resize_request ident req d

  -- A nodegroup that is not a default one keeps to the cluster's own template. The text leaves out
  -- the names.
  unfoldable pub check_template :
      Cluster → ClusterTemplate → Option String → NodeGroup → Result (Unit {0})
  check_template c ct name n = elim (named name) [
    | none ↦ ok tt
    | some _ ↦
        if not (str_eq ct.uuid c.cluster_template_id) && not n.is_default
        then err (
            invalid_cluster_template_for_upgrade
              ("Nodegroup " ^+ n.name ^+ " can be upgraded only to match cluster's template."))
        else ok tt
  ]

  -- `_upgrade`
  unfoldable pub upgrade_request : String → ClusterUpgradeRequest → Database → Result Cast
  unfolding elevate get_cluster get_template chosen_nodegroup check_template
  upgrade_request ident req d = do
    seen_by ← elevate api ctx "cluster:upgrade_all_projects"
    cluster ← get_cluster api seen_by ident d
    _ ← api.enforce seen_by "cluster:upgrade" (some cluster)
    new_cluster_template ← get_template api seen_by req.cluster_template d
    nodegroup ← chosen_nodegroup api seen_by cluster req.nodegroup d
    _ ← check_template cluster new_cluster_template req.nodegroup nodegroup
    ok (cluster_upgrade cluster new_cluster_template req.max_batch_size nodegroup)

  -- `upgrade` of version 1.7, and from 1.8 on
  unfoldable pub upgrade_1_7 : String → ClusterUpgradeRequest → Database → Result Cast
  upgrade_1_7 ident req d = err cluster_upgrade_not_supported

  unfoldable pub upgrade_1_8 : String → ClusterUpgradeRequest → Database → Result Cast
  unfolding upgrade_request
  upgrade_1_8 ident req d = upgrade_request ident req d
