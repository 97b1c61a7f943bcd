-- ===== src/Db/Clusters/Lists.antt =====
-- The lists of clusters in magnum/db/sqlalchemy/api.py, without their pages.
pub mod Counts
use magnum.Common.{
  ℕ, Bool, true, false, not, ◌&&◌, ◌==◌, String, str_eq, Option, none, some, List, select, any, map,
  sum, length, if◌then◌else◌,
}
use magnum.Errors.{Result, ok, err, ◌>>=◌}
use magnum.Status.{ClusterStatus, is_in}
use magnum.Objects.{Cluster, NodeGroup, Database}
use magnum.Db.Tenant.{Context, Keystone, tenant_filter, is_text}
use magnum.Db.Nodegroups.{passes}

-- The filters of `_add_clusters_filters`; an absent one lets every row pass. A filter node_addresses
-- has no column in models.Cluster.
pub record ClusterFilters : Type 0 where
  pub cluster_template_id : Option String
  pub name : Option String
  pub stack_id : Option String
  pub api_address : Option String
  pub project_id : Option String
  pub user_id : Option String
  pub status : Option (List ClusterStatus)
  pub node_count : Option ℕ
  pub master_count : Option ℕ

abbrev pub no_cluster_filters : ClusterFilters
no_cluster_filters = record {
  cluster_template_id = none;
  name = none;
  stack_id = none;
  api_address = none;
  project_id = none;
  user_id = none;
  status = none;
  node_count = none;
  master_count = none;
}

-- The rows that `filter_node_count` counts, and the sum of those of one cluster (`group_by`)
abbrev pub is_counted : Bool → NodeGroup → Bool
is_counted is_master n = if is_master then str_eq n.role "master" else not (str_eq n.role "master")

abbrev pub group_sum : String → List NodeGroup → ℕ
group_sum cluster_id rows = sum (
    map (λ (n : NodeGroup). n.node_count)
      (select (λ (n : NodeGroup). str_eq n.cluster_id cluster_id) rows))

-- `models.Cluster.uuid.in_(uuids)`: the uuid is that of a group with the sum; a group may be named
-- by any of its rows.
unfoldable pub filter_node_count : Database → ℕ → Bool → Cluster → Bool
filter_node_count d node_count is_master c =
    let rows = select (is_counted is_master) d.nodegroups in
    any (λ (n : NodeGroup). group_sum n.cluster_id rows == node_count && str_eq n.cluster_id c.uuid)
      rows

unfoldable pub add_clusters_filters : Database → ClusterFilters → Cluster → Bool
unfolding filter_node_count
add_clusters_filters d f c =
    passes (λ v. str_eq c.cluster_template_id v) f.cluster_template_id
    && (passes (λ v. is_text c.name v) f.name
        && (passes (λ v. is_text c.stack_id v) f.stack_id
            && (passes (λ v. is_text c.api_address v) f.api_address
                && (passes (λ v. str_eq c.project_id v) f.project_id
                    && (passes (λ v. str_eq c.user_id v) f.user_id
                        && (passes (λ v. is_in c.status v) f.status
                            && (passes (λ v. filter_node_count d v false c) f.node_count
                                && passes (λ v. filter_node_count d v true c) f.master_count)))))))

unfoldable pub get_cluster_list :
    Keystone → Context → ClusterFilters → Database → Result (List Cluster)
unfolding add_clusters_filters tenant_filter
get_cluster_list k ctx filters d = do
  mine ← tenant_filter k (λ (c : Cluster). c.project_id) (λ c. c.user_id) ctx
  ok (select (λ c. mine c && add_clusters_filters d filters c) d.clusters)
