-- ===== src/Witnesses/Tables.antt =====
-- Runs of the laws of Status and Db on the rows of Samples.
use magnum.Common.{false, ◌<◌, ◌≡◌, refl, true, str_eq, some, [], ◌∷◌}
use magnum.Errors.{ok, err, nodegroup_already_exists}
use magnum.Objects.{NodeGroup, Cluster, Database}
use magnum.Db.Table.{uuid_like}
use magnum.Db.Clusters.{
  create_cluster, get_cluster_by_id, get_cluster_by_name, get_cluster_by_uuid,
  destroy_cluster_template, get_cluster_stats, get_stats, with_clusters, with_templates,
}
use magnum.Db.Clusters.Laws.{get_stats_counts_other_projects}
use magnum.Db.Clusters.References.{TemplatesPresent, destroy_cluster_template-TemplatesPresent}
use magnum.Db.Clusters.Isolation.{project_sees_own_rows}
use magnum.Db.Clusters.Lists.{no_cluster_filters, get_cluster_list}
use magnum.Db.Nodegroups.{
  create_nodegroup, destroy_nodegroup, get_nodegroup_by_uuid, get_nodegroup_by_name,
  with_nodegroups,
}
use magnum.Db.Nodegroups.RoundTrip.{create_nodegroup_round_trip}
use magnum.Db.Quotas.{Quota, get_cluster_count_all, check_cluster_quota_limit}
use magnum.Samples.{worker, master, prod, other, k8s, swarm, tables, ann, keystone}

-- The tables without the cluster of the project red.
abbrev without_other : Database
without_other = with_clusters tables (prod ∷ [])

project_sees_own_rows_example :
    (get_cluster_by_id keystone ann 2 tables ≡ get_cluster_by_id keystone ann 2 without_other)
    × (get_cluster_by_name keystone ann "prod" tables
        ≡ get_cluster_by_name keystone ann "prod" without_other)
    × (get_cluster_by_uuid keystone ann "c-2" tables
        ≡ get_cluster_by_uuid keystone ann "c-2" without_other)
    × (get_cluster_list keystone ann no_cluster_filters tables
        ≡ get_cluster_list keystone ann no_cluster_filters without_other)
    × (get_cluster_count_all keystone ann tables ≡ get_cluster_count_all keystone ann without_other)
project_sees_own_rows_example =
    project_sees_own_rows keystone ann "blue" (refl, refl, refl, refl) 2 "prod" "c-2"
      no_cluster_filters tables without_other refl refl

abbrev added : Cluster
added = record prod { id = 9; uuid = "u-9" }

abbrev new_values : Cluster
new_values = record prod { uuid = "" }

abbrev with_added : Database
with_added = with_clusters tables (prod ∷ other ∷ added ∷ [])

created : create_cluster 9 "u-9" new_values tables ≡ ok (added, with_added)
unfolding create_cluster
created = refl

abbrev without_swarm : Database
without_swarm = with_templates tables (k8s ∷ [])

destroy_cluster_template-TemplatesPresent_example : TemplatesPresent without_swarm
unfolding destroy_cluster_template
destroy_cluster_template-TemplatesPresent_example =
    destroy_cluster_template-TemplatesPresent (λ t. str_eq t.uuid "t-2") (uuid_like "t-2") tables
      without_swarm refl (refl, (refl, tt)) refl

abbrev with_hidden : Database
with_hidden = with_templates tables (record k8s { hidden = true } ∷ swarm ∷ [])

get_stats_counts_other_projects_example :
    (get_cluster_stats ann (some "blue") tables).0 < (get_stats ann (some "blue") tables).0
get_stats_counts_other_projects_example =
    get_stats_counts_other_projects ann "blue" tables refl refl

-- A nodegroup of four nodes is added to the cluster, and a second one of its name is asked for.
abbrev extra : NodeGroup
extra = record worker { uuid = ""; name = "gpu"; node_count = 4; is_default = false }

abbrev extra_row : NodeGroup
extra_row = record extra { id = 9; uuid = "u-9" }

abbrev with_extra : Database
with_extra = with_nodegroups tables (worker ∷ master ∷ extra_row ∷ [])

create_nodegroup_round_trip_example :
    (extra_row ≡ record extra { id = 9; uuid = "u-9" })
    × (get_nodegroup_by_uuid ann extra_row.cluster_id "u-9" with_extra ≡ ok extra_row)
    × (get_nodegroup_by_name ann extra_row.cluster_id "gpu" with_extra ≡ ok extra_row)
    × (create_nodegroup 10 "u-10"
          (record master { cluster_id = extra.cluster_id; name = "gpu" })
          with_extra
        ≡ err (nodegroup_already_exists "gpu" extra_row.cluster_id))
    × (destroy_nodegroup extra_row.cluster_id (uuid_like "u-9") with_extra ≡ ok tables)
unfolding create_nodegroup
create_nodegroup_round_trip_example =
    create_nodegroup_round_trip ann 9 10 "u-9" "u-10" extra master extra_row tables with_extra refl
      refl

-- The quota of the project blue.
abbrev blue_quota : Quota
blue_quota = record { id = 1; project_id = "blue"; resource = "Cluster"; hard_limit = 2 }

within_limit : check_cluster_quota_limit keystone 20 ann (blue_quota ∷ []) tables ≡ ok tt
unfolding check_cluster_quota_limit
within_limit = refl
