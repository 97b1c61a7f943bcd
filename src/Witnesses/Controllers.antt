-- ===== src/Witnesses/Controllers.antt =====
-- Runs of the laws of the controllers Api/ClusterActions and Api/NodeGroups on the rows of Samples.
use magnum.Common.{
  ◌≡◌, ◌≢◌, refl, true, false, str_eq, none, some, [], ◌∷◌, select, ◌⊎◌, arith, contains, ◌||◌,
}
use magnum.Common.Dicts.{lookup}
use magnum.Errors.{ok, err, master_ng_resize_not_supported, ng_resize_out_bounds}
use magnum.Objects.{Dict, Cluster, NodeGroup, Database}
use magnum.Db.Table.{one_or}
use magnum.Db.Tenant.{tenant_filter}
use magnum.Db.Clusters.{get_cluster_by_uuid}
use magnum.Session.{Session}
use magnum.Session.Store.Laws.{ng_row_of}
use magnum.Conductor.Cluster.Resize.{resize_with}
use magnum.Heat.Kubernetes.{fedora_driver}
use magnum.Status.{create_in_progress}
use magnum.Api.Resources.{Services, cluster_resize, nodegroup_create, nodegroup_delete, get_cluster}
use magnum.Api.NodeGroups.{NodeGroupRequest, post, delete}
use magnum.Api.NodeGroups.Laws.{Agree, taken, post_outcome, post_merges_labels}
use magnum.Api.NodeGroups.Deletion.{
  defaults, in_deletion, served as served_deletion, delete_spares_defaults,
}
use magnum.Conductor.Nodegroup.{nodegroup_delete as conductor_delete}
use magnum.Conductor.Driver.{Driver, template, get_driver, get_driver_for_cluster}
use magnum.Session.Store.{retrieve_cluster_template}
use magnum.Api.ClusterActions.{ClusterResizeRequest, resize_request, chosen_nodegroup}
use magnum.Api.ClusterActions.Laws.{InBounds, resize_request_outcome, resize_keeps_bounds, served}
use magnum.Samples.{env_of, prod, worker, tables, ann, keystone, env, hooks, no_upgrade}

-- The services of the API, in which the cluster c-1 and the ClusterTemplate t-1 are named by uuid.
abbrev pub api : Services
api = record {
  enforce = λ _ _ _. ok tt;
  keystone = keystone;
  is_int_like = λ _. none;
  is_uuid_like = λ t. str_eq t "c-1" || str_eq t "t-1";
  generate_name = "zeta-22-cluster";
  generate_uuid = "u-9";
  max_limit = 1000;
}

-- Five nodes are asked for.
abbrev five : ClusterResizeRequest
five = record { node_count = 5; nodes_to_remove = []; nodegroup = none }

found : get_cluster api ann "c-1" tables ≡ ok prod
unfolding get_cluster get_cluster_by_uuid tenant_filter one_or
found = refl

chosen : chosen_nodegroup api ann prod none tables ≡ ok worker
unfolding chosen_nodegroup
chosen = refl

resize_request_outcome_example :
    let r = resize_request api ann "c-1" five tables in
    ((r ≡ ok (cluster_resize prod 5 [] worker)) × (worker.role ≢ "master") × InBounds worker 5)
    ⊎ ((r ≡ err master_ng_resize_not_supported) × (worker.role ≡ "master"))
    ⊎ ((r ≡ err (ng_resize_out_bounds worker.name))
        × (worker.role ≢ "master")
        × ¬ InBounds worker 5)
resize_request_outcome_example =
    resize_request_outcome api ann "c-1" five tables prod worker found refl chosen

accepted : resize_request api ann "c-1" five tables ≡ ok (cluster_resize prod 5 [] worker)
unfolding resize_request tenant_filter
accepted = refl

resize_keeps_bounds_example :
    let (r, s') =
      resize_with
        (fedora_driver env hooks no_upgrade)
        none
        5
        []
        (served api ann "c-1" five tables prod worker) in
    (m : NodeGroup) × (select (ng_row_of worker) s'.db.nodegroups ≡ m ∷ [])
    × InBounds m m.node_count
resize_keeps_bounds_example =
    resize_keeps_bounds api ann "c-1" five tables prod worker env hooks no_upgrade none accepted
      refl refl (omega arith)

-- Another worker nodegroup is asked for, with a label of its own; the cluster has an address.
abbrev labelled : Cluster
labelled = record prod {
  api_address = some "https://10.0.0.1:6443";
  labels = some (("tag", "v1") ∷ ("region", "eu") ∷ []);
}

abbrev pub own_labels : Dict
own_labels = ("tag", "v2") ∷ []

abbrev labelled_tables : Database
labelled_tables = record tables { clusters = labelled ∷ [] }

abbrev gpu : NodeGroupRequest
gpu = record {
  name = "gpu";
  docker_volume_size = none;
  labels = some own_labels;
  merge_labels = true;
  flavor_id = none;
  image_id = none;
  node_count = 2;
  role = "worker";
  min_node_count = 1;
  max_node_count = some 4;
  is_default = false;
}

abbrev gpu_nodegroup : NodeGroup
gpu_nodegroup = record worker {
  id = 0;
  uuid = "u-9";
  name = "gpu";
  labels = some (("tag", "v2") ∷ ("region", "eu") ∷ []);
  flavor_id = some "m1";
  image_id = some "fedora";
  node_count = 2;
  max_node_count = some 4;
  is_default = false;
  stack_id = none;
  status = create_in_progress;
}

abbrev sent_along : Cluster
sent_along = record labelled { labels = some (("tag", "v2") ∷ ("region", "eu") ∷ []) }

gpu_accepted :
    post api ann "c-1" gpu labelled_tables ≡ ok (nodegroup_create sent_along gpu_nodegroup)
unfolding post tenant_filter
gpu_accepted = refl

post_outcome_example :
    (c sent : Cluster) × (n : NodeGroup) × (get_cluster api ann "c-1" labelled_tables ≡ ok c)
    × (nodegroup_create sent_along gpu_nodegroup ≡ nodegroup_create sent n)
    × (n.cluster_id ≡ c.uuid)
    × (n.role ≢ "master")
    × (contains n.name (taken api ann gpu c labelled_tables) ≡ false)
    × Agree n.node_count n.min_node_count n.max_node_count
    × (n.is_default ≡ false)
post_outcome_example =
    post_outcome api ann gpu "c-1" labelled_tables (nodegroup_create sent_along gpu_nodegroup)
      gpu_accepted

labelled_found : get_cluster api ann "c-1" labelled_tables ≡ ok labelled
unfolding get_cluster get_cluster_by_uuid tenant_filter one_or
labelled_found = refl

post_merges_labels_example :
    (new : Dict) × (gpu_nodegroup.labels ≡ some new)
    × (sent_along.labels ≡ some new)
    × (lookup "tag" new ≡ some "v2")
post_merges_labels_example =
    post_merges_labels api ann gpu "c-1" "tag" labelled_tables labelled sent_along gpu_nodegroup
      own_labels (("tag", "v1") ∷ ("region", "eu") ∷ []) refl (refl, tt) refl labelled_found refl
      gpu_accepted

-- The nodegroup gpu is deleted again.
abbrev gpu_tables : Database
gpu_tables = record labelled_tables { nodegroups = worker ∷ gpu_nodegroup ∷ [] }

deletion_accepted :
    delete api ann "c-1" "gpu" gpu_tables ≡ ok (nodegroup_delete labelled gpu_nodegroup)
unfolding delete tenant_filter
deletion_accepted = refl

abbrev heat : Driver
heat = fedora_driver env hooks no_upgrade

abbrev being_deleted : Session
being_deleted = in_deletion api ann "c-1" "gpu" gpu_tables labelled gpu_nodegroup

heat_chosen : get_driver_for_cluster (env_of heat) being_deleted ≡ (ok heat, being_deleted)
unfolding get_driver_for_cluster template retrieve_cluster_template get_driver
heat_chosen = refl

delete_spares_defaults_example :
    defaults
      (conductor_delete
        (env_of heat)
        (served_deletion api ann "c-1" "gpu" gpu_tables labelled gpu_nodegroup)).1.db
    ≡ worker ∷ []
delete_spares_defaults_example =
    delete_spares_defaults api ann "c-1" "gpu" gpu_tables labelled gpu_nodegroup (env_of heat) env
      hooks no_upgrade deletion_accepted refl refl heat_chosen
