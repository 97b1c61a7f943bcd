-- ===== src/Witnesses/Polling.antt =====
-- Runs of the laws of Heat, Periodic, Removal and Db/Clusters/Lists on the rows, services and drivers of Samples.
use magnum.Common.{
  any, ◌&&◌, ◌==◌, ◌≤◌, ◌≡◌, refl, true, false, String, Option, none, some, List, [], ◌∷◌, all,
  length, select, ◌⊎◌, inl, inr, arith, if◌then◌else◌,
}
use magnum.Common.Text.{codes}
use magnum.Errors.{Error, ok, err, text_type, reraise, http_not_found, authorization_failure}
use magnum.Status.{
  create_in_progress, create_complete, update_in_progress, update_failed, delete_in_progress,
  delete_complete,
}
use magnum.Session.{Session, Cloud, Stack, CadfAction}
use magnum.Session.Store.{nodegroups, node_count, master_count, retrieve_cluster_template}
use magnum.Db.Clusters.Lists.{is_counted, filter_node_count}
use magnum.Db.Clusters.Lists.Counts.{filter_node_count_lem}
use magnum.Periodic.Sync.{sync_cluster_status}
use magnum.Periodic.Sync.Coverage.{scale_is_polled}
use magnum.Session.Store.Laws.{row_of, ng_row_of}
use magnum.Conductor.Driver.{ScaleManager, Driver, template, get_driver, get_driver_for_cluster}
use magnum.Conductor.Cluster.Update.{scale}
use magnum.Conductor.Cluster.Update.Laws.{failed_cluster}
use magnum.Conductor.Cluster.Resize.{resize_with}
use magnum.Conductor.Cluster.Delete.Laws.{Gone}
use magnum.Heat.Names.{valid_char, stack_name}
use magnum.Heat.Names.Laws.{stack_name_valid}
use magnum.Heat.Kubernetes.{fedora_driver}
use magnum.Heat.Scaling.{scale_with_heat, resize_with_heat}
use magnum.Heat.Poller.{extract_nodegroup_status}
use magnum.Heat.Poller.Laws.{missing_nodegroup, extract_nodegroup_status_missing}
use magnum.Heat.Poller.Status.{NodeGroupStatus, status_of, summary, aggregate_status}
use magnum.Heat.Poller.Status.Laws.{Summarises, aggregate_status_outcome}
use magnum.Db.Table.{one_or}
use magnum.Db.Tenant.{tenant_filter}
use magnum.Db.Clusters.{get_cluster_by_uuid}
use magnum.Db.Nodegroups.{with_nodegroups}
use magnum.Removal.{scale_manager, get_removal_nodes}
use magnum.Removal.Laws.{get_removal_nodes_names_none}
use magnum.Periodic.{status_to_event, names_trust, update_status}
use magnum.Periodic.Laws.{news, update_status_notifies, update_status_removes}
use magnum.Samples.{
  hooks, no_upgrade, prod, worker, master, tables, cloud, env, env_of, accepting, session, admin,
  ann, keystone,
}

hexadecimal : all valid_char (codes "x9") ≡ true
unfolding valid_char
hexadecimal = refl

stack_name_valid_example :
    (all valid_char (stack_name (codes "my_cluster.1") (some (codes "gpu")) (codes "x9")) ≡ true)
    × (length (stack_name (codes "my_cluster.1") (some (codes "gpu")) (codes "x9")) ≤ 63)
stack_name_valid_example =
    stack_name_valid (codes "my_cluster.1") (some (codes "gpu")) (codes "x9") hexadecimal
      (omega arith)

-- The cluster is created, and its default nodegroups are done.
abbrev created : List NodeGroupStatus
created = status_of worker ∷ status_of master ∷ []

is_created : aggregate_status create_in_progress create_complete created ≡ create_complete
unfolding aggregate_status summary
is_created = refl

-- A nodegroup has been added, and its update has failed.
abbrev with_failed : List NodeGroupStatus
with_failed =
    status_of (record worker { name = "gpu"; is_default = false; status = update_failed }) ∷ created

aggregate_status_outcome_example :
    Summarises with_failed (aggregate_status update_in_progress create_complete with_failed)
aggregate_status_outcome_example =
    aggregate_status_outcome update_in_progress create_complete with_failed refl

scale_with_heat_example :
    let (r, s') = scale env 5 false worker (fedora_driver env hooks no_upgrade) none session in
    ((r ≡ ok tt)
      × (select (ng_row_of worker) s'.db.nodegroups ≡ record worker { node_count = 5 } ∷ [])
      × (select (row_of prod) s'.db.clusters
          ≡ record prod { status = update_in_progress; status_reason = none } ∷ []))
    ⊎ ((e : Error) × (r ≡ err (reraise e))
        × (s'.db.nodegroups ≡ tables.nodegroups)
        × (select (row_of prod) s'.db.clusters ≡ failed_cluster e prod ∷ []))
scale_with_heat_example =
    scale_with_heat env hooks no_upgrade none false 5 worker prod session (refl, refl) refl

scale_is_polled_example :
    let (r, s') = scale env 5 false worker (fedora_driver env hooks no_upgrade) none session in
    let polled = select (row_of prod) (sync_cluster_status env.keystone s'.db) in
    ((r ≡ ok tt)
      × (polled ≡ record prod { status = update_in_progress; status_reason = none } ∷ []))
    ⊎ ((e : Error) × (r ≡ err (reraise e)) × (polled ≡ []))
scale_is_polled_example =
    scale_is_polled env hooks no_upgrade none false 5 worker prod session (refl, refl) refl

filter_node_count_lem_example :
    (filter_node_count tables 3 false prod
      ≡ (any (is_counted false) (nodegroups admin session) && (node_count admin session == 3)))
    × (filter_node_count tables 3 true prod
        ≡ (any (is_counted true) (nodegroups admin session) && (master_count admin session == 3)))
filter_node_count_lem_example = filter_node_count_lem admin session 3 refl

resize_with_heat_example :
    let (r, s') = resize_with (fedora_driver env hooks no_upgrade) none 5 [] session in
    ((r ≡ ok tt)
      × (select (ng_row_of worker) s'.db.nodegroups
          ≡ record worker { node_count = 5; status = update_in_progress } ∷ [])
      × (select (row_of prod) s'.db.clusters
          ≡ record prod { status = update_in_progress; status_reason = none } ∷ []))
    ⊎ ((e : Error) × (r ≡ err (reraise e))
        × (select (ng_row_of worker) s'.db.nodegroups
            ≡ record worker {
              node_count = 3;
              status = update_failed;
              status_reason = some (text_type e);
            }
              ∷ [])
        × (select (row_of prod) s'.db.clusters ≡ failed_cluster e prod ∷ []))
resize_with_heat_example =
    resize_with_heat env hooks no_upgrade none 5 [] worker prod session (refl, refl) (refl, refl)

-- Heat has lost all stacks.
abbrev no_stacks : Cloud
no_stacks = record cloud { get_stack = λ _ id. err (http_not_found id) }

abbrev deleting_worker : Session
deleting_worker = record session { nodegroup = record worker { status = delete_in_progress } }

extract_nodegroup_status_missing_example :
    let n = missing_nodegroup deleting_worker delete_complete deleting_worker.nodegroup in
    let (r, s') = extract_nodegroup_status no_stacks hooks [] deleting_worker in
    (r ≡ ok (some (status_of n))) × (select (ng_row_of worker) s'.db.nodegroups ≡ n ∷ [])
extract_nodegroup_status_missing_example =
    extract_nodegroup_status_missing no_stacks hooks [] worker deleting_worker "s-1" (refl, refl)
      refl refl (inl refl)

-- A scale manager of the cluster, and the session in which the smaller number of nodes is saved.
abbrev manager : ScaleManager
manager = record { old_cluster = prod; new_cluster = prod }

made : scale_manager ann keystone session ≡ (ok manager, session)
unfolding scale_manager get_cluster_by_uuid tenant_filter one_or
made = refl

abbrev smaller : Session
smaller = record session {
  db = with_nodegroups tables (record worker { node_count = 1 } ∷ master ∷ []);
}

abbrev three_hosts : Stack → Option (List String)
three_hosts _ = some ("a" ∷ "b" ∷ "c" ∷ [])

get_removal_nodes_names_none_example :
    get_removal_nodes ann cloud three_hosts (λ _. ok ("a" ∷ [])) manager smaller ≡ (ok [], smaller)
get_removal_nodes_names_none_example =
    get_removal_nodes_names_none keystone ann cloud three_hosts (λ _. ok ("a" ∷ [])) manager session
      smaller made

chosen : get_driver_for_cluster env session ≡ (ok accepting, session)
unfolding get_driver_for_cluster template retrieve_cluster_template get_driver
chosen = refl

known : status_to_event create_complete ≡ ok CadfAction.action_create
unfolding status_to_event
known = refl

update_status_notifies_example : update_status env session ≡ (
  ok tt,
  record session { events = news CadfAction.action_create create_complete session.events },
)
update_status_notifies_example =
    update_status_notifies env accepting session session chosen CadfAction.action_create (inl refl)
      refl (inr known)

-- The trust of a cluster that is being deleted is gone, and the administrator finds it deleted.
abbrev deleted : Session
deleted = record session { cluster = record prod { status = delete_complete } }

abbrev trust_is_gone : Driver
trust_is_gone = record accepting {
  update_cluster_status = λ admin s.
      if admin
      then (ok tt, record s { cluster = record s.cluster { status = delete_complete } })
      else (err (authorization_failure "Could not find trust: trust"), s);
}

chosen_without_trust :
    get_driver_for_cluster (env_of trust_is_gone) session ≡ (ok trust_is_gone, session)
unfolding get_driver_for_cluster template retrieve_cluster_template get_driver
chosen_without_trust = refl

trust_is_named : names_trust (some "trust") "Could not find trust: trust" ≡ true
unfolding names_trust
trust_is_named = refl

update_status_removes_example :
    let (r, s') = update_status (env_of trust_is_gone) session in
    (r ≡ ok tt) × Gone (env_of trust_is_gone) s'
update_status_removes_example =
    update_status_removes (env_of trust_is_gone) trust_is_gone session deleted chosen_without_trust
      prod (inr ("Could not find trust: trust", session, refl, trust_is_named, refl)) refl
      ((refl, (refl, tt)), refl)
