-- ===== src/Witnesses/Deletion.antt =====
-- Runs of the laws of cluster_delete and of the nodegroup methods on the rows of Samples.
use magnum.Common.{◌≡◌, refl, []}
use magnum.Errors.{http_not_found, ok, err}
use magnum.Status.{update_in_progress, delete_in_progress}
use magnum.Session.{Session}
use magnum.Session.Store.{retrieve_cluster_template}
use magnum.Conductor.Driver.{Driver, template, get_driver, get_driver_for_cluster}
use magnum.Conductor.Cluster.Delete.{delete_with}
use magnum.Conductor.Cluster.Delete.Laws.{Gone, deleting, cluster_delete_outcome}
use magnum.Conductor.Nodegroup.{nodegroup_delete}
use magnum.Conductor.Nodegroup.Laws.{in_hand, nodegroup_delete_unsaved}
use magnum.Samples.{prod, worker, env_of, session, accepting, missing, env}

cluster_delete_outcome_example :
    let (r, s') = delete_with env missing session in (r ≡ ok tt) × Gone env s'
cluster_delete_outcome_example =
    cluster_delete_outcome env missing prod session (deleting session) ((refl, (refl, tt)), refl)
      refl (err (http_not_found "s-1")) refl

abbrev in_update : Driver → Session
in_update d = in_hand (env_of d) d prod worker session (refl, refl) (refl, refl) update_in_progress

abbrev in_deletion : Driver → Session
in_deletion d =
    in_hand (env_of d) d prod worker session (refl, refl) (refl, refl) delete_in_progress

chosen_for_update :
    (d : Driver) → get_driver_for_cluster (env_of d) (in_update d) ≡ (ok d, in_update d)
unfolding get_driver_for_cluster template retrieve_cluster_template get_driver
chosen_for_update d = refl

chosen_for_deletion :
    (d : Driver) → get_driver_for_cluster (env_of d) (in_deletion d) ≡ (ok d, in_deletion d)
unfolding get_driver_for_cluster template retrieve_cluster_template get_driver
chosen_for_deletion d = refl

nodegroup_delete_unsaved_example :
    let (r, s') = nodegroup_delete (env_of accepting) session in
    (r ≡ ok tt)
    × (s'.nodegroup.status ≡ delete_in_progress)
    × (s'.db.nodegroups ≡ session.db.nodegroups)
nodegroup_delete_unsaved_example =
    nodegroup_delete_unsaved (env_of accepting) accepting prod worker session (refl, refl)
      (refl, refl) [] (chosen_for_deletion accepting) refl
