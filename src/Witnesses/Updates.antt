-- ===== src/Witnesses/Updates.antt =====
-- Runs of the laws of cluster_update and cluster_resize on the rows of Samples.
use magnum.Common.{String, ◌≡◌, refl, false, none, some, [], ◌∷◌, select}
use magnum.Errors.{ok, err, reraise, invalid_parameter_value}
use magnum.Status.{update_failed, create_complete}
use magnum.Session.{Session, notified, action_update, outcome_failure, outcome_pending}
use magnum.Session.Store.{default_ng_worker}
use magnum.Session.Store.Laws.{row_of}
use magnum.Conductor.Cluster.Update.{scale, driver_of_template, cluster_upgrade}
use magnum.Conductor.Cluster.Update.Laws.{failed_cluster, before_driver, scale_failure_restores}
use magnum.Conductor.Cluster.Update.Upgrade.{Upgraded, cluster_upgrade_outcome}
use magnum.Session.{cert_store}
use magnum.Session.Store.{retrieve_cluster_template}
use magnum.Objects.{ClusterTemplate}
use magnum.Conductor.Driver.{Driver, template, get_driver, get_driver_for_cluster}
use magnum.Conductor.Certs.{generate_certificates_to_cluster}
use magnum.Conductor.Certs.Laws.{Answered, with_certificates}
use magnum.Conductor.Ca.{rotate_ca_certificate}
use magnum.Conductor.Ca.Laws.{rotation_failure_replaces_certificates}
use magnum.Samples.{cloud, env_of, prod, worker, session, refusing, env, flavor, k8s}

abbrev before_update : Session
before_update = before_driver env refusing none false 5 worker prod session (refl, refl) refl

scale_failure_restores_example :
    let (r, s') = scale env 5 false worker refusing none session in
    (r ≡ err (invalid_parameter_value "flavor"))
    × (s'.db.nodegroups ≡ session.db.nodegroups)
    × (select (row_of prod) s'.db.clusters ≡ failed_cluster flavor prod ∷ [])
    × (s'.events ≡ notified action_update outcome_failure update_failed ∷ before_update.events)
unfolding reraise
scale_failure_restores_example =
    scale_failure_restores env refusing none false 5 worker prod session (refl, refl) refl flavor
      before_update.events refl

default_worker : default_ng_worker env.context session ≡ (ok worker, session)
unfolding default_ng_worker
default_worker = refl

-- The session in which the driver is asked to rotate the CA.
abbrev rotating : Session
rotating = record session {
  cluster = with_certificates "prod" "Magnum-Conductor" "prod" "prod" prod;
  changes = with_certificates "prod" "Magnum-Conductor" "prod" "prod";
  events =
      cert_store "Magnum-Conductor"
      ∷ cert_store "prod"
      ∷ cert_store "prod"
      ∷ cert_store "prod"
      ∷ [];
}

certificates_lem : generate_certificates_to_cluster cloud session ≡ (ok tt, rotating)
unfolding generate_certificates_to_cluster
certificates_lem = refl

refusing_is_chosen : get_driver_for_cluster (env_of refusing) rotating ≡ (ok refusing, rotating)
unfolding get_driver_for_cluster template retrieve_cluster_template get_driver
refusing_is_chosen = refl

rotation_failure_replaces_certificates_example :
    let (r, s') = rotate_ca_certificate (env_of refusing) session in
    (r ≡ err (reraise flavor))
    × (s'.events ≡ notified action_update outcome_failure update_failed ∷ rotating.events)
    × ((a b c d : String) × Answered cloud session a b c d
        × (select (row_of prod) s'.db.clusters
            ≡ failed_cluster flavor (with_certificates a b c d prod) ∷ []))
rotation_failure_replaces_certificates_example =
    rotation_failure_replaces_certificates (env_of refusing) refusing prod flavor rotating.events
      session rotating refl certificates_lem refusing_is_chosen refl (refl, refl)

-- A driver that writes the labels of the new ClusterTemplate before Heat refuses.
abbrev relabelling : Driver
relabelling = record refusing {
  upgrade_cluster = λ ct _ _ s. (
    err flavor,
    record s {
      nodegroup = record s.nodegroup { labels = ct.labels };
      ng_changes = λ n. record n { labels = ct.labels };
    },
  );
}

abbrev new_template : ClusterTemplate
new_template = record k8s { labels = some (("kube_tag", "v1.19") ∷ []) }

abbrev relabelled : Session
relabelled = record session {
  nodegroup = record worker { labels = new_template.labels };
  ng_changes = λ n. record n { labels = new_template.labels };
  events = notified action_update outcome_pending create_complete ∷ [];
}

upgrade_driver : driver_of_template (env_of relabelling) session ≡ (ok relabelling, session)
unfolding driver_of_template template get_driver retrieve_cluster_template
upgrade_driver = refl

cluster_upgrade_outcome_example :
    Upgraded
      (env_of relabelling)
      relabelling
      new_template
      2
      false
      worker
      prod
      session
      relabelled
      (err flavor)
      (cluster_upgrade (env_of relabelling) new_template 2 false session)
cluster_upgrade_outcome_example =
    cluster_upgrade_outcome (env_of relabelling) relabelling new_template 2 false worker prod
      session relabelled (err flavor) refl upgrade_driver (refl, refl) (refl, refl) refl
