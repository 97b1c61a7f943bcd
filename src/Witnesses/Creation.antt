-- ===== src/Witnesses/Creation.antt =====
-- Runs of the laws of trusts, certificates and cluster_create on the rows of Samples.
use magnum.Common.{◌≡◌, ◌≢◌, refl, true, false, String, none, some, [], ◌∷◌, ◌++◌, select, ◌⊎◌, any}
use magnum.Errors.{
  Error, ok, err, reraise, unexpected, trustee_or_trust_to_cluster_failed,
  certificates_to_cluster_failed,
}
use magnum.Status.{create_in_progress, create_failed}
use magnum.Objects.{Cluster}
use magnum.Session.{
  Session, Cloud, notified, action_create, outcome_failure, trustee_create, trust_create,
}
use magnum.Session.Store.{cluster_create_row, ng_create, retrieve_cluster_template}
use magnum.Session.Store.Laws.{row_of}
use magnum.Conductor.Driver.{Env, template}
use magnum.Conductor.Trust.{create_trustee_and_trust}
use magnum.Conductor.Trust.Laws.{with_trustee, create_trustee_and_trust_outcome}
use magnum.Conductor.Certs.{generate_certificates_to_cluster, delete_certificates_from_cluster}
use magnum.Conductor.Certs.Laws.{
  generate_certificates_outcome, Answered, with_certificates, is_deletion_of,
  delete_certificates_leaves_others,
}
use magnum.Conductor.Cluster.Create.{
  cluster_create, create_nodegroups, create_stack_of_cluster, min_node_count, nodegroup_object,
  get_nodegroup_object,
}
use magnum.Conductor.Cluster.Create.Laws.{
  creating, creation_failed, cluster_create_failure_recorded, cluster_create_bad_label_sticks,
}
use magnum.Samples.{prod, k8s, tables, cloud, env_of, session, asked, accepting, env}

-- A cluster without a trustee and a trust.
abbrev untrusted : Session
untrusted = record session {
  cluster = record prod { trust_id = none; trustee_user_id = none; trustee_username = none };
}

create_trustee_and_trust_outcome_example :
    let (r, s') = create_trustee_and_trust cloud untrusted in
    let asked = trustee_create "c-1_blue" ∷ [] in
    let failed = err (trustee_or_trust_to_cluster_failed "c-1") in
    (s'.db ≡ tables)
    × (((e : Error) × (cloud.create_trustee [] "c-1_blue" ≡ err e)
          × (r ≡ failed)
          × (s'.cluster ≡ untrusted.cluster)
          × (s'.events ≡ asked))
        ⊎ ((t : String × String) × (cloud.create_trustee [] "c-1_blue" ≡ ok t)
            × (s'.events ≡ trust_create t.1 ∷ asked)
            × (((e : Error) × (cloud.create_trust asked t.1 ≡ err e)
                  × (r ≡ failed)
                  × (s'.cluster ≡ with_trustee t "secret" untrusted.cluster))
                ⊎ ((id : String) × (cloud.create_trust asked t.1 ≡ ok id)
                    × (r ≡ ok tt)
                    × (s'.cluster ≡ record (with_trustee t "secret" untrusted.cluster) {
                      trust_id = some id;
                    })))))
create_trustee_and_trust_outcome_example = create_trustee_and_trust_outcome cloud untrusted

generate_certificates_outcome_example :
    let (r, s') = generate_certificates_to_cluster cloud session in
    (s'.db ≡ tables)
    × (((r ≡ err (certificates_to_cluster_failed "c-1"))
          × (s'.cluster ≡ prod)
          × (s'.changes ≡ λ row. row))
        ⊎ ((r ≡ ok tt)
            × ((a b c d : String) × Answered cloud session a b c d
                × (s'.cluster ≡ with_certificates a b c d prod)
                × (s'.changes ≡ λ row. with_certificates a b c d row))))
generate_certificates_outcome_example = generate_certificates_outcome cloud session

ca_is_not_etcd : session.cluster.ca_cert_ref ≢ some "etcd"
ca_is_not_etcd h = cc

client_is_not_etcd : session.cluster.magnum_cert_ref ≢ some "etcd"
client_is_not_etcd h = cc

delete_certificates_leaves_others_example :
    any (is_deletion_of "etcd") (delete_certificates_from_cluster cloud session).1.events ≡ false
delete_certificates_leaves_others_example =
    delete_certificates_leaves_others cloud "etcd" session ca_is_not_etcd client_is_not_etcd refl

abbrev row_written : Session
row_written = record asked {
  cluster = record asked.cluster { id = 9; status = create_in_progress };
  db = record tables {
    clusters = tables.clusters ++ record asked.cluster { id = 9; status = create_in_progress } ∷ [];
  };
}

-- What Keystone answers when the trustee is refused.
abbrev no_trustee : Cloud
no_trustee = record cloud { create_trustee = λ _ _. err (Error.authorization_failure "no") }

abbrev no_trustee_env : Env
no_trustee_env = record (env_of accepting) { cloud = no_trustee }

abbrev new_nodegroups : Session
new_nodegroups = record row_written {
  db = record row_written.db {
    nodegroups =
        tables.nodegroups
        ++ record (nodegroup_object row_written.cluster k8s 1 true 0) { id = 9; uuid = "u-9" }
          ∷ record (nodegroup_object row_written.cluster k8s 2 false 0) { id = 10; uuid = "u-10" }
          ∷ [];
  };
}

row_written_lem : cluster_create_row no_trustee (creating asked) ≡ (ok tt, row_written)
unfolding cluster_create_row
row_written_lem = refl

new_nodegroups_lem : create_nodegroups no_trustee_env 1 2 row_written ≡ (ok tt, new_nodegroups)
unfolding create_nodegroups get_nodegroup_object template retrieve_cluster_template min_node_count
    ng_create nodegroup_object
new_nodegroups_lem = refl

abbrev trustee_failed : Error
trustee_failed = trustee_or_trust_to_cluster_failed "c-3"

no_trustee_lem :
    create_stack_of_cluster no_trustee_env none new_nodegroups
    ≡ (err trustee_failed, record new_nodegroups { events = trustee_create "c-3_blue" ∷ [] })
unfolding create_stack_of_cluster create_trustee_and_trust
no_trustee_lem = refl

abbrev without_trustee : Session
without_trustee = record new_nodegroups { events = trustee_create "c-3_blue" ∷ [] }

cluster_create_failure_recorded_example :
    let (r, s') = cluster_create no_trustee_env 1 2 none asked in
    (r ≡ err (reraise trustee_failed))
    × (select (row_of without_trustee.cluster) s'.db.clusters
        ≡ creation_failed trustee_failed without_trustee.cluster ∷ [])
    × (s'.db.nodegroups ≡ without_trustee.db.nodegroups)
    × (s'.events ≡ notified action_create outcome_failure create_failed ∷ without_trustee.events)
cluster_create_failure_recorded_example =
    cluster_create_failure_recorded no_trustee_env 1 2 none trustee_failed without_trustee.cluster
      asked row_written new_nodegroups without_trustee row_written_lem new_nodegroups_lem
      no_trustee_lem (refl, refl)

-- A request whose label is no number.
abbrev mislabelled : Session
mislabelled = record asked {
  cluster = record asked.cluster { labels = some (("min_node_count", "many") ∷ []) };
}

abbrev stuck : Session
stuck =
    let c : Cluster = record mislabelled.cluster { id = 9; status = create_in_progress } in
    record mislabelled { cluster = c; db = record tables { clusters = tables.clusters ++ c ∷ [] } }

stuck_lem : cluster_create_row env.cloud (creating mislabelled) ≡ (ok tt, stuck)
unfolding cluster_create_row
stuck_lem = refl

template_of_stuck : template env stuck ≡ (ok k8s, stuck)
unfolding template retrieve_cluster_template
template_of_stuck = refl

bad_label : min_node_count env.cloud stuck.cluster.labels ≡ err (unexpected "not a number")
unfolding min_node_count
bad_label = refl

cluster_create_bad_label_sticks_example :
    (cluster_create env 1 2 none mislabelled ≡ (err (unexpected "not a number"), stuck))
    × (stuck.db.clusters ≡ mislabelled.db.clusters ++ stuck.cluster ∷ [])
    × (stuck.cluster.status ≡ create_in_progress)
    × (stuck.db.nodegroups ≡ mislabelled.db.nodegroups)
    × (stuck.events ≡ mislabelled.events)
cluster_create_bad_label_sticks_example =
    cluster_create_bad_label_sticks env 1 2 none k8s (unexpected "not a number") mislabelled stuck
      stuck_lem template_of_stuck bad_label
