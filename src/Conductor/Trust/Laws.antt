-- ===== src/Conductor/Trust/Laws.antt =====
-- What trust_manager of magnum/conductor/handlers/common leaves behind on each path.
use magnum.Common.{◌≡◌, refl, ◌⊎◌, inl, inr, String, some, ◌∷◌, arith}
use magnum.Common.Text.{◌^+◌}
use magnum.Errors.{Error, ok, err, trustee_or_trust_to_cluster_failed, Result-cases}
use magnum.Objects.{Cluster}
use magnum.Session.{Cloud, Session, trustee_create, trust_create}
use magnum.Conductor.Trust.{create_trustee_and_trust, delete_trustee_and_trust}

-- The cluster with a trustee: the name and the id that Keystone gives, and a password.
abbrev pub with_trustee : String × String → String → Cluster → Cluster
with_trustee (name, id) password c = record c {
  trustee_username = some name;
  trustee_user_id = some id;
  trustee_password = some password;
}

-- The name of a cluster's trustee.
abbrev pub trustee_name : Cluster → String
trustee_name c = c.uuid ^+ "_" ^+ c.project_id

-- What create_trustee_and_trust leaves, by what Keystone answers: the trustee is asked for first, in
-- the name of the cluster, and the trust then for the trustee's id. If both are made, the cluster has
-- the trustee that Keystone answered, with the generated password, and the trust that it answered,
-- and nothing else of it is changed. If there is no trust, TrusteeOrTrustToClusterFailed of the
-- cluster is raised, and the trustee stays on the cluster. If there is no trustee, no trust is asked
-- for, the same is raised, and the cluster is as it was. The database stays in each case.
pub create_trustee_and_trust_outcome :
    (cloud : Cloud) (s : Session)
    → let (r, s') = create_trustee_and_trust cloud s in
      let named = trustee_name s.cluster in
      let asked = trustee_create named ∷ s.events in
      let password = cloud.generate_password s.events in
      let failed = err (trustee_or_trust_to_cluster_failed s.cluster.uuid) in
      (s'.db ≡ s.db)
      × (((e : Error) × (cloud.create_trustee s.events named ≡ err e)
            × (r ≡ failed)
            × (s'.cluster ≡ s.cluster)
            × (s'.events ≡ asked))
          ⊎ ((t : String × String) × (cloud.create_trustee s.events named ≡ ok t)
              × (s'.events ≡ trust_create t.1 ∷ asked)
              × (((e : Error) × (cloud.create_trust asked t.1 ≡ err e)
                    × (r ≡ failed)
                    × (s'.cluster ≡ with_trustee t password s.cluster))
                  ⊎ ((id : String) × (cloud.create_trust asked t.1 ≡ ok id)
                      × (r ≡ ok tt)
                      × (s'.cluster
                          ≡ record (with_trustee t password s.cluster) { trust_id = some id })))))
unfolding create_trustee_and_trust
create_trustee_and_trust_outcome cloud s =
    let named = trustee_name s.cluster in
    elim (Result-cases (cloud.create_trustee s.events named)) [
      | inr (e, refused) ↦ rw refused (refl, inl (e, refl, refl, refl, refl))
      | inl (t, trustee) ↦
          elim (Result-cases (cloud.create_trust (trustee_create named ∷ s.events) t.1)) [
            | inr (e, refused) ↦
                rw trustee (rw refused (refl, inr (t, refl, refl, inl (e, refused, refl, refl))))
            | inl (id, trust) ↦
                rw trustee (rw trust (refl, inr (t, refl, refl, inr (id, trust, refl, refl))))
          ]
    ]

-- delete_trustee_and_trust never raises, whatever Keystone answers, and changes neither the objects
-- nor the database.
pub delete_trustee_and_trust_never_raises :
    (cloud : Cloud) (s : Session)
    → let (r, s') = delete_trustee_and_trust cloud s in
      (r ≡ ok tt) × (s'.db ≡ s.db) × (s'.cluster ≡ s.cluster) × (s'.nodegroup ≡ s.nodegroup)
unfolding delete_trustee_and_trust
delete_trustee_and_trust_never_raises cloud s = ground arith
