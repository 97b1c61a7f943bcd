-- ===== src/Conductor/Certs/Laws.antt =====
-- What cert_manager of magnum/conductor/handlers/common leaves behind on each path.
use magnum.Common.{
  ◌≡◌, ◌≢◌, refl, ◌∙◌, ◌⊎◌, inl, inr, Bool, false, String, str_eq, eq_iff, Option, none, some,
  arith, ◌∷◌, any,
}
use magnum.Errors.{ok, err, certificates_to_cluster_failed, Result-cases}
use magnum.Objects.{Cluster}
use magnum.Session.{Cloud, Session, Event, cert_delete, cert_store, bind_ok}
use magnum.Conductor.Certs.{
  get_issuer_name, try_delete_cert, generate_certificates_to_cluster,
  delete_certificates_from_cluster,
}

-- The cluster with four other certificates.
abbrev pub with_certificates : String → String → String → String → Cluster → Cluster
with_certificates ca client etcd front_proxy c = record c {
  ca_cert_ref = some ca;
  magnum_cert_ref = some client;
  etcd_ca_cert_ref = some etcd;
  front_proxy_ca_cert_ref = some front_proxy;
}

-- What the certificate store answers to the four calls that are made in a session, in their order: the
-- CAs of the cluster, of etcd and of the front proxy, and the conductor's certificate.
abbrev pub Answered : Cloud → Session → String → String → String → String → Type 0
Answered cloud s ca client etcd front_proxy =
    let i = get_issuer_name s.cluster in
    let second = cert_store i ∷ s.events in
    let third = cert_store i ∷ second in
    (cloud.store_cert s.events i ≡ ok ca)
    × (cloud.store_cert second i ≡ ok etcd)
    × (cloud.store_cert third i ≡ ok front_proxy)
    × (cloud.store_cert (cert_store i ∷ third) "Magnum-Conductor" ≡ ok client)

-- generate_certificates_to_cluster is all or nothing: it sets all four references, each to what the
-- certificate store answered for it, or it raises CertificatesToClusterFailed of the cluster and
-- leaves the cluster as it was. The database is not touched.
pub generate_certificates_outcome :
    (cloud : Cloud) (s : Session)
    → let (r, s') = generate_certificates_to_cluster cloud s in
      (s'.db ≡ s.db)
      × (((r ≡ err (certificates_to_cluster_failed s.cluster.uuid))
            × (s'.cluster ≡ s.cluster)
            × (s'.changes ≡ s.changes))
          ⊎ ((r ≡ ok tt)
              × ((a b c d : String) × Answered cloud s a b c d
                  × (s'.cluster ≡ with_certificates a b c d s.cluster)
                  × (s'.changes ≡ λ row. with_certificates a b c d (s.changes row)))))
unfolding generate_certificates_to_cluster
generate_certificates_outcome cloud s =
    let i = get_issuer_name s.cluster in
    let e1 = cert_store i ∷ s.events in
    let e2 = cert_store i ∷ e1 in
    let e3 = cert_store i ∷ e2 in
    elim (Result-cases (cloud.store_cert s.events i)) [
      | inr (e, no_a) ↦ rw no_a (refl, inl (refl, refl, refl))
      | inl (a, is_a) ↦ elim (Result-cases (cloud.store_cert e1 i)) [
        | inr (e, no_c) ↦ rw is_a (rw no_c (refl, inl (refl, refl, refl)))
        | inl (c, is_c) ↦ elim (Result-cases (cloud.store_cert e2 i)) [
          | inr (e, no_d) ↦ rw is_a (rw is_c (rw no_d (refl, inl (refl, refl, refl))))
          | inl (d, is_d) ↦ elim (Result-cases (cloud.store_cert e3 "Magnum-Conductor")) [
            | inr (e, no_b) ↦ rw is_a (rw is_c (rw is_d (rw no_b (refl, inl (refl, refl, refl)))))
            | inl (b, is_b) ↦ rw is_a (
                rw is_c (
                  rw is_d (
                    rw is_b
                      (refl, inr (refl, (a, b, c, d, (refl, refl, refl, refl), refl, refl))))))
          ]
        ]
      ]
    ]

abbrev pub is_deletion_of : String → Event → Bool
is_deletion_of ref (cert_delete r) = str_eq r ref
is_deletion_of _ _ = false

-- One deletion is done without raising.
pub try_delete_cert_lem :
    (cloud : Cloud) (ref : Option String) (s : Session)
    → let (r, s') = try_delete_cert cloud ref s in
      (r ≡ ok tt) × (s'.db ≡ s.db) × (s'.cluster ≡ s.cluster) × (s'.nodegroup ≡ s.nodegroup)
unfolding try_delete_cert
try_delete_cert_lem cloud ref s = ground arith

try_delete_cert_other :
    (cloud : Cloud) (other : Option String) (ref : String) (s : Session)
    → other ≢ some ref
    → any (is_deletion_of ref) s.events ≡ false
    → any (is_deletion_of ref) (try_delete_cert cloud other s).1.events ≡ false
unfolding try_delete_cert
try_delete_cert_other cloud none ref s ne before = before
try_delete_cert_other cloud (some x) ref s ne before = ground (arith, eq_iff x ref)

delete_certificates_lem :
    (cloud : Cloud) (s : Session)
    → delete_certificates_from_cluster cloud s
      ≡ try_delete_cert cloud s.cluster.magnum_cert_ref
          (try_delete_cert cloud s.cluster.ca_cert_ref s).1
unfolding delete_certificates_from_cluster
delete_certificates_lem cloud s =
    bind_ok (try_delete_cert cloud s.cluster.ca_cert_ref) _
      (cc (try_delete_cert_lem cloud s.cluster.ca_cert_ref s).0)

-- delete_certificates_from_cluster deletes at most two of a cluster's four certificates: one whose
-- reference is neither ca_cert_ref nor magnum_cert_ref, such as that of etcd's or of the front
-- proxy's CA, is not deleted, so if it was not deleted before it is not deleted after.
pub delete_certificates_leaves_others :
    (cloud : Cloud) (ref : String) (s : Session)
    → s.cluster.ca_cert_ref ≢ some ref
    → s.cluster.magnum_cert_ref ≢ some ref
    → any (is_deletion_of ref) s.events ≡ false
    → any (is_deletion_of ref) (delete_certificates_from_cluster cloud s).1.events ≡ false
delete_certificates_leaves_others cloud ref s not_ca not_client before =
    rw (delete_certificates_lem cloud s) (
      try_delete_cert_other cloud s.cluster.magnum_cert_ref ref
        (try_delete_cert cloud s.cluster.ca_cert_ref s).1 not_client
        (try_delete_cert_other cloud s.cluster.ca_cert_ref ref s not_ca before))

-- delete_certificates_from_cluster never raises, and changes neither the objects nor the database.
pub delete_certificates_never_raises :
    (cloud : Cloud) (s : Session)
    → let (r, s') = delete_certificates_from_cluster cloud s in
      (r ≡ ok tt) × (s'.db ≡ s.db) × (s'.cluster ≡ s.cluster) × (s'.nodegroup ≡ s.nodegroup)
delete_certificates_never_raises cloud s =
    let first = try_delete_cert_lem cloud s.cluster.ca_cert_ref s in
    let second =
      try_delete_cert_lem cloud s.cluster.magnum_cert_ref
        (try_delete_cert cloud s.cluster.ca_cert_ref s).1 in
    rw (delete_certificates_lem cloud s)
      (second.0, second.1 ∙ first.1, second.2 ∙ first.2, second.3 ∙ first.3)
