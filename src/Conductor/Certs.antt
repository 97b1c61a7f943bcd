-- ===== src/Conductor/Certs.antt =====
-- magnum/conductor/handlers/common/cert_manager.py: the four certificates of a cluster. The
-- cryptography is the `cryptography` package's; storing a certificate is a call of the certificate
-- store, which answers a reference.
pub mod Laws
use magnum.Common.{
  Option, none, some, String, str_eq, ◌≡◌, refl, Bool, true, false, ◌||◌, if◌then◌else◌,
}
use magnum.Errors.{Error, Result, certificates_to_cluster_failed}
use magnum.Objects.{Cluster}
use magnum.Session.{
  Cloud, Action, Session, pure, raise, gets, on_cluster, call, try_except, cert_store, cert_delete,
  ◌>>=◌, ◌>>◌, tell, client_files_delete,
}
use magnum.Conductor.Trust.{try_call}

-- `_get_issuer_name`
abbrev pub get_issuer_name : Cluster → String
get_issuer_name c = elim c.name [ some n ↦ n | none ↦ c.uuid ]

-- `_generate_ca_cert` and `_generate_client_cert`, as far as they reach the store
abbrev pub store : Cloud → String → Action String
store cloud name = call (cert_store name) (λ evs. cloud.store_cert evs name)

unfoldable pub generate_certificates_to_cluster : Cloud → Action (Unit {0})
generate_certificates_to_cluster cloud =
    try_except
      (do
        issuer ← gets (λ s. get_issuer_name s.cluster)
        ca ← store cloud issuer
        etcd_ca ← store cloud issuer
        front_proxy_ca ← store cloud issuer
        client ← store cloud "Magnum-Conductor"
        on_cluster (λ (c : Cluster). record c {
          ca_cert_ref = some ca;
          magnum_cert_ref = some client;
          etcd_ca_cert_ref = some etcd_ca;
          front_proxy_ca_cert_ref = some front_proxy_ca;
        }))
      (λ _ s. raise (certificates_to_cluster_failed s.cluster.uuid) s)

-- The choice of the reference in `get_cluster_ca_certificate` and `sign_node_certificate`.
unfoldable pub ca_ref : Cluster → Option String → Option String
ca_ref c none = c.ca_cert_ref
ca_ref c (some type) =
    if str_eq type "etcd"
    then c.etcd_ca_cert_ref
    else if str_eq type "front_proxy" || str_eq type "front-proxy"
    then c.front_proxy_ca_cert_ref
    else c.ca_cert_ref

-- The deletion of one certificate, where there is a reference; a failure is only logged.
unfoldable pub try_delete_cert : Cloud → Option String → Action (Unit {0})
try_delete_cert cloud ref =
    try_call ref (λ r. call (cert_delete r) (λ evs. cloud.delete_cert evs r))

-- `delete_certificates_from_cluster`: two of the four references.
unfoldable pub delete_certificates_from_cluster : Cloud → Action (Unit {0})
delete_certificates_from_cluster cloud s =
    (try_delete_cert cloud s.cluster.ca_cert_ref >> try_delete_cert cloud s.cluster.magnum_cert_ref)
      s

-- `delete_client_files`: the directory of a cluster is removed, and a failure is only logged.
unfoldable pub delete_client_files : Action (Unit {0})
delete_client_files s = tell (client_files_delete s.cluster.uuid) s
