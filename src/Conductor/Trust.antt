-- ===== src/Conductor/Trust.antt =====
-- magnum/conductor/handlers/common/trust_manager.py.
pub mod Laws
use magnum.Common.{Option, none, some, String, str_eq, if◌then◌else◌}
use magnum.Common.Text.{◌^+◌}
use magnum.Errors.{Error, Result, trustee_or_trust_to_cluster_failed}
use magnum.Objects.{Cluster}
use magnum.Session.{
  Cloud, Action, Session, pure, raise, gets, on_cluster, call, try_except, trustee_create,
  trust_create, trustee_delete, trust_delete, ◌>>=◌, ◌>>◌,
}

-- The trustee's fields are set on the cluster before the trust is asked for.
unfoldable pub create_trustee_and_trust : Cloud → Action (Unit {0})
create_trustee_and_trust cloud =
    try_except
      (do
        password ← gets (λ s. cloud.generate_password s.events)
        c ← gets (λ s. s.cluster)
        (name, id) ←
            call (trustee_create (c.uuid ^+ "_" ^+ c.project_id))
              (λ evs. cloud.create_trustee evs (c.uuid ^+ "_" ^+ c.project_id))
        on_cluster (λ (c : Cluster). record c {
          trustee_username = some name;
          trustee_user_id = some id;
          trustee_password = some password;
        })
        trust ← call (trust_create id) (λ evs. cloud.create_trust evs id)
        on_cluster (λ (c : Cluster). record c { trust_id = some trust }))
      (λ _ s. raise (trustee_or_trust_to_cluster_failed s.cluster.uuid) s)

-- A deletion that is only tried, where there is an id: whatever it raises is swallowed.
abbrev pub try_call : Option String → (String → Action (Unit {0})) → Action (Unit {0})
try_call none delete = pure tt
try_call (some id) delete = if str_eq id "" then pure tt else try_except (delete id) (λ _. pure tt)

unfoldable pub delete_trustee_and_trust : Cloud → Action (Unit {0})
delete_trustee_and_trust cloud s =
    (try_call s.cluster.trust_id (λ id. call (trust_delete id) (λ evs. cloud.delete_trust evs id))
        >> try_call s.cluster.trustee_user_id
            (λ id. call (trustee_delete id) (λ evs. cloud.delete_trustee evs id)))
      s
