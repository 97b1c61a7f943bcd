-- ===== src/Periodic.antt =====
-- ClusterUpdateJob and ClusterHealthUpdateJob of magnum/service/periodic.py. The exception
-- LoopingCallDone, with which each of them ends its only round, is the end of the action.
pub mod Laws
pub mod Sync
use magnum.Common.{Bool, true, false, String, Option, none, some, List, [], ◌∷◌, if◌then◌else◌}
use magnum.Common.Text.{codes, occurs_in, ◌^+◌}
use magnum.Errors.{Error, Result, ok, err, unexpected, authorization_failure}
use magnum.Status.{
  ClusterStatus, ClusterHealthStatus, create_complete, create_failed, update_complete,
  update_failed, delete_complete, delete_failed, rollback_complete, rollback_failed, is,
  is_complete, is_failed, value,
}
use magnum.Objects.{Dict, Cluster}
use magnum.Session.{
  Session, Action, CadfAction, action_create, action_update, action_delete, CadfOutcome,
  outcome_success, outcome_failure, pure, raise, lift, gets, on_cluster, ◌>>=◌, ◌>>◌, try_except,
}
use magnum.Session.Store.{cluster_save, notify}
use magnum.Conductor.Driver.{Driver, Env, get_driver_for_cluster}
use magnum.Conductor.Cluster.Delete.{destroy_rows}

-- `status_to_event[status]`
unfoldable pub status_to_event : ClusterStatus → Result CadfAction
status_to_event delete_complete = ok action_delete
status_to_event create_complete = ok action_create
status_to_event update_complete = ok action_update
status_to_event rollback_complete = ok action_update
status_to_event create_failed = ok action_create
status_to_event delete_failed = ok action_delete
status_to_event update_failed = ok action_update
status_to_event rollback_failed = ok action_update
status_to_event st = err (unexpected (value st))

abbrev trust_text : Option String → String
trust_text none = "None"
trust_text (some t) = t

-- `trust_ex in str(e)`
unfoldable pub names_trust : Option String → String → Bool
names_trust trust_id text =
    occurs_in (codes ("Could not find trust: " ^+ trust_text trust_id)) (codes text)

-- A notification, if the test holds of the status.
unfoldable pub notify_if : (ClusterStatus → Bool) → CadfOutcome → Action (Unit {0})
notify_if p outcome s =
    if p s.cluster.status
    then (do action ← lift (status_to_event s.cluster.status); notify action outcome) s
    else (ok tt, s)

-- The status update notifications.
unfoldable pub notify_status : Action (Unit {0})
notify_status = do notify_if is_complete outcome_success; notify_if is_failed outcome_failure

-- What ClusterUpdateJob does once the driver has brought the status up to date.
unfoldable pub conclude : Env → Action (Unit {0})
conclude env = do
  notify_status
  st ← gets (λ s. s.cluster.status)
  if is st delete_complete then destroy_rows env else pure tt

-- `except exception.AuthorizationFailure as e`
unfoldable pub retry_as_admin : Driver → Error → Action (Unit {0})
retry_as_admin driver (authorization_failure text) = λ s.
    if names_trust s.cluster.trust_id text
    then driver.update_cluster_status true s
    else (err (authorization_failure text), s)
retry_as_admin driver e = raise e

unfoldable pub update_status : Env → Action (Unit {0})
update_status env = do
  driver ← get_driver_for_cluster env
  try_except (driver.update_cluster_status false) (retry_as_admin driver)
  conclude env

-- What a monitor has collected, or the exception of its poll.
abbrev pub Monitor : Type 0
Monitor = Result (Option ClusterHealthStatus × Option Dict)

-- `_update_health_status`, given the monitor of the cluster's driver, if it has one
unfoldable pub update_health_status : Option Monitor → Action (Unit {0})
update_health_status none = pure tt
update_health_status (some (err e)) = pure tt
update_health_status (some (ok (none, reason))) = pure tt
update_health_status (some (ok (some health, reason))) = do
  on_cluster
      (λ (c : Cluster). record c { health_status = some health; health_status_reason = reason })
  cluster_save
