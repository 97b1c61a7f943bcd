-- ===== src/Periodic/Laws.antt =====
-- What a round of ClusterUpdateJob of magnum/service/periodic.py leaves behind.
use magnum.Common.{
  ◌≡◌, refl, ap, Bool, true, false, String, List, ◌∷◌, ◌⊎◌, inl, inr, if◌then◌else◌,
}
use magnum.Errors.{ok, err, authorization_failure}
use magnum.Status.{ClusterStatus, delete_complete, is, is_complete, is_failed, is_progressing}
use magnum.Status.Laws.{status_trichotomy}
use magnum.Objects.{Cluster}
use magnum.Session.{
  Session, Event, CadfAction, CadfOutcome, notified, action_delete, outcome_success,
  outcome_failure,
}
use magnum.Conductor.Driver.{Driver, Env, get_driver_for_cluster}
use magnum.Conductor.Cluster.Delete.Laws.{Kept, Gone, destroy_rows_all}
use magnum.Periodic.{
  status_to_event, names_trust, notify_if, notify_status, conclude, retry_as_admin, update_status,
}

-- The notifications of a status whose event is known.
abbrev pub news : CadfAction → ClusterStatus → List Event → List Event
news a st evs =
    if is_complete st
    then notified a outcome_success st ∷ evs
    else if is_failed st
    then notified a outcome_failure st ∷ evs
    else evs

notify_if-false :
    (p : ClusterStatus → Bool) (o : CadfOutcome) (s : Session)
    → p s.cluster.status ≡ false
    → notify_if p o s ≡ (ok tt, s)
unfolding notify_if
notify_if-false p o s h = rw h refl

notify_if-true :
    (p : ClusterStatus → Bool) (o : CadfOutcome) (a : CadfAction) (s : Session)
    → p s.cluster.status ≡ true
    → status_to_event s.cluster.status ≡ ok a
    → notify_if p o s ≡ (ok tt, record s { events = notified a o s.cluster.status ∷ s.events })
unfolding notify_if
notify_if-true p o a s h k = rw (h, k) refl

-- A status in progress has no event, and no other status may lack one.
abbrev pub Known : CadfAction → ClusterStatus → Type 0
Known a st = (is_progressing st ≡ true) ⊎ (status_to_event st ≡ ok a)

notify_status_lem :
    (a : CadfAction) (s : Session)
    → Known a s.cluster.status
    → notify_status s ≡ (ok tt, record s { events = news a s.cluster.status s.events })
unfolding notify_status
notify_status_lem a s known = elim (status_trichotomy s.cluster.status) [
  | inl (p, f, c) ↦
      rw (notify_if-false is_complete outcome_success s c)
        (rw (notify_if-false is_failed outcome_failure s f) (rw (f, c)))
  | inr (inl (p, f, c)) ↦ elim known [
    | inl k ↦ absurd (cc (k, p))
    | inr k ↦
        rw (notify_if-false is_complete outcome_success s c)
          (rw (notify_if-true is_failed outcome_failure a s f k) (rw (f, c)))
  ]
  | inr (inr (p, f, c)) ↦ elim known [
    | inl k ↦ absurd (cc (k, p))
    | inr k ↦ rw (notify_if-true is_complete outcome_success a s c k) (
        rw
          (notify_if-false is_failed outcome_failure
            (record s { events = notified a outcome_success s.cluster.status ∷ s.events }) f)
          (rw (f, c)))
  ]
]

module _ (env : Env) (driver : Driver) (s t : Session)
    (chosen : get_driver_for_cluster env s ≡ (ok driver, s)) where
  -- The driver has brought the status up to date, at the first attempt or, where the trust is gone,
  -- as the administrator.
  abbrev pub Updated : Type 0
  Updated =
      (driver.update_cluster_status false s ≡ (ok tt, t))
      ⊎ ((text : String) × (u : Session) × (driver.update_cluster_status false s
            ≡ (err (authorization_failure text), u))
          × (names_trust u.cluster.trust_id text ≡ true)
          × (driver.update_cluster_status true u ≡ (ok tt, t)))

  update_status_concludes : Updated → update_status env s ≡ conclude env t
  unfolding update_status retry_as_admin
  update_status_concludes (inl fine) = rw chosen (rw fine refl)
  update_status_concludes (inr (text, u, refused, gone, fine)) =
      rw chosen (rw refused (rw gone (rw fine refl)))

  -- A round that does not find the cluster deleted changes neither the objects nor the database from
  -- how the driver left them, and sends one notification where the status ends in _COMPLETE or
  -- _FAILED, of success or of failure, and none while the cluster is in progress. It is assumed
  -- that the status, if not in progress, is one of the eight that have an event.
  pub update_status_notifies :
      (a : CadfAction)
      → Updated
      → is t.cluster.status delete_complete ≡ false
      → Known a t.cluster.status
      → update_status env s ≡ (ok tt, record t { events = news a t.cluster.status t.events })
  unfolding conclude
  update_status_notifies a updated kept known =
      rw (update_status_concludes updated) (rw (notify_status_lem a t known) (rw kept refl))

  -- A round that finds the cluster in DELETE_COMPLETE removes it: it returns, and neither a
  -- nodegroup of the cluster that the request sees nor the cluster's row remains. The tables are
  -- assumed to keep their constraints, with one row for the cluster.
  pub update_status_removes :
      (row : Cluster)
      → Updated
      → t.cluster.status ≡ delete_complete
      → Kept row t
      → let (r, s') = update_status env s in (r ≡ ok tt) × Gone env s'
  unfolding conclude status_to_event
  update_status_removes row updated deleted kept =
      let known : Known action_delete t.cluster.status = inr (ap status_to_event deleted) in
      let gone : is t.cluster.status delete_complete ≡ true =
        ap (λ st. is st delete_complete) deleted in
      rw (update_status_concludes updated) (
        rw (notify_status_lem action_delete t known) (
          rw gone (
            destroy_rows_all env row
              (record t { events = news action_delete t.cluster.status t.events }) kept)))
