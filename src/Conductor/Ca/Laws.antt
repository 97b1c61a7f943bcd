-- ===== src/Conductor/Ca/Laws.antt =====
-- What rotate_ca_certificate of magnum/conductor/handlers/ca_conductor.py leaves in the database when
-- the driver refuses.
use magnum.Common.{◌≡◌, refl, true, String, List, [], ◌∷◌, select, inl, inr}
use magnum.Errors.{Error, ok, err, reraise}
use magnum.Status.{is_in, update_failed}
use magnum.Objects.{Cluster}
use magnum.Db.Table.{select-update_where}
use magnum.Session.{Session, Event, notified, action_update, outcome_failure}
use magnum.Session.Store.Laws.{row_of, Saves}
use magnum.Conductor.Driver.{Driver, Env, get_driver_for_cluster}
use magnum.Conductor.Certs.{generate_certificates_to_cluster}
use magnum.Conductor.Certs.Laws.{Answered, with_certificates, generate_certificates_outcome}
use magnum.Conductor.Cluster.Update.{allow_update_status}
use magnum.Conductor.Cluster.Update.Laws.{check_status_passes, failed_cluster, save_failure_lem}
use magnum.Conductor.Ca.{rotate_ca_certificate}

module _ (env : Env) (driver : Driver) (row : Cluster) (e : Error) (evs : List Event)
    (s t : Session) (open_status : is_in s.cluster.status allow_update_status ≡ true)
    (generated : generate_certificates_to_cluster env.cloud s ≡ (ok tt, t))
    (chosen : get_driver_for_cluster env t ≡ (ok driver, t))
    (refuses : driver.rotate_ca_certificate t ≡ (err e, record t { events = evs }))
    (saves : Saves t row) where
  rotation_fails :
      let (r, s') = rotate_ca_certificate env s in
      (r ≡ err (reraise e))
      × (select (row_of t.cluster) s'.db.clusters ≡ failed_cluster e (t.changes row) ∷ [])
      × (s'.events ≡ notified action_update outcome_failure update_failed ∷ evs)
  unfolding rotate_ca_certificate
  rotation_fails =
      rw
        (check_status_passes allow_update_status "Updating a cluster when status is \"" s
          open_status)
        (rw generated (
          rw chosen (
            rw refuses (
              rw (save_failure_lem e row (record t { events = evs }) saves.0) (
                refl,
                select-update_where (row_of t.cluster) (λ c. failed_cluster e (t.changes c)) row
                    t.db.clusters saves.0 saves.1,
                refl,
              )))))

  -- A rotation of the CA that the driver refuses after the certificates were generated replaces the
  -- cluster's certificates all the same: the exception goes on, a failure is notified, and the
  -- cluster's row says UPDATE_FAILED and has the four references that the certificate store answered
  -- during the call, whatever references the row had. The driver is assumed to have changed neither
  -- the objects nor the database. The cluster is assumed to have one row, whose uuid the pending
  -- changes keep.
  pub rotation_failure_replaces_certificates :
      let (r, s') = rotate_ca_certificate env s in
      (r ≡ err (reraise e))
      × (s'.events ≡ notified action_update outcome_failure update_failed ∷ evs)
      × ((a b c d : String) × Answered env.cloud s a b c d
          × (select (row_of s.cluster) s'.db.clusters
              ≡ failed_cluster e (with_certificates a b c d (s.changes row)) ∷ []))
  rotation_failure_replaces_certificates =
      let (r, found, events) = rotation_fails in
      let outcome = generate_certificates_outcome env.cloud s in
      elim outcome.1 [
        | inl failed ↦ absurd (cc (failed.0, generated))
        | inr (fine, (a, b, c, d, answers, object, same)) ↦
            let new_object : t.cluster ≡ with_certificates a b c d s.cluster =
              cc (object, generated) in
            let new : t.changes ≡ (λ r. with_certificates a b c d (s.changes r)) =
              cc (same, generated) in
            (r, events, (a, b, c, d, answers, rw (new_object, new) at found))
      ]
