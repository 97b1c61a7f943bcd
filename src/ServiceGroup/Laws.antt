-- ===== src/ServiceGroup/Laws.antt =====
-- A process of Magnum that reports is seen by the API (magnum/api/servicegroup.py).
use magnum.Common.{ℕ, ◌+◌, ◌≤◌, leb, ◌≡◌, refl, not, String, ◌&&◌, some, [], arith, select}
use magnum.Errors.{ok}
use magnum.Db.Services.{MagnumService, Timestamps, has_id, get_magnum_service_by_host_and_binary}
use magnum.ServiceGroup.{Reporter, report, service_is_up}
use magnum.ServiceGroup.Reports.{WritesTimes, InStep, Seen, report_lem}

service_is_up_lem :
    (service_down_time utcnow now : ℕ) (row : MagnumService)
    → row.last_seen_up ≡ some utcnow
    → utcnow ≤ now
    → service_is_up service_down_time now row
      ≡ ok (not row.forced_down && leb now (utcnow + service_down_time))
unfolding service_is_up
service_is_up_lem service_down_time utcnow now row seen later = rw seen ground arith

Seen-InStep :
    (host binary : String) (utcnow : ℕ) (r : Reporter)
    → Seen host binary utcnow r
    → InStep host binary r.magnum_service_ref r.services
Seen-InStep host binary utcnow r (ref, row, same_ref, rows, same, behind, seen) =
    rw same_ref (row, rows, same, behind)

-- A process that reports is shown as up until it has been silent for longer than service_down_time:
-- where the process is in step with the table, the new row's id would be fresh, and TimestampMixin
-- writes only its own columns, the report succeeds, the process is in step afterwards, so the next
-- report succeeds too, and the one row of its host and binary is up at a later time exactly if it
-- is not forced down and the time is within service_down_time of the report.
pub report_shows_up :
    (stamps : Timestamps)
    → WritesTimes stamps
    → (utcnow n : ℕ) (host binary : String) (r : Reporter) → select (has_id n) r.services ≡ []
    → InStep host binary r.magnum_service_ref r.services
    → (service_down_time now : ℕ) → utcnow ≤ now
    → let after = report stamps utcnow n host binary r in
      (after.0 ≡ ok tt)
      × InStep host binary after.1.magnum_service_ref after.1.services
      × ((row : MagnumService) × (get_magnum_service_by_host_and_binary host binary after.1.services
            ≡ ok (some row))
          × (service_is_up service_down_time now row
              ≡ ok (not row.forced_down && leb now (utcnow + service_down_time))))
unfolding get_magnum_service_by_host_and_binary
report_shows_up stamps times utcnow n host binary r fresh h service_down_time now later =
    let (returns, seen) =
      report_lem stamps times utcnow n host binary r.magnum_service_ref r.services fresh h in
    let (ref, row, same_ref, rows, same, behind, at) = seen in
    (
      returns,
      Seen-InStep host binary utcnow (report stamps utcnow n host binary r).1 seen,
      (row, rw rows.1 refl, service_is_up_lem service_down_time utcnow now row at later),
    )
