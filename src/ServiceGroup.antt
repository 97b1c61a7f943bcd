-- ===== src/ServiceGroup.antt =====
-- How the processes of Magnum report that they are alive: MagnumService of
-- magnum/objects/magnum_service.py, MagnumServicePeriodicTasks of
-- magnum/servicegroup/magnum_service_periodic.py, and the API's view of it,
-- magnum/api/servicegroup.py and magnum/api/controllers/v1/magnum_services.py.
pub mod Reports
pub mod Laws
use magnum.Common.{
  ℕ, Bool, true, false, ◌+◌, ◌-◌, leb, String, Option, none, some, List, [], ◌∷◌, map, or_else,
  if◌then◌else◌,
}
use magnum.Errors.{Error, Result, ok, err, ◌>>=◌, unexpected}
use magnum.Db.Services.{
  MagnumService, Timestamps, update_magnum_service, create_magnum_service,
  get_magnum_service_by_host_and_binary, get_magnum_service_list,
}

-- `magnum_service_ref` of a process, and the table.
pub record Reporter : Type 0 where
  pub magnum_service_ref : Option MagnumService
  pub services : List MagnumService

module _ (stamps : Timestamps) (utcnow : ℕ) where
  -- `report_state_up` of the object that the process keeps. It saves the report_count, which is all
  -- that was changed since the object was read or saved; an exception leaves the object changed.
  abbrev pub after_save :
      MagnumService
      → List MagnumService
      → Result (List MagnumService)
      → Result (Unit {0}) × Reporter
  after_save ref services (ok saved) =
      (ok tt, record { magnum_service_ref = some ref; services = saved })
  after_save ref services (err e) =
      (err e, record { magnum_service_ref = some ref; services = services })

  unfoldable pub report_state_up : MagnumService → List MagnumService → Result (Unit {0}) × Reporter
  unfolding update_magnum_service
  report_state_up ref services =
      let counted = record ref { report_count = ref.report_count + 1 } in
      after_save counted services (
        update_magnum_service stamps utcnow counted.id (some counted.report_count) (λ s. s)
          services)

  -- The object that a process finds or creates at its first report. `create` cannot fail, since the
  -- table has no row for it.
  abbrev pub report_new :
      Reporter → Result (MagnumService × List MagnumService) → Result (Unit {0}) × Reporter
  report_new r (ok (ref, services)) = report_state_up ref services
  report_new r (err e) = (err e, r)

  abbrev pub report_found :
      ℕ → String → String → Reporter → Result (Option MagnumService) → Result (Unit {0}) × Reporter
  report_found n host binary r (ok (some ref)) = report_state_up ref r.services
  report_found n host binary r (ok none) =
      report_new r (create_magnum_service stamps utcnow n host binary r.services)
  report_found n host binary r (err e) = (err e, r)

  -- `update_magnum_service` of the periodic task, of a process that runs `binary` at `host`, given
  -- the id of a new row
  unfoldable pub report : ℕ → String → String → Reporter → Result (Unit {0}) × Reporter
  unfolding report_state_up get_magnum_service_by_host_and_binary create_magnum_service
  report n host binary r = elim r.magnum_service_ref [
    | some ref ↦ report_state_up ref r.services
    | none ↦
        report_found n host binary r (get_magnum_service_by_host_and_binary host binary r.services)
  ]

-- `abs(elapsed) <= self.service_down_time`
abbrev pub distance : ℕ → ℕ → ℕ
distance t u = (t - u) + (u - t)

-- `service_is_up` at a time; a row without any time makes `delta_seconds` fail.
abbrev pub heard_of : ℕ → ℕ → Option ℕ → Result Bool
heard_of service_down_time now none = err (unexpected "unsupported operand type(s) for -")
heard_of service_down_time now (some last_heartbeat) =
    ok (leb (distance last_heartbeat now) service_down_time)

unfoldable pub service_is_up : ℕ → ℕ → MagnumService → Result Bool
service_is_up service_down_time now member =
    if member.forced_down
    then ok false
    else heard_of service_down_time now
        (or_else member.last_seen_up (or_else member.updated_at member.created_at))

-- `convert_db_rec_list_to_collection`: each row with its state
unfoldable pub mservices : ℕ → ℕ → List MagnumService → Result (List (MagnumService × String))
unfolding service_is_up
mservices service_down_time now [] = ok []
mservices service_down_time now (p ∷ services) = do
  alive ← service_is_up service_down_time now p
  rest ← mservices service_down_time now services
  ok ((p, if alive then "up" else "down") ∷ rest)
