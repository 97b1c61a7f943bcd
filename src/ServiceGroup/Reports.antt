-- ===== src/ServiceGroup/Reports.antt =====
-- The row that a report of a process leaves (magnum/servicegroup/magnum_service_periodic.py).
use mathlib.Core.Path.{subst}
use magnum.Common.{
  ℕ, ◌+◌, ◌≤◌, ◌<◌, ◌≡◌, refl, sym, ap, ◌∙◌, String, Option, none, some, List, [], ◌∷◌, ◌++◌, ◌⊎◌,
  inl, inr, arith, select, any-select_nil, str_eq_refl,
}
use magnum.Errors.{ok}
use magnum.Db.Table.{
  one_or, update_where, select-update_where, select-update_where_same, select-holds, select-append,
}
use magnum.Db.Services.{
  MagnumService, Timestamps, has_id, runs_at, see_up, assign_report_count, update_row, new_service,
  update_magnum_service, create_magnum_service, get_magnum_service_by_host_and_binary,
}
use magnum.ServiceGroup.{Reporter, report_state_up, report}

-- The columns that the program writes are the same in two rows.
abbrev pub SameService : MagnumService → MagnumService → Type 0
SameService s t =
    (s.id ≡ t.id)
    × (s.host ≡ t.host)
    × (s.binary ≡ t.binary)
    × (s.last_seen_up ≡ t.last_seen_up)
    × (s.forced_down ≡ t.forced_down)
    × (s.report_count ≡ t.report_count)

-- TimestampMixin writes created_at and updated_at only.
abbrev pub WritesTimes : Timestamps → Type 0
WritesTimes stamps =
    ((t : ℕ) (s : MagnumService) → SameService (stamps.on_insert t s) s)
    × ((t : ℕ) (s : MagnumService) → SameService (stamps.on_update t s) s)

-- The only row of a host and a binary is the only one of its id.
abbrev pub RowOf : String → String → List MagnumService → MagnumService → Type 0
RowOf host binary services row =
    (select (has_id row.id) services ≡ row ∷ [])
    × (select (runs_at host binary) services ≡ row ∷ [])

-- A process has no object and the table one row for it at most, or it has the object of its row,
-- with a report_count that is not behind.
abbrev pub InStep : String → String → Option MagnumService → List MagnumService → Type 0
InStep host binary none services =
    (select (runs_at host binary) services ≡ [])
    ⊎ ((row : MagnumService) × RowOf host binary services row)
InStep host binary (some ref) services =
    (row : MagnumService) × RowOf host binary services row
    × (ref.id ≡ row.id)
    × (row.report_count ≤ ref.report_count)

-- After a report: the object and its row, which was seen at that time.
abbrev pub Seen : String → String → ℕ → Reporter → Type 0
Seen host binary utcnow r =
    (ref row : MagnumService) × (r.magnum_service_ref ≡ some ref)
    × RowOf host binary r.services row
    × (ref.id ≡ row.id)
    × (row.report_count ≤ ref.report_count)
    × (row.last_seen_up ≡ some utcnow)

-- A new row is the only one of its id, and of its host and binary.
RowOf-append :
    (host binary : String) (services : List MagnumService) (row : MagnumService)
    → select (has_id row.id) services ≡ []
    → select (runs_at host binary) services ≡ []
    → row.host ≡ host
    → row.binary ≡ binary
    → RowOf host binary (services ++ row ∷ []) row
RowOf-append host binary services row fresh none_yet at_host of_binary = (
  select-append (has_id row.id) services (row ∷ []) ∙ rw fresh ground arith,
  select-append (runs_at host binary) services (row ∷ [])
      ∙ rw (none_yet, at_host, of_binary, str_eq_refl host, str_eq_refl binary) refl,
)

see_up_newer :
    (utcnow n : ℕ) (row : MagnumService)
    → row.report_count < n
    → see_up utcnow (some n) row ≡ record row { last_seen_up = some utcnow }
unfolding see_up
see_up_newer utcnow n row h = ground arith

module _ (stamps : Timestamps) (times : WritesTimes stamps) (utcnow : ℕ) where
  -- The row that a report writes.
  update_row-newer :
      (n : ℕ) (row : MagnumService)
      → row.report_count < n
      → update_row stamps utcnow (some n) (λ s. s) row
        ≡ stamps.on_update utcnow (record row { last_seen_up = some utcnow; report_count = n })
  unfolding update_row assign_report_count
  update_row-newer n row h =
      ap (λ s. stamps.on_update utcnow (record s { report_count = n }))
        (see_up_newer utcnow n row h)

  update_row_lem :
      (n : ℕ) (row : MagnumService)
      → row.report_count < n
      → SameService
          (update_row stamps utcnow (some n) (λ s. s) row)
          (record row { last_seen_up = some utcnow; report_count = n })
  update_row_lem n row h =
      subst (λ s. SameService s (record row { last_seen_up = some utcnow; report_count = n }))
        (sym (update_row-newer n row h))
        (times.1 utcnow (record row { last_seen_up = some utcnow; report_count = n }))

  -- The number and the table that a report writes.
  abbrev counted : MagnumService → MagnumService
  counted ref = record ref { report_count = ref.report_count + 1 }

  abbrev written : MagnumService → MagnumService → MagnumService
  written ref = update_row stamps utcnow (some (ref.report_count + 1)) (λ s. s)

  abbrev table_after : MagnumService → MagnumService → List MagnumService → List MagnumService
  table_after ref row = update_where (has_id row.id) (written ref)

  report_state_up-table :
      (ref row : MagnumService) (services : List MagnumService)
      → select (has_id row.id) services ≡ row ∷ []
      → ref.id ≡ row.id
      → report_state_up stamps utcnow ref services ≡ (
        ok tt,
        record { magnum_service_ref = some (counted ref); services = table_after ref row services },
      )
  unfolding report_state_up update_magnum_service one_or
  report_state_up-table ref row services found same = rw (same, found) refl

  report_state_up_lem :
      (host binary : String) (ref row : MagnumService) (services : List MagnumService)
      → RowOf host binary services row
      → ref.id ≡ row.id
      → row.report_count ≤ ref.report_count
      → ((report_state_up stamps utcnow ref services).0 ≡ ok tt)
        × Seen host binary utcnow (report_state_up stamps utcnow ref services).1
  report_state_up_lem host binary ref row services h same behind =
      subst (λ a. (a.0 ≡ ok tt) × Seen host binary utcnow a.1)
        (sym (report_state_up-table ref row services h.0 same))
        (
          refl,
          (
            counted ref,
            written ref row,
            refl,
            rows,
            same ∙ sym columns.0,
            ground (arith, columns.5),
            columns.3,
          ),
        )
    where
      columns :
          SameService
            (written ref row)
            (record row { last_seen_up = some utcnow; report_count = ref.report_count + 1 })
      columns = update_row_lem (ref.report_count + 1) row ground arith

      rows : RowOf host binary (table_after ref row services) (written ref row)
      rows = (
        subst (λ i. select (has_id i) (table_after ref row services) ≡ written ref row ∷ [])
            (sym columns.0)
            (select-update_where (has_id row.id) (written ref) row services h.0 ground
              (arith, columns.0)),
        select-update_where_same (has_id row.id) (runs_at host binary) (written ref) row services
            h.0 h.1
            (rw (columns.1, columns.2) (select-holds (runs_at host binary) row services h.1)),
      )

  -- The row of a process that reports for the first time.
  first_row :
      (n : ℕ) (host binary : String) (services : List MagnumService)
      → select (has_id n) services ≡ []
      → select (runs_at host binary) services ≡ []
      → let row = stamps.on_insert utcnow (new_service n host binary) in
        (create_magnum_service stamps utcnow n host binary services
          ≡ ok (row, services ++ row ∷ []))
        × RowOf host binary (services ++ row ∷ []) row
  unfolding create_magnum_service
  first_row n host binary services fresh none_yet = (
    rw (any-select_nil (runs_at host binary) services none_yet) refl,
    RowOf-append host binary services row
        (subst (λ i. select (has_id i) services ≡ []) (sym columns.0) fresh) none_yet (columns.1)
        (columns.2),
  )
    where
      row : MagnumService
      row = stamps.on_insert utcnow (new_service n host binary)

      columns : SameService row (new_service n host binary)
      columns = times.0 utcnow (new_service n host binary)

  pub report_lem :
      (n : ℕ) (host binary : String) (ref : Option MagnumService) (services : List MagnumService)
      → select (has_id n) services ≡ []
      → InStep host binary ref services
      → let after =
          report stamps utcnow n host binary
            (record { magnum_service_ref = ref; services = services }) in
        (after.0 ≡ ok tt) × Seen host binary utcnow after.1
  unfolding report get_magnum_service_by_host_and_binary
  report_lem n host binary (some ref) services fresh (row, rows, same, behind) =
      report_state_up_lem host binary ref row services rows same behind
  report_lem n host binary none services fresh (inr (row, rows)) =
      rw rows.1 (report_state_up_lem host binary row row services rows refl ground arith)
  report_lem n host binary none services fresh (inl none_yet) =
      let (created, rows) = first_row n host binary services fresh none_yet in
      rw (none_yet, created)
        (report_state_up_lem host binary (stamps.on_insert utcnow (new_service n host binary))
          (stamps.on_insert utcnow (new_service n host binary))
          (services ++ stamps.on_insert utcnow (new_service n host binary) ∷ []) rows refl ground
          arith)
