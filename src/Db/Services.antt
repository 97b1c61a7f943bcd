-- ===== src/Db/Services.antt =====
-- The magnum_service operations of `Connection` in magnum/db/sqlalchemy/api.py. A row tells when a
-- process of Magnum was seen alive.
use magnum.Common.{
  ℕ, Bool, false, ◌&&◌, ltb, ◌==◌, String, str_eq, Option, none, some, List, [], ◌∷◌, ◌++◌, select,
  any, if◌then◌else◌,
}
use magnum.Errors.{
  Error, Result, ok, err, ◌>>=◌, magnum_service_not_found, multiple_results_found, unexpected,
}
use magnum.Db.Table.{one, one_or, update_where, delete_where}

-- Times are counted in a fixed unit from a fixed moment, and are never earlier.
pub record MagnumService : Type 0 where
  pub id : ℕ
  pub host : String
  pub binary : String
  pub disabled : Bool
  pub disabled_reason : Option String
  pub last_seen_up : Option ℕ
  pub forced_down : Bool
  pub report_count : ℕ
  pub created_at : Option ℕ
  pub updated_at : Option ℕ

-- What oslo.db's TimestampMixin does to a row that is inserted or updated at a time.
pub record Timestamps : Type 0 where
  pub on_insert : ℕ → MagnumService → MagnumService
  pub on_update : ℕ → MagnumService → MagnumService

abbrev pub has_id : ℕ → MagnumService → Bool
has_id n s = s.id == n

abbrev pub runs_at : String → String → MagnumService → Bool
runs_at host binary s = str_eq s.host host && str_eq s.binary binary

abbrev pub missing : ℕ → Error
missing magnum_service_id = magnum_service_not_found magnum_service_id

-- The ids that the program passes are those of objects, which are numbers.
unfoldable pub destroy_magnum_service : ℕ → List MagnumService → Result (List MagnumService)
destroy_magnum_service magnum_service_id services =
    elim (select (has_id magnum_service_id) services) [
      | s ∷ [] ↦ ok (delete_where (has_id magnum_service_id) services)
      | _ ↦ err (missing magnum_service_id)
    ]

-- `ref.last_seen_up = timeutils.utcnow()`, if the values have a report_count above the row's
unfoldable pub see_up : ℕ → Option ℕ → MagnumService → MagnumService
see_up utcnow none ref = ref
see_up utcnow (some report_count) ref =
    if ltb ref.report_count report_count then record ref { last_seen_up = some utcnow } else ref

-- `ref.update(values)`, where `values` is the report_count, if it is among them, and the others
unfoldable pub assign_report_count : Option ℕ → MagnumService → MagnumService
assign_report_count none ref = ref
assign_report_count (some report_count) ref = record ref { report_count = report_count }

unfoldable pub update_row :
    Timestamps → ℕ → Option ℕ → (MagnumService → MagnumService) → MagnumService → MagnumService
update_row stamps utcnow report_count others ref =
    stamps.on_update utcnow
      (others (assign_report_count report_count (see_up utcnow report_count ref)))

unfoldable pub update_magnum_service :
    Timestamps
    → ℕ
    → ℕ
    → Option ℕ
    → (MagnumService → MagnumService)
    → List MagnumService
    → Result (List MagnumService)
unfolding one_or
update_magnum_service stamps utcnow magnum_service_id report_count others services = do
  ref ← one (missing magnum_service_id) (select (has_id magnum_service_id) services)
  ok (
      update_where (has_id magnum_service_id) (update_row stamps utcnow report_count others)
        services)

-- `return None` where there is no row
abbrev pub found_or_none : List MagnumService → Result (Option MagnumService)
found_or_none [] = ok none
found_or_none (s ∷ []) = ok (some s)
found_or_none (_ ∷ _ ∷ _) = err multiple_results_found

unfoldable pub get_magnum_service_by_host_and_binary :
    String → String → List MagnumService → Result (Option MagnumService)
get_magnum_service_by_host_and_binary host binary services =
    found_or_none (select (runs_at host binary) services)

-- A new row has its id from the database and the defaults of the model's columns.
abbrev pub new_service : ℕ → String → String → MagnumService
new_service n host binary = record {
  id = n;
  host = host;
  binary = binary;
  disabled = false;
  disabled_reason = none;
  last_seen_up = none;
  forced_down = false;
  report_count = 0;
  created_at = none;
  updated_at = none;
}

-- DBDuplicateEntry: there is one row for each host and binary; NoResultFound cannot follow.
unfoldable pub create_magnum_service :
    Timestamps
    → ℕ
    → ℕ
    → String
    → String
    → List MagnumService
    → Result (MagnumService × List MagnumService)
unfolding one_or
create_magnum_service stamps utcnow n host binary services =
    if any (runs_at host binary) services
    then (do
      found ← one (unexpected "No row was found for one()") (select (runs_at host binary) services)
      ok (found, services))
    else (let row = stamps.on_insert utcnow (new_service n host binary) in
        ok (row, services ++ row ∷ []))

-- `get_magnum_service_list`, without a page; `disabled` is given and true, or not.
unfoldable pub get_magnum_service_list : Bool → List MagnumService → List MagnumService
get_magnum_service_list disabled services =
    if disabled then select (λ (s : MagnumService). s.disabled) services else services
