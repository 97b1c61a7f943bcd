-- ===== src/Status.antt =====
-- The status of a cluster or of a nodegroup: ClusterStatus and ClusterHealthStatus of
-- magnum/objects/fields.py. A status is an enumeration of texts; `value` gives the text of each,
-- and the tests by prefix and suffix that the program makes are taken on that text.
pub mod Laws
mod Tests
use magnum.Common.{ℕ, ◌≡◌, refl, Bool, true, false, ◌||◌, List, [], ◌∷◌, String, ◌==◌}
use magnum.Common.Text.{codes, ends_with, begins_with}

pub data ClusterStatus : Type 0 where
  create_in_progress create_failed create_complete : ClusterStatus
  update_in_progress update_failed update_complete : ClusterStatus
  delete_in_progress delete_failed delete_complete : ClusterStatus
  resume_complete resume_failed restore_complete : ClusterStatus
  rollback_in_progress rollback_failed rollback_complete : ClusterStatus
  snapshot_complete check_complete adopt_complete : ClusterStatus

pub data ClusterHealthStatus : Type 0 where
  healthy unhealthy unknown : ClusterHealthStatus

-- The text that stands for a status in the database and in Heat's answers.
abbrev pub value : ClusterStatus → String
value create_in_progress = "CREATE_IN_PROGRESS"
value create_failed = "CREATE_FAILED"
value create_complete = "CREATE_COMPLETE"
value update_in_progress = "UPDATE_IN_PROGRESS"
value update_failed = "UPDATE_FAILED"
value update_complete = "UPDATE_COMPLETE"
value delete_in_progress = "DELETE_IN_PROGRESS"
value delete_failed = "DELETE_FAILED"
value delete_complete = "DELETE_COMPLETE"
value resume_complete = "RESUME_COMPLETE"
value resume_failed = "RESUME_FAILED"
value restore_complete = "RESTORE_COMPLETE"
value rollback_in_progress = "ROLLBACK_IN_PROGRESS"
value rollback_failed = "ROLLBACK_FAILED"
value rollback_complete = "ROLLBACK_COMPLETE"
value snapshot_complete = "SNAPSHOT_COMPLETE"
value check_complete = "CHECK_COMPLETE"
value adopt_complete = "ADOPT_COMPLETE"

-- The place of a status in `ClusterStatus.ALL`.
abbrev pub index : ClusterStatus → ℕ
index create_in_progress = 0
index create_failed = 1
index create_complete = 2
index update_in_progress = 3
index update_failed = 4
index update_complete = 5
index delete_in_progress = 6
index delete_failed = 7
index delete_complete = 8
index resume_complete = 9
index resume_failed = 10
index restore_complete = 11
index rollback_in_progress = 12
index rollback_failed = 13
index rollback_complete = 14
index snapshot_complete = 15
index check_complete = 16
index adopt_complete = 17

-- Equality of statuses.
abbrev pub is : ClusterStatus → ClusterStatus → Bool
is s t = index s == index t

-- `status in (…)`
abbrev pub is_in : ClusterStatus → List ClusterStatus → Bool
is_in s [] = false
is_in s (t ∷ ts) = is s t || is_in s ts

-- `status.endswith('_FAILED')` and its fellows.
unfoldable pub is_failed : ClusterStatus → Bool
is_failed s = ends_with (codes (value s)) (codes "_FAILED")

unfoldable pub is_progressing : ClusterStatus → Bool
is_progressing s = ends_with (codes (value s)) (codes "_IN_PROGRESS")

unfoldable pub is_complete : ClusterStatus → Bool
is_complete s = ends_with (codes (value s)) (codes "_COMPLETE")

-- `status.startswith('DELETE')`
unfoldable pub is_delete : ClusterStatus → Bool
is_delete s = begins_with (codes (value s)) (codes "DELETE")
