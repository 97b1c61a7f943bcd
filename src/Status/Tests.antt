-- ===== src/Status/Tests.antt =====
-- Runs of the status tests.
use magnum.Common.{◌≡◌, refl, true}
use magnum.Status.{rollback_failed, delete_complete, is_failed, is_delete}

rollback_failed_fails : is_failed rollback_failed ≡ true
unfolding is_failed
rollback_failed_fails = refl

delete_complete_deletes : is_delete delete_complete ≡ true
unfolding is_delete
delete_complete_deletes = refl
