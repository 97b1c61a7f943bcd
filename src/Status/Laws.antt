-- ===== src/Status/Laws.antt =====
-- What the texts of the statuses of magnum/objects/fields.py determine.
use magnum.Common.{◌≡◌, refl, true, false, ◌⊎◌, inl, inr, arith}
use magnum.Status.{
  ClusterStatus, create_in_progress, create_failed, update_in_progress, update_failed,
  delete_in_progress, delete_failed, resume_failed, rollback_in_progress, rollback_failed, is,
  is_failed, is_progressing, is_complete,
}

pub is_refl : (s : ClusterStatus) → is s s ≡ true
is_refl create_in_progress = refl
is_refl _ = refl

pub eq_of_is : (s t : ClusterStatus) → is s t ≡ true → s ≡ t
eq_of_is s t h = ground arith

-- Every status ends in exactly one of the three suffixes.
pub status_trichotomy :
    (s : ClusterStatus)
    → ((is_progressing s ≡ true) × (is_failed s ≡ false) × (is_complete s ≡ false))
      ⊎ ((is_progressing s ≡ false) × (is_failed s ≡ true) × (is_complete s ≡ false))
      ⊎ ((is_progressing s ≡ false) × (is_failed s ≡ false) × (is_complete s ≡ true))
unfolding is_progressing is_failed is_complete
status_trichotomy create_in_progress = inl (refl, refl, refl)
status_trichotomy update_in_progress = inl (refl, refl, refl)
status_trichotomy delete_in_progress = inl (refl, refl, refl)
status_trichotomy rollback_in_progress = inl (refl, refl, refl)
status_trichotomy create_failed = inr (inl (refl, refl, refl))
status_trichotomy update_failed = inr (inl (refl, refl, refl))
status_trichotomy delete_failed = inr (inl (refl, refl, refl))
status_trichotomy resume_failed = inr (inl (refl, refl, refl))
status_trichotomy rollback_failed = inr (inl (refl, refl, refl))
status_trichotomy _ = inr (inr (refl, refl, refl))
