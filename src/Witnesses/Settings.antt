-- ===== src/Witnesses/Settings.antt =====
-- Runs of the laws of ServiceGroup, Api/Quotas and Api/Labels.
use magnum.Common.{
  ◌≡◌, refl, true, false, not, ◌&&◌, leb, ◌+◌, none, some, List, [], ◌∷◌, ◌⊎◌, inl, or_else,
  if◌then◌else◌, arith,
}
use magnum.Common.Dicts.{lookup, has_key, set_item}
use magnum.Errors.{ok}
use magnum.Objects.{Dict}
use magnum.Db.Tenant.{Context}
use magnum.Db.Services.{
  MagnumService, Timestamps, get_magnum_service_by_host_and_binary, new_service,
}
use magnum.ServiceGroup.{Reporter, report, service_is_up}
use magnum.ServiceGroup.Reports.{InStep}
use magnum.ServiceGroup.Laws.{report_shows_up}
use magnum.Db.Quotas.{Quota, cluster_limit}
use magnum.Api.Resources.{Services}
use magnum.Api.Quotas.{QuotaBody, get_one, post, convert}
use magnum.Api.Quotas.Laws.{post_quota, served, limit_asked, quota_request_sets_limit}
use magnum.Api.Quotas.Shown.{get_one_shows_limit}
use magnum.Api.Labels.{diff_label, diff_labels, get_labels_diff}
use magnum.Api.Labels.Laws.{get_labels_diff_recovers}
use magnum.Samples.{admin, ann, keystone}

-- Rows that are stamped when they are written.
abbrev stamps : Timestamps
stamps = record {
  on_insert = λ t s. record s { created_at = some t };
  on_update = λ t s. record s { updated_at = some t };
}

-- A conductor's row, and a new process of the API.
abbrev conductor : MagnumService
conductor = record (new_service 1 "a" "magnum-conductor") {
  report_count = 4;
  last_seen_up = some 90;
}

abbrev starting : Reporter
starting = record { magnum_service_ref = none; services = conductor ∷ [] }

report_shows_up_example :
    let after = report stamps 100 2 "a" "magnum-api" starting in
    (after.0 ≡ ok tt)
    × InStep "a" "magnum-api" after.1.magnum_service_ref after.1.services
    × ((row : MagnumService) × (get_magnum_service_by_host_and_binary "a" "magnum-api"
            after.1.services
          ≡ ok (some row))
        × (service_is_up 180 250 row ≡ ok (not row.forced_down && leb 250 (100 + 180))))
report_shows_up_example =
    report_shows_up stamps
      ((λ t s. (refl, refl, refl, refl, refl, refl)), (λ t s. (refl, refl, refl, refl, refl, refl)))
      100 2 "a" "magnum-api" starting refl (inl refl) 180 250 ground arith

abbrev api : Services
api = record {
  enforce = λ _ _ _. ok tt;
  keystone = keystone;
  is_int_like = λ _. none;
  is_uuid_like = λ _. false;
  generate_name = "lively-parrot";
  generate_uuid = "u-7";
  max_limit = 1000;
}

abbrev of_red : Quota
of_red = record { id = 1; project_id = "red"; resource = "Cluster"; hard_limit = 3 }

abbrev body : QuotaBody
body = record { id = none; hard_limit = 8; project_id = some "blue"; resource = "Cluster" }

abbrev quotas_after : List Quota
quotas_after =
    of_red ∷ record { id = 5; project_id = "blue"; resource = "Cluster"; hard_limit = 8 } ∷ []

abbrev red : Context
red = record ann { project_id = some "red" }

quota_posted : served api admin (λ _. ok tt) 5 (post_quota body) (of_red ∷ []) ≡ ok quotas_after
unfolding post
quota_posted = refl

quota_request_sets_limit_example :
    (cluster_limit 20 ann quotas_after ≡ ok (limit_asked 20 (post_quota body)))
    × (cluster_limit 20 red quotas_after ≡ cluster_limit 20 red (of_red ∷ []))
quota_request_sets_limit_example =
    quota_request_sets_limit api admin (λ _. ok tt) 5 20 (post_quota body) "blue" "red" ann red
      (of_red ∷ []) quotas_after quota_posted refl refl refl refl refl

quota_shown : get_one api red 20 "red" "Cluster" quotas_after ≡ ok (convert of_red)
unfolding get_one
quota_shown = refl

get_one_shows_limit_example :
    (cluster_limit 20 red quotas_after ≡ ok 3)
    × ((convert of_red).project_id ≡ some "red")
    × ((red.is_admin ≡ true) ⊎ (red.project_id ≡ some "red"))
get_one_shows_limit_example =
    get_one_shows_limit api red red 20 "red" quotas_after (convert of_red) quota_shown refl

-- Labels of a ClusterTemplate and of a cluster: one is the same, one overridden, one skipped, one
-- added.
abbrev template_labels : Dict
template_labels = ("ingress", "octavia") ∷ ("kube_tag", "v1.18") ∷ ("debug", "no") ∷ []

abbrev cluster_labels : Dict
cluster_labels = ("ingress", "octavia") ∷ ("kube_tag", "v1.19") ∷ ("dashboard", "yes") ∷ []

get_labels_diff_recovers_example :
    let diff = get_labels_diff template_labels cluster_labels in
    lookup "kube_tag" template_labels
    ≡ or_else (lookup "kube_tag" diff.0.0) (
        or_else
          (lookup "kube_tag" diff.1)
          (if has_key "kube_tag" diff.0.1 then none else lookup "kube_tag" cluster_labels))
get_labels_diff_recovers_example =
    get_labels_diff_recovers template_labels cluster_labels "kube_tag" (refl, (refl, (refl, tt)))

diff_of_labels :
    get_labels_diff template_labels cluster_labels
    ≡ ((("kube_tag", "v1.18") ∷ [], ("dashboard", "yes") ∷ []), ("debug", "no") ∷ [])
unfolding get_labels_diff diff_labels diff_label set_item
diff_of_labels = refl
