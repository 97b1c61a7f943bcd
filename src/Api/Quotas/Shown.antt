-- ===== src/Api/Quotas/Shown.antt =====
-- The quota that get_one of magnum/api/controllers/v1/quota.py shows, and the limit that holds.
use magnum.Common.{
  ℕ, ◌≡◌, refl, sym, ap, ◌∙◌, true, false, not, ◌&&◌, String, eq_of_str_eq, eq_iff, Option, none,
  some, List, [], ◌∷◌, ◌⊎◌, inl, inr, arith, select, Bool-cases,
}
use magnum.Errors.{ok, answer_of, ok_inj, quota_not_found, multiple_results_found}
use magnum.Db.Table.{one_or, select-holds}
use magnum.Db.Tenant.{Context, is_text}
use magnum.Db.Quotas.{Quota, quota_of, get_quota_by_project_id_resource, cluster_limit}
use magnum.Api.Resources.{Services}
use magnum.Api.Quotas.{QuotaBody, shown, get_one}
use magnum.Api.Quotas.Rows.{limit_of_rows, quota_of-names_quota, cluster_limit-rows}

shown-limit :
    (default : ℕ) (p text : String) (rows : List Quota) (q : QuotaBody)
    → shown default p (one_or (quota_not_found text) multiple_results_found rows) ≡ ok q
    → limit_of_rows default rows ≡ ok q.hard_limit
unfolding one_or
shown-limit default p text [] q h = ap (λ (x : QuotaBody). ok x.hard_limit) (ok_inj h)
shown-limit default p text (x ∷ []) q h = ap (λ (x : QuotaBody). ok x.hard_limit) (ok_inj h)
shown-limit default p text (_ ∷ _ ∷ _) q h = cc

shown-project :
    (default : ℕ) (p text : String) (rows : List Quota) (q : QuotaBody)
    → ((x : Quota) → rows ≡ x ∷ [] → x.project_id ≡ p)
    → shown default p (one_or (quota_not_found text) multiple_results_found rows) ≡ ok q
    → q.project_id ≡ some p
unfolding one_or
shown-project default p text [] q of_p h = ap (λ (x : QuotaBody). x.project_id) (sym (ok_inj h))
shown-project default p text (x ∷ []) q of_p h =
    ap (λ (x : QuotaBody). x.project_id) (sym (ok_inj h)) ∙ ap some (of_p x refl)
shown-project default p text (_ ∷ _ ∷ _) q of_p h = cc

project_of_found :
    (p : String) (x : Quota) (quotas : List Quota)
    → select (quota_of (some p) "Cluster") quotas ≡ x ∷ []
    → x.project_id ≡ p
project_of_found p x quotas only =
    ground (arith, select-holds (quota_of (some p) "Cluster") x quotas only, eq_iff p x.project_id)

is_text-eq : (o : Option String) (p : String) → is_text o p ≡ true → o ≡ some p
is_text-eq none p h = cc
is_text-eq (some s) p h = ap some (eq_of_str_eq h)

may_see :
    (ctx : Context) (p : String)
    → (not ctx.is_admin && not (is_text ctx.project_id p)) ≡ false
    → (ctx.is_admin ≡ true) ⊎ (ctx.project_id ≡ some p)
may_see ctx p h = elim (Bool-cases ctx.is_admin) [
  | inl admin ↦ inl admin
  | inr other ↦ inr (is_text-eq ctx.project_id p ground arith)
]

-- What a project's quota is shown to be is the limit that the creation of clusters obeys: where
-- get_one answers a request for the quota of a project on clusters, it shows that project and that
-- limit, and the request is an administrator's or the project's own.
pub get_one_shows_limit :
    (api : Services) (ctx of_p : Context) (default : ℕ) (p : String) (quotas : List Quota)
    (q : QuotaBody)
    → get_one api ctx default p "Cluster" quotas ≡ ok q
    → of_p.project_id ≡ some p
    → (cluster_limit default of_p quotas ≡ ok q.hard_limit)
      × (q.project_id ≡ some p)
      × ((ctx.is_admin ≡ true) ⊎ (ctx.project_id ≡ some p))
unfolding get_one get_quota_by_project_id_resource
get_one_shows_limit api ctx of_p default p quotas q h hp =
    let (_, _, rest) = answer_of (api.enforce ctx "quota:get" none) _ h in
    elim (Bool-cases (not ctx.is_admin && not (is_text ctx.project_id p))) [
      | inl refused ↦ absurd (cc (rw refused at rest))
      | inr admitted ↦
          let answer = rw admitted at rest in
          let rows = select (quota_of (some p) "Cluster") quotas in
          (
            cluster_limit-rows default of_p p quotas hp
                ∙ ap (limit_of_rows default) (sym (quota_of-names_quota p "Cluster" quotas))
                ∙ shown-limit default p _ rows q answer,
            shown-project default p _ rows q (λ x only. project_of_found p x quotas only) answer,
            may_see ctx p admitted,
          )
    ]
