-- ===== src/Api/Quotas/Laws.antt =====
-- What the requests that change a quota (magnum/api/controllers/v1/quota.py) do to the limit that
-- the creation of clusters obeys (magnum/api/controllers/v1/cluster.py).
use mathlib.Core.Path.{subst}
use magnum.Common.{
  ℕ, ◌≡◌, refl, sym, ap, ◌∙◌, true, false, String, str_eq, str_eq_refl, eq_iff, Option, none, some,
  List, arith, select,
}
use magnum.Errors.{Result, ok, ◌>>=◌, answer_of, ok_inj}
use magnum.Db.Table.{
  select-append_false, select-holds, select-update_where_one, select-delete_where,
  select-delete_where_one,
}
use magnum.Db.Tenant.{Context}
use magnum.Db.Quotas.{Quota, names_quota, create_quota, update_quota, delete_quota, cluster_limit}
use magnum.Api.Resources.{Services}
use magnum.Api.Quotas.{QuotaBody, validated, project_given, or_id, post, patch, delete}
use magnum.Api.Quotas.Rows.{
  limit_of_rows, cluster_limit-rows, create_quota-rows, update_quota-rows, delete_quota-rows,
}

-- A request of the controller.
pub data QuotaRequest : Type 0 where
  post_quota : QuotaBody → QuotaRequest
  patch_quota : String → String → QuotaBody → QuotaRequest
  delete_quota_of : String → String → QuotaRequest

-- The project and the resource that it is about, and the limit that it asks for.
abbrev pub project_of : QuotaRequest → Option String
project_of (post_quota body) = body.project_id
project_of (patch_quota p r body) = some p
project_of (delete_quota_of p r) = some p

abbrev pub resource_of : QuotaRequest → String
resource_of (post_quota body) = body.resource
resource_of (patch_quota p r body) = r
resource_of (delete_quota_of p r) = r

abbrev pub limit_asked : ℕ → QuotaRequest → ℕ
limit_asked default (post_quota body) = body.hard_limit
limit_asked default (patch_quota p r body) = body.hard_limit
limit_asked default (delete_quota_of p r) = default

-- A row of one project is not one of another.
not_of_other :
    (p r other : String) (q : Quota)
    → names_quota p r q ≡ true
    → str_eq p other ≡ false
    → names_quota other "Cluster" q ≡ false
not_of_other p r other q h differ =
    ground (arith, eq_iff q.project_id p, eq_iff p other, eq_iff q.project_id other)

project_given-eq :
    (project_id : Option String) (q p : String)
    → project_given project_id ≡ ok q
    → project_id ≡ some p
    → q ≡ p
project_given-eq none q p h e = cc
project_given-eq (some s) q p h e = ground (arith, e)

module _ (api : Services) (ctx : Context) (projects_get : Option String → Result (Unit {0}))
    (n : ℕ) where
  -- The table after a request is served.
  abbrev pub served : QuotaRequest → List Quota → Result (List Quota)
  served (post_quota body) quotas = do
    (row, after) ← post api ctx projects_get n body quotas
    ok after
  served (patch_quota p r body) quotas = do (row, after) ← patch api ctx p r body quotas; ok after
  served (delete_quota_of p r) quotas = delete api ctx p r quotas

  -- What the table's operations are called with, where a request is accepted.
  abbrev values_of : String → QuotaBody → Quota
  values_of p body = record {
    id = n;
    project_id = p;
    resource = body.resource;
    hard_limit = body.hard_limit;
  }

  abbrev patched : String → String → QuotaBody → Quota → Quota
  patched p r body q = record {
    id = or_id q.id body.id;
    project_id = p;
    resource = r;
    hard_limit = body.hard_limit;
  }

  abbrev Stored : String → QuotaRequest → List Quota → List Quota → Type 0
  Stored p (post_quota body) quotas after =
      (row : Quota) × (create_quota (or_id n body.id) (values_of p body) quotas ≡ ok (row, after))
  Stored p (patch_quota _ r body) quotas after =
      (row : Quota) × (update_quota p r (patched p r body) quotas ≡ ok (row, after))
  Stored p (delete_quota_of _ r) quotas after = delete_quota p r quotas ≡ ok after

  post-Stored :
      (body : QuotaBody) (p : String) (quotas after : List Quota) (row : Quota)
      → body.project_id ≡ some p
      → post api ctx projects_get n body quotas ≡ ok (row, after)
      → create_quota (or_id n body.id) (values_of p body) quotas ≡ ok (row, after)
  unfolding post
  post-Stored body p quotas after row of_p h =
      let (_, _, h1) = answer_of (validated body.project_id (projects_get body.project_id)) _ h in
      let (_, _, h2) = answer_of (api.enforce ctx "quota:create" none) _ h1 in
      let (q, given_q, h3) = answer_of (project_given body.project_id) _ h2 in
      subst (λ x. create_quota (or_id n body.id) (values_of x body) quotas ≡ ok (row, after))
        (project_given-eq body.project_id q p given_q of_p) h3

  patch-Stored :
      (p r : String) (body : QuotaBody) (quotas after : List Quota) (row : Quota)
      → patch api ctx p r body quotas ≡ ok (row, after)
      → update_quota p r (patched p r body) quotas ≡ ok (row, after)
  unfolding patch
  patch-Stored p r body quotas after row h = (answer_of (api.enforce ctx "quota:update" none) _ h).2

  served-Stored :
      (request : QuotaRequest) (p : String) (quotas after : List Quota)
      → served request quotas ≡ ok after
      → project_of request ≡ some p
      → Stored p request quotas after
  unfolding delete
  served-Stored (post_quota body) p quotas after h of_p =
      let ((row, new), stored, same) = answer_of (post api ctx projects_get n body quotas) _ h in
      (row, post-Stored body p quotas after row of_p (stored ∙ ap (λ x. ok (row, x)) (ok_inj same)))
  served-Stored (patch_quota q r body) p quotas after h of_p =
      let ((row, new), stored, same) = answer_of (patch api ctx q r body quotas) _ h in
      let same_p : q ≡ p = cc in
      (
        row,
        subst (λ x. update_quota x r (patched x r body) quotas ≡ ok (row, after)) same_p
            (patch-Stored q r body quotas after row (stored ∙ ap (λ x. ok (row, x)) (ok_inj same))),
      )
  served-Stored (delete_quota_of q r) p quotas after h of_p =
      let same_p : q ≡ p = cc in
      subst (λ x. delete_quota x r quotas ≡ ok after) same_p
        (answer_of (api.enforce ctx "quota:delete" none) _ h).2

  -- The limit that is stored, and the rows of other projects, which stay.
  Stored-limit :
      (default : ℕ) (p : String) (request : QuotaRequest) (quotas after : List Quota)
      → Stored p request quotas after
      → limit_of_rows default (select (names_quota p (resource_of request)) after)
        ≡ ok (limit_asked default request)
  Stored-limit default p (post_quota body) quotas after (row, h) =
      let (made, stored, none_yet, only) =
        create_quota-rows (or_id n body.id) (values_of p body) row quotas after h in
      ap (limit_of_rows default) only ∙ ap (λ (q : Quota). ok q.hard_limit) made
  Stored-limit default p (patch_quota _ r body) quotas after (row, h) =
      let (q, only, stored, now) =
        update_quota-rows p r (patched p r body) row quotas after
          (λ q. rw (str_eq_refl p, str_eq_refl r) refl) h in
      ap (limit_of_rows default) now
  Stored-limit default p (delete_quota_of _ r) quotas after h =
      let (q, only, stored) = delete_quota-rows p r quotas after h in
      ap (λ x. limit_of_rows default (select (names_quota p r) x)) stored
      ∙ ap (limit_of_rows default) (select-delete_where (names_quota p r) quotas)

  Stored-others :
      (p other : String) (request : QuotaRequest) (quotas after : List Quota)
      → Stored p request quotas after
      → str_eq p other ≡ false
      → select (names_quota other "Cluster") after ≡ select (names_quota other "Cluster") quotas
  Stored-others p other (post_quota body) quotas after (row, h) differ =
      let (made, stored, none_yet, only) =
        create_quota-rows (or_id n body.id) (values_of p body) row quotas after h in
      ap (select (names_quota other "Cluster")) stored
      ∙ select-append_false (names_quota other "Cluster") quotas row (
          not_of_other p body.resource other row
            (select-holds (names_quota p body.resource) row after only) differ)
  Stored-others p other (patch_quota _ r body) quotas after (row, h) differ =
      let (q, only, stored, now) =
        update_quota-rows p r (patched p r body) row quotas after
          (λ q. rw (str_eq_refl p, str_eq_refl r) refl) h in
      ap (select (names_quota other "Cluster")) stored
      ∙ select-update_where_one (names_quota p r) (names_quota other "Cluster") (patched p r body) q
          quotas only
          (not_of_other p r other q (select-holds (names_quota p r) q quotas only) differ)
          (not_of_other p r other (patched p r body q)
            (select-holds (names_quota p r) (patched p r body q) after now) differ)
  Stored-others p other (delete_quota_of _ r) quotas after h differ =
      let (q, only, stored) = delete_quota-rows p r quotas after h in
      ap (select (names_quota other "Cluster")) stored
      ∙ select-delete_where_one (names_quota p r) (names_quota other "Cluster") q quotas only
          (not_of_other p r other q (select-holds (names_quota p r) q quotas only) differ)

  -- A request on a quota sets the limit that the creation of clusters obeys, and nobody else's:
  -- where the controller accepts a POST, PATCH or DELETE on the quota of a project for clusters, the
  -- project's limit is afterwards the hard_limit of the request, or that of the configuration after
  -- a DELETE, and the limit of any other project is what it was.
  pub quota_request_sets_limit :
      (default : ℕ) (request : QuotaRequest) (p other : String) (of_p of_other : Context)
      (quotas after : List Quota)
      → served request quotas ≡ ok after
      → project_of request ≡ some p
      → resource_of request ≡ "Cluster"
      → of_p.project_id ≡ some p
      → of_other.project_id ≡ some other
      → str_eq p other ≡ false
      → (cluster_limit default of_p after ≡ ok (limit_asked default request))
        × (cluster_limit default of_other after ≡ cluster_limit default of_other quotas)
  quota_request_sets_limit default request p other of_p of_other quotas after h project resource hp
        ho differ =
      let stored = served-Stored request p quotas after h project in
      (
        cluster_limit-rows default of_p p after hp
            ∙ subst
                (λ r.
                  limit_of_rows default (select (names_quota p r) after)
                  ≡ ok (limit_asked default request))
                resource (Stored-limit default p request quotas after stored),
        cluster_limit-rows default of_other other after ho
            ∙ ap (limit_of_rows default) (Stored-others p other request quotas after stored differ)
            ∙ sym (cluster_limit-rows default of_other other quotas ho),
      )
