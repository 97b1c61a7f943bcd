-- ===== src/Api/Quotas.antt =====
-- QuotaController of magnum/api/controllers/v1/quota.py over the quotas' table.
pub mod Rows
pub mod Laws
pub mod Shown
use magnum.Common.{
  ℕ, Bool, true, false, not, ◌&&◌, ◌||◌, String, str_eq, Option, none, some, List, if◌then◌else◌,
}
use magnum.Errors.{
  Error, Result, ok, err, ◌>>=◌, http_not_found, invalid_parameter_value, not_authorized,
  project_not_found, quota_not_found,
}
use magnum.Db.Tenant.{Context, is_text, given}
use magnum.Db.Quotas.{
  Quota, project_text, create_quota, update_quota, delete_quota, get_quota_list,
  get_quota_by_project_id_resource,
}
use magnum.Api.Resources.{Services}

-- The API's Quota: the body of a request, with the defaults of what it leaves out (a hard_limit of 1
-- and the resource "Cluster"), and what is shown.
pub record QuotaBody : Type 0 where
  pub id : Option ℕ
  pub hard_limit : ℕ
  pub project_id : Option String
  pub resource : String

-- `Quota.convert`
abbrev pub convert : Quota → QuotaBody
convert q = record {
  id = some q.id;
  hard_limit = q.hard_limit;
  project_id = some q.project_id;
  resource = q.resource;
}

-- The quota of the configuration, where the project has none.
abbrev pub default_quota : ℕ → String → QuotaBody
default_quota max_clusters_per_project project_id = record {
  id = none;
  hard_limit = max_clusters_per_project;
  project_id = some project_id;
  resource = "Cluster";
}

abbrev pub shown : ℕ → String → Result Quota → Result QuotaBody
shown max_clusters_per_project project_id (ok q) = ok (convert q)
shown max_clusters_per_project project_id (err (quota_not_found _)) =
    ok (default_quota max_clusters_per_project project_id)
shown max_clusters_per_project project_id (err e) = err e

-- `_validate_project_id`, given how Keystone answers a look-up of the project
abbrev pub validated : Option String → Result (Unit {0}) → Result (Unit {0})
validated project_id (ok _) = ok tt
validated project_id (err (http_not_found _)) = err (project_not_found (project_text project_id))
validated project_id (err e) = err e

abbrev pub project_given : Option String → Result String
project_given project_id =
    if given project_id
    then ok (project_text project_id)
    else err (invalid_parameter_value "Must provide a valid project ID.")

abbrev pub or_id : ℕ → Option ℕ → ℕ
or_id n none = n
or_id n (some i) = i

module _ (api : Services) (ctx : Context) where
  unfoldable pub get_one : ℕ → String → String → List Quota → Result QuotaBody
  unfolding get_quota_by_project_id_resource
  get_one max_clusters_per_project project_id resource quotas = do
    allowed ← api.enforce ctx "quota:get" none
    if not ctx.is_admin && not (is_text ctx.project_id project_id)
        then err not_authorized
        else shown max_clusters_per_project project_id
            (get_quota_by_project_id_resource (some project_id) resource quotas)

  -- `get_all`, without a page
  unfoldable pub get_all : Bool → List Quota → Result (List Quota)
  unfolding get_quota_list
  get_all all_tenants quotas = do
    allowed ← api.enforce ctx "quota:get_all" none
    ok (
        get_quota_list none
          (if not ctx.is_admin || not all_tenants then some ctx.project_id else none) quotas)

  -- `post`, with its decorator, given how Keystone looks up a project and the id of a new row
  unfoldable pub post :
      (Option String → Result (Unit {0})) → ℕ → QuotaBody → List Quota → Result (Quota × List Quota)
  unfolding create_quota
  post projects_get n quota quotas = do
    exists ← validated quota.project_id (projects_get quota.project_id)
    allowed ← api.enforce ctx "quota:create" none
    project_id ← project_given quota.project_id
    create_quota (or_id n quota.id)
        (record {
          id = n;
          project_id = project_id;
          resource = quota.resource;
          hard_limit = quota.hard_limit;
        })
        quotas

  unfoldable pub patch : String → String → QuotaBody → List Quota → Result (Quota × List Quota)
  unfolding update_quota
  patch project_id resource quotapatch quotas = do
    allowed ← api.enforce ctx "quota:update" none
    update_quota project_id resource
        (λ q. record {
          id = or_id q.id quotapatch.id;
          project_id = project_id;
          resource = resource;
          hard_limit = quotapatch.hard_limit;
        })
        quotas

  unfoldable pub delete : String → String → List Quota → Result (List Quota)
  unfolding delete_quota
  delete project_id resource quotas = do
    allowed ← api.enforce ctx "quota:delete" none
    delete_quota project_id resource quotas
