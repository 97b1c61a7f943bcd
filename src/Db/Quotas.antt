-- ===== src/Db/Quotas.antt =====
-- The quota operations of `Connection` in magnum/db/sqlalchemy/api.py, the number of clusters that a
-- request sees, and the limit that magnum/api/controllers/v1/cluster.py sets on it.
pub mod Laws
use magnum.Common.{
  ℕ, Bool, true, false, not, ◌&&◌, ◌||◌, leb, ◌==◌, String, str_eq, Option, none, some, List, [],
  ◌∷◌, ◌++◌, select, any, length, if◌then◌else◌,
}
use magnum.Common.Text.{◌^+◌}
use magnum.Errors.{
  Error, Result, ok, err, ◌>>=◌, quota_not_found, quota_already_exists, resource_limit_exceeded,
  unexpected,
}
use magnum.Objects.{Cluster, Database}
use magnum.Db.Table.{one, one_or, update_where, delete_where}
use magnum.Db.Tenant.{Context, Keystone, tenant_filter, is_text}

pub record Quota : Type 0 where
  pub id : ℕ
  pub project_id : String
  pub resource : String
  pub hard_limit : ℕ

abbrev pub names_quota : String → String → Quota → Bool
names_quota project_id resource q = str_eq q.project_id project_id && str_eq q.resource resource

-- `create_quota`, given the id among the values or else the database's: an id is used once, and a
-- project has one quota for each resource.
unfoldable pub create_quota : ℕ → Quota → List Quota → Result (Quota × List Quota)
create_quota n values quotas =
    let row = record values { id = n } in
    if any (λ q. names_quota row.project_id row.resource q || q.id == n) quotas
    then err (quota_already_exists row.project_id row.resource)
    else ok (row, quotas ++ row ∷ [])

abbrev pub no_quota : String → String → Error
no_quota project_id resource =
    quota_not_found ("project_id " ^+ project_id ^+ " resource " ^+ resource ^+ ".")

-- The transaction fails if the row gets another row's id.
abbrev pub id_taken : String → String → Quota → List Quota → Bool
id_taken project_id resource ref quotas =
    any (λ q. q.id == ref.id && not (names_quota project_id resource q)) quotas

-- `update_quota`, with `ref.update(values)` as a function on the row
unfoldable pub update_quota :
    String → String → (Quota → Quota) → List Quota → Result (Quota × List Quota)
unfolding one_or
update_quota project_id resource assign quotas = do
  ref ← one (no_quota project_id resource) (select (names_quota project_id resource) quotas)
  if id_taken project_id resource (assign ref) quotas
      then err (unexpected "DBDuplicateEntry")
      else ok (assign ref, update_where (names_quota project_id resource) assign quotas)

unfoldable pub delete_quota : String → String → List Quota → Result (List Quota)
unfolding one_or
delete_quota project_id resource quotas = do
  found ← one (no_quota project_id resource) (select (names_quota project_id resource) quotas)
  ok (delete_where (names_quota project_id resource) quotas)

unfoldable pub quota_get_all_by_project_id : String → List Quota → List Quota
quota_get_all_by_project_id project_id quotas =
    select (λ (q : Quota). str_eq q.project_id project_id) quotas

-- The filters resource and project_id of `_add_quota_filters`, each of them given or not
unfoldable pub add_quota_filters : Option String → Option (Option String) → Quota → Bool
add_quota_filters resource project_id q =
    elim resource [ none ↦ true | some r ↦ str_eq q.resource r ]
    && elim project_id [ none ↦ true | some p ↦ is_text p q.project_id ]

-- `get_quota_list`, without a page
unfoldable pub get_quota_list : Option String → Option (Option String) → List Quota → List Quota
unfolding add_quota_filters
get_quota_list resource project_id quotas = select (add_quota_filters resource project_id) quotas

unfoldable pub get_quota_by_id : ℕ → List Quota → Result Quota
unfolding one_or
get_quota_by_id quota_id quotas =
    one (quota_not_found "quota id .") (select (λ (q : Quota). q.id == quota_id) quotas)

-- The project of a request may be absent, and then no row has it.
abbrev pub quota_of : Option String → String → Quota → Bool
quota_of project_id resource q = is_text project_id q.project_id && str_eq q.resource resource

abbrev pub project_text : Option String → String
project_text none = "None"
project_text (some p) = p

unfoldable pub get_quota_by_project_id_resource : Option String → String → List Quota → Result Quota
unfolding one_or
get_quota_by_project_id_resource project_id resource quotas =
    one (no_quota (project_text project_id) resource) (select (quota_of project_id resource) quotas)

-- `get_cluster_count_all`, without filters
unfoldable pub get_cluster_count_all : Keystone → Context → Database → Result ℕ
unfolding tenant_filter
get_cluster_count_all k ctx d = do
  mine ← tenant_filter k (λ (c : Cluster). c.project_id) (λ c. c.user_id) ctx
  ok (length (select mine d.clusters))

-- `except exception.QuotaNotFound`: the limit of the configuration
abbrev pub limit_or_default : ℕ → Result Quota → Result ℕ
limit_or_default max_clusters_per_project (ok q) = ok q.hard_limit
limit_or_default max_clusters_per_project (err (quota_not_found _)) = ok max_clusters_per_project
limit_or_default max_clusters_per_project (err e) = err e

unfoldable pub cluster_limit : ℕ → Context → List Quota → Result ℕ
unfolding get_quota_by_project_id_resource
cluster_limit max_clusters_per_project ctx quotas =
    limit_or_default max_clusters_per_project
      (get_quota_by_project_id_resource ctx.project_id "Cluster" quotas)

-- `_check_cluster_quota_limit`; the text leaves out the number.
unfoldable pub check_cluster_quota_limit :
    Keystone → ℕ → Context → List Quota → Database → Result (Unit {0})
unfolding cluster_limit get_cluster_count_all
check_cluster_quota_limit k max_clusters_per_project ctx quotas d = do
  limit ← cluster_limit max_clusters_per_project ctx quotas
  count ← get_cluster_count_all k ctx d
  if leb limit count
      then err (resource_limit_exceeded "You have reached the maximum clusters per project.")
      else ok tt
