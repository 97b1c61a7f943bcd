-- ===== src/Db/Clusters/Templates.antt =====
-- The lookups of ClusterTemplates by id and name, their list and their creation, in
-- magnum/db/sqlalchemy/api.py, with `ClusterTemplate.get` of magnum/objects/cluster_template.py.
use magnum.Common.{
  ℕ, not, ◌&&◌, ◌||◌, ◌==◌, String, str_eq, List, [], ◌∷◌, ◌++◌, select, any, if◌then◌else◌,
}
use magnum.Errors.{
  Error, Result, ok, err, ◌>>=◌, conflict, cluster_template_not_found,
  cluster_template_already_exists,
}
use magnum.Objects.{ClusterTemplate, Database}
use magnum.Db.Table.{Identity, int_like, uuid_like, unlike, one, one_or}
use magnum.Db.Tenant.{Context, Keystone, tenant_filter}
use magnum.Db.Clusters.{get_cluster_template_by_uuid}

abbrev many_templates : Error
many_templates =
    conflict
      "Multiple ClusterTemplates exist with same name. Please use the ClusterTemplate uuid instead."

module _ (k : Keystone) where
  abbrev mine_or_public : Context → Database → Result (List ClusterTemplate)
  mine_or_public ctx d = do
    mine ← tenant_filter k (λ (t : ClusterTemplate). t.project_id) (λ t. t.user_id) ctx
    ok (select (λ (t : ClusterTemplate). mine t || t.is_public) d.templates)

  unfoldable pub get_cluster_template_by_id : Context → ℕ → Database → Result ClusterTemplate
  unfolding tenant_filter one_or
  get_cluster_template_by_id ctx n d = do
    rows ← mine_or_public ctx d
    one (cluster_template_not_found "id") (select (λ (t : ClusterTemplate). t.id == n) rows)

  unfoldable pub get_cluster_template_by_name : Context → String → Database → Result ClusterTemplate
  unfolding tenant_filter one_or
  get_cluster_template_by_name ctx n d = do
    rows ← mine_or_public ctx d
    one_or (cluster_template_not_found n) many_templates
        (select (λ (t : ClusterTemplate). str_eq t.name n) rows)

  -- `ClusterTemplate.get`
  unfoldable pub get_cluster_template : Context → Identity → Database → Result ClusterTemplate
  unfolding get_cluster_template_by_id get_cluster_template_by_name get_cluster_template_by_uuid
  get_cluster_template ctx (int_like n) d = get_cluster_template_by_id ctx n d
  get_cluster_template ctx (uuid_like u) d = get_cluster_template_by_uuid k ctx u d
  get_cluster_template ctx (unlike t) d = get_cluster_template_by_name ctx t d

  -- `get_cluster_template_list`, without filters and pages: the hidden public ClusterTemplates of
  -- other tenants are an administrator's.
  unfoldable pub get_cluster_template_list : Context → Database → Result (List ClusterTemplate)
  unfolding tenant_filter
  get_cluster_template_list ctx d = do
    mine ← tenant_filter k (λ (t : ClusterTemplate). t.project_id) (λ t. t.user_id) ctx
    ok (
        select
          (λ (t : ClusterTemplate).
            mine t || (t.is_public && (not t.hidden || (ctx.is_admin && t.hidden))))
          d.templates)

-- `create_cluster_template`, given the id and the uuid that a new row is to get
unfoldable pub create_cluster_template :
    ℕ → String → ClusterTemplate → Database → Result (ClusterTemplate × Database)
create_cluster_template n u values d =
    let row = record values { id = n; uuid = if str_eq values.uuid "" then u else values.uuid } in
    if any (λ (t : ClusterTemplate). str_eq t.uuid row.uuid) d.templates
    then err (cluster_template_already_exists row.uuid)
    else ok (row, record d { templates = d.templates ++ row ∷ [] })
