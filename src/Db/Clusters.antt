-- ===== src/Db/Clusters.antt =====
-- The cluster and ClusterTemplate operations of `Connection` in magnum/db/sqlalchemy/api.py. What
-- `uuidutils.generate_uuid` and the database's counter give to a new row is an argument.
pub mod Laws
pub mod References
pub mod Recipes
pub mod Templates
pub mod Lists
pub mod Isolation
use magnum.Common.{
  ℕ, Bool, true, false, not, ◌&&◌, ◌||◌, ◌==◌, String, str_eq, Option, none, some, List, [], ◌∷◌,
  ◌++◌, if◌then◌else◌, select, any, length, sum, map, ◌+◌,
}
use magnum.Errors.{
  Error, Result, ok, err, ◌>>=◌, conflict, cluster_not_found, cluster_already_exists,
  cluster_template_not_found, cluster_template_referenced, invalid_parameter_value,
}
use magnum.Objects.{Cluster, NodeGroup, ClusterTemplate, Database}
use magnum.Db.Table.{
  Identity, int_like, uuid_like, unlike, one, one_or, update_where, delete_where, count_where,
  identity_filter,
}
use magnum.Db.Tenant.{Context, Keystone, tenant_filter, given, is_text}

-- The values of an update: whether they name the uuid, and what they do to a row.
pub record Values (R : Type 0) : Type 0 where
  pub has_uuid : Bool
  pub assign : R → R

abbrev pub identity_text : Identity → String
identity_text (int_like _) = "int"
identity_text (uuid_like u) = u
identity_text (unlike t) = t

abbrev pub many_clusters : Error
many_clusters =
    conflict "Multiple clusters exist with same name. Please use the cluster uuid instead."

abbrev pub is_name : Option String → String → Bool
is_name none _ = false
is_name (some n) m = str_eq n m

abbrev pub with_clusters : Database → List Cluster → Database
with_clusters d rows = record d { clusters = rows }

abbrev pub cluster_filter : Identity → Result (Cluster → Bool)
cluster_filter i = identity_filter (λ c. c.id) (λ c. c.uuid) i

-- The insertion of a row, under the database's constraint that uuids are unique.
unfoldable pub insert_cluster : Cluster → Database → Result (Cluster × Database)
insert_cluster row d =
    if any (λ c. str_eq c.uuid row.uuid) d.clusters
    then err (cluster_already_exists row.uuid)
    else ok (row, with_clusters d (d.clusters ++ row ∷ []))

-- `create_cluster`, given the id and the uuid that a new row is to get.
unfoldable pub create_cluster : ℕ → String → Cluster → Database → Result (Cluster × Database)
unfolding insert_cluster
create_cluster n u values d =
    let uuid = if str_eq values.uuid "" then u else values.uuid in
    insert_cluster (record values { id = n; uuid = uuid }) d

module _ (k : Keystone) where
  abbrev pub visible_clusters : Context → Database → Result (List Cluster)
  visible_clusters ctx d = do
    mine ← tenant_filter k (λ c. c.project_id) (λ c. c.user_id) ctx
    ok (select mine d.clusters)

  unfoldable pub get_cluster_by_id : Context → ℕ → Database → Result Cluster
  unfolding tenant_filter
  get_cluster_by_id ctx n d = do
    rows ← visible_clusters ctx d
    one (cluster_not_found "id") (select (λ c. c.id == n) rows)

  unfoldable pub get_cluster_by_name : Context → String → Database → Result Cluster
  get_cluster_by_name ctx n d = do
    rows ← visible_clusters ctx d
    one_or (cluster_not_found n) many_clusters (select (λ c. is_name c.name n) rows)

  unfoldable pub get_cluster_by_uuid : Context → String → Database → Result Cluster
  get_cluster_by_uuid ctx u d = do
    rows ← visible_clusters ctx d
    one (cluster_not_found u) (select (λ c. str_eq c.uuid u) rows)

  -- The ClusterTemplates of the tenant, together with those that are public.
  unfoldable pub get_cluster_template_by_uuid : Context → String → Database → Result ClusterTemplate
  unfolding tenant_filter one_or
  get_cluster_template_by_uuid ctx u d = do
    mine ← tenant_filter k (λ (t : ClusterTemplate). t.project_id) (λ t. t.user_id) ctx
    one (cluster_template_not_found u) (
        select (λ (t : ClusterTemplate). str_eq t.uuid u)
          (select (λ t. mine t || t.is_public) d.templates))

unfoldable pub destroy_cluster : Identity → Database → Result Database
unfolding identity_filter one_or
destroy_cluster i d = do
  p ← cluster_filter i
  found ← one (cluster_not_found (identity_text i)) (select p d.clusters)
  ok (with_clusters d (delete_where p d.clusters))

unfoldable pub do_update_cluster : Identity → Values Cluster → Database → Result Database
unfolding identity_filter one_or
do_update_cluster i values d = do
  p ← cluster_filter i
  found ← one (cluster_not_found (identity_text i)) (select p d.clusters)
  ok (with_clusters d (update_where p values.assign d.clusters))

unfoldable pub update_cluster : Identity → Values Cluster → Database → Result Database
unfolding do_update_cluster
update_cluster i values d =
    if values.has_uuid
    then err (invalid_parameter_value "Cannot overwrite UUID for an existing Cluster.")
    else do_update_cluster i values d

-- `get_cluster_stats(context, project_id=None)`: how many clusters and nodes there are.
unfoldable pub get_cluster_stats : {C : Type 0} → C → Option String → Database → ℕ × ℕ
get_cluster_stats ctx project_id d =
    if given project_id
    then (
      count_where (λ c. is_text project_id c.project_id) d.clusters,
      sum (map (λ n. n.node_count) (select (λ n. is_text project_id n.project_id) d.nodegroups)),
    )
    else (length d.clusters, sum (map (λ n. n.node_count) d.nodegroups))

-- `Cluster.get_stats(context, project_id)` of magnum/objects/cluster.py, which calls
-- `cls.dbapi.get_cluster_stats(project_id)`.
unfoldable pub get_stats : Context → Option String → Database → ℕ × ℕ
unfolding get_cluster_stats
get_stats ctx project_id d = get_cluster_stats project_id none d

abbrev pub template_filter : Identity → Result (ClusterTemplate → Bool)
template_filter i = identity_filter (λ t. t.id) (λ t. t.uuid) i

-- `_is_cluster_template_referenced`
unfoldable pub is_cluster_template_referenced : String → Database → Bool
is_cluster_template_referenced u d = any (λ c. str_eq c.cluster_template_id u) d.clusters

abbrev pub with_templates : Database → List ClusterTemplate → Database
with_templates d rows = record d { templates = rows }

unfoldable pub destroy_cluster_template : Identity → Database → Result Database
unfolding identity_filter one_or is_cluster_template_referenced
destroy_cluster_template i d = do
  p ← template_filter i
  found ← one (cluster_template_not_found (identity_text i)) (select p d.templates)
  if is_cluster_template_referenced found.uuid d
      then err (cluster_template_referenced (identity_text i))
      else ok (with_templates d (delete_where p d.templates))

-- One value of an update of a ClusterTemplate, as far as `_is_publishing_cluster_template` looks.
pub data TemplateValue : Type 0 where
  set_public set_hidden : Bool → TemplateValue
  set_tags : Option String → TemplateValue
  set_name set_uuid : String → TemplateValue
  set_other : (ClusterTemplate → ClusterTemplate) → TemplateValue

abbrev pub assign_value : TemplateValue → ClusterTemplate → ClusterTemplate
assign_value (set_public b) t = record t { is_public = b }
assign_value (set_hidden b) t = record t { hidden = b }
assign_value (set_tags _) t = t
assign_value (set_name n) t = record t { name = n }
assign_value (set_uuid u) t = record t { uuid = u }
assign_value (set_other f) t = f t

abbrev pub assign_values : List TemplateValue → ClusterTemplate → ClusterTemplate
assign_values [] t = t
assign_values (v ∷ vs) t = assign_values vs (assign_value v t)

-- `_is_publishing_cluster_template`: exactly one value, that publishes, hides or tags.
unfoldable pub is_publishing_cluster_template : List TemplateValue → Bool
is_publishing_cluster_template (set_public true ∷ []) = true
is_publishing_cluster_template (set_hidden _ ∷ []) = true
is_publishing_cluster_template (set_tags (some _) ∷ []) = true
is_publishing_cluster_template _ = false

-- `list(six.viewkeys(values)) != ["name"]`, negated
abbrev pub is_renaming : List TemplateValue → Bool
is_renaming (set_name _ ∷ []) = true
is_renaming _ = false

abbrev pub is_uuid_value : TemplateValue → Bool
is_uuid_value (set_uuid _) = true
is_uuid_value _ = false

unfoldable pub do_update_cluster_template :
    Identity → List TemplateValue → Database → Result Database
unfolding identity_filter one_or is_cluster_template_referenced is_publishing_cluster_template
do_update_cluster_template i values d = do
  p ← template_filter i
  found ← one (cluster_template_not_found (identity_text i)) (select p d.templates)
  if is_cluster_template_referenced found.uuid d
        && (not (is_publishing_cluster_template values) && not (is_renaming values))
      then err (cluster_template_referenced (identity_text i))
      else ok (with_templates d (update_where p (assign_values values) d.templates))

unfoldable pub update_cluster_template : Identity → List TemplateValue → Database → Result Database
unfolding do_update_cluster_template
update_cluster_template i values d =
    if any is_uuid_value values
    then err (invalid_parameter_value "Cannot overwrite UUID for an existing ClusterTemplate.")
    else do_update_cluster_template i values d
