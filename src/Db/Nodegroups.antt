-- ===== src/Db/Nodegroups.antt =====
-- The nodegroup operations of `Connection` in magnum/db/sqlalchemy/api.py.
pub mod Laws
pub mod RoundTrip
use magnum.Common.{
  ℕ, Bool, true, false, not, ◌&&◌, ◌||◌, ◌==◌, String, str_eq, Option, none, some, List, [], ◌∷◌,
  ◌++◌, if◌then◌else◌, select, any, length,
}
use magnum.Errors.{
  Error, Result, ok, err, ◌>>=◌, conflict, nodegroup_not_found, nodegroup_already_exists,
}
use magnum.Status.{ClusterStatus, is_in}
use magnum.Objects.{NodeGroup, Database}
use magnum.Db.Table.{Identity, one, one_or, update_where, delete_where, identity_filter}
use magnum.Db.Tenant.{Context, is_text}
use magnum.Db.Clusters.{identity_text}

abbrev pub with_nodegroups : Database → List NodeGroup → Database
with_nodegroups d rows = record d { nodegroups = rows }

abbrev pub nodegroup_filter : Identity → Result (NodeGroup → Bool)
nodegroup_filter i = identity_filter (λ n. n.id) (λ n. n.uuid) i

-- The rows of a cluster that a request sees: an administrator's are not restricted.
unfoldable pub may_see : Context → String → NodeGroup → Bool
may_see ctx cluster_id n =
    (ctx.is_admin || is_text ctx.project_id n.project_id) && str_eq n.cluster_id cluster_id

-- The filters of `_add_nodegoup_filters`; an absent one lets every row pass.
pub record Filters : Type 0 where
  pub name : Option String
  pub node_count : Option ℕ
  pub role : Option String
  pub is_default : Option Bool
  pub status : Option (List ClusterStatus)

abbrev pub no_filters : Filters
no_filters = record {
  name = none;
  node_count = none;
  role = none;
  is_default = none;
  status = none;
}

abbrev pub same_bool : Bool → Bool → Bool
same_bool true b = b
same_bool false b = not b

abbrev pub passes {ℓ} : {A : Type ℓ} → (A → Bool) → Option A → Bool
passes p none = true
passes p (some a) = p a

unfoldable pub add_nodegroup_filters : Filters → NodeGroup → Bool
add_nodegroup_filters f n =
    passes (λ v. str_eq n.name v) f.name
    && (passes (λ v. n.node_count == v) f.node_count
        && (passes (λ v. str_eq n.role v) f.role
            && (passes (λ v. same_bool n.is_default v) f.is_default
                && passes (λ v. is_in n.status v) f.status)))

-- `create_nodegroup`, given the id and the uuid of a new row. The table has two constraints: the
-- uuid is unique, and the name is unique within its cluster.
abbrev pub clashes : NodeGroup → NodeGroup → Bool
clashes row n =
    str_eq n.uuid row.uuid || (str_eq n.cluster_id row.cluster_id && str_eq n.name row.name)

unfoldable pub insert_nodegroup : NodeGroup → Database → Result (NodeGroup × Database)
insert_nodegroup row d =
    if any (clashes row) d.nodegroups
    then err (nodegroup_already_exists row.name row.cluster_id)
    else ok (row, with_nodegroups d (d.nodegroups ++ row ∷ []))

unfoldable pub create_nodegroup : ℕ → String → NodeGroup → Database → Result (NodeGroup × Database)
unfolding insert_nodegroup
create_nodegroup n u values d =
    let uuid = if str_eq values.uuid "" then u else values.uuid in
    insert_nodegroup (record values { id = n; uuid = uuid }) d

unfoldable pub destroy_nodegroup : String → Identity → Database → Result Database
unfolding identity_filter one_or
destroy_nodegroup cluster_id i d = do
  p ← nodegroup_filter i
  let q = λ (n : NodeGroup). p n && str_eq n.cluster_id cluster_id
  found ← one (nodegroup_not_found (identity_text i)) (select q d.nodegroups)
  ok (with_nodegroups d (delete_where q d.nodegroups))

-- `update_nodegroup`, which is `_do_update_nodegroup`: a uuid among the values is not refused.
unfoldable pub update_nodegroup :
    String → Identity → (NodeGroup → NodeGroup) → Database → Result Database
unfolding identity_filter one_or
update_nodegroup cluster_id i assign d = do
  p ← nodegroup_filter i
  let q = λ (n : NodeGroup). p n && str_eq n.cluster_id cluster_id
  found ← one (nodegroup_not_found (identity_text i)) (select q d.nodegroups)
  ok (with_nodegroups d (update_where q assign d.nodegroups))

unfoldable pub get_nodegroup_by_id : Context → String → ℕ → Database → Result NodeGroup
unfolding may_see one_or
get_nodegroup_by_id ctx cluster_id i d =
    one (nodegroup_not_found "id")
      (select (λ n. n.id == i) (select (may_see ctx cluster_id) d.nodegroups))

unfoldable pub get_nodegroup_by_uuid : Context → String → String → Database → Result NodeGroup
unfolding may_see one_or
get_nodegroup_by_uuid ctx cluster_id u d =
    one (nodegroup_not_found u)
      (select (λ n. str_eq n.uuid u) (select (may_see ctx cluster_id) d.nodegroups))

abbrev many_nodegroups : Error
many_nodegroups =
    conflict "Multiple nodegroups exist with same name. Please use the nodegroup uuid instead."

unfoldable pub get_nodegroup_by_name : Context → String → String → Database → Result NodeGroup
unfolding may_see one_or
get_nodegroup_by_name ctx cluster_id name d =
    one_or (nodegroup_not_found name) many_nodegroups
      (select (λ n. str_eq n.name name) (select (may_see ctx cluster_id) d.nodegroups))

unfoldable pub list_cluster_nodegroups : Context → String → Filters → Database → List NodeGroup
unfolding may_see add_nodegroup_filters
list_cluster_nodegroups ctx cluster_id f d =
    select (add_nodegroup_filters f) (select (may_see ctx cluster_id) d.nodegroups)

unfoldable pub get_cluster_nodegroup_count : Context → String → Database → ℕ
unfolding may_see
get_cluster_nodegroup_count ctx cluster_id d = length (select (may_see ctx cluster_id) d.nodegroups)
