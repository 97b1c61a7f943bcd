-- ===== src/Db/Clusters/Isolation.antt =====
-- What the requests of a project can learn from the cluster table (magnum/db/sqlalchemy/api.py).
use magnum.Common.{
  ℕ, ◌≡◌, refl, ap, ◌∙◌, sym, Bool, false, ◌&&◌, String, str_eq, some, List, [], ◌∷◌, ◌==◌, select,
  length, arith,
}
use magnum.Errors.{ok, ◌>>=◌, cluster_not_found}
use magnum.Objects.{Cluster, Database}
use magnum.Db.Table.{one, one_or}
use magnum.Db.Tenant.{Context, Keystone, tenant_filter, is_text}
use magnum.Db.Clusters.{
  visible_clusters, many_clusters, is_name, get_cluster_by_id, get_cluster_by_name,
  get_cluster_by_uuid,
}
use magnum.Db.Clusters.Lists.{
  ClusterFilters, add_clusters_filters, filter_node_count, get_cluster_list,
}
use magnum.Db.Quotas.{get_cluster_count_all}

select-and :
    (p q : Cluster → Bool) (cs : List Cluster)
    → select (λ c. p c && q c) cs ≡ select q (select p cs)
select-and p q [] = refl
select-and p q (c ∷ cs) = ground (arith, select-and p q cs)

filters_lem :
    (f : ClusterFilters) (d d' : Database)
    → d.nodegroups ≡ d'.nodegroups
    → add_clusters_filters d f ≡ add_clusters_filters d' f
unfolding add_clusters_filters filter_node_count
filters_lem f d d' = ap (λ rows. add_clusters_filters (record d { nodegroups = rows }) f)

-- A request that acts for a project: it is not an administrator's that asks for all tenants, and not
-- a trustee's.
abbrev pub ActsFor : Keystone → Context → String → Type 0
ActsFor k ctx project =
    ((ctx.is_admin && ctx.all_tenants) ≡ false)
    × (ctx.project_id ≡ some project)
    × (str_eq project "" ≡ false)
    × (is_text ctx.domain_id k.trustee_domain_id ≡ false)

abbrev pub rows_of : String → Database → List Cluster
rows_of project d = select (λ (c : Cluster). str_eq project c.project_id) d.clusters

module _ (k : Keystone) (ctx : Context) (project : String) (acts : ActsFor k ctx project) where
  filter_lem :
      tenant_filter k (λ (c : Cluster). c.project_id) (λ c. c.user_id) ctx
      ≡ ok (λ c. str_eq project c.project_id)
  unfolding tenant_filter
  filter_lem = rw (acts.0, acts.1, acts.2, acts.3) refl

  visible_clusters_lem : (d : Database) → visible_clusters k ctx d ≡ ok (rows_of project d)
  visible_clusters_lem d = ap (λ r. r >>= λ mine. ok (select mine d.clusters)) filter_lem

  -- The operations as functions of the project's rows.
  get_cluster_list_lem :
      (filters : ClusterFilters) (d : Database)
      → get_cluster_list k ctx filters d
        ≡ ok (select (add_clusters_filters d filters) (rows_of project d))
  unfolding get_cluster_list
  get_cluster_list_lem filters d =
      ap
        (λ r.
          r >>= λ mine. ok (select (λ c. mine c && add_clusters_filters d filters c) d.clusters))
        filter_lem
      ∙ ap ok (
          select-and (λ c. str_eq project c.project_id) (add_clusters_filters d filters) d.clusters)

  -- A request of a project cannot tell the clusters of other projects: on two databases in which the
  -- project has the same rows of clusters, in the same order, and which have the same nodegroups, the
  -- three look-ups, the list with any filters and the number of clusters give the same, whatever
  -- clusters other projects have. The request is not an administrator's that asks for all tenants,
  -- and not a trustee's.
  pub project_sees_own_rows :
      (i : ℕ) (name u : String) (filters : ClusterFilters) (d d' : Database)
      → rows_of project d ≡ rows_of project d'
      → d.nodegroups ≡ d'.nodegroups
      → (get_cluster_by_id k ctx i d ≡ get_cluster_by_id k ctx i d')
        × (get_cluster_by_name k ctx name d ≡ get_cluster_by_name k ctx name d')
        × (get_cluster_by_uuid k ctx u d ≡ get_cluster_by_uuid k ctx u d')
        × (get_cluster_list k ctx filters d ≡ get_cluster_list k ctx filters d')
        × (get_cluster_count_all k ctx d ≡ get_cluster_count_all k ctx d')
  unfolding get_cluster_by_id get_cluster_by_name get_cluster_by_uuid get_cluster_count_all
  project_sees_own_rows i name u filters d d' same ngs = (
    ap (λ r. r >>= λ rows. one (cluster_not_found "id") (select (λ c. c.id == i) rows)) visible,
    ap
        (λ r. r >>= λ rows.
          one_or (cluster_not_found name) many_clusters (select (λ c. is_name c.name name) rows))
        visible,
    ap (λ r. r >>= λ rows. one (cluster_not_found u) (select (λ c. str_eq c.uuid u) rows)) visible,
    get_cluster_list_lem filters d
        ∙ (λ i. ok (select (filters_lem filters d d' ngs i) (same i)))
        ∙ sym (get_cluster_list_lem filters d'),
    count d ∙ ap (λ rows. ok (length rows)) same ∙ sym (count d'),
  )
    where
      visible : visible_clusters k ctx d ≡ visible_clusters k ctx d'
      visible = visible_clusters_lem d ∙ ap ok same ∙ sym (visible_clusters_lem d')

      count : (d : Database) → get_cluster_count_all k ctx d ≡ ok (length (rows_of project d))
      count d = ap (λ r. r >>= λ mine. ok (length (select mine d.clusters))) filter_lem
