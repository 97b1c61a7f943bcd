-- ===== src/Db/Clusters/Laws.antt =====
-- The cluster table under the operations of magnum/db/sqlalchemy/api.py.
use magnum.Common.{
  ℕ, suc, ◌<◌, length-select-le, ◌≡◌, refl, ap, Bool, true, false, ◌&&◌, not, String, str_eq,
  eq_iff, str_eq_refl, eq_of_str_eq, some, List, [], ◌∷◌, ◌++◌, select, any, length, arith, inl,
  inr, Bool-cases, any-false-select, if◌then◌else◌,
}
use magnum.Errors.{ok, answer_of, cluster_not_found, multiple_results_found}
use magnum.Objects.{Cluster, Database}
use magnum.Db.Table.{
  Identity, one, select-holds, one_or, delete_where, select-append, any-append_false, one-eq-ok,
  select-delete_where, count-delete_where,
}
use magnum.Db.Tenant.{Context, Keystone, tenant_filter}
use magnum.Db.Clusters.{
  visible_clusters, insert_cluster, create_cluster, get_cluster_stats, get_stats, with_clusters,
  get_cluster_by_uuid, destroy_cluster, cluster_filter, identity_text,
}

-- No two rows of the cluster table have one uuid.
abbrev pub UniqueUuids : List Cluster → Type 0
UniqueUuids [] = Unit
UniqueUuids (c ∷ cs) = (any (λ b. str_eq b.uuid c.uuid) cs ≡ false) × UniqueUuids cs

append-UniqueUuids :
    (cs : List Cluster) (c : Cluster)
    → UniqueUuids cs
    → any (λ b. str_eq b.uuid c.uuid) cs ≡ false
    → UniqueUuids (cs ++ c ∷ [])
append-UniqueUuids [] c h n = (refl, tt)
append-UniqueUuids (x ∷ xs) c h n = (
  any-append_false (λ b. str_eq b.uuid x.uuid) xs c h.0
      (ground (arith, eq_iff x.uuid c.uuid, eq_iff c.uuid x.uuid)),
  append-UniqueUuids xs c h.1 (ground arith),
)

any-delete_where-false :
    (p q : Cluster → Bool) (cs : List Cluster)
    → any q cs ≡ false
    → any q (delete_where p cs) ≡ false
any-delete_where-false p q [] h = refl
any-delete_where-false p q (x ∷ xs) h = ground (arith, any-delete_where-false p q xs)

delete_where-UniqueUuids :
    (p : Cluster → Bool) (cs : List Cluster) → UniqueUuids cs → UniqueUuids (delete_where p cs)
delete_where-UniqueUuids p [] h = tt
delete_where-UniqueUuids p (x ∷ xs) h = ground (
  arith,
  delete_where-UniqueUuids p xs h.1,
  any-delete_where-false p (λ (b : Cluster). str_eq b.uuid x.uuid) xs h.0,
)

insert_cluster-eq-ok :
    (row row' : Cluster) (d d' : Database)
    → insert_cluster row d ≡ ok (row', d')
    → (any (λ c. str_eq c.uuid row.uuid) d.clusters ≡ false)
      × (row' ≡ row)
      × (d' ≡ with_clusters d (d.clusters ++ row ∷ []))
unfolding insert_cluster
insert_cluster-eq-ok row row' d d' e =
    elim (Bool-cases (any (λ (c : Cluster). str_eq c.uuid row.uuid) d.clusters)) [
      | inl taken ↦ absurd (cc (rw taken at e))
      | inr free ↦ (free, ground arith, ground arith)
    ]

pub create_cluster-eq-ok :
    (n : ℕ) (u : String) (values row : Cluster) (d d' : Database)
    → create_cluster n u values d ≡ ok (row, d')
    → d' ≡ with_clusters d (d.clusters ++ row ∷ [])
unfolding create_cluster
create_cluster-eq-ok n u values row d d' e =
    let uuid = if str_eq values.uuid "" then u else values.uuid in
    let (_, same, stored) =
      insert_cluster-eq-ok (record values { id = n; uuid = uuid }) row d d' e in
    rw same stored

-- Creating a cluster keeps the uuids of the cluster table unique: a row with the uuid of another
-- is refused.
pub create_cluster-UniqueUuids :
    (n : ℕ) (u : String) (values row : Cluster) (d d' : Database)
    → UniqueUuids d.clusters
    → create_cluster n u values d ≡ ok (row, d')
    → UniqueUuids d'.clusters
unfolding create_cluster
create_cluster-UniqueUuids n u values row d d' h e =
    let uuid = if str_eq values.uuid "" then u else values.uuid in
    let new : Cluster = record values { id = n; uuid = uuid } in
    let (free, _, stored) = insert_cluster-eq-ok new row d d' e in
    rw stored (append-UniqueUuids d.clusters new h free)

destroy_cluster-eq-ok :
    (p : Cluster → Bool) (i : Identity) (d d' : Database)
    → cluster_filter i ≡ ok p
    → destroy_cluster i d ≡ ok d'
    → (c : Cluster) × (select p d.clusters ≡ c ∷ [])
      × (d' ≡ with_clusters d (delete_where p d.clusters))
unfolding destroy_cluster
destroy_cluster-eq-ok p i d d' f e =
    let (c, found, done) =
      answer_of (one (cluster_not_found (identity_text i)) (select p d.clusters))
        (λ _. ok (with_clusters d (delete_where p d.clusters))) (rw f at e) in
    (c, one-eq-ok _ _ (select p d.clusters) c found, ground arith)

-- A successful destroy_cluster removes exactly one row: no row that the identity names is left, the
-- table is shorter by one, and the nodegroups and the ClusterTemplates stay.
pub destroy_cluster_removes :
    (p : Cluster → Bool) (i : Identity) (d d' : Database)
    → cluster_filter i ≡ ok p
    → destroy_cluster i d ≡ ok d'
    → (select p d'.clusters ≡ [])
      × (suc (length d'.clusters) ≡ length d.clusters)
      × (d'.nodegroups ≡ d.nodegroups)
      × (d'.templates ≡ d.templates)
destroy_cluster_removes p i d d' f e =
    let (c, only, done) = destroy_cluster-eq-ok p i d d' f e in
    rw done (
      select-delete_where p d.clusters,
      omega (arith, count-delete_where p d.clusters, ap length only),
      refl,
      refl,
    )

pub destroy_cluster-UniqueUuids :
    (p : Cluster → Bool) (i : Identity) (d d' : Database)
    → cluster_filter i ≡ ok p
    → UniqueUuids d.clusters
    → destroy_cluster i d ≡ ok d'
    → UniqueUuids d'.clusters
destroy_cluster-UniqueUuids p i d d' f h e =
    let (c, only, done) = destroy_cluster-eq-ok p i d d' f e in
    rw done (delete_where-UniqueUuids p d.clusters h)

select-true : (cs : List Cluster) → select (λ _. true) cs ≡ cs
select-true [] = refl
select-true (c ∷ cs) = ap (λ (t : List Cluster). c ∷ t) (select-true cs)

-- A cluster that was created is found by its uuid, by an administrator that asks for all tenants.
pub get_cluster_by_uuid-create_cluster :
    (k : Keystone) (ctx : Context) (n : ℕ) (u : String) (values row : Cluster) (d d' : Database)
    → (ctx.is_admin && ctx.all_tenants) ≡ true
    → create_cluster n u values d ≡ ok (row, d')
    → get_cluster_by_uuid k ctx row.uuid d' ≡ ok row
unfolding create_cluster get_cluster_by_uuid tenant_filter one_or
get_cluster_by_uuid-create_cluster k ctx n u values row d d' admin e =
    let uuid = if str_eq values.uuid "" then u else values.uuid in
    let new : Cluster = record values { id = n; uuid = uuid } in
    let (free, same, stored) = insert_cluster-eq-ok new row d d' e in
    rw (admin, tenant_filter)
      (rw (select-true d'.clusters) (
        rw (stored, same)
          (rw (select-append (λ (c : Cluster). str_eq c.uuid uuid) d.clusters (new ∷ [])) (
            rw (
              any-false-select (λ (c : Cluster). str_eq c.uuid uuid) d.clusters free,
              str_eq_refl uuid,
            )))))

-- A cluster of another project is counted.
count-lt-length :
    (p : String) (cs : List Cluster)
    → any (λ c. not (str_eq p c.project_id)) cs ≡ true
    → length (select (λ (c : Cluster). str_eq p c.project_id) cs) < length cs
count-lt-length p [] h = cc
count-lt-length p (c ∷ cs) h =
    ground
      (arith, count-lt-length p cs, length-select-le (λ (b : Cluster). str_eq p b.project_id) cs)

-- Cluster.get_stats hands the project on in the place of the context, so it answers the totals of
-- all projects: wherever a cluster of another project exists, it counts more clusters than
-- Connection.get_cluster_stats counts for the project that was asked for, which is not empty.
pub get_stats_counts_other_projects :
    (ctx : Context) (p : String) (d : Database)
    → str_eq p "" ≡ false
    → any (λ (c : Cluster). not (str_eq p c.project_id)) d.clusters ≡ true
    → (get_cluster_stats ctx (some p) d).0 < (get_stats ctx (some p) d).0
unfolding get_cluster_stats get_stats
get_stats_counts_other_projects ctx p d filled h = rw filled (count-lt-length p d.clusters h)

-- A cluster that is found by a uuid has it.
pub found_uuid :
    (k : Keystone) (ctx : Context) (u : String) (c : Cluster) (d : Database)
    → get_cluster_by_uuid k ctx u d ≡ ok c
    → c.uuid ≡ u
unfolding get_cluster_by_uuid
found_uuid k ctx u c d found =
    let named = λ (x : Cluster). str_eq x.uuid u in
    let (rows, _, only) = answer_of (visible_clusters k ctx d) _ found in
    eq_of_str_eq (
      select-holds named c rows
        (one-eq-ok (cluster_not_found u) multiple_results_found (select named rows) c only))
