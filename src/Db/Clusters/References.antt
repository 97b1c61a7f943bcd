-- ===== src/Db/Clusters/References.antt =====
-- The references of clusters to ClusterTemplates under destroy_cluster_template of
-- magnum/db/sqlalchemy/api.py.
use magnum.Common.{
  ◌≡◌, Bool, true, false, str_eq, eq_iff, List, [], ◌∷◌, select, any, All, arith, if◌then◌else◌,
}
use magnum.Errors.{ok, err, answer_of, cluster_template_referenced, cluster_template_not_found}
use magnum.Objects.{Cluster, ClusterTemplate, Database}
use magnum.Db.Table.{Identity, one, delete_where, any-delete_where, one-eq-ok}
use magnum.Db.Clusters.{with_templates, template_filter, destroy_cluster_template, identity_text}

-- Every cluster refers to a ClusterTemplate of the table.
abbrev pub TemplatesPresent : Database → Type 0
TemplatesPresent d =
    All (λ (c : Cluster). any (λ t. str_eq t.uuid c.cluster_template_id) d.templates ≡ true)
      d.clusters

-- The rows that do not name a template keep theirs when it is deleted.
keep_references :
    (p : ClusterTemplate → Bool) (t : ClusterTemplate) (ts : List ClusterTemplate)
    (cs : List Cluster)
    → select p ts ≡ t ∷ []
    → any (λ c. str_eq c.cluster_template_id t.uuid) cs ≡ false
    → All (λ (c : Cluster). any (λ x. str_eq x.uuid c.cluster_template_id) ts ≡ true) cs
    → All
        (λ (c : Cluster). any (λ x. str_eq x.uuid c.cluster_template_id) (delete_where p ts) ≡ true)
        cs
keep_references p t ts [] only free h = tt
keep_references p t ts (c ∷ cs) only free h = (
  any-delete_where p (λ x. str_eq x.uuid c.cluster_template_id) t ts only
      (ground (arith, eq_iff t.uuid c.cluster_template_id, eq_iff c.cluster_template_id t.uuid))
      h.0,
  keep_references p t ts cs only (ground arith) h.1,
)

destroy_cluster_template-eq-ok :
    (p : ClusterTemplate → Bool) (i : Identity) (d d' : Database)
    → template_filter i ≡ ok p
    → destroy_cluster_template i d ≡ ok d'
    → (t : ClusterTemplate) × (select p d.templates ≡ t ∷ [])
      × (any (λ c. str_eq c.cluster_template_id t.uuid) d.clusters ≡ false)
      × (d' ≡ with_templates d (delete_where p d.templates))
unfolding destroy_cluster_template
destroy_cluster_template-eq-ok p i d d' f e =
    let (t, found, done) =
      answer_of (one (cluster_template_not_found (identity_text i)) (select p d.templates))
        (λ t.
          if any (λ (c : Cluster). str_eq c.cluster_template_id t.uuid) d.clusters
          then err (cluster_template_referenced (identity_text i))
          else ok (with_templates d (delete_where p d.templates)))
        (rw f at e) in
    (t, one-eq-ok _ _ (select p d.templates) t found, ground arith, ground arith)

-- destroy_cluster_template keeps the references: where every cluster's ClusterTemplate is in the
-- table before a successful call, it is so after it.
pub destroy_cluster_template-TemplatesPresent :
    (p : ClusterTemplate → Bool) (i : Identity) (d d' : Database)
    → template_filter i ≡ ok p
    → TemplatesPresent d
    → destroy_cluster_template i d ≡ ok d'
    → TemplatesPresent d'
destroy_cluster_template-TemplatesPresent p i d d' f h e =
    let (t, only, free, done) = destroy_cluster_template-eq-ok p i d d' f e in
    rw done (keep_references p t d.templates d.clusters only free h)
