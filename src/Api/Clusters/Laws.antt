-- ===== src/Api/Clusters/Laws.antt =====
-- What a request for a new cluster must meet, and what it sends to the conductor
-- (magnum/api/controllers/v1/cluster.py).
use magnum.Common.{
  ℕ, ◌≤◌, ◌<◌, ◌≡◌, refl, Bool, true, false, String, Option, none, some, List, [], ◌∷◌, ◌⊎◌, inl,
  inr, arith, or_else, Bool-cases, Option-cases, ap, sym, ◌∙◌,
}
use magnum.Common.Dicts.{lookup, UniqueKeys, lookup-update}
use magnum.Errors.{ok, answer_of, ok_inj}
use magnum.Objects.{Dict, Cluster, ClusterTemplate, Database}
use magnum.Db.Tenant.{Context}
use magnum.Db.Clusters.{create_cluster}
use magnum.Db.Clusters.Templates.{get_cluster_template}
use magnum.Db.Quotas.{Quota, check_cluster_quota_limit, cluster_limit, get_cluster_count_all}
use magnum.Db.Quotas.Laws.{check_cluster_quota_limit_below, check_cluster_quota_limit_holds}
use magnum.Api.Resources.{Services, Cast, cluster_create, identity_of}
use magnum.Api.OsResources.{OpenStack, validate_os_resources, validate_master_count}
use magnum.Api.Clusters.{
  ClusterRequest, cluster_labels, read_labels, new_cluster, resources_of, template_resources,
  project_or_empty, post_request,
}

-- A label of a dict that may be absent, the labels that a request has, and what a label of the new
-- cluster is to be.
abbrev pub label : String → Option Dict → Option String
label k none = none
label k (some labels) = lookup k labels

abbrev pub own_labels : Option Dict → Dict
own_labels none = []
own_labels (some own) = own

abbrev pub expected_label : String → Bool → Dict → Option String → Option String
expected_label k merge [] of_template = of_template
expected_label k true (item ∷ own) of_template = or_else (lookup k (item ∷ own)) of_template
expected_label k false (item ∷ own) of_template = lookup k (item ∷ own)

-- Each label of the new cluster, by whether the request has labels and asks for merging.
cluster_labels_lem :
    (own : Option Dict) (req : ClusterRequest) (ct : ClusterTemplate) (labels : Option Dict)
    (k : String)
    → req.labels ≡ own
    → UniqueKeys (own_labels own)
    → cluster_labels req ct ≡ ok labels
    → label k labels ≡ expected_label k req.merge_labels (own_labels own) (label k ct.labels)
unfolding cluster_labels
cluster_labels_lem none req ct labels k h once merged = ap (label k) (sym (ok_inj (rw h at merged)))
cluster_labels_lem (some []) req ct labels k h once merged =
    ap (label k) (sym (ok_inj (rw h at merged)))
cluster_labels_lem (some (item ∷ items)) req ct labels k h once merged =
    elim (Bool-cases req.merge_labels) [
      | inl merge ↦ elim (Option-cases ct.labels) [
        | inl no_labels ↦ absurd (cc (rw no_labels at (rw merge at (rw h at merged))))
        | inr (parent, has) ↦
            let new = ok_inj (rw has at (rw merge at (rw h at merged))) in
            rw (merge, has) (ap (label k) (sym new) ∙ lookup-update k parent (item ∷ items) once)
      ]
      | inr plain ↦ rw plain (ap (label k) (sym (ok_inj (rw plain at (rw h at merged)))))
    ]

module _ (api : Services) (cli : OpenStack) (ctx : Context) (default : ℕ) (quotas : List Quota)
    (req : ClusterRequest) (d : Database) where
  -- What an accepted request is made of.
  accepted :
      (cast : Cast)
      → post_request api cli ctx default quotas req d ≡ ok cast
      → (ct : ClusterTemplate) × (labels : Option Dict) × (check_cluster_quota_limit api.keystone
            default ctx quotas d
          ≡ ok tt)
        × (get_cluster_template api.keystone ctx (identity_of api req.cluster_template_id) d
            ≡ ok ct)
        × (cluster_labels req ct ≡ ok labels)
        × (validate_master_count req.master_count
              (new_cluster api req ct labels "" "").master_lb_enabled
            ≡ ok tt)
        × (cast
            ≡ cluster_create
                (new_cluster api req ct labels (project_or_empty ctx.project_id) ctx.user_id)
                req.master_count
                req.node_count
                req.create_timeout)
  unfolding post_request
  accepted cast sent =
      let (_, _, rest1) = answer_of (api.enforce ctx "cluster:create" none) _ sent in
      let (_, quota, rest2) =
        answer_of (check_cluster_quota_limit api.keystone default ctx quotas d) _ rest1 in
      let (ct, found, rest3) =
        answer_of
          (get_cluster_template api.keystone ctx (identity_of api req.cluster_template_id) d) _
          rest2 in
      let (labels, merged, rest4) = answer_of (cluster_labels req ct) _ rest3 in
      let (_, _, rest5) = answer_of (read_labels labels) _ rest4 in
      let c = new_cluster api req ct labels "" "" in
      let (_, _, rest6) =
        answer_of (validate_os_resources cli (template_resources ct) (resources_of c) c.keypair) _
          rest5 in
      let (_, masters, same) =
        answer_of (validate_master_count req.master_count c.master_lb_enabled) _ rest6 in
      (ct, labels, quota, found, merged, masters, cc same)

  masters_lem :
      (masters : ℕ) (balanced : Bool)
      → validate_master_count masters balanced ≡ ok tt
      → (masters ≤ 1) ⊎ (balanced ≡ true)
  unfolding validate_master_count
  masters_lem masters true h = inr refl
  masters_lem masters false h = inl (ground arith)

  -- An accepted request for a new cluster is sent to the conductor with the numbers of nodes of the
  -- request and a cluster of the ClusterTemplate that the request names. Each label of the cluster
  -- is the ClusterTemplate's if the request has no labels; else it is the request's, or, where the
  -- request asks for merging and does not have the label, the ClusterTemplate's. The cluster has a
  -- load balancer if it has several masters, and the request saw fewer clusters than its project's
  -- limit. The request's labels are assumed to have no key twice.
  pub post_request_outcome :
      (cast : Cast) (k : String)
      → UniqueKeys (own_labels req.labels)
      → post_request api cli ctx default quotas req d ≡ ok cast
      → (ct : ClusterTemplate) × (c : Cluster) × (limit count : ℕ) × (get_cluster_template
            api.keystone ctx
            (identity_of api req.cluster_template_id)
            d
          ≡ ok ct)
        × (cluster_limit default ctx quotas ≡ ok limit)
        × (get_cluster_count_all api.keystone ctx d ≡ ok count)
        × (count < limit)
        × (cast ≡ cluster_create c req.master_count req.node_count req.create_timeout)
        × (c.cluster_template_id ≡ ct.uuid)
        × (label k c.labels
            ≡ expected_label k req.merge_labels (own_labels req.labels) (label k ct.labels))
        × ((req.master_count ≤ 1) ⊎ (c.master_lb_enabled ≡ true))
  unfolding new_cluster
  post_request_outcome cast k once sent =
      let (ct, labels, quota, found, merged, masters, same) = accepted cast sent in
      let c = new_cluster api req ct labels (project_or_empty ctx.project_id) ctx.user_id in
      let (limit, count, limited, counted, below) =
        check_cluster_quota_limit_below api.keystone ctx quotas default d quota in
      (
        ct,
        c,
        limit,
        count,
        found,
        limited,
        counted,
        below,
        same,
        refl,
        cluster_labels_lem req.labels req ct labels k refl once merged,
        masters_lem req.master_count c.master_lb_enabled masters,
      )

  -- The quota holds across the two services: where the API accepts a request and the conductor then
  -- creates the row of the cluster that it was sent in the same tables, the request sees no more
  -- clusters than its project's limit, which is that of its quota, or of the configuration where it
  -- has none.
  pub post_request_within_quota :
      (c row : Cluster) (masters nodes n : ℕ) (timeout : Option ℕ) (u : String) (d' : Database)
      → post_request api cli ctx default quotas req d ≡ ok (cluster_create c masters nodes timeout)
      → create_cluster n u c d ≡ ok (row, d')
      → (limit count : ℕ) × (cluster_limit default ctx quotas ≡ ok limit)
        × (get_cluster_count_all api.keystone ctx d' ≡ ok count)
        × (count ≤ limit)
  post_request_within_quota c row masters nodes n timeout u d' sent created =
      let (_, _, quota, _, _, _, _) = accepted (cluster_create c masters nodes timeout) sent in
      check_cluster_quota_limit_holds api.keystone ctx quotas default n u c row d d' quota created
