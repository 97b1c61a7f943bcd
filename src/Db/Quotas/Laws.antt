-- ===== src/Db/Quotas/Laws.antt =====
-- The limit on the clusters of a project (magnum/api/controllers/v1/cluster.py).
use magnum.Common.{
  ℕ, suc, ◌≤◌, ◌<◌, leb, ◌≡◌, Bool, String, List, [], ◌∷◌, ◌++◌, select, length, arith, Bool-cases,
  inl, inr,
}
use magnum.Errors.{ok, answer_of}
use magnum.Objects.{Cluster, Database}
use magnum.Db.Tenant.{Context, Keystone, tenant_filter}
use magnum.Db.Clusters.{create_cluster}
use magnum.Db.Clusters.Laws.{create_cluster-eq-ok}
use magnum.Db.Quotas.{Quota, cluster_limit, get_cluster_count_all, check_cluster_quota_limit}

length-select-snoc :
    (p : Cluster → Bool) (cs : List Cluster) (c : Cluster)
    → length (select p (cs ++ c ∷ [])) ≤ suc (length (select p cs))
length-select-snoc p [] c = ground arith
length-select-snoc p (x ∷ xs) c = ground (arith, length-select-snoc p xs c)

count_after :
    (k : Keystone) (ctx : Context) (n count : ℕ) (u : String) (values row : Cluster)
    (d d' : Database)
    → get_cluster_count_all k ctx d ≡ ok count
    → create_cluster n u values d ≡ ok (row, d')
    → (m : ℕ) × (get_cluster_count_all k ctx d' ≡ ok m) × (m ≤ suc count)
unfolding get_cluster_count_all
count_after k ctx n count u values row d d' before created =
    let (mine, filter, counted) =
      answer_of (tenant_filter k (λ (c : Cluster). c.project_id) (λ c. c.user_id) ctx)
        (λ mine. ok (length (select mine d.clusters))) before in
    let stored = create_cluster-eq-ok n u values row d d' created in
    let same : length (select mine d.clusters) ≡ count = ground arith in
    (
      length (select mine d'.clusters),
      rw filter,
      rw stored (omega (arith, length-select-snoc mine d.clusters row, same)),
    )

-- The check passes only below the limit.
pub check_cluster_quota_limit_below :
    (k : Keystone) (ctx : Context) (quotas : List Quota) (default : ℕ) (d : Database)
    → check_cluster_quota_limit k default ctx quotas d ≡ ok tt
    → (limit count : ℕ) × (cluster_limit default ctx quotas ≡ ok limit)
      × (get_cluster_count_all k ctx d ≡ ok count)
      × (count < limit)
unfolding check_cluster_quota_limit
check_cluster_quota_limit_below k ctx quotas default d passes =
    let (limit, limited, rest) = answer_of (cluster_limit default ctx quotas) _ passes in
    let (count, counted, below) = answer_of (get_cluster_count_all k ctx d) _ rest in
    elim (Bool-cases (leb limit count)) [
      | inl full ↦ absurd (cc (rw full at below))
      | inr free ↦ (limit, count, limited, counted, ground (arith, free))
    ]

-- The limit holds: where the check passes and the cluster is then created in the tables that it saw,
-- the request sees no more clusters than its project's limit, which is that of its quota, or of the
-- configuration where it has none.
pub check_cluster_quota_limit_holds :
    (k : Keystone) (ctx : Context) (quotas : List Quota) (default n : ℕ) (u : String)
    (values row : Cluster) (d d' : Database)
    → check_cluster_quota_limit k default ctx quotas d ≡ ok tt
    → create_cluster n u values d ≡ ok (row, d')
    → (limit count : ℕ) × (cluster_limit default ctx quotas ≡ ok limit)
      × (get_cluster_count_all k ctx d' ≡ ok count)
      × (count ≤ limit)
check_cluster_quota_limit_holds k ctx quotas default n u values row d d' passes created =
    let (limit, count, limited, counted, room) =
      check_cluster_quota_limit_below k ctx quotas default d passes in
    let (m, after, bound) = count_after k ctx n count u values row d d' counted created in
    (limit, m, limited, after, omega (arith, bound, room))
