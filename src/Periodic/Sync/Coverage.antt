-- ===== src/Periodic/Sync/Coverage.antt =====
-- Every operation in progress is polled (magnum/service/periodic.py).
use magnum.Common.{
  ℕ, ◌≡◌, refl, ap, ◌∙◌, Bool, Option, none, [], ◌∷◌, ◌⊎◌, inl, inr, select, select_comm,
  select_agree, if◌then◌else◌, arith,
}
use magnum.Errors.{Error, ok, err, reraise}
use magnum.Status.{
  ClusterStatus, create_in_progress, update_in_progress, delete_in_progress, rollback_in_progress,
  is_in, is_progressing,
}
use magnum.Objects.{Cluster, NodeGroup, ClusterTemplate, Database}
use magnum.Db.Tenant.{Keystone}
use magnum.Db.Clusters.Lists.{add_clusters_filters}
use magnum.Session.{Session, Action}
use magnum.Session.Store.Laws.{row_of, HasNgRow, Saves}
use magnum.Conductor.Driver.{Env, ScaleManager}
use magnum.Conductor.Cluster.Update.{scale}
use magnum.Heat.Driver.{TemplateDefinition}
use magnum.Heat.Kubernetes.{fedora_driver}
use magnum.Heat.Scaling.{scale_with_heat}
use magnum.Periodic.Sync.{sync_cluster_status}

-- The statuses that the list is filtered by are those that end in _IN_PROGRESS.
in_progress_lem :
    (st : ClusterStatus)
    → is_in st
        (create_in_progress ∷ update_in_progress ∷ delete_in_progress ∷ rollback_in_progress ∷ [])
      ≡ is_progressing st
unfolding is_progressing
in_progress_lem create_in_progress = refl
in_progress_lem _ = refl

-- A job is started for exactly the clusters of all projects whose status ends in _IN_PROGRESS.
pub sync_cluster_status_lem :
    (k : Keystone) (d : Database)
    → sync_cluster_status k d ≡ select (λ (c : Cluster). is_progressing c.status) d.clusters
unfolding sync_cluster_status add_clusters_filters
sync_cluster_status_lem k d =
    select_agree _ (λ (c : Cluster). is_progressing c.status) d.clusters
      (λ c. ground (arith, in_progress_lem c.status))

-- The only row that a test finds is polled if it is in progress, and not otherwise.
polled_row :
    (k : Keystone) (d : Database) (p : Cluster → Bool) (c : Cluster)
    → select p d.clusters ≡ c ∷ []
    → select p (sync_cluster_status k d) ≡ (if is_progressing c.status then c ∷ [] else [])
polled_row k d p c only =
    ap (select p) (sync_cluster_status_lem k d)
    ∙ select_comm p (λ (c : Cluster). is_progressing c.status) d.clusters
    ∙ ap (select (λ (c : Cluster). is_progressing c.status)) only

module _ (env : Env) (def : TemplateDefinition)
    (upgrade : ClusterTemplate → ℕ → Bool → Action (Unit {0})) (manager : Option ScaleManager)
    (rollback : Bool) (n : ℕ) (w : NodeGroup) (row : Cluster) (s : Session) (saves : Saves s row)
    (has_ng_row : HasNgRow w w s.db) where
  -- An update of the number of nodes that the Heat driver accepts is polled, and one that fails is
  -- not: after the conductor's update, the next round of sync_cluster_status starts one job for the
  -- cluster, with UPDATE_IN_PROGRESS, if the update returned, and none if it raised an exception,
  -- whatever Heat answered. The objects are assumed to have one row each, whose uuid the pending
  -- changes keep.
  pub scale_is_polled :
      let (r, s') = scale env n rollback w (fedora_driver env def upgrade) manager s in
      let polled = select (row_of s.cluster) (sync_cluster_status env.keystone s'.db) in
      ((r ≡ ok tt)
        × (polled
            ≡ record (s.changes row) { status = update_in_progress; status_reason = none } ∷ []))
      ⊎ ((e : Error) × (r ≡ err (reraise e)) × (polled ≡ []))
  unfolding is_progressing
  scale_is_polled =
      let (r, s') = scale env n rollback w (fedora_driver env def upgrade) manager s in
      let polled = λ (c : Cluster). polled_row env.keystone s'.db (row_of s.cluster) c in
      elim (scale_with_heat env def upgrade manager rollback n w row s saves has_ng_row) [
        | inl (fine, _, started) ↦ inl (fine, polled _ started)
        | inr (e, raised, _, failed) ↦ inr (e, raised, polled _ failed)
      ]
