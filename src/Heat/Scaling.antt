-- ===== src/Heat/Scaling.antt =====
-- Scaling with the driver of magnum/drivers/heat/driver.py: it keeps what the handlers of
-- magnum/conductor/handlers/cluster_conductor.py rely on, so their outcomes hold of the two together.
use magnum.Common.{
  ℕ, ◌≡◌, Bool, Option, none, some, String, List, [], ◌∷◌, select, ◌⊎◌, inl, inr, arith,
}
use magnum.Errors.{Error, Result, ok, err, reraise, text_type, Result-cases}
use magnum.Status.{update_failed, update_in_progress}
use magnum.Objects.{Cluster, NodeGroup, ClusterTemplate}
use magnum.Db.Tenant.{Context}
use magnum.Session.{Cloud, Session, Action}
use magnum.Session.Store.{default_ng_worker}
use magnum.Session.Store.Laws.{row_of, ng_row_of, HasNgRow, Saves, NgSaves}
use magnum.Conductor.Driver.{Driver, Env, ScaleManager}
use magnum.Conductor.Cluster.Update.{scale}
use magnum.Conductor.Cluster.Update.Laws.{
  failed_cluster, before_driver, scale_failure_restores, scale_success_saves,
}
use magnum.Conductor.Cluster.Resize.{resize_with}
use magnum.Conductor.Cluster.Resize.Laws.{
  before_resize, resize_failure_restores, resize_success_saves,
}
use magnum.Heat.Driver.{TemplateDefinition, update_stack, update_cluster, resize_cluster}
use magnum.Heat.Kubernetes.{fedora_driver}

-- A call that changes neither the objects nor the database.
abbrev pub OnlyCalls : Session → Result (Unit {0}) × Session → Type 0
OnlyCalls s (r, s') = s' ≡ record s { events = s'.events }

update_cluster-OnlyCalls :
    (cloud : Cloud) (ctx : Context) (def : TemplateDefinition) (manager : Option ScaleManager)
    (rollback : Bool) (s : Session)
    → OnlyCalls s (update_cluster cloud ctx def manager rollback s)
unfolding update_cluster update_stack default_ng_worker
update_cluster-OnlyCalls cloud ctx def manager rollback s = ground arith

resize_cluster-OnlyCalls :
    (cloud : Cloud) (def : TemplateDefinition) (manager : Option ScaleManager) (n : ℕ)
    (nodes : List String) (s : Session)
    → OnlyCalls s (resize_cluster cloud def manager n nodes s)
unfolding resize_cluster update_stack
resize_cluster-OnlyCalls cloud def manager n nodes s = ground arith

-- The outcome of a call, with its events named.
outcome :
    (m : Action (Unit {0})) (s : Session)
    → OnlyCalls s (m s)
    → (m s ≡ (ok tt, record s { events = (m s).1.events }))
      ⊎ ((e : Error) × (m s ≡ (err e, record s { events = (m s).1.events })))
outcome m s only = elim (Result-cases (m s).0) [
  | inl (_, fine) ↦ inl cc (fine, only)
  | inr (e, bad) ↦ inr (e, cc (bad, only))
]

module _ (env : Env) (def : TemplateDefinition)
    (upgrade : ClusterTemplate → ℕ → Bool → Action (Unit {0})) (manager : Option ScaleManager)
    (rollback : Bool) (n : ℕ) (w : NodeGroup) (row : Cluster) (s : Session) (saves : Saves s row)
    (has_ng_row : HasNgRow w w s.db) where
  abbrev driver : Driver
  driver = fedora_driver env def upgrade

  -- With the Heat driver an update of the number of nodes is all or nothing, whatever Heat and the
  -- driver's templates answer: either it returns, the worker nodegroup's row has the new number of
  -- nodes and the cluster's row says UPDATE_IN_PROGRESS; or it raises some exception, the nodegroup
  -- table is the one from before the call and the cluster's row says UPDATE_FAILED and the
  -- exception's text. The objects are assumed to have one row each, whose uuid the pending changes
  -- keep.
  pub scale_with_heat :
      let (r, s') = scale env n rollback w driver manager s in
      ((r ≡ ok tt)
        × (select (ng_row_of w) s'.db.nodegroups ≡ record w { node_count = n } ∷ [])
        × (select (row_of s.cluster) s'.db.clusters
            ≡ record (s.changes row) { status = update_in_progress; status_reason = none } ∷ []))
      ⊎ ((e : Error) × (r ≡ err (reraise e))
          × (s'.db.nodegroups ≡ s.db.nodegroups)
          × (select (row_of s.cluster) s'.db.clusters ≡ failed_cluster e (s.changes row) ∷ []))
  scale_with_heat =
      let t = before_driver env driver manager rollback n w row s saves has_ng_row in
      let m = update_cluster env.cloud env.context def manager rollback in
      elim (outcome m t (update_cluster-OnlyCalls env.cloud env.context def manager rollback t)) [
        | inl accepts ↦ inl (
            scale_success_saves env driver manager rollback n w row s saves has_ng_row
              (m t).1.events accepts)
        | inr (e, fails) ↦
            let (r, ngs, c, _) =
              scale_failure_restores env driver manager rollback n w row s saves has_ng_row e
                (m t).1.events fails in
            inr (e, r, ngs, c)
      ]

module _ (env : Env) (def : TemplateDefinition)
    (upgrade : ClusterTemplate → ℕ → Bool → Action (Unit {0})) (manager : Option ScaleManager)
    (n : ℕ) (nodes : List String) (old : NodeGroup) (row : Cluster) (s : Session)
    (saves : Saves s row) (ng_saves : NgSaves s old) where
  -- With the Heat driver a resize is saved or put back, whatever Heat and the driver's templates
  -- answer: either it returns, and the nodegroup's row has the new number of nodes and, as the
  -- cluster's row, UPDATE_IN_PROGRESS; or it raises, and the nodegroup's row has the old number of
  -- nodes and, as the cluster's row, UPDATE_FAILED with the exception's text. The objects are
  -- assumed to have one row each, whose uuid the pending changes keep.
  pub resize_with_heat :
      let (r, s') = resize_with (fedora_driver env def upgrade) manager n nodes s in
      ((r ≡ ok tt)
        × (select (ng_row_of s.nodegroup) s'.db.nodegroups
            ≡ record (s.ng_changes old) { node_count = n; status = update_in_progress } ∷ [])
        × (select (row_of s.cluster) s'.db.clusters
            ≡ record (s.changes row) { status = update_in_progress; status_reason = none } ∷ []))
      ⊎ ((e : Error) × (r ≡ err (reraise e))
          × (select (ng_row_of s.nodegroup) s'.db.nodegroups
              ≡ record (s.ng_changes old) {
                node_count = s.nodegroup.node_count;
                status = update_failed;
                status_reason = some (text_type e);
              }
                ∷ [])
          × (select (row_of s.cluster) s'.db.clusters ≡ failed_cluster e (s.changes row) ∷ []))
  resize_with_heat =
      let driver = fedora_driver env def upgrade in
      let t = before_resize driver manager n nodes old row s saves ng_saves in
      let m = resize_cluster env.cloud def manager n nodes in
      elim (outcome m t (resize_cluster-OnlyCalls env.cloud def manager n nodes t)) [
        | inl accepts ↦ inl (
            resize_success_saves driver manager n nodes old row s saves ng_saves (m t).1.events
              accepts)
        | inr (e, fails) ↦
            let (r, ng, c, _, _) =
              resize_failure_restores driver manager n nodes old row s saves ng_saves e
                (m t).1.events fails in
            inr (e, r, ng, c)
      ]
