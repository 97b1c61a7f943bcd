-- ===== src/Api/ClusterUpdates/Laws.antt =====
-- A patch of magnum/api/controllers/v1/cluster.py that does not name the number of nodes, and what
-- the conductor makes of it.
use magnum.Common.{
  ℕ, ◌≡◌, refl, sym, ap, ◌∙◌, Bool, true, false, ◌&&◌, String, str_eq, Option, List, [], ◌∷◌, any,
  arith, Bool-cases, inl, inr,
}
use magnum.Errors.{Result, ok, answer_of, ok_inj}
use magnum.Status.{ClusterHealthStatus, is_in}
use magnum.Objects.{Dict, Cluster, NodeGroup, Database}
use magnum.Db.Tenant.{Context}
use magnum.Session.{Session}
use magnum.Session.Store.{default_ng_worker}
use magnum.Session.Store.Laws.{HasRow}
use magnum.Conductor.Driver.{Env}
use magnum.Conductor.Cluster.Update.{allow_update_status, cluster_update, same_health, same_dict}
use magnum.Conductor.Cluster.Update.Laws.{cluster_update_without_scaling}
use magnum.Api.Validation.{validate_cluster_properties}
use magnum.Api.Resources.{Services, elevate, get_cluster}
use magnum.Api.ClusterActions.{default_worker_of as worker_of}
use magnum.Api.ClusterUpdates.{PatchOp, PatchedCluster, patched_node_count, patch_request}

abbrev pub names_node_count : PatchOp → Bool
names_node_count p = str_eq p.path "/node_count"

patched_node_count_lem :
    (other size : ℕ) (ps : List PatchOp)
    → any names_node_count ps ≡ false
    → patched_node_count other size ps ≡ size
unfolding patched_node_count
patched_node_count_lem other size [] h = refl
patched_node_count_lem other size (p ∷ ps) h = ground (arith, patched_node_count_lem other size ps)

worker_lem :
    (ctx : Context) (c : Cluster) (d : Database) (w : NodeGroup) (s : Session)
    → s.cluster ≡ c
    → s.db ≡ d
    → worker_of ctx c d ≡ ok w
    → default_ng_worker ctx s ≡ (ok w, s)
unfolding worker_of default_ng_worker
worker_lem ctx c d w s same_cluster same_db found = rw (same_cluster, same_db) (rw found refl)

module _ (api : Services) (ctx : Context) (apply : Cluster → List PatchOp → Result PatchedCluster)
    (ident : String) (patch : List PatchOp) (d : Database) (c : Cluster) (n : ℕ)
    (h : Option ClusterHealthStatus) (reason : Option Dict) where
  sends_own_size :
      (seen_by : Context)
      → elevate api ctx "cluster:update_all_projects" ≡ ok seen_by
      → patch_request api ctx apply ident patch d ≡ ok (c, n, h, reason)
      → any names_node_count patch ≡ false
      → (w : NodeGroup) × (worker_of seen_by c d ≡ ok w) × (n ≡ w.node_count)
  unfolding patch_request
  sends_own_size seen_by elevated sent silent =
      let (seen, is_seen, rest1) =
        answer_of (elevate api ctx "cluster:update_all_projects") _ sent in
      let (c', _, rest2) = answer_of (get_cluster api seen ident d) _ rest1 in
      let (_, _, rest3) = answer_of (api.enforce seen "cluster:update" _) _ rest2 in
      let (_, _, rest4) = answer_of (api.enforce seen "cluster:update_health_status" _) _ rest3 in
      let (new, _, rest5) = answer_of (apply c' patch) _ rest4 in
      let (_, _, rest6) = answer_of (validate_cluster_properties new.delta) _ rest5 in
      let (w, found, same) = answer_of (worker_of seen c' d) _ rest6 in
      let same_context : seen ≡ seen_by = ok_inj (sym is_seen ∙ elevated) in
      let whole = ok_inj same in
      let same_cluster : c' ≡ c = ap (λ t. t.0) whole in
      let size : patched_node_count new.node_count w.node_count patch ≡ n = ap (λ t. t.1) whole in
      (
        w,
        ap (λ x. worker_of x c d) (sym same_context)
            ∙ (ap (λ x. worker_of seen x d) (sym same_cluster) ∙ found),
        sym size ∙ patched_node_count_lem new.node_count w.node_count patch silent,
      )

  -- The session in which the conductor serves the request.
  abbrev pub served : NodeGroup → Session
  served n0 = record {
    cluster = c;
    changes = λ r. r;
    nodegroup = n0;
    ng_changes = λ r. r;
    db = d;
    events = [];
  }

  -- A patch that does not name /node_count never scales a cluster: where the API accepts it, and the
  -- conductor serves it for the same context on the same tables, in which the cluster has one row and
  -- a status that allows an update, the conductor returns, the nodegroup table stays, and nothing is
  -- notified or asked of another service; this holds although the number of nodes that the API shows
  -- counts all nodegroups and the conductor's number those of the default one.
  pub patch_keeps_nodegroups :
      (env : Env) (n0 : NodeGroup) (rollback : Bool)
      → elevate api ctx "cluster:update_all_projects" ≡ ok env.context
      → patch_request api ctx apply ident patch d ≡ ok (c, n, h, reason)
      → any names_node_count patch ≡ false
      → is_in c.status allow_update_status ≡ true
      → HasRow c c d
      → let (r, s') = cluster_update env n h reason rollback (served n0) in
        ((done : Bool) × (r ≡ ok done)) × (s'.db.nodegroups ≡ d.nodegroups) × (s'.events ≡ [])
  patch_keeps_nodegroups env n0 rollback elevated sent silent open_status has_row =
      let (w, found, size) = sends_own_size env.context elevated sent silent in
      let whole =
        cluster_update_without_scaling env h reason rollback w c (served n0) open_status
          (worker_lem env.context c d w (served n0) refl refl found) has_row in
      rw size (
        rw whole
          (elim (Bool-cases
            (same_health c.health_status h && same_dict c.health_status_reason reason)) [
              | inl same ↦ rw same ((false, refl), refl, refl)
              | inr other ↦ rw other ((true, refl), refl, refl)
            ]))
