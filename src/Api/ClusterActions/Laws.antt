-- ===== src/Api/ClusterActions/Laws.antt =====
-- Which requests of magnum/api/controllers/v1/cluster_actions.py reach the conductor, and what a
-- resize then leaves in the database.
use magnum.Common.{
  ℕ, ◌≤◌, ◌≡◌, ◌≢◌, ◌↔◌, refl, Bool, true, false, String, str_eq, eq_iff, Option, none, some, [],
  ◌∷◌, select, ◌⊎◌, inl, inr, arith, str_eq_refl, eq_of_str_eq,
}
use magnum.Errors.{Result, ok, err, answer_of, ng_resize_out_bounds, master_ng_resize_not_supported}
use magnum.Objects.{Cluster, NodeGroup, ClusterTemplate, Database}
use magnum.Db.Tenant.{Context}
use magnum.Session.{Session, Action}
use magnum.Session.Store.Laws.{ng_row_of, HasRow, HasNgRow}
use magnum.Conductor.Driver.{Env, ScaleManager}
use magnum.Conductor.Cluster.Resize.{resize_with}
use magnum.Heat.Driver.{TemplateDefinition}
use magnum.Heat.Kubernetes.{fedora_driver}
use magnum.Heat.Scaling.{resize_with_heat}
use magnum.Api.Resources.{Services, cluster_resize, get_cluster}
use magnum.Api.ClusterActions.{
  ClusterResizeRequest, check_max, check_bounds, check_resize, chosen_nodegroup, resize_request,
}

-- A size within the upper bound of a nodegroup; 0 is no bound.
abbrev pub AtMost : Option ℕ → ℕ → Type 0
AtMost none size = Unit
AtMost (some m) size = (m ≡ 0) ⊎ (size ≤ m)

abbrev pub InBounds : NodeGroup → ℕ → Type 0
InBounds n size = (n.min_node_count ≤ size) × AtMost n.max_node_count size

check_max_lem :
    (name : String) (o : Option ℕ) (size : ℕ) → check_max name o size ≡ ok tt → AtMost o size
unfolding check_max
check_max_lem name none size h = tt
check_max_lem name (some m) size h = ground arith

max_passes :
    (name : String) (o : Option ℕ) (size : ℕ) → AtMost o size → check_max name o size ≡ ok tt
unfolding check_max
max_passes name none size h = refl
max_passes name (some m) size (inl h) = ground arith
max_passes name (some m) size (inr h) = ground arith

-- The tests on a nodegroup are passed exactly if it is not a master one and the size is in bounds.
check_resize_lem :
    (n : NodeGroup) (size : ℕ)
    → (check_resize n size ≡ ok tt) ↔ ((n.role ≢ "master") × InBounds n size)
unfolding check_resize check_bounds
check_resize_lem n size = (
  λ h. (
    λ e. cc (rw ((eq_iff n.role "master").1 e) at h),
    (ground (arith, h), check_max_lem n.name n.max_node_count size (ground arith)),
  ),
  λ (not_master, bounds).
      ground (arith, eq_iff n.role "master", max_passes n.name n.max_node_count size bounds.1),
)

check_max_raises :
    (name : String) (o : Option ℕ) (size : ℕ)
    → (check_max name o size ≡ ok tt) ⊎ (check_max name o size ≡ err (ng_resize_out_bounds name))
unfolding check_max
check_max_raises name none size = inl refl
check_max_raises name (some m) size = ground arith

-- The three ways in which the tests end.
abbrev Ending : NodeGroup → ℕ → Result (Unit {0}) → Type 0
Ending n size r =
    ((r ≡ ok tt) × (n.role ≢ "master") × InBounds n size)
    ⊎ ((r ≡ err master_ng_resize_not_supported) × (n.role ≡ "master"))
    ⊎ ((r ≡ err (ng_resize_out_bounds n.name)) × (n.role ≢ "master") × ¬ InBounds n size)

check_resize_cases :
    (n : NodeGroup) (size : ℕ)
    → (check_resize n size ≡ ok tt)
      ⊎ ((check_resize n size ≡ err master_ng_resize_not_supported)
          × (str_eq n.role "master" ≡ true))
      ⊎ ((check_resize n size ≡ err (ng_resize_out_bounds n.name))
          × (str_eq n.role "master" ≡ false))
unfolding check_resize check_bounds
check_resize_cases n size = ground (arith, check_max_raises n.name n.max_node_count size)

check_resize-Ending : (n : NodeGroup) (size : ℕ) → Ending n size (check_resize n size)
check_resize-Ending n size = elim (check_resize_cases n size) [
  | inl passes ↦
      let (other, bounds) = (check_resize_lem n size).0 passes in inl (passes, other, bounds)
  | inr (inl (refused, master)) ↦ inr (inl (refused, eq_of_str_eq master))
  | inr (inr (refused, other)) ↦
      let not_master : n.role ≢ "master" = λ e. cc ((eq_iff n.role "master").1 e, other) in
      inr (
        inr (
          refused,
          not_master,
          λ bounds. cc ((check_resize_lem n size).1 (not_master, bounds), refused),
        ))
]

module _ (api : Services) (ctx : Context) (ident : String) (req : ClusterResizeRequest)
    (d : Database) (c : Cluster) (n : NodeGroup) where
  -- How a resize request ends once the cluster c and the nodegroup n are found and the policy allows
  -- it. Either n is not a master nodegroup and the size lies within its bounds (an upper bound of 0
  -- is none), and the conductor is asked to resize n; or n is a master nodegroup, and
  -- MasterNGResizeNotSupported is raised; or the size is out of bounds, and NGResizeOutBounds is
  -- raised with the name of n.
  pub resize_request_outcome :
      get_cluster api ctx ident d ≡ ok c
      → api.enforce ctx "cluster:resize" (some c) ≡ ok tt
      → chosen_nodegroup api ctx c req.nodegroup d ≡ ok n
      → let r = resize_request api ctx ident req d in
        ((r ≡ ok (cluster_resize c req.node_count req.nodes_to_remove n))
          × (n.role ≢ "master")
          × InBounds n req.node_count)
        ⊎ ((r ≡ err master_ng_resize_not_supported) × (n.role ≡ "master"))
        ⊎ ((r ≡ err (ng_resize_out_bounds n.name))
            × (n.role ≢ "master")
            × ¬ InBounds n req.node_count)
  unfolding resize_request
  resize_request_outcome found allowed chosen = elim (check_resize-Ending n req.node_count) [
    | inl (passes, other, bounds) ↦
        inl (rw found (rw allowed (rw chosen (rw passes refl))), other, bounds)
    | inr (inl (refused, rest)) ↦
        inr (inl (rw found (rw allowed (rw chosen (rw refused refl))), rest))
    | inr (inr (refused, other, outside)) ↦
        inr (inr (rw found (rw allowed (rw chosen (rw refused refl))), other, outside))
  ]

  accepted-InBounds :
      resize_request api ctx ident req d
        ≡ ok (cluster_resize c req.node_count req.nodes_to_remove n)
      → InBounds n req.node_count
  unfolding resize_request
  accepted-InBounds sent =
      let (c', _, rest) = answer_of (get_cluster api ctx ident d) _ sent in
      let (_, _, rest') = answer_of (api.enforce ctx "cluster:resize" (some c')) _ rest in
      let (n', _, rest'') = answer_of (chosen_nodegroup api ctx c' req.nodegroup d) _ rest' in
      let (_, passes, same) = answer_of (check_resize n' req.node_count) _ rest'' in
      let e : n' ≡ n = cc same in rw e at ((check_resize_lem n' req.node_count).0 (cc passes)).1

  -- The session in which the conductor serves the request.
  abbrev pub served : Session
  served = record {
    cluster = c;
    changes = λ r. r;
    nodegroup = n;
    ng_changes = λ r. r;
    db = d;
    events = [];
  }

  -- A resize keeps a nodegroup within its bounds, whatever Heat answers: where the API accepts a
  -- request for a nodegroup whose size lies within its bounds, and the conductor serves it with the
  -- Heat driver on the same tables, in which the cluster and the nodegroup have one row each, the
  -- nodegroup's row has a size within its bounds also afterwards, whether the resize succeeds or
  -- fails.
  pub resize_keeps_bounds :
      (env : Env) (def : TemplateDefinition)
      (upgrade : ClusterTemplate → ℕ → Bool → Action (Unit {0})) (manager : Option ScaleManager)
      → resize_request api ctx ident req d
        ≡ ok (cluster_resize c req.node_count req.nodes_to_remove n)
      → HasRow c c d
      → HasNgRow n n d
      → InBounds n n.node_count
      → let (r, s') =
          resize_with
            (fedora_driver env def upgrade)
            manager
            req.node_count
            req.nodes_to_remove
            served in
        (m : NodeGroup) × (select (ng_row_of n) s'.db.nodegroups ≡ m ∷ []) × InBounds m m.node_count
  resize_keeps_bounds env def upgrade manager sent has_row has_ng_row before =
      let outcome =
        resize_with_heat env def upgrade manager req.node_count req.nodes_to_remove n c served
          (has_row, str_eq_refl c.uuid)
          (has_ng_row, ground (arith, str_eq_refl n.uuid, str_eq_refl n.cluster_id)) in
      elim outcome [
        | inl (_, row, _) ↦ (_, row, accepted-InBounds sent)
        | inr (_, _, row, _) ↦ (_, row, before)
      ]
