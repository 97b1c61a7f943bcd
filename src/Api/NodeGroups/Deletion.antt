-- ===== src/Api/NodeGroups/Deletion.antt =====
-- The deletion of a nodegroup from the request (magnum/api/controllers/v1/nodegroup.py) over the
-- conductor (magnum/conductor/handlers/nodegroup_conductor.py) to the driver
-- (magnum/drivers/heat/driver.py).
use magnum.Common.{
  ℕ, ◌≡◌, refl, sym, ap, Bool, false, String, str_eq, str_eq_refl, Option, none, some, List, [],
  ◌∷◌, select, ◌⊎◌, inl, inr, arith, if◌then◌else◌, Bool-cases,
}
use magnum.Errors.{
  Error, Result, ok, err, answer_of, ok_inj, text_type, http_not_found, http_conflict,
  deleting_default_ng_not_supported,
}
use magnum.Status.{delete_in_progress, delete_failed, update_failed, update_in_progress}
use magnum.Objects.{Cluster, NodeGroup, ClusterTemplate, Database}
use magnum.Db.Table.{select-delete_where_one, select-update_where_one}
use magnum.Db.Tenant.{Context}
use magnum.Session.{Session, Event, Action, Cloud, try_except, stack_delete}
use magnum.Session.Store.Laws.{
  ng_row_of, HasRow, HasNgRow, write_cluster, write_nodegroup, Saves, NgSaves, ng_destroy_lem,
  save_nodegroup_lem,
}
use magnum.Session.Store.{ng_destroy}
use magnum.Conductor.Driver.{Driver, Env, get_driver_for_cluster}
use magnum.Conductor.Nodegroup.Laws.{in_hand, set_cluster_lem, updating, updating_row}
use magnum.Conductor.Nodegroup.{nodegroup_delete, nodegroup_delete_failed}
use magnum.Heat.Driver.{TemplateDefinition, delete_nodegroup, delete_nodegroup_of, delete_stack}
use magnum.Heat.Kubernetes.{fedora_driver}
use magnum.Api.Resources.{
  Services, Cast, nodegroup_delete as delete_cast, get_cluster, get_nodegroup,
}
use magnum.Api.NodeGroups.{delete}

abbrev pub defaults : Database → List NodeGroup
defaults d = select (λ (n : NodeGroup). n.is_default) d.nodegroups

-- How the driver ends: it has destroyed the row, or it has only called Heat.
driver_ends :
    (cloud : Cloud) (stack_id : Option String) (s : Session)
    → (delete_nodegroup_of cloud stack_id s ≡ ng_destroy s.nodegroup s)
      ⊎ ((r : Result (Unit {0})) × (evs : List Event) × (delete_nodegroup_of cloud stack_id s
            ≡ (r, record s { events = evs })))
unfolding delete_nodegroup_of delete_stack
driver_ends cloud none s = inl refl
driver_ends cloud (some id) s = elim (Bool-cases (str_eq id "")) [
  | inl absent ↦ inl rw absent refl
  | inr there ↦ inr (cloud.delete_stack s.events id, stack_delete id ∷ s.events, rw there refl)
]

module _ (env heat_env : Env) (def : TemplateDefinition)
    (upgrade : ClusterTemplate → ℕ → Bool → Action (Unit {0})) (row : Cluster) (s : Session)
    (saves : Saves s row) (ng_saves : NgSaves s s.nodegroup)
    (kept : (s.ng_changes s.nodegroup).is_default ≡ false)
    (other : s.nodegroup.is_default ≡ false) where
  abbrev driver : Driver
  driver = fedora_driver heat_env def upgrade

  -- The session as the driver finds it.
  abbrev pub asked : Session
  asked = in_hand env driver row s.nodegroup s saves ng_saves delete_in_progress

  -- A call that raises or not, and leaves the default nodegroups.
  abbrev Spares : Result (Unit {0}) × Session → Type 0
  Spares (r, s') = defaults s'.db ≡ defaults s.db

  destroy-Spares :
      (evs : List Event) → Spares (ng_destroy asked.nodegroup (record asked { events = evs }))
  destroy-Spares evs =
      rw (ng_destroy_lem asked.nodegroup s.nodegroup (record asked { events = evs }) ng_saves.0) (
        select-delete_where_one (ng_row_of s.nodegroup) (λ (m : NodeGroup). m.is_default)
          s.nodegroup s.db.nodegroups ng_saves.0 other)

  failed-Spares :
      (e : Error) (evs : List Event)
      → Spares (nodegroup_delete_failed e (record asked { events = evs }))
  unfolding nodegroup_delete_failed
  failed-Spares (http_not_found text) evs =
      rw (ng_destroy_lem asked.nodegroup s.nodegroup (record asked { events = evs }) ng_saves.0) (
        select-delete_where_one (ng_row_of s.nodegroup) (λ (m : NodeGroup). m.is_default)
          s.nodegroup s.db.nodegroups ng_saves.0 other)
  failed-Spares (http_conflict text) evs = refl
  failed-Spares e evs =
      let failed = λ (m : NodeGroup). record m {
        status = delete_failed;
        status_reason = some (text_type e);
      } in
      let f = λ (m : NodeGroup). failed (asked.ng_changes m) in
      let t : Session = record asked {
        nodegroup = failed asked.nodegroup;
        ng_changes = f;
        events = evs;
      } in
      rw (save_nodegroup_lem t s.nodegroup ng_saves.0) (
        rw
          (set_cluster_lem update_failed
            (updating env driver row s.nodegroup s saves ng_saves (s.changes row))
            (record t { ng_changes = λ m. m; db = write_nodegroup s.nodegroup f asked.db })
            (updating_row env driver row s.nodegroup s saves ng_saves))
          (select-update_where_one (ng_row_of s.nodegroup) (λ (m : NodeGroup). m.is_default) f
            s.nodegroup s.db.nodegroups ng_saves.0 other kept))

  deleted :
      (r : Result (Unit {0})) (evs : List Event)
      → Spares (try_except (λ _. (r, record asked { events = evs })) nodegroup_delete_failed asked)
  deleted (ok _) evs = refl
  deleted (err e) evs = failed-Spares e evs

  -- A deletion that the conductor and the Heat driver serve.
  served-Spares :
      get_driver_for_cluster env asked ≡ (ok driver, asked) → Spares (nodegroup_delete env s)
  unfolding nodegroup_delete delete_nodegroup
  served-Spares chosen = rw (set_cluster_lem update_in_progress row s saves.0) (
      rw chosen (elim (driver_ends heat_env.cloud asked.nodegroup.stack_id asked) [
        | inl destroyed ↦ rw destroyed (
            rw (ng_destroy_lem asked.nodegroup s.nodegroup asked ng_saves.0) (
              select-delete_where_one (ng_row_of s.nodegroup) (λ (m : NodeGroup). m.is_default)
                s.nodegroup s.db.nodegroups ng_saves.0 other))
        | inr (r, evs, called) ↦ rw called (deleted r evs)
      ]))

cast_other : NodeGroup → Cast → Bool
cast_other n (delete_cast _ m) = m.is_default
cast_other n _ = n.is_default

sent_other :
    (c c' : Cluster) (n n' : NodeGroup)
    → (if n'.is_default then err deleting_default_ng_not_supported else ok (delete_cast c' n'))
      ≡ ok (delete_cast c n)
    → n.is_default ≡ false
unfolding cast_other
sent_other c c' n n' h = elim (Bool-cases n'.is_default) [
  | inl default ↦ absurd (cc (rw default at h))
  | inr other ↦ sym (ap (cast_other n) (ok_inj (rw other at h)))
]

module _ (api : Services) (ctx : Context) (cluster_id ident : String) (d : Database) (c : Cluster)
    (n : NodeGroup) where
  accepted_other : delete api ctx cluster_id ident d ≡ ok (delete_cast c n) → n.is_default ≡ false
  unfolding delete
  accepted_other sent =
      let (_, _, rest1) = answer_of (api.enforce ctx "nodegroup:delete" none) _ sent in
      let (c', _, rest2) = answer_of (get_cluster api ctx cluster_id d) _ rest1 in
      let (n', _, rest3) = answer_of (get_nodegroup api ctx c'.uuid ident d) _ rest2 in
      sent_other c c' n n' rest3

  -- The session in which the conductor serves the request.
  abbrev pub served : Session
  served = record {
    cluster = c;
    changes = λ r. r;
    nodegroup = n;
    ng_changes = λ r. r;
    db = d;
    events = [];
  }

  -- That session as the driver finds it.
  abbrev pub in_deletion : Session
  in_deletion = record served {
    cluster = record c { status = update_in_progress };
    nodegroup = record n { status = delete_in_progress };
    ng_changes = λ m. record m { status = delete_in_progress };
    db = write_cluster c (λ r. record r { status = update_in_progress }) d;
  }

  same_row : HasNgRow n n d → NgSaves served n
  same_row has_ng_row = (has_ng_row, ground (arith, str_eq_refl n.uuid, str_eq_refl n.cluster_id))

  -- No request removes a default nodegroup: where the API accepts the deletion of a nodegroup and the
  -- conductor serves it with the Heat driver on the same tables, in which the cluster and the
  -- nodegroup have one row each, the rows of all default nodegroups are afterwards what they were,
  -- however the deletion ends and whatever Heat answers.
  pub delete_spares_defaults :
      (env heat_env : Env) (def : TemplateDefinition)
      (upgrade : ClusterTemplate → ℕ → Bool → Action (Unit {0}))
      → delete api ctx cluster_id ident d ≡ ok (delete_cast c n)
      → HasRow c c d
      → HasNgRow n n d
      → get_driver_for_cluster env in_deletion
        ≡ (ok (fedora_driver heat_env def upgrade), in_deletion)
      → defaults (nodegroup_delete env served).1.db ≡ defaults d
  delete_spares_defaults env heat_env def upgrade sent has_row has_ng_row chosen =
      served-Spares env heat_env def upgrade c served (has_row, str_eq_refl c.uuid)
        (same_row has_ng_row) (accepted_other sent) (accepted_other sent) chosen
