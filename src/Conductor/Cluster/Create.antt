-- ===== src/Conductor/Cluster/Create.antt =====
-- cluster_create of magnum/conductor/handlers/cluster_conductor.py, with `_get_nodegroup_object` of
-- magnum/conductor/utils.py.
pub mod Laws
use magnum.Common.{
  ℕ, Bool, true, false, not, ◌==◌, String, str_eq, Option, none, some, List, [], ◌∷◌, if◌then◌else◌,
  ◌≡◌, refl,
}
use magnum.Common.Dicts.{lookup}
use magnum.Errors.{Error, Result, ok, err, text_type, reraise}
use magnum.Status.{create_in_progress, create_failed}
use magnum.Objects.{Dict, Cluster, NodeGroup, ClusterTemplate}
use magnum.Session.{
  Cloud, Action, Session, pure, raise, lift, gets, on_cluster, try_except, for_each, action_create,
  outcome_pending, outcome_failure, ◌>>=◌, ◌>>◌,
}
use magnum.Session.Store.{cluster_save, cluster_create_row, ng_create, ng_save, nodegroups, notify}
use magnum.Conductor.Driver.{Driver, Env, template, get_driver_for_cluster}
use magnum.Conductor.Trust.{create_trustee_and_trust}
use magnum.Conductor.Certs.{generate_certificates_to_cluster}

-- Python's `a or b`: a size of 0 and an empty text do not count.
abbrev or_size : Option ℕ → Option ℕ → Option ℕ
or_size none b = b
or_size (some n) b = if n == 0 then b else some n

abbrev or_text : Option String → Option String → Option String
or_text none b = b
or_text (some t) b = if str_eq t "" then b else some t

-- `labels['min_node_count']` where it is set; assigning it to the field makes it a number.
unfoldable pub min_node_count : Cloud → Option Dict → Result ℕ
min_node_count cloud none = ok 0
min_node_count cloud (some labels) = elim (lookup "min_node_count" labels) [
  | none ↦ ok 0
  | some t ↦ cloud.integer_field t
]

unfoldable pub nodegroup_object : Cluster → ClusterTemplate → ℕ → Bool → ℕ → NodeGroup
nodegroup_object c ct node_count master least =
    let role = if master then "master" else "worker" in
    record {
      id = 0;
      uuid = "";
      name = if master then "default-master" else "default-worker";
      cluster_id = c.uuid;
      project_id = c.project_id;
      docker_volume_size = or_size c.docker_volume_size ct.docker_volume_size;
      labels = c.labels;
      flavor_id =
          if master
          then or_text c.master_flavor_id ct.master_flavor_id
          else or_text c.flavor_id ct.flavor_id;
      image_id = ct.image_id;
      node_addresses = [];
      node_count = node_count;
      role = role;
      max_node_count = none;
      min_node_count = least;
      is_default = true;
      stack_id = none;
      status = create_in_progress;
      status_reason = none;
    }

-- What stands under `except Exception`.
unfoldable pub create_has_failed : Error → Action (Unit {0})
create_has_failed e = do
  on_cluster
      (λ (c : Cluster). record c { status = create_failed; status_reason = some (text_type e) })
  cluster_save
  notify action_create outcome_failure
  raise (reraise e)

module _ (env : Env) where
  -- `_get_nodegroup_object`
  unfoldable pub get_nodegroup_object : ℕ → Bool → Action NodeGroup
  get_nodegroup_object node_count master = do
    ct ← template env
    c ← gets (λ s. s.cluster)
    least ← lift (min_node_count env.cloud c.labels)
    pure (nodegroup_object c ct node_count master least)

  -- The two rows that every cluster begins with.
  unfoldable pub create_nodegroups : ℕ → ℕ → Action (Unit {0})
  create_nodegroups master_count node_count = do
    master_ng ← get_nodegroup_object master_count true
    master ← ng_create env.cloud master_ng
    minion_ng ← get_nodegroup_object node_count false
    minion ← ng_create env.cloud minion_ng
    pure tt

  -- `for ng in cluster.nodegroups: ng.stack_id = cluster.stack_id; ng.save()`
  unfoldable pub share_stack : Action (Unit {0})
  share_stack s =
      for_each (nodegroups env.context s)
        (λ (n : NodeGroup) s'.
          ng_save n (λ (m : NodeGroup). record m { stack_id = s'.cluster.stack_id }) s')
        s

  -- What stands under `try`.
  unfoldable pub create_stack_of_cluster : Option ℕ → Action (Unit {0})
  create_stack_of_cluster create_timeout = do
    create_trustee_and_trust env.cloud
    generate_certificates_to_cluster env.cloud
    notify action_create outcome_pending
    driver ← get_driver_for_cluster env
    driver.create_cluster create_timeout
    cluster_save
    share_stack

  unfoldable pub cluster_create : ℕ → ℕ → Option ℕ → Action (Unit {0})
  cluster_create master_count node_count create_timeout = do
    on_cluster (λ (c : Cluster). record c { status = create_in_progress; status_reason = none })
    cluster_create_row env.cloud
    create_nodegroups master_count node_count
    try_except (create_stack_of_cluster create_timeout) create_has_failed
