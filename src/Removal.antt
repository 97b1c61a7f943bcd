-- ===== src/Removal.antt =====
-- `ScaleManager` of magnum/conductor/scale_manager.py: the hosts that a smaller cluster is to give up.
-- What Heat's output lists, and which hosts run containers, are arguments.
pub mod Laws
use magnum.Common.{
  ℕ, Bool, ◌-◌, ltb, String, Option, none, some, List, [], ◌∷◌, contains, take, if◌then◌else◌,
}
use magnum.Errors.{Result, ok, err, unexpected}
use magnum.Objects.{Cluster}
use magnum.Db.Tenant.{Context, Keystone}
use magnum.Db.Clusters.{get_cluster_by_uuid}
use magnum.Session.{
  Cloud, Stack, Session, Event, Action, stack_get, asks, call, lift, pure, raise, ◌>>=◌,
}
use magnum.Session.Store.{node_count}
use magnum.Conductor.Driver.{ScaleManager}

-- `list(set(hosts) - hosts_with_container)`, in some order of the set, of which the model takes the
-- one of the last occurrences in `hosts`
unfoldable pub difference : List String → List String → List String
difference [] busy = []
difference (h ∷ hs) busy =
    let rest = difference hs busy in
    if contains h busy then rest else if contains h hs then rest else h ∷ rest

-- The program asks for the stack of a cluster that has one.
abbrev stack_of : Cluster → String
stack_of c = elim c.stack_id [ none ↦ "None" | some id ↦ id ]

abbrev listed : Option (List String) → Action (List String)
listed none = raise (unexpected "Output key is missing from stack")
listed (some hosts) = pure hosts

module _ (ctx : Context) where
  -- `ScaleManager.__init__`, of the cluster in hand
  unfoldable pub scale_manager : Keystone → Action ScaleManager
  unfolding get_cluster_by_uuid
  scale_manager k s =
      (asks (λ s. get_cluster_by_uuid k ctx s.cluster.uuid s.db) >>= λ old.
      pure (record { old_cluster = old; new_cluster = s.cluster }))
        s

  -- The property `node_count` of one of the two clusters is read from the nodegroups anew, in the
  -- context of the request, which both objects carry.
  abbrev pub count_of : Cluster → Session → ℕ
  count_of c s = node_count ctx (record s { cluster = c })

  unfoldable pub is_scale_down : ScaleManager → Session → Bool
  unfolding node_count
  is_scale_down m s = ltb (count_of m.new_cluster s) (count_of m.old_cluster s)

  unfoldable pub get_num_of_removal : ScaleManager → Session → ℕ
  unfolding node_count
  get_num_of_removal m s = count_of m.old_cluster s - count_of m.new_cluster s

  module _ (cloud : Cloud) (get_output_value : Stack → Option (List String))
      (get_hosts_with_container : List Event → Result (List String)) where
    -- The hosts to remove, where the cluster gets smaller
    unfoldable pub hosts_to_remove : ScaleManager → Action (List String)
    unfolding difference get_num_of_removal
    hosts_to_remove m = do
      stack ←
          call (stack_get (stack_of m.new_cluster))
            (λ evs. cloud.get_stack evs (stack_of m.new_cluster))
      hosts ← listed (get_output_value stack)
      busy ← asks (λ s. get_hosts_with_container s.events)
      λ s. pure (take (get_num_of_removal m s) (difference hosts busy)) s

    unfoldable pub get_removal_nodes : ScaleManager → Action (List String)
    unfolding is_scale_down hosts_to_remove
    get_removal_nodes m s = if is_scale_down m s then hosts_to_remove m s else (ok [], s)
