-- ===== src/Removal/Laws.antt =====
-- What get_removal_nodes of magnum/conductor/scale_manager.py names.
use magnum.Common.{inl, inr, ◌≡◌, String, Option, List, [], arith}
use magnum.Errors.{Result, ok, Result-cases}
use magnum.Db.Tenant.{Context, Keystone}
use magnum.Db.Clusters.{get_cluster_by_uuid}
use magnum.Db.Clusters.Laws.{found_uuid}
use magnum.Session.{Cloud, Stack, Session, Event}
use magnum.Session.Store.{nodegroups, node_count}
use magnum.Conductor.Driver.{ScaleManager}
use magnum.Removal.{scale_manager, is_scale_down, get_removal_nodes}

module _ (k : Keystone) (ctx : Context) (cloud : Cloud)
    (get_output_value : Stack → Option (List String))
    (get_hosts_with_container : List Event → Result (List String)) where
  -- A scale manager never names a host for removal: where one was made for a cluster, then at any
  -- later time, whatever the conductor and others have written in the tables by then, and so also
  -- after a smaller number of nodes was saved, get_removal_nodes answers the empty list without a
  -- look at the stack, since the old and the new cluster count the same nodegroups.
  pub get_removal_nodes_names_none :
      (m : ScaleManager) (s t : Session)
      → scale_manager ctx k s ≡ (ok m, s)
      → get_removal_nodes ctx cloud get_output_value get_hosts_with_container m t ≡ (ok [], t)
  unfolding scale_manager get_removal_nodes is_scale_down node_count nodegroups
  get_removal_nodes_names_none m s t made =
      elim (Result-cases (get_cluster_by_uuid k ctx s.cluster.uuid s.db)) [
        | inr (e, missing) ↦ absurd (cc (rw missing at made))
        | inl (old, found) ↦
            let kept : record { old_cluster = old; new_cluster = s.cluster } ≡ m =
              ground (arith, rw found at made) in
            rw (← kept) (rw (found_uuid k ctx s.cluster.uuid old s.db found) (ground arith))
      ]
