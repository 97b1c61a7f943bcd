-- ===== src/Heat/Poller/Status.antt =====
-- The status of a cluster from the statuses of its nodegroups: the decisions of
-- `aggregate_nodegroup_statuses` of magnum/drivers/heat/driver.py.
pub mod Laws
use magnum.Common.{
  Bool, true, false, not, ◌||◌, String, Option, none, some, List, [], ◌∷◌, any, select, map,
  if◌then◌else◌,
}
use magnum.Common.Text.{join_comma, ◌^+◌}
use magnum.Status.{
  ClusterStatus, create_complete, create_in_progress, update_complete, update_in_progress,
  update_failed, delete_complete, delete_in_progress, delete_failed, is, is_in, is_failed,
  is_progressing, is_complete, is_delete,
}
use magnum.Objects.{NodeGroup}

-- The named tuple NodeGroupStatus.
pub record NodeGroupStatus : Type 0 where
  pub name : String
  pub status : ClusterStatus
  pub is_default : Bool
  pub reason : Option String

abbrev pub status_of : NodeGroup → NodeGroupStatus
status_of n = record {
  name = n.name;
  status = n.status;
  is_default = n.is_default;
  reason = n.status_reason;
}

-- `getattr(fields.ClusterStatus, action + state)`, for the states in the order of their priority
abbrev pub action_status : Bool → ClusterStatus × ClusterStatus × ClusterStatus
action_status true = (delete_in_progress, delete_failed, delete_complete)
action_status false = (update_in_progress, update_failed, update_complete)

abbrev pub non_default_ngs_exist : List NodeGroupStatus → Bool
non_default_ngs_exist sts = any (λ (ns : NodeGroupStatus). not ns.is_default) sts

abbrev pub some_status : (ClusterStatus → Bool) → List NodeGroupStatus → Bool
some_status p sts = any (λ (ns : NodeGroupStatus). p ns.status) sts

-- The loop over the three states; no state matches where there is no nodegroup.
unfoldable pub summary : ClusterStatus → ClusterStatus → List NodeGroupStatus → ClusterStatus
unfolding is_failed is_progressing is_complete is_delete
summary previous default_ng_status sts =
    let others = non_default_ngs_exist sts in
    let (progressing, failed, complete) = action_status (is_delete default_ng_status) in
    if some_status is_progressing sts
    then (if others then progressing else default_ng_status)
    else if some_status is_failed sts
    then (if others then failed else default_ng_status)
    else if some_status is_complete sts
    then (if others then complete else default_ng_status)
    else previous

unfoldable pub aggregate_status :
    ClusterStatus → ClusterStatus → List NodeGroupStatus → ClusterStatus
unfolding summary
aggregate_status previous default_ng_status sts =
    let st = summary previous default_ng_status sts in
    if is st create_complete
    then (if is_in previous (create_complete ∷ create_in_progress ∷ [])
        then create_complete
        else update_complete)
    else st

-- The reason of a failure: the names of the nodegroups that have failed.
unfoldable pub failure_reason : ClusterStatus → List NodeGroupStatus → Option String
unfolding is_failed
failure_reason st sts =
    if is_failed st
    then some (
        join_comma (
          map (λ (ns : NodeGroupStatus). ns.name ^+ " failed")
            (select (λ (ns : NodeGroupStatus). is_failed ns.status) sts)))
    else none
