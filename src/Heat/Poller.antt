-- ===== src/Heat/Poller.antt =====
-- HeatPoller of magnum/drivers/heat/driver.py, and `update_cluster_status` of HeatDriver. The cluster
-- and the nodegroup of the session are `self.cluster` and `self.nodegroup`; `done` stands for the
-- default nodegroups that the loop has dealt with, `self.default_ngs` being these and the nodegroup
-- in hand if it is a default one.
pub mod Status
pub mod Laws
use magnum.Common.{
  ℕ, Bool, true, false, not, ◌&&◌, ◌||◌, String, Option, none, some, List, [], ◌∷◌, ◌++◌, all, map,
  is_some, if◌then◌else◌,
}
use magnum.Common.Text.{◌^+◌}
use magnum.Errors.{Error, Result, ok, err, unexpected, http_not_found, cluster_not_found}
use magnum.Status.{
  ClusterStatus, create_complete, create_in_progress, create_failed, update_complete,
  update_in_progress, update_failed, delete_complete, delete_in_progress, delete_failed,
  rollback_complete, rollback_failed, is, is_in,
}
use magnum.Objects.{Cluster, NodeGroup, Dict}
use magnum.Session.{
  Cloud, Stack, Session, Action, pure, raise, lift, gets, on_cluster, on_nodegroup, take_nodegroup,
  try_except, call, stack_get, ◌>>=◌, ◌>>◌,
}
use magnum.Session.Store.{cluster_save, save_nodegroup, ng_destroy, nodegroups, default_ng_master}
use magnum.Conductor.Driver.{Env, template}
use magnum.Conductor.Trust.{delete_trustee_and_trust}
use magnum.Conductor.Certs.{delete_certificates_from_cluster, delete_client_files}
use magnum.Common.Dicts.{lookup}
use magnum.Conductor.Cluster.Delete.{unless_deleted}
use magnum.Heat.Driver.{TemplateDefinition, stack_text}
use magnum.Heat.Poller.Status.{NodeGroupStatus, status_of, aggregate_status, failure_reason}

unfoldable pub sync_cluster_status : Stack → Action (Unit {0})
sync_cluster_status stack = do
  on_nodegroup (λ (n : NodeGroup). record n {
    status = stack.stack_status;
    status_reason = stack.stack_status_reason;
  })
  save_nodegroup

-- `stack.parameters[stack_param]`
abbrev item : String → Dict → Result String
item k d = elim (lookup k d) [ none ↦ err (unexpected k) | some v ↦ ok v ]

abbrev note_coe_version : Option String → Stack → Action (Unit {0})
note_coe_version none stack = pure tt
note_coe_version (some k) stack = do
  v ← lift (item k stack.parameters)
  on_cluster (λ (c : Cluster). record c { coe_version = some v })

unfoldable pub get_version_info : TemplateDefinition → Stack → Action (Unit {0})
get_version_info def stack = do
  note_coe_version def.coe_version_param stack
  on_cluster (λ (c : Cluster). record c { container_version = def.container_version })

unfoldable pub sync_cluster_and_template_status : TemplateDefinition → Stack → Action (Unit {0})
sync_cluster_and_template_status def stack = do
  def.update_outputs stack
  get_version_info def stack
  sync_cluster_status stack

unfoldable pub sync_missing_stack : ClusterStatus → Action (Unit {0})
sync_missing_stack new_status = do
  id ← gets (λ s. s.cluster.stack_id)
  on_nodegroup (λ (n : NodeGroup). record n {
    status = new_status;
    status_reason = some ("Stack with id " ^+ stack_text id ^+ " not found in Heat.");
  })
  save_nodegroup

module _ (cloud : Cloud) where
  -- `_delete_complete`
  unfoldable pub remove_credentials : Action (Unit {0})
  remove_credentials = unless_deleted (do
    delete_trustee_and_trust cloud
    delete_certificates_from_cluster cloud
    delete_client_files)

  -- `_check_delete_complete`, which is called for a default nodegroup only
  unfoldable pub check_delete_complete : List NodeGroup → Action (Unit {0})
  check_delete_complete done s =
      if all (λ (n : NodeGroup). is n.status delete_complete) (done ++ s.nodegroup ∷ [])
      then remove_credentials s
      else (ok tt, s)

  -- `_sync_missing_heat_stack`
  unfoldable pub sync_missing_heat_stack : List NodeGroup → Action (Unit {0})
  sync_missing_heat_stack done s =
      if is s.nodegroup.status delete_in_progress
      then (do
        sync_missing_stack delete_complete
        if s.nodegroup.is_default then check_delete_complete done else pure tt)
          s
      else if is s.nodegroup.status create_in_progress
      then sync_missing_stack create_failed s
      else if is s.nodegroup.status update_in_progress
      then sync_missing_stack update_failed s
      else (ok tt, s)

  module _ (def : TemplateDefinition) where
    -- The last `if` of the `try`.
    unfoldable pub note_failure : Stack → Action Bool
    note_failure stack =
        if is_in stack.stack_status
          (create_failed ∷ delete_failed ∷ update_failed ∷ rollback_complete ∷ rollback_failed ∷ [])
        then (do sync_cluster_and_template_status def stack; pure false)
        else pure false

    -- What follows the synchronisation: the answer is whether the nodegroup is gone.
    unfoldable pub after_sync : List NodeGroup → Stack → Action Bool
    after_sync done stack s =
        if is stack.stack_status delete_complete
        then (if s.nodegroup.is_default
            then (do check_delete_complete done; note_failure stack) s
            else (do ng_destroy s.nodegroup; pure true) s)
        else note_failure stack s

    abbrev get_stack : Option String → Action Stack
    get_stack id = call (stack_get (stack_text id)) (λ evs. cloud.get_stack evs (stack_text id))

    -- The body of the `try`.
    unfoldable pub poll_stack : List NodeGroup → Action Bool
    poll_stack done = do
      n ← gets (λ s. s.nodegroup)
      stack ← get_stack n.stack_id
      if is_in stack.stack_status (create_complete ∷ update_complete ∷ [])
          then (do
            resolved ← get_stack n.stack_id
            sync_cluster_and_template_status def resolved
            after_sync done resolved)
          else (if is stack.stack_status n.status
              then after_sync done stack
              else (do def.update_outputs stack; sync_cluster_status stack; after_sync done stack))

    -- `except heatexc.NotFound`
    unfoldable pub poll_failed : List NodeGroup → Error → Action Bool
    poll_failed done (http_not_found _) = do sync_missing_heat_stack done; pure false
    poll_failed done e = raise e

    unfoldable pub extract_nodegroup_status : List NodeGroup → Action (Option NodeGroupStatus)
    extract_nodegroup_status done s =
        if is_some s.nodegroup.stack_id
        then (do
          gone ← try_except (poll_stack done) (poll_failed done)
          n ← gets (λ t. t.nodegroup)
          pure (if gone then none else some (status_of n)))
            s
        else (ok (some (status_of s.nodegroup)), s)

    abbrev pub with_status : Option NodeGroupStatus → List NodeGroupStatus → List NodeGroupStatus
    with_status none sts = sts
    with_status (some st) sts = st ∷ sts

    -- The loop of poll_and_check.
    unfoldable pub poll_all : List NodeGroup → List NodeGroup → Action (List NodeGroupStatus)
    poll_all done [] = pure []
    poll_all done (n ∷ ns) = do
      take_nodegroup n
      st ← extract_nodegroup_status done
      n' ← gets (λ s. s.nodegroup)
      rest ← poll_all (if n.is_default then done ++ n' ∷ [] else done) ns
      pure (with_status st rest)

module _ (env : Env) where
  -- `aggregate_nodegroup_statuses`
  unfoldable pub aggregate_nodegroup_statuses : List NodeGroupStatus → Action (Unit {0})
  aggregate_nodegroup_statuses sts = do
    previous ← gets (λ s. s.cluster.status)
    on_cluster (λ (c : Cluster). record c { status_reason = none })
    master ← default_ng_master env.context
    let st = aggregate_status previous master.status sts
    on_cluster (λ (c : Cluster). record c { status = st; status_reason = failure_reason st sts })
    cluster_save

  unfoldable pub poll_and_check : TemplateDefinition → Action (Unit {0})
  poll_and_check def = do
    ngs ← gets (nodegroups env.context)
    sts ← poll_all env.cloud def [] ngs
    aggregate_nodegroup_statuses sts

  -- `update_cluster_status`, with the constructor of the poller, which reads the ClusterTemplate
  unfoldable pub update_cluster_status : TemplateDefinition → Bool → Action (Unit {0})
  update_cluster_status def use_admin_ctx s = elim s.cluster.stack_id [
    | none ↦ (ok tt, s)
    | some _ ↦ (do ct ← template env; poll_and_check def) s
  ]
