-- ===== src/Heat/Poller/Laws.antt =====
-- What HeatPoller of magnum/drivers/heat/driver.py makes of a stack that Heat does not know any more.
use magnum.Common.{
  ◌≡◌, refl, ap, ◌∙◌, Bool, true, false, String, some, List, [], ◌∷◌, ◌++◌, select, all, is_some,
  ◌⊎◌, inl, inr, Bool-cases, if◌then◌else◌,
}
use magnum.Common.Text.{◌^+◌}
use magnum.Errors.{Result, ok, err, http_not_found}
use magnum.Status.{
  ClusterStatus, create_in_progress, create_failed, update_in_progress, update_failed,
  delete_in_progress, delete_complete, is,
}
use magnum.Objects.{NodeGroup}
use magnum.Db.Table.{select-update_where}
use magnum.Session.{Cloud, Session, pure, stack_get}
use magnum.Session.Store.Laws.{ng_row_of, NgSaves, write_nodegroup, save_nodegroup_lem}
use magnum.Conductor.Trust.{delete_trustee_and_trust}
use magnum.Conductor.Trust.Laws.{delete_trustee_and_trust_never_raises}
use magnum.Conductor.Certs.{delete_certificates_from_cluster, delete_client_files}
use magnum.Conductor.Certs.Laws.{delete_certificates_never_raises}
use magnum.Heat.Driver.{TemplateDefinition, stack_text}
use magnum.Heat.Poller.{
  remove_credentials, check_delete_complete, sync_missing_stack, sync_missing_heat_stack,
  poll_stack, poll_failed, extract_nodegroup_status,
}
use magnum.Heat.Poller.Status.{status_of}

-- Neither the objects nor the database changes, and nothing is raised.
abbrev pub Quiet : Session → Result (Unit {0}) × Session → Type 0
Quiet s (r, s') =
    (r ≡ ok tt) × (s'.db ≡ s.db) × (s'.cluster ≡ s.cluster) × (s'.nodegroup ≡ s.nodegroup)

remove_credentials-Quiet : (cloud : Cloud) (s : Session) → Quiet s (remove_credentials cloud s)
unfolding remove_credentials delete_client_files
remove_credentials-Quiet cloud s =
    let (fine1, db1, c1, n1) = delete_trustee_and_trust_never_raises cloud s in
    let s1 : Session = (delete_trustee_and_trust cloud s).1 in
    let (fine2, db2, c2, n2) = delete_certificates_never_raises cloud s1 in
    let s2 : Session = (delete_certificates_from_cluster cloud s1).1 in
    let e1 : delete_trustee_and_trust cloud s ≡ (ok tt, s1) = cc fine1 in
    let e2 : delete_certificates_from_cluster cloud s1 ≡ (ok tt, s2) = cc fine2 in
    rw e1 (rw e2 (refl, db2 ∙ db1, c2 ∙ c1, n2 ∙ n1))

check_delete_complete-Quiet :
    (cloud : Cloud) (done : List NodeGroup) (s : Session)
    → Quiet s (check_delete_complete cloud done s)
unfolding check_delete_complete
check_delete_complete-Quiet cloud done s =
    elim (Bool-cases
      (all (λ (n : NodeGroup). is n.status delete_complete) (done ++ s.nodegroup ∷ []))) [
        | inl deleted ↦ rw deleted (remove_credentials-Quiet cloud s)
        | inr other ↦ rw other (refl, refl, refl, refl)
      ]

check_if_default-Quiet :
    (cloud : Cloud) (done : List NodeGroup) (is_default : Bool) (s : Session)
    → Quiet s ((if is_default then check_delete_complete cloud done else pure tt) s)
check_if_default-Quiet cloud done true s = check_delete_complete-Quiet cloud done s
check_if_default-Quiet cloud done false s = (refl, refl, refl, refl)

-- How an operation ends whose stack is missing.
abbrev pub ended : ClusterStatus → ClusterStatus
ended delete_in_progress = delete_complete
ended create_in_progress = create_failed
ended update_in_progress = update_failed
ended st = st

-- The nodegroup in hand with the status that a missing stack gives it.
abbrev pub missing_nodegroup : Session → ClusterStatus → NodeGroup → NodeGroup
missing_nodegroup s st n = record n {
  status = st;
  status_reason = some ("Stack with id " ^+ stack_text s.cluster.stack_id ^+ " not found in Heat.");
}

abbrev pub Busy : NodeGroup → Type 0
Busy n =
    (n.status ≡ delete_in_progress)
    ⊎ (n.status ≡ create_in_progress)
    ⊎ (n.status ≡ update_in_progress)

module _ (cloud : Cloud) (done : List NodeGroup) (old : NodeGroup) (s : Session)
    (ng_saves : NgSaves s old) where
  abbrev missing : ClusterStatus → NodeGroup → NodeGroup
  missing st n = missing_nodegroup s st n

  abbrev written : ClusterStatus → Session
  written st = record s {
    nodegroup = missing st s.nodegroup;
    ng_changes = λ n. n;
    db = write_nodegroup s.nodegroup (λ n. missing st (s.ng_changes n)) s.db;
  }

  sync_missing_stack_lem : (st : ClusterStatus) → sync_missing_stack st s ≡ (ok tt, written st)
  unfolding sync_missing_stack
  sync_missing_stack_lem st =
      save_nodegroup_lem
        (record s {
          nodegroup = missing st s.nodegroup;
          ng_changes = λ n. missing st (s.ng_changes n);
        })
        old ng_saves.0

  -- The session's nodegroup and its row are those of a missing stack.
  abbrev Ended : Result (Unit {0}) × Session → Type 0
  Ended (r, s') =
      (r ≡ ok tt)
      × (s'.nodegroup ≡ (written (ended s.nodegroup.status)).nodegroup)
      × (s'.db ≡ (written (ended s.nodegroup.status)).db)

  sync_missing_heat_stack-Ended : Busy s.nodegroup → Ended (sync_missing_heat_stack cloud done s)
  unfolding sync_missing_heat_stack
  sync_missing_heat_stack-Ended (inl deleting) =
      let t : Session = written delete_complete in
      let (fine, same_db, _, same_nodegroup) =
        check_if_default-Quiet cloud done s.nodegroup.is_default t in
      let d : is s.nodegroup.status delete_in_progress ≡ true =
        ap (λ st. is st delete_in_progress) deleting in
      rw (d, ap ended deleting)
        (rw (sync_missing_stack_lem delete_complete) (fine, same_nodegroup, same_db))
  sync_missing_heat_stack-Ended (inr (inl creating)) =
      let d : is s.nodegroup.status delete_in_progress ≡ false =
        ap (λ st. is st delete_in_progress) creating in
      let c : is s.nodegroup.status create_in_progress ≡ true =
        ap (λ st. is st create_in_progress) creating in
      rw (d, c, ap ended creating) (rw (sync_missing_stack_lem create_failed) (refl, refl, refl))
  sync_missing_heat_stack-Ended (inr (inr updating)) =
      let d : is s.nodegroup.status delete_in_progress ≡ false =
        ap (λ st. is st delete_in_progress) updating in
      let c : is s.nodegroup.status create_in_progress ≡ false =
        ap (λ st. is st create_in_progress) updating in
      let u : is s.nodegroup.status update_in_progress ≡ true =
        ap (λ st. is st update_in_progress) updating in
      rw (d, c, u, ap ended updating) (rw (sync_missing_stack_lem update_failed) (refl, refl, refl))

-- A nodegroup whose stack Heat does not know any more does not stay in progress: a poll ends its
-- deletion as DELETE_COMPLETE, its creation as CREATE_FAILED and its update as UPDATE_FAILED, in
-- the answer and in its row, with a reason that names the cluster's stack. This holds whatever
-- Keystone and the certificate store answer when the cluster's credentials are removed on the way.
-- The nodegroup is assumed to have one row, whose uuid the pending changes keep.
pub extract_nodegroup_status_missing :
    (cloud : Cloud) (def : TemplateDefinition) (done : List NodeGroup) (old : NodeGroup)
    (s : Session) (text : String)
    → NgSaves s old
    → is_some s.nodegroup.stack_id ≡ true
    → cloud.get_stack s.events (stack_text s.nodegroup.stack_id) ≡ err (http_not_found text)
    → Busy s.nodegroup
    → let f = missing_nodegroup s (ended s.nodegroup.status) in
      let (r, s') = extract_nodegroup_status cloud def done s in
      (r ≡ ok (some (status_of (f s.nodegroup))))
      × (select (ng_row_of s.nodegroup) s'.db.nodegroups ≡ f (s.ng_changes old) ∷ [])
unfolding extract_nodegroup_status poll_stack poll_failed
extract_nodegroup_status_missing cloud def done old s text ng_saves stack absent busy =
    let t : Session = record s {
      events = stack_get (stack_text s.nodegroup.stack_id) ∷ s.events;
    } in
    let f = λ (n : NodeGroup). missing_nodegroup s (ended s.nodegroup.status) (s.ng_changes n) in
    let (fine, same_nodegroup, same_db) =
      sync_missing_heat_stack-Ended cloud done old t ng_saves busy in
    let u : Session = (sync_missing_heat_stack cloud done t).1 in
    let done_lem : sync_missing_heat_stack cloud done t ≡ (ok tt, u) = cc fine in
    rw stack (
      rw absent (
        rw done_lem (
          ap (λ (m : NodeGroup). ok (some (status_of m))) same_nodegroup,
          rw same_db (
              select-update_where (ng_row_of s.nodegroup) f old s.db.nodegroups ng_saves.0
                ng_saves.1),
        )))
