-- ===== src/Heat/Driver.antt =====
-- HeatDriver and the methods of KubernetesDriver of magnum/drivers/heat/driver.py. What the driver
-- says of its templates (the class that `get_template_definition` answers) is a record of hooks.
use magnum.Common.{
  ℕ, Bool, true, false, ◌==◌, String, str_eq, Option, none, some, List, [], if◌then◌else◌,
}
use magnum.Common.Text.{codes, ◌^+◌}
use magnum.Errors.{Result, ok, err, unexpected, not_supported}
use magnum.Status.{delete_in_progress}
use magnum.Objects.{Cluster, NodeGroup}
use magnum.Db.Tenant.{Context}
use magnum.Session.{
  Cloud, Stack, Session, Action, pure, raise, lift, gets, asks, on_cluster, on_nodegroup, for_each,
  call, stack_create, stack_update, stack_delete, load_balancers_delete, ◌>>=◌, ◌>>◌,
}
use magnum.Session.Store.{
  ng_save, save_nodegroup, ng_destroy, nodegroups, default_ng_worker, default_ng_master,
}
use magnum.Conductor.Driver.{ScaleManager, Env, template}
use magnum.Heat.Names.{stack_name}

-- The hooks. `extract` reads a template, `extra_params` asks Heat for what a nodegroup's stack needs,
-- and `scale_params` computes the parameters of an update: they only may raise. `update_outputs`
-- copies the outputs of a stack to the objects.
pub record TemplateDefinition : Type 0 where
  pub extract : Bool → Session → Result (Unit {0})
  pub extra_params : Session → Result (Unit {0})
  pub scale_params : ℕ → Option ScaleManager → List String → Session → Result (Unit {0})
  pub update_outputs : Stack → Action (Unit {0})
  pub coe_version_param : Option String
  pub container_version : Option String

-- An id in a URL of Heat.
abbrev pub stack_text : Option String → String
stack_text none = "None"
stack_text (some id) = id

module _ (cloud : Cloud) where
  unfoldable pub update_stack : Option String → Action (Unit {0})
  update_stack id =
      call (stack_update (stack_text id)) (λ evs. cloud.update_stack evs (stack_text id))

  -- `_delete_stack`
  unfoldable pub delete_stack : Option String → Action (Unit {0})
  delete_stack id =
      call (stack_delete (stack_text id)) (λ evs. cloud.delete_stack evs (stack_text id))

  -- `if cluster_create_timeout: … else: …`
  abbrev pub heat_timeout : Option ℕ → ℕ
  heat_timeout none = cloud.create_timeout
  heat_timeout (some n) = if n == 0 then cloud.create_timeout else n

  -- `cluster.name[:30]` needs a name.
  abbrev name_of : Option String → Result String
  name_of none = err (unexpected "'NoneType' object is not subscriptable")
  name_of (some n) = ok n

  -- `if nodegroup: heat_params.update(…)`
  abbrev ask_extra_params : TemplateDefinition → Option NodeGroup → Action (Unit {0})
  ask_extra_params def none = pure tt
  ask_extra_params def (some _) = asks def.extra_params

  unfoldable pub create_stack : TemplateDefinition → Option ℕ → Option NodeGroup → Action String
  create_stack def timeout nodegroup = do
    asks (def.extract (elim nodegroup [ none ↦ false | some _ ↦ true ]))
    c ← gets (λ s. s.cluster)
    name ← lift (name_of c.name)
    id ← gets (λ s. cloud.generate_id s.events)
    ask_extra_params def nodegroup
    let full =
        stack_name (codes name) (elim nodegroup [ none ↦ none | some n ↦ some (codes n.name) ])
          (codes id)
    call (stack_create full (heat_timeout timeout))
        (λ evs. cloud.create_stack evs full (heat_timeout timeout))

  unfoldable pub create_cluster : TemplateDefinition → Option ℕ → Action (Unit {0})
  create_cluster def timeout = do
    id ← create_stack def timeout none
    on_cluster (λ (c : Cluster). record c { stack_id = some id })

  unfoldable pub create_nodegroup : TemplateDefinition → Action (Unit {0})
  create_nodegroup def = do
    timeout ← gets (λ s. s.cluster.create_timeout)
    n ← gets (λ s. s.nodegroup)
    id ← create_stack def timeout (some n)
    on_nodegroup (λ (n : NodeGroup). record n { stack_id = some id })

  -- `_resize_stack`, which is resize_cluster
  unfoldable pub resize_cluster :
      TemplateDefinition → Option ScaleManager → ℕ → List String → Action (Unit {0})
  resize_cluster def manager node_count nodes_to_remove = do
    n ← gets (λ s. s.nodegroup)
    asks (def.scale_params n.node_count manager nodes_to_remove)
    update_stack n.stack_id

  unfoldable pub update_nodegroup : Action (Unit {0})
  update_nodegroup = save_nodegroup

  -- `if not nodegroup.stack_id`
  unfoldable pub delete_nodegroup_of : Option String → Action (Unit {0})
  delete_nodegroup_of none s = ng_destroy s.nodegroup s
  delete_nodegroup_of (some id) s =
      if str_eq id "" then ng_destroy s.nodegroup s else delete_stack (some id) s

  unfoldable pub delete_nodegroup : Action (Unit {0})
  delete_nodegroup s = delete_nodegroup_of s.nodegroup.stack_id s

  -- `pre_delete_cluster` of KubernetesDriver
  unfoldable pub pre_delete_cluster : Action (Unit {0})
  pre_delete_cluster s =
      if cloud.octavia_enabled
      then call (load_balancers_delete s.cluster.uuid)
          (λ evs. cloud.delete_loadbalancers evs s.cluster.uuid) s
      else (ok tt, s)

  unfoldable pub delete_nodegroup_stack : NodeGroup → Action (Unit {0})
  delete_nodegroup_stack n = do
    ng_save n (λ (m : NodeGroup). record m { status = delete_in_progress })
    if n.is_default then pure tt else delete_stack n.stack_id

  module _ (ctx : Context) where
    -- `_update_stack`, which is update_cluster
    unfoldable pub update_cluster :
        TemplateDefinition → Option ScaleManager → Bool → Action (Unit {0})
    update_cluster def manager rollback = do
      n ← default_ng_worker ctx
      asks (def.scale_params n.node_count manager [])
      update_stack n.stack_id

    unfoldable pub delete_cluster : Action (Unit {0})
    delete_cluster = do
      pre_delete_cluster
      ngs ← gets (nodegroups ctx)
      for_each ngs delete_nodegroup_stack
      n ← default_ng_master ctx
      delete_stack n.stack_id

-- `rotate_ca_certificate` of FedoraKubernetesDriver
unfoldable pub rotate_ca_certificate : Env → Action (Unit {0})
rotate_ca_certificate env = do
  ct ← template env
  if str_eq ct.cluster_distro "fedora-coreos"
      then (λ s. update_stack env.cloud s.cluster.stack_id s)
      else raise (
          not_supported (
            "Rotating the CA certificate is not supported for cluster with cluster_distro: "
            ^+ ct.cluster_distro ^+ "."))
