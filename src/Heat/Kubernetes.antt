-- ===== src/Heat/Kubernetes.antt =====
-- The driver of the Fedora images as an object of the interface Driver: the methods of HeatDriver,
-- KubernetesDriver and FedoraKubernetesDriver of magnum/drivers/heat/driver.py. Its upgrade compares
-- versions with pbr's SemanticVersion, and is an argument.
use magnum.Common.{ℕ, Bool, none}
use magnum.Objects.{ClusterTemplate}
use magnum.Session.{Action, pure}
use magnum.Conductor.Driver.{Driver, Env}
use magnum.Heat.Driver.{
  TemplateDefinition, create_cluster, update_cluster, resize_cluster, delete_cluster,
  create_nodegroup, update_nodegroup, delete_nodegroup, rotate_ca_certificate,
}
use magnum.Heat.Poller.{update_cluster_status}

abbrev pub fedora_driver :
    Env → TemplateDefinition → (ClusterTemplate → ℕ → Bool → Action (Unit {0})) → Driver
fedora_driver env def upgrade = record {
  create_cluster = create_cluster env.cloud def;
  update_cluster = update_cluster env.cloud env.context def;
  resize_cluster = resize_cluster env.cloud def;
  upgrade_cluster = upgrade;
  delete_cluster = delete_cluster env.cloud env.context;
  create_nodegroup = create_nodegroup env.cloud def;
  update_nodegroup = update_nodegroup env.cloud;
  delete_nodegroup = delete_nodegroup env.cloud;
  rotate_ca_certificate = rotate_ca_certificate env;
  update_cluster_status = update_cluster_status env def;
  get_scale_manager = pure none;
}
