-- ===== src/Samples.antt =====
-- Sample rows, services and drivers, for the runs of Witnesses.
use magnum.Heat.Driver.{TemplateDefinition}
use magnum.Common.{ℕ, Bool, ◌+◌, ◌==◌, length, if◌then◌else◌, true, false, none, some, [], ◌∷◌}
use magnum.Errors.{Error, Result, ok, err, http_bad_request, http_not_found, http_conflict}
use magnum.Status.{create_complete, delete_in_progress}
use magnum.Objects.{Cluster, NodeGroup, ClusterTemplate, Database}
use magnum.Db.Tenant.{Context, Keystone}
use magnum.Session.{Stack, Session, Cloud, Action, pure, raise}
use magnum.Conductor.Driver.{Driver, Env}

abbrev pub prod : Cluster
prod = record {
  id = 1;
  uuid = "c-1";
  name = some "prod";
  project_id = "blue";
  user_id = "ann";
  cluster_template_id = "t-1";
  keypair = none;
  docker_volume_size = none;
  labels = none;
  master_flavor_id = none;
  flavor_id = some "m1";
  fixed_network = none;
  fixed_subnet = none;
  floating_ip_enabled = true;
  master_lb_enabled = false;
  stack_id = some "s-1";
  status = create_complete;
  status_reason = none;
  health_status = none;
  health_status_reason = none;
  create_timeout = some 60;
  api_address = none;
  ca_cert_ref = some "ca";
  magnum_cert_ref = some "client";
  etcd_ca_cert_ref = some "etcd";
  front_proxy_ca_cert_ref = some "proxy";
  trust_id = some "trust";
  trustee_username = none;
  trustee_password = none;
  trustee_user_id = some "trustee";
  coe_version = none;
  container_version = none;
}

-- A cluster of another project.
abbrev pub other : Cluster
other = record prod { id = 2; uuid = "c-2"; project_id = "red"; user_id = "bob" }

abbrev pub worker : NodeGroup
worker = record {
  id = 1;
  uuid = "n-1";
  name = "default-worker";
  cluster_id = "c-1";
  project_id = "blue";
  docker_volume_size = none;
  labels = none;
  flavor_id = none;
  image_id = none;
  node_addresses = [];
  node_count = 3;
  role = "worker";
  max_node_count = none;
  min_node_count = 1;
  is_default = true;
  stack_id = some "s-1";
  status = create_complete;
  status_reason = none;
}

abbrev pub master : NodeGroup
master = record worker {
  id = 2;
  uuid = "n-2";
  name = "default-master";
  role = "master";
  node_count = 1;
}

abbrev pub k8s : ClusterTemplate
k8s = record {
  id = 1;
  uuid = "t-1";
  name = "k8s";
  project_id = "blue";
  user_id = "ann";
  image_id = some "fedora";
  flavor_id = some "m1";
  master_flavor_id = none;
  docker_volume_size = none;
  keypair_id = some "key";
  external_network_id = some "public";
  fixed_network = none;
  fixed_subnet = none;
  floating_ip_enabled = true;
  master_lb_enabled = false;
  server_type = "vm";
  cluster_distro = "fedora-coreos";
  coe_name = "kubernetes";
  labels = none;
  is_public = false;
  hidden = false;
}

-- A template that no cluster refers to.
abbrev pub swarm : ClusterTemplate
swarm = record k8s { id = 2; uuid = "t-2"; name = "swarm" }

abbrev pub tables : Database
tables = record {
  clusters = prod ∷ other ∷ [];
  nodegroups = worker ∷ master ∷ [];
  templates = k8s ∷ swarm ∷ [];
}

abbrev pub admin : Context
admin = record {
  is_admin = true;
  all_tenants = true;
  project_id = none;
  domain_id = none;
  user_id = "root";
}

abbrev pub ann : Context
ann = record {
  is_admin = false;
  all_tenants = false;
  project_id = some "blue";
  domain_id = some "default";
  user_id = "ann";
}

abbrev pub keystone : Keystone
keystone = record { trustee_domain_id = "trustees"; user_name = λ u. u }

abbrev pub stack : Stack
stack = record {
  stack_status = create_complete;
  stack_status_reason = none;
  outputs = [];
  parameters = [];
}

-- Services that do what they are asked.
abbrev pub cloud : Cloud
cloud = record {
  create_stack = λ _ _ _. ok "s-9";
  update_stack = λ _ _. ok tt;
  delete_stack = λ _ _. ok tt;
  get_stack = λ _ _. ok stack;
  create_trustee = λ _ n. ok (n, "trustee-9");
  create_trust = λ _ _. ok "trust-9";
  delete_trustee = λ _ _. ok tt;
  delete_trust = λ _ _. ok tt;
  store_cert = λ _ n. ok n;
  delete_cert = λ _ _. ok tt;
  octavia_enabled = false;
  delete_loadbalancers = λ _ _. ok tt;
  generate_password = λ _. "secret";
  generate_id = λ _. "x9";
  next_id = λ _ d. 7 + length d.nodegroups;
  generate_uuid = λ _ d. if length d.nodegroups == 2 then "u-9" else "u-10";
  integer_field = λ _. err (Error.unexpected "not a number");
  create_timeout = 60;
}

-- A driver whose operations all end in the same way and change nothing.
abbrev pub ending : Result (Unit {0}) → Driver
ending r = record {
  create_cluster = λ _ s. (r, s);
  update_cluster = λ _ _ s. (r, s);
  resize_cluster = λ _ _ _ s. (r, s);
  upgrade_cluster = λ _ _ _ s. (r, s);
  delete_cluster = λ s. (r, s);
  create_nodegroup = λ s. (r, s);
  update_nodegroup = λ s. (r, s);
  delete_nodegroup = λ s. (r, s);
  rotate_ca_certificate = λ s. (r, s);
  update_cluster_status = λ _ s. (r, s);
  get_scale_manager = pure none;
}

-- All that surrounds a handler, with one driver for the template.
abbrev pub env_of : Driver → Env
env_of d = record {
  context = admin;
  keystone = keystone;
  cloud = cloud;
  definitions = (("vm", "fedora-coreos", "kubernetes"), d) ∷ [];
}

abbrev pub session : Session
session = record {
  cluster = prod;
  changes = λ c. c;
  nodegroup = worker;
  ng_changes = λ n. n;
  db = tables;
  events = [];
}

-- The session in which a new cluster is asked for.
abbrev pub asked : Session
asked = record session {
  cluster = record prod { uuid = "c-3"; name = some "new" };
  nodegroup = worker;
}

abbrev pub accepting : Driver
accepting = ending (ok tt)

abbrev pub refusing : Driver
refusing = ending (err (http_bad_request "flavor"))

abbrev pub missing : Driver
missing = ending (err (http_not_found "s-1"))

abbrev pub busy : Driver
busy = ending (err (http_conflict "s-1"))

abbrev pub env : Env
env = env_of accepting

-- A cluster that is being deleted.
abbrev pub leaving : Session
leaving = record session { cluster = record prod { status = delete_in_progress } }

abbrev pub flavor : Error
flavor = http_bad_request "flavor"

-- Hooks of a driver that never raise, and no upgrade.
abbrev pub hooks : TemplateDefinition
hooks = record {
  extract = λ _ _. ok tt;
  extra_params = λ _. ok tt;
  scale_params = λ _ _ _ _. ok tt;
  update_outputs = λ _ s. (ok tt, s);
  coe_version_param = none;
  container_version = none;
}

abbrev pub no_upgrade : ClusterTemplate → ℕ → Bool → Action (Unit {0})
no_upgrade _ _ _ = raise (Error.not_supported "Upgrade")
