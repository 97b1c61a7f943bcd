-- ===== src/Objects.antt =====
-- The objects of magnum/objects: Cluster, NodeGroup and ClusterTemplate, with the columns that the
-- modelled code reads or writes, and the tables that hold them (magnum/db/sqlalchemy/models.py).
use magnum.Common.{ℕ, Bool, String, Option, List}
use magnum.Status.{ClusterStatus, ClusterHealthStatus}

-- A dict of texts, such as the labels.
abbrev pub Dict : Type 0
Dict = List (String × String)

pub record Cluster : Type 0 where
  pub id : ℕ
  pub uuid : String
  pub name : Option String
  pub project_id : String
  pub user_id : String
  pub cluster_template_id : String
  pub keypair : Option String
  pub docker_volume_size : Option ℕ
  pub labels : Option Dict
  pub master_flavor_id : Option String
  pub flavor_id : Option String
  pub fixed_network : Option String
  pub fixed_subnet : Option String
  pub floating_ip_enabled : Bool
  pub master_lb_enabled : Bool
  pub stack_id : Option String
  pub status : ClusterStatus
  pub status_reason : Option String
  pub health_status : Option ClusterHealthStatus
  pub health_status_reason : Option Dict
  pub create_timeout : Option ℕ
  pub api_address : Option String
  pub ca_cert_ref : Option String
  pub magnum_cert_ref : Option String
  pub etcd_ca_cert_ref : Option String
  pub front_proxy_ca_cert_ref : Option String
  pub trust_id : Option String
  pub trustee_username : Option String
  pub trustee_password : Option String
  pub trustee_user_id : Option String
  pub coe_version : Option String
  pub container_version : Option String

pub record NodeGroup : Type 0 where
  pub id : ℕ
  pub uuid : String
  pub name : String
  pub cluster_id : String
  pub project_id : String
  pub docker_volume_size : Option ℕ
  pub labels : Option Dict
  pub flavor_id : Option String
  pub image_id : Option String
  pub node_addresses : List String
  pub node_count : ℕ
  pub role : String
  pub max_node_count : Option ℕ
  pub min_node_count : ℕ
  pub is_default : Bool
  pub stack_id : Option String
  pub status : ClusterStatus
  pub status_reason : Option String

pub record ClusterTemplate : Type 0 where
  pub id : ℕ
  pub uuid : String
  pub name : String
  pub project_id : String
  pub user_id : String
  pub image_id : Option String
  pub flavor_id : Option String
  pub master_flavor_id : Option String
  pub docker_volume_size : Option ℕ
  pub keypair_id : Option String
  pub external_network_id : Option String
  pub fixed_network : Option String
  pub fixed_subnet : Option String
  pub floating_ip_enabled : Bool
  pub master_lb_enabled : Bool
  pub server_type : String
  pub cluster_distro : String
  pub coe_name : String
  pub labels : Option Dict
  pub is_public : Bool
  pub hidden : Bool

pub record Database : Type 0 where
  pub clusters : List Cluster
  pub nodegroups : List NodeGroup
  pub templates : List ClusterTemplate
