-- ===== src/Api/Validation.antt =====
-- The checks of a request in magnum/api/validation.py: the validators of the container orchestration
-- engines, the size of Docker's volumes, and the properties of a cluster that an update may change.
-- The lists of allowed drivers and the defaults come from the configuration.
pub mod Laws
use magnum.Common.{
  ℕ, Bool, true, false, not, ◌&&◌, ◌||◌, ltb, ◌==◌, String, str_eq, Option, none, some, List, [],
  ◌∷◌, ◌++◌, contains, select, is_some, if◌then◌else◌,
}
use magnum.Common.Text.{join_comma, join_slash, ◌^+◌}
use magnum.Errors.{Error, Result, ok, err, ◌>>=◌, invalid_parameter_value}

-- The options of the group `cluster_template` of the configuration.
pub record TemplateOptions : Type 0 where
  pub kubernetes_allowed_network_drivers : List String
  pub kubernetes_default_network_driver : String
  pub swarm_allowed_network_drivers : List String
  pub swarm_default_network_driver : String

-- The attributes of a subclass of Validator.
pub record Validator : Type 0 where
  pub supported_network_drivers : List String
  pub supported_server_types : List String
  pub allowed_network_drivers : List String
  pub default_network_driver : String
  pub supported_volume_driver : List String

abbrev pub k8s_validator : TemplateOptions → Validator
k8s_validator conf = record {
  supported_network_drivers = "flannel" ∷ "calico" ∷ [];
  supported_server_types = "vm" ∷ "bm" ∷ [];
  allowed_network_drivers = conf.kubernetes_allowed_network_drivers;
  default_network_driver = conf.kubernetes_default_network_driver;
  supported_volume_driver = "cinder" ∷ [];
}

abbrev pub swarm_validator : TemplateOptions → Validator
swarm_validator conf = record {
  supported_network_drivers = "docker" ∷ "flannel" ∷ [];
  supported_server_types = "vm" ∷ "bm" ∷ [];
  allowed_network_drivers = conf.swarm_allowed_network_drivers;
  default_network_driver = conf.swarm_default_network_driver;
  supported_volume_driver = "rexray" ∷ [];
}

unfoldable pub get_coe_validator : TemplateOptions → String → Result Validator
get_coe_validator conf engine =
    if str_eq engine "kubernetes"
    then ok (k8s_validator conf)
    else if str_eq engine "swarm" || str_eq engine "swarm-mode"
    then ok (swarm_validator conf)
    else err (invalid_parameter_value ("Requested COE type " ^+ engine ^+ " is not supported."))

abbrev choices : List String → String
choices drivers = join_slash (drivers ++ "unspecified" ∷ [])

-- `_validate_network_driver_supported` and `_validate_network_driver_allowed`
unfoldable pub network_driver_supported : Validator → String → Result (Unit {0})
network_driver_supported v driver =
    if contains driver v.supported_network_drivers
    then ok tt
    else err (
        invalid_parameter_value (
          "Network driver type "
          ^+ driver
          ^+ " is not supported, expecting a "
          ^+ choices v.supported_network_drivers
          ^+ " network driver."))

unfoldable pub network_driver_allowed : Validator → String → Result (Unit {0})
network_driver_allowed v driver =
    if not (contains "all" v.allowed_network_drivers)
      && not (contains driver v.allowed_network_drivers)
    then err (
        invalid_parameter_value (
          "Network driver type "
          ^+ driver
          ^+ " is not allowed, expecting a "
          ^+ choices v.allowed_network_drivers
          ^+ " network driver. "))
    else ok tt

unfoldable pub validate_network_driver : Validator → String → Result (Unit {0})
unfolding network_driver_supported network_driver_allowed
validate_network_driver v driver = do
  supported ← network_driver_supported v driver
  network_driver_allowed v driver

unfoldable pub validate_volume_driver : Validator → String → Result (Unit {0})
validate_volume_driver v driver =
    if contains driver v.supported_volume_driver
    then ok tt
    else err (
        invalid_parameter_value (
          "Volume driver type "
          ^+ driver
          ^+ " is not supported, expecting a "
          ^+ choices v.supported_volume_driver
          ^+ " volume driver."))

unfoldable pub validate_server_type : Validator → String → Result (Unit {0})
validate_server_type v server_type =
    if contains server_type v.supported_server_types
    then ok tt
    else err (
        invalid_parameter_value (
          "Server type "
          ^+ server_type
          ^+ " is not supported, expecting a "
          ^+ choices v.supported_server_types
          ^+ " server type."))

-- Neither absent nor empty.
abbrev pub filled : Option String → Bool
filled none = false
filled (some t) = not (str_eq t "")

abbrev pub or_default : Option String → String → String
or_default none d = d
or_default (some t) d = if str_eq t "" then d else t

-- `_enforce_network_driver_types`: the answer is the driver that the template has then.
unfoldable pub enforce_network_driver_types :
    TemplateOptions → String → Option String → Result String
unfolding get_coe_validator validate_network_driver
enforce_network_driver_types conf engine network_driver = do
  v ← get_coe_validator conf engine
  let driver = or_default network_driver v.default_network_driver
  valid ← validate_network_driver v driver
  ok driver

unfoldable pub enforce_server_type : TemplateOptions → String → String → Result (Unit {0})
unfolding get_coe_validator validate_server_type
enforce_server_type conf engine server_type = do
  v ← get_coe_validator conf engine
  validate_server_type v server_type

unfoldable pub enforce_volume_driver_types :
    TemplateOptions → String → Option String → Result (Unit {0})
unfolding get_coe_validator validate_volume_driver
enforce_volume_driver_types conf engine none = do v ← get_coe_validator conf engine; ok tt
enforce_volume_driver_types conf engine (some driver) = do
  v ← get_coe_validator conf engine
  if str_eq driver "" then ok tt else validate_volume_driver v driver

-- `cluster.get('docker_volume_size') or cluster_template.get('docker_volume_size')`, where 0 stands
-- for no size
abbrev pub size_of : Option ℕ → ℕ
size_of none = 0
size_of (some n) = n

abbrev pub volume_size : Option ℕ → Option ℕ → ℕ
volume_size cluster_size template_size =
    if size_of cluster_size == 0 then size_of template_size else size_of cluster_size

-- `_enforce_volume_storage_size`, of the template's storage driver and size and the cluster's size;
-- the text leaves out the size.
unfoldable pub enforce_volume_storage_size : Option String → Option ℕ → Option ℕ → Result (Unit {0})
enforce_volume_storage_size none template_size cluster_size = ok tt
enforce_volume_storage_size (some storage_driver) template_size cluster_size =
    if str_eq storage_driver "devicemapper" && ltb (volume_size cluster_size template_size) 3
    then err (
        invalid_parameter_value (
          "docker volume size is not valid, expecting minimum value 3GB for " ^+ storage_driver
          ^+ " storage driver."))
    else ok tt

abbrev pub cluster_update_allowed_properties : List String
cluster_update_allowed_properties = "node_count" ∷ "health_status" ∷ "health_status_reason" ∷ []

abbrev pub federation_update_allowed_properties : List String
federation_update_allowed_properties = "member_ids" ∷ "properties" ∷ []

-- `delta - allowed`, in some order
abbrev pub disallowed : List String → List String → List String
disallowed allowed delta = select (λ p. not (contains p allowed)) delta

abbrev refuse_properties : String → List String → Result (Unit {0})
refuse_properties what [] = ok tt
refuse_properties what (p ∷ ps) = err (
    invalid_parameter_value
      ("cannot change " ^+ what ^+ " property(ies) " ^+ join_comma (p ∷ ps) ^+ "."))

unfoldable pub validate_cluster_properties : List String → Result (Unit {0})
validate_cluster_properties delta =
    refuse_properties "cluster" (disallowed cluster_update_allowed_properties delta)

unfoldable pub validate_federation_properties : List String → Result (Unit {0})
validate_federation_properties delta =
    refuse_properties "federation" (disallowed federation_update_allowed_properties delta)
