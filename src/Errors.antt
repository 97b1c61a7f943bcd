-- ===== src/Errors.antt =====
-- The exceptions that the modelled code raises or catches (magnum/common/exception.py and, for the
-- `http_*` ones, heatclient), and the result of a call that may raise.
use magnum.Common.{ℕ, ◌≡◌, refl, ap, String, Option, none, some, ◌⊎◌, inl, inr}
use magnum.Common.Text.{◌^+◌}

pub data Error : Type 0 where
  http_not_found http_conflict http_bad_request : String → Error
  authorization_failure unexpected : String → Error
  not_supported invalid_parameter_value conflict : String → Error
  operation_in_progress : Option String → Error
  ng_operation_in_progress : String → Error
  cluster_not_found cluster_already_exists : String → Error
  nodegroup_not_found : String → Error
  nodegroup_already_exists : String → String → Error
  master_ng_resize_not_supported zero_node_count_not_supported : Error
  cluster_upgrade_not_supported deleting_default_ng_not_supported : Error
  create_master_nodegroup cluster_api_address_unavailable : Error
  ng_resize_out_bounds invalid_cluster_template_for_upgrade : String → Error
  nodegroup_invalid_input : String → String → Error
  resource_not_found : String → String → Error
  image_not_found image_not_authorized os_distro_field_not_found : String → Error
  flavor_not_found key_pair_not_found external_network_not_found : String → Error
  required_parameter_not_provided client_side_error : String → Error
  glance_not_found glance_http_forbidden nova_not_found : Error
  cluster_template_not_found cluster_template_already_exists : String → Error
  cluster_template_referenced : String → Error
  quota_not_found project_not_found : String → Error
  not_authorized : Error
  x509_key_pair_not_found x509_key_pair_already_exists : String → Error
  magnum_service_not_found : ℕ → Error
  quota_already_exists : String → String → Error
  invalid_identity : String → Error
  cluster_type_not_supported : String → String → String → Error
  trustee_or_trust_to_cluster_failed certificates_to_cluster_failed : String → Error
  resource_limit_exceeded : String → Error
  multiple_results_found index_error : Error
  not_acceptable api_versions_intersect : Error

pub data Result {ℓ} (A : Type ℓ) : Type ℓ where
  ok : A → Result A
  err : Error → Result A

-- `six.text_type(e)`: the text of an exception. Those of other libraries carry theirs. The last two
-- leave out the version and the name of the method, and
-- that of a missing service leaves out its id.
unfoldable pub text_type : Error → String
text_type (http_not_found t) = t
text_type (http_conflict t) = t
text_type (http_bad_request t) = t
text_type (authorization_failure t) = t
text_type (unexpected t) = t
text_type (not_supported op) = op ^+ " is not supported."
text_type (invalid_parameter_value t) = t
text_type (conflict t) = t
text_type (operation_in_progress (some n)) =
    "Cluster " ^+ n ^+ " already has an operation in progress."
text_type (operation_in_progress none) = "Cluster None already has an operation in progress."
text_type (ng_operation_in_progress n) =
    "Nodegroup " ^+ n ^+ " already has an operation in progress."
text_type (cluster_not_found c) = "Cluster " ^+ c ^+ " could not be found."
text_type (cluster_already_exists u) = "A cluster with UUID " ^+ u ^+ " already exists."
text_type (nodegroup_not_found n) = "Nodegroup " ^+ n ^+ " could not be found."
text_type (nodegroup_already_exists n c) =
    "A node group with name " ^+ n ^+ " already exists in the cluster " ^+ c ^+ "."
text_type master_ng_resize_not_supported = "Resizing a master nodegroup is not supported."
text_type zero_node_count_not_supported =
    "Resizing a nodegroup to zero is not supported in the provided microversion."
text_type cluster_upgrade_not_supported =
    "Cluster upgrade is not supported in the provided microversion."
text_type deleting_default_ng_not_supported = "Deleting a default nodegroup is not supported."
text_type create_master_nodegroup = "Creating master nodegroups is currently not supported."
text_type cluster_api_address_unavailable = "Cluster API address is not available yet"
text_type (ng_resize_out_bounds n) = "Resizing " ^+ n ^+ " outside the allowed range"
text_type (invalid_cluster_template_for_upgrade r) =
    "Cluster Template is not valid for upgrade: " ^+ r
text_type (nodegroup_invalid_input a n) = a ^+ " for " ^+ n ^+ " is invalid"
text_type (resource_not_found n i) = "The " ^+ n ^+ " resource " ^+ i ^+ " could not be found."
text_type (image_not_found i) = "Image " ^+ i ^+ " could not be found."
text_type (image_not_authorized i) = "Not authorized for image " ^+ i ^+ "."
text_type (os_distro_field_not_found i) = "Image " ^+ i ^+ " doesn't contain os_distro field."
text_type (flavor_not_found f) = "Unable to find flavor " ^+ f ^+ "."
text_type (key_pair_not_found k) = "Unable to find keypair " ^+ k ^+ "."
text_type (external_network_not_found n) = "Unable to find external network " ^+ n ^+ "."
text_type (required_parameter_not_provided t) = t
text_type (client_side_error t) = t
text_type glance_not_found = "HTTP HTTPNotFound"
text_type glance_http_forbidden = "HTTP HTTPForbidden"
text_type nova_not_found = "HTTP 404"
text_type (cluster_template_not_found t) = "ClusterTemplate " ^+ t ^+ " could not be found."
text_type (cluster_template_already_exists u) =
    "A ClusterTemplate with UUID " ^+ u ^+ " already exists."
text_type (cluster_template_referenced t) =
    "ClusterTemplate " ^+ t ^+ " is referenced by one or multiple clusters."
text_type (project_not_found p) = "The project_id " ^+ p ^+ " could not be found."
text_type not_authorized = "Not authorized."
text_type (quota_not_found m) = "Quota could not be found: " ^+ m
text_type (quota_already_exists p r) =
    "Quota for project " ^+ p ^+ " already exists for resource " ^+ r ^+ "."
text_type (x509_key_pair_not_found m) = m
text_type (x509_key_pair_already_exists u) = "A key pair with UUID " ^+ u ^+ " already exists."
text_type (magnum_service_not_found s) = "A magnum service could not be found."
text_type (invalid_identity i) = "Expected an uuid or int but received " ^+ i ^+ "."
text_type (cluster_type_not_supported s o c) =
    "Cluster type (" ^+ s ^+ ", " ^+ o ^+ ", " ^+ c ^+ ") not supported."
text_type (trustee_or_trust_to_cluster_failed u) =
    "Failed to create trustee or trust for Cluster: " ^+ u
text_type (certificates_to_cluster_failed u) = "Failed to create certificates for Cluster: " ^+ u
text_type (resource_limit_exceeded m) = "Resource limit exceeded: " ^+ m
text_type multiple_results_found = "Multiple rows were found when exactly one was required"
text_type index_error = "list index out of range"
text_type not_acceptable = "The requested API is not supported for this version."
text_type api_versions_intersect = "Version of the API intersects with another versions."

-- `isinstance(e, exc.HTTPBadRequest)` turns Heat's refusal into a 400 of the API; any other
-- exception goes on as it is.
unfoldable pub reraise : Error → Error
reraise (http_bad_request t) = invalid_parameter_value t
reraise e = e

pub Result-cases {ℓ} :
    {A : Type ℓ} (r : Result A) → ((a : A) × (r ≡ ok a)) ⊎ ((e : Error) × (r ≡ err e))
Result-cases (ok a) = inl (a, refl)
Result-cases (err e) = inr (e, refl)

-- Equal answers are answers of equal values.
pub ok_inj {ℓ} : {A : Type ℓ} {a b : A} → ok a ≡ ok b → a ≡ b
ok_inj {A} {a} h = ap value_of h
  where
    value_of : Result A → A
    value_of (ok x) = x
    value_of (err _) = a

infixl 5 ◌>>=◌
module _ {ℓ κ} {A : Type ℓ} {B : Type κ} where
  -- What follows a call is done with its answer, unless the call has raised.
  abbrev pub ◌>>=◌ : Result A → (A → Result B) → Result B
  ◌>>=◌ call rest = elim call [ err e ↦ err e | ok a ↦ rest a ]

  -- A block that answers got an answer from its first call.
  pub answer_of :
      (call : Result A) (rest : A → Result B) {b : B}
      → ◌>>=◌ call rest ≡ ok b
      → (a : A) × (call ≡ ok a) × (rest a ≡ ok b)
  answer_of (err e) rest h = cc
  answer_of (ok a) rest h = (a, refl, h)
