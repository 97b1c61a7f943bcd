-- ===== src/Api/OsResources.antt =====
-- magnum/api/attr_validator.py: whether the resources of OpenStack that a ClusterTemplate or a cluster
-- names are there, and what its labels may be.
pub mod Laws
use magnum.Common.{
  ℕ, Bool, true, false, not, ◌&&◌, ◌||◌, ltb, ◌==◌, String, str_eq, Option, none, some, List, [],
  ◌∷◌, if◌then◌else◌, select, length, any, all, map,
}
use magnum.Common.Dicts.{lookup}
use magnum.Common.Text.{codes, codes_eq, ◌^+◌}
use magnum.Errors.{
  Error, Result, ok, err, ◌>>=◌, conflict, resource_not_found, image_not_found,
  image_not_authorized, os_distro_field_not_found, flavor_not_found, key_pair_not_found,
  external_network_not_found, required_parameter_not_provided, invalid_parameter_value,
  glance_not_found, glance_http_forbidden, nova_not_found,
}
use magnum.Objects.{Dict}
use magnum.Heat.Names.{lower as lower_ascii}

-- The clients of Glance, Nova and Neutron: an image as its field os_distro, a flavor and an external
-- network as a name and an id. `is_json` says whether `jsonutils.loads` reads a text.
pub record OpenStack : Type 0 where
  pub is_uuid_like : String → Bool
  pub get_image : String → Result (Option String)
  pub list_images : String → Result (List (Option String))
  pub list_flavors : Result (List (String × String))
  pub get_keypair : String → Result (Unit {0})
  pub list_external_networks : Result (List (String × String))
  pub is_json : String → Bool

-- `get_openstack_resource`, of images
unfoldable pub only_match : String → String → List (Option String) → Result (Option String)
only_match kind ident [] = err (resource_not_found kind ident)
only_match kind ident (r ∷ []) = ok r
only_match kind ident (_ ∷ _ ∷ _) = err (
    conflict (
      "Multiple " ^+ kind ^+ " exist with same name " ^+ ident
      ^+ ". Please use the resource id instead."))

-- The `except` clauses of `validate_image`.
abbrev pub image_error : String → Error → Error
image_error image glance_not_found = image_not_found image
image_error image (resource_not_found _ _) = image_not_found image
image_error image glance_http_forbidden = image_not_authorized image
image_error image e = e

abbrev pub image_found : String → Result (Option String) → Result (Unit {0})
image_found image (err e) = err (image_error image e)
image_found image (ok none) = err (os_distro_field_not_found image)
image_found image (ok (some distro)) =
    if str_eq distro "" then err (os_distro_field_not_found image) else ok tt

abbrev pub is_named : String → String × String → Bool
is_named t (name, id) = str_eq name t || str_eq id t

-- `except nova_exception.NotFound`
abbrev pub keypair_found : String → Result (Unit {0}) → Result (Unit {0})
keypair_found keypair (err nova_not_found) = err (key_pair_not_found keypair)
keypair_found keypair r = r

module _ (cli : OpenStack) where
  unfoldable pub get_openstack_image : String → Result (Option String)
  unfolding only_match
  get_openstack_image image =
      if cli.is_uuid_like image
      then cli.get_image image
      else (do found ← cli.list_images image; only_match "images" image found)

  unfoldable pub validate_image : String → Result (Unit {0})
  unfolding get_openstack_image
  validate_image image = image_found image (get_openstack_image image)

  unfoldable pub validate_flavor : Option String → Result (Unit {0})
  validate_flavor none = ok tt
  validate_flavor (some flavor) = do
    flavors ← cli.list_flavors
    if any (is_named flavor) flavors then ok tt else err (flavor_not_found flavor)

  unfoldable pub validate_keypair : Option String → Result (Unit {0})
  validate_keypair none = ok tt
  validate_keypair (some keypair) = keypair_found keypair (cli.get_keypair keypair)

  -- The count of the networks of that name or id.
  unfoldable pub validate_external_network : String → Result (Unit {0})
  validate_external_network network = do
    networks ← cli.list_external_networks
    let count = length (select (is_named network) networks)
    if count == 0
        then err (external_network_not_found network)
        else (if ltb 1 count
            then err (
                conflict (
                  "Multiple external networks exist with same name '" ^+ network
                  ^+ "'. Please use the external network ID instead."))
            else ok tt)

-- `text.split(',')`, over code points
unfoldable pub split_comma : List ℕ → List (List ℕ)
split_comma [] = [] ∷ []
split_comma (a ∷ s) = elim (split_comma s) [
  | [] ↦ [] ∷ []
  | part ∷ parts ↦ if a == b',' then [] ∷ part ∷ parts else (a ∷ part) ∷ parts
]

-- `text.split()`: the parts between white space, none of which is empty
abbrev pub is_space : ℕ → Bool
is_space a = a == 32 || (a == 9 || (a == 10 || (a == 11 || (a == 12 || a == 13))))

unfoldable pub split_space : List ℕ → List (List ℕ)
split_space [] = [] ∷ []
split_space (a ∷ s) = elim (split_space s) [
  | [] ↦ [] ∷ []
  | part ∷ parts ↦ if is_space a then [] ∷ part ∷ parts else (a ∷ part) ∷ parts
]

abbrev pub words : List ℕ → List (List ℕ)
words s = select (λ part. not (codes_eq part [])) (split_space s)

-- `text in texts`
abbrev pub is_one_of : List String → List ℕ → Bool
is_one_of texts part = any (λ t. codes_eq part (codes t)) texts

abbrev pub supported_isolation : List String
supported_isolation =
    "filesystem/posix" ∷ "filesystem/linux" ∷ "filesystem/shared" ∷ "posix/cpu" ∷ "posix/mem"
    ∷ "posix/disk" ∷ "cgroups/cpu" ∷ "cgroups/mem" ∷ "docker/runtime" ∷ "namespaces/pid" ∷ []

abbrev pub supported_image_providers : List String
supported_image_providers = "docker" ∷ "appc" ∷ []

abbrev pub supported_swarm_strategy : List String
supported_swarm_strategy = "spread" ∷ "binpack" ∷ "random" ∷ []

-- The texts of these exceptions leave out the lists.
unfoldable pub validate_labels_isolation : String → Result (Unit {0})
unfolding split_comma
validate_labels_isolation isolation =
    if all (is_one_of supported_isolation) (split_comma (codes isolation))
    then ok tt
    else err (invalid_parameter_value "property \"labels/mesos_slave_isolation\" is not supported")

abbrev pub is_docker : List ℕ → Bool
is_docker provider = codes_eq provider (codes "docker")

-- The loop over the parts of mesos_slave_isolation, which only ever sets the flag.
unfoldable pub find_runtime : Bool → List (List ℕ) → Bool
find_runtime flag [] = flag
find_runtime flag (part ∷ parts) =
    find_runtime (if codes_eq part (codes "docker/runtime") then true else flag) parts

abbrev pub flag_after : Option String → Bool → Bool
flag_after none flag = flag
flag_after (some isolation) flag = find_runtime flag (split_comma (codes isolation))

abbrev pub has_text : Option String → Bool
has_text none = false
has_text (some _) = true

-- `lower()` of one letter, as far as a comparison with the ASCII names below can tell: the Kelvin sign
-- is the only letter outside of ASCII that gets to be an ASCII letter alone, and the texts that the
-- others give are no part of a supported name.
abbrev pub lowercase : ℕ → ℕ
lowercase c = if c == 8490 then b'k' else lower_ascii c

-- The loop over the image providers, with the flag `isolation_with_valid_data`.
unfoldable pub check_providers : Option String → Bool → List (List ℕ) → Result (Unit {0})
unfolding find_runtime split_comma
check_providers isolation flag [] = ok tt
check_providers isolation flag (provider ∷ providers) =
    let p = map lowercase provider in
    let flag' = if is_docker p then flag_after isolation flag else flag in
    let rest = check_providers isolation flag' providers in
    if not (is_one_of supported_image_providers p)
    then err
        (invalid_parameter_value "property \"labels/mesos_slave_image_providers\" is not supported")
    else if is_docker p && (not (has_text isolation) || not flag')
    then err (
        required_parameter_not_provided
          "Docker runtime isolator has to be specified if 'docker' is included")
    else rest

unfoldable pub validate_labels_image_providers : String → Option String → Result (Unit {0})
unfolding check_providers
validate_labels_image_providers providers isolation =
    check_providers isolation false (split_comma (codes providers))

unfoldable pub validate_labels_strategy : String → Result (Unit {0})
unfolding split_space
validate_labels_strategy strategy =
    if all (is_one_of supported_swarm_strategy) (words (codes strategy))
    then ok tt
    else err (invalid_parameter_value "property \"labels/swarm_strategy\" is not supported")

abbrev pub unless_none : Option String → (String → Result (Unit {0})) → Result (Unit {0})
unless_none none f = ok tt
unless_none (some t) f = f t

-- What the validators of a ClusterTemplate or a cluster look at.
pub record Resources : Type 0 where
  pub image_id : Option String
  pub flavor_id : Option String
  pub master_flavor_id : Option String
  pub external_network_id : Option String
  pub labels : Option Dict

module _ (cli : OpenStack) where
  unfoldable pub validate_labels : Dict → Result (Unit {0})
  unfolding validate_labels_isolation validate_labels_image_providers validate_labels_strategy
  validate_labels labels = do
    _ ← unless_none (lookup "mesos_slave_isolation" labels) validate_labels_isolation
    _ ←
        unless_none (lookup "mesos_slave_image_providers" labels)
          (λ t. validate_labels_image_providers t (lookup "mesos_slave_isolation" labels))
    _ ←
        unless_none (lookup "mesos_slave_executor_env_variables" labels)
          (λ t. if cli.is_json t then ok tt else err (invalid_parameter_value "Json format error"))
    unless_none (lookup "swarm_strategy" labels) validate_labels_strategy

  -- `cluster[attr]`, if it is there and not empty, and the ClusterTemplate's value otherwise
  abbrev pub text_of : Option String → Option String → Option String
  text_of none other = other
  text_of (some t) other = if str_eq t "" then other else some t

  abbrev pub dict_of : Option Dict → Option Dict → Dict
  dict_of (some (item ∷ items)) other = item ∷ items
  dict_of _ none = []
  dict_of _ (some labels) = labels

  -- `validate_os_resources(context, cluster_template, cluster)`; `validate_fixed_network` does
  -- nothing, and no label is checked where there are no labels.
  unfoldable pub validate_os_resources : Resources → Resources → Option String → Result (Unit {0})
  unfolding validate_image validate_flavor validate_external_network validate_labels
      validate_keypair
  validate_os_resources ct c keypair = do
    _ ← unless_none (text_of c.image_id ct.image_id) (validate_image cli)
    _ ← validate_flavor cli (text_of c.flavor_id ct.flavor_id)
    _ ← validate_flavor cli (text_of c.master_flavor_id ct.master_flavor_id)
    _ ←
        unless_none (text_of c.external_network_id ct.external_network_id)
          (validate_external_network cli)
    _ ← validate_labels (dict_of c.labels ct.labels)
    validate_keypair cli keypair

unfoldable pub validate_master_count : ℕ → Bool → Result (Unit {0})
validate_master_count master_count master_lb_enabled =
    if ltb 1 master_count && not master_lb_enabled
    then err (invalid_parameter_value "master_count must be 1 when master_lb_enabled is False")
    else ok tt

-- `validate_federation_properties`
unfoldable pub validate_federation_properties : Option Dict → Result (Unit {0})
validate_federation_properties none =
    err (invalid_parameter_value "Please specify a `properties` dict for the federation.")
validate_federation_properties (some properties) = elim (lookup "dns-zone" properties) [
  | none ↦ err (invalid_parameter_value "No DNS zone specified. Please specify a `dns-zone`.")
  | some _ ↦ ok tt
]
