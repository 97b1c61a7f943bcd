-- ===== src/Api/Validation/Laws.antt =====
-- What a request has that passes the checks of magnum/api/validation.py.
use magnum.Common.{
  ℕ, ◌≤◌, ◌≡◌, refl, true, false, ◌||◌, ltb, String, str_eq, Option, some, List, [], ◌∷◌, All,
  arith, contains, Bool-cases, ◌⊎◌, inl, inr, ◌↔◌,
}
use magnum.Errors.{ok, ◌>>=◌, answer_of}
use magnum.Api.Validation.{
  TemplateOptions, Validator, get_coe_validator, network_driver_supported, network_driver_allowed,
  validate_network_driver, or_default, enforce_network_driver_types, volume_size,
  enforce_volume_storage_size, validate_cluster_properties, cluster_update_allowed_properties,
}

-- A driver that the engine supports and the operator allows.
abbrev pub Fit : Validator → String → Type 0
Fit v driver =
    (contains driver v.supported_network_drivers ≡ true)
    × ((contains "all" v.allowed_network_drivers || contains driver v.allowed_network_drivers)
        ≡ true)

validate_network_driver-Fit :
    (v : Validator) (driver : String) → validate_network_driver v driver ≡ ok tt → Fit v driver
unfolding validate_network_driver network_driver_supported network_driver_allowed
validate_network_driver-Fit v driver h =
    elim (Bool-cases (contains driver v.supported_network_drivers)) [
      | inr other ↦ absurd (cc (rw other at h))
      | inl supported ↦ elim (Bool-cases (contains "all" v.allowed_network_drivers)) [
        | inl everything ↦ (supported, rw everything)
        | inr some_only ↦ elim (Bool-cases (contains driver v.allowed_network_drivers)) [
          | inl allowed ↦ (supported, rw (some_only, allowed))
          | inr refused ↦ absurd (cc (rw (supported, some_only, refused) at h))
        ]
      ]
    ]

-- A ClusterTemplate that passes has a network driver that its engine supports and the operator
-- allows, also where the driver is the default of the configuration: the one that was asked for, or
-- that default.
pub enforce_network_driver_types-Fit :
    (conf : TemplateOptions) (engine driver : String) (asked : Option String)
    → enforce_network_driver_types conf engine asked ≡ ok driver
    → (v : Validator) × (get_coe_validator conf engine ≡ ok v)
      × (driver ≡ or_default asked v.default_network_driver)
      × Fit v driver
unfolding enforce_network_driver_types
enforce_network_driver_types-Fit conf engine driver asked h =
    let (v, found, rest) =
      answer_of (get_coe_validator conf engine)
        (λ v. validate_network_driver v (or_default asked v.default_network_driver) >>= λ _.
          ok (or_default asked v.default_network_driver))
        h in
    let (_, valid, same) =
      answer_of (validate_network_driver v (or_default asked v.default_network_driver))
        (λ _. ok (or_default asked v.default_network_driver)) rest in
    let chosen : driver ≡ or_default asked v.default_network_driver = ground arith in
    (
      v,
      found,
      chosen,
      rw chosen (validate_network_driver-Fit v (or_default asked v.default_network_driver) valid),
    )

large_enough : (n : ℕ) → ltb n 3 ≡ false → 3 ≤ n
large_enough n h = ground arith

not_small : (n : ℕ) → 3 ≤ n → ltb n 3 ≡ false
not_small n h = ground arith

-- The storage driver devicemapper gets a volume of at least 3 GB, and no other storage driver has a
-- limit: the check passes exactly then. The size is the cluster's, or the template's where the
-- cluster has none or 0.
pub enforce_volume_storage_size_lem :
    (storage_driver : String) (template_size cluster_size : Option ℕ)
    → (enforce_volume_storage_size (some storage_driver) template_size cluster_size ≡ ok tt) ↔ (
        (str_eq storage_driver "devicemapper" ≡ false)
        ⊎ (3 ≤ volume_size cluster_size template_size))
unfolding enforce_volume_storage_size
enforce_volume_storage_size_lem storage_driver template_size cluster_size = (
  (λ h. elim (Bool-cases (str_eq storage_driver "devicemapper")) [
    | inr other ↦ inl other
    | inl mapper ↦ elim (Bool-cases (ltb (volume_size cluster_size template_size) 3)) [
      | inl small ↦ absurd (cc (rw (mapper, small) at h))
      | inr large ↦ inr (large_enough (volume_size cluster_size template_size) large)
    ]
  ]),
  (λ k. elim k [
    | inl other ↦ rw other
    | inr large ↦
        rw (not_small (volume_size cluster_size template_size) large)
          (elim (Bool-cases (str_eq storage_driver "devicemapper")) [
            | inl mapper ↦ rw mapper
            | inr other ↦ rw other
          ])
  ]),
)

passing_properties :
    (delta : List String)
    → validate_cluster_properties delta ≡ ok tt
    → All (λ (p : String). contains p cluster_update_allowed_properties ≡ true) delta
unfolding validate_cluster_properties
passing_properties [] h = tt
passing_properties (p ∷ ps) h = elim (Bool-cases (contains p cluster_update_allowed_properties)) [
  | inl fine ↦ (fine, passing_properties ps (rw fine at h))
  | inr bad ↦ absurd (cc (rw bad at h))
]

properties_pass :
    (delta : List String)
    → All (λ (p : String). contains p cluster_update_allowed_properties ≡ true) delta
    → validate_cluster_properties delta ≡ ok tt
unfolding validate_cluster_properties
properties_pass [] h = refl
properties_pass (p ∷ ps) h = rw h.0 (properties_pass ps h.1)

-- An update of a cluster passes exactly if it changes none but the allowed properties.
pub validate_cluster_properties_lem :
    (delta : List String)
    → (validate_cluster_properties delta ≡ ok tt)
      ↔ All (λ (p : String). contains p cluster_update_allowed_properties ≡ true) delta
unfolding validate_cluster_properties
validate_cluster_properties_lem delta = (passing_properties delta, properties_pass delta)
