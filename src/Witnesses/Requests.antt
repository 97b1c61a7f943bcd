-- ===== src/Witnesses/Requests.antt =====
-- Runs of the laws of Api.
use magnum.Common.{none, ℕ, ◌≡◌, refl, true, false, [], ◌∷◌, ◌++◌}
use magnum.Common.Int.{◌+ℤ◌}
use magnum.Errors.{ok}
use magnum.Api.Versions.{
  Version, VersionedMethod, version_select, check_for_versions_intersection, api_version,
}
use magnum.Api.Versions.Laws.{api_version_selects}
use magnum.Api.Validation.{
  TemplateOptions, Validator, get_coe_validator, enforce_network_driver_types, or_default,
}
use magnum.Api.Validation.Laws.{Fit, enforce_network_driver_types-Fit}

abbrev v1 : ℕ → Version
v1 n = record { major = 1; minor = n }

-- Two ranges that touch but do not meet.
abbrev early : VersionedMethod
early = record { start_version = v1 1; end_version = v1 2; func = 1 }

abbrev late : VersionedMethod
late = record { start_version = v1 3; end_version = v1 10; func = 2 }

disjoint : check_for_versions_intersection (early ∷ late ∷ []) ≡ false
unfolding check_for_versions_intersection ◌+ℤ◌
disjoint = refl

registered : api_version late (early ∷ []) ≡ (ok tt, (late ∷ []) ++ early ∷ [])
unfolding api_version ◌+ℤ◌
registered = refl

api_version_selects_example : version_select (v1 2) ((late ∷ []) ++ early ∷ []) ≡ ok 1
api_version_selects_example =
    api_version_selects late (early ∷ []) (late ∷ []) [] early (v1 2) (refl, (refl, tt)) registered
      refl refl

-- Two ranges that meet in one version.
meeting : check_for_versions_intersection (record early { end_version = v1 3 } ∷ late ∷ []) ≡ true
unfolding check_for_versions_intersection ◌+ℤ◌
meeting = refl

abbrev options : TemplateOptions
options = record {
  kubernetes_allowed_network_drivers = "all" ∷ [];
  kubernetes_default_network_driver = "flannel";
  swarm_allowed_network_drivers = "docker" ∷ [];
  swarm_default_network_driver = "docker";
}

default_driver : enforce_network_driver_types options "kubernetes" none ≡ ok "flannel"
unfolding enforce_network_driver_types
default_driver = refl

enforce_network_driver_types-Fit_example :
    (v : Validator) × (get_coe_validator options "kubernetes" ≡ ok v)
    × ("flannel" ≡ or_default none v.default_network_driver)
    × Fit v "flannel"
enforce_network_driver_types-Fit_example =
    enforce_network_driver_types-Fit options "kubernetes" "flannel" none default_driver
