-- ===== src/Api/OsResources/Laws.antt =====
-- What the checks of labels in magnum/api/attr_validator.py let pass.
use magnum.Common.{
  ◌≡◌, refl, ◌∙◌, Bool, true, false, not, ◌&&◌, ◌||◌, String, Option, none, some, List, [], ◌∷◌,
  any, all, map, arith, ℕ, if◌then◌else◌,
}
use magnum.Common.Text.{codes, codes_eq}
use magnum.Errors.{Error, Result, ok, err}
use magnum.Api.OsResources.{
  lowercase, split_comma, is_one_of, supported_image_providers, is_docker, find_runtime, flag_after,
  has_text, check_providers, validate_labels_image_providers,
}

abbrev pub is_ok {ℓ} : {A : Type ℓ} → Result A → Bool
is_ok (ok _) = true
is_ok (err _) = false

-- Whether the isolation names Docker's runtime.
abbrev pub has_runtime : Option String → Bool
has_runtime none = false
has_runtime (some isolation) =
    any (λ part. codes_eq part (codes "docker/runtime")) (split_comma (codes isolation))

abbrev pub lowered : String → List (List ℕ)
lowered providers = map (map lowercase) (split_comma (codes providers))

or_lem : (b flag r : Bool) → ((if b then true else flag) || r) ≡ (flag || (b || r))
or_lem true true r = refl
or_lem true false r = refl
or_lem false flag r = refl

find_runtime_lem :
    (flag : Bool) (parts : List (List ℕ))
    → find_runtime flag parts ≡ (flag || any (λ part. codes_eq part (codes "docker/runtime")) parts)
unfolding find_runtime
find_runtime_lem true [] = refl
find_runtime_lem false [] = refl
find_runtime_lem flag (part ∷ parts) =
    let b = codes_eq part (codes "docker/runtime") in
    find_runtime_lem (if b then true else flag) parts
    ∙ or_lem b flag (any (λ part. codes_eq part (codes "docker/runtime")) parts)

flag_after_lem :
    (isolation : Option String) (flag : Bool)
    → flag_after isolation flag ≡ (flag || has_runtime isolation)
flag_after_lem none true = refl
flag_after_lem none false = refl
flag_after_lem (some isolation) flag = find_runtime_lem flag (split_comma (codes isolation))

-- The verdict on one provider, and on those behind it.
step_lem :
    (supported docker isolated flag runtime : Bool) (e1 e2 : Error) (rest : Result (Unit {0}))
    (others some_docker : Bool)
    → is_ok rest ≡ (
        others
        && (not some_docker
            || (isolated && ((if docker then flag || runtime else flag) || runtime))))
    → is_ok (
        if not supported
        then err e1
        else if docker && (not isolated || not (if docker then flag || runtime else flag))
        then err e2
        else rest)
      ≡ ((supported && others) && (not (docker || some_docker) || (isolated && (flag || runtime))))
step_lem supported docker isolated flag runtime e1 e2 rest others some_docker h = ground arith

-- What the loop over the providers lets pass.
abbrev verdict : Option String → Bool → List (List ℕ) → Bool
verdict isolation flag ps =
    all (is_one_of supported_image_providers) ps
    && (not (any is_docker ps) || (has_text isolation && (flag || has_runtime isolation)))

check_providers_lem :
    (isolation : Option String) (flag : Bool) (ps : List (List ℕ))
    → is_ok (check_providers isolation flag ps) ≡ verdict isolation flag (map (map lowercase) ps)
unfolding check_providers
check_providers_lem isolation flag [] = refl
check_providers_lem isolation flag (p ∷ ps) =
    let q = map lowercase p in
    let flag' = if is_docker q then flag_after isolation flag else flag in
    rw (flag_after_lem isolation flag) (
      step_lem (is_one_of supported_image_providers q) (is_docker q) (has_text isolation) flag
        (has_runtime isolation) _ _
        (check_providers isolation (if is_docker q then flag || has_runtime isolation else flag) ps)
        (all (is_one_of supported_image_providers) (map (map lowercase) ps))
        (any is_docker (map (map lowercase) ps))
        (check_providers_lem isolation (if is_docker q then flag || has_runtime isolation else flag)
          ps))

has_both :
    (isolation : Option String)
    → (has_text isolation && has_runtime isolation) ≡ has_runtime isolation
has_both none = refl
has_both (some isolation) = refl

-- The check of the label mesos_slave_image_providers, whose loop carries a flag from one provider to
-- the next, passes exactly if, read without regard to case, every provider is supported and, where
-- one of them is docker, the label mesos_slave_isolation is there and names docker/runtime.
pub validate_labels_image_providers_lem :
    (providers : String) (isolation : Option String)
    → is_ok (validate_labels_image_providers providers isolation) ≡ (
        all (is_one_of supported_image_providers) (lowered providers)
        && (not (any is_docker (lowered providers)) || has_runtime isolation))
unfolding validate_labels_image_providers
validate_labels_image_providers_lem providers isolation =
    rw (← has_both isolation) (check_providers_lem isolation false (split_comma (codes providers)))
