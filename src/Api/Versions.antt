-- ===== src/Api/Versions.antt =====
-- Versions of the API: Version of magnum/api/controllers/versions.py, and the registration and choice
-- of versioned methods of magnum/api/controllers/base.py.
pub mod Sorting
pub mod Laws
use magnum.Common.{
  ℕ, Bool, true, false, not, ◌&&◌, ◌||◌, ltb, ◌==◌, String, List, [], ◌∷◌, ◌++◌, if◌then◌else◌,
}
use magnum.Common.Int.{ℤ, pos, negsuc, ◌+ℤ◌, ltb_ℤ}
use magnum.Errors.{Error, Result, ok, err, unexpected, not_acceptable, api_versions_intersect}

pub record Version : Type 0 where
  pub major : ℕ
  pub minor : ℕ

-- `__lt__`, `__eq__` and `__le__`
abbrev pub lt : Version → Version → Bool
lt a b = if ltb a.major b.major then true else (a.major == b.major) && ltb a.minor b.minor

abbrev pub eq : Version → Version → Bool
eq a b = (a.major == b.major) && (a.minor == b.minor)

abbrev pub le : Version → Version → Bool
le a b = lt a b || eq a b

abbrev pub is_null : Version → Bool
is_null v = (v.major == 0) && (v.minor == 0)

-- VersionedMethod, with the code of the method as a number.
pub record VersionedMethod : Type 0 where
  pub start_version : Version
  pub end_version : Version
  pub func : ℕ

-- `matches`, of a version that is not null
abbrev pub in_range : Version → VersionedMethod → Bool
in_range v m = le m.start_version v && le v m.end_version

-- `version_select`
unfoldable pub version_select : Version → List VersionedMethod → Result ℕ
version_select v [] = err not_acceptable
version_select v (m ∷ ms) =
    let rest = version_select v ms in
    if is_null v then err (unexpected "ValueError") else if in_range v m then ok m.func else rest

-- An end of a range: the version, and whether it is a start (1) or an end (-1).
abbrev pub Pair : Type 0
Pair = Version × Bool

-- Python's stable sort, as an insertion sort: a list whose elements `before` orders, and which keeps
-- the order of the others.
abbrev pub insert_by {ℓ} : {A : Type ℓ} → (A → A → Bool) → A → List A → List A
insert_by before x [] = x ∷ []
insert_by before x (y ∷ ys) =
    let rest = insert_by before x ys in if before y x then y ∷ rest else x ∷ y ∷ ys

abbrev pub sort_by {ℓ} : {A : Type ℓ} → (A → A → Bool) → List A → List A
sort_by before [] = []
sort_by before (x ∷ xs) = insert_by before x (sort_by before xs)

-- `key=operator.itemgetter(1), reverse=True` and `key=operator.itemgetter(0)`
abbrev pub by_weight : Pair → Pair → Bool
by_weight p q = p.1 && not q.1

abbrev pub by_version : Pair → Pair → Bool
by_version p q = lt p.0 q.0

abbrev pub weight : Bool → ℤ
weight true = pos 1
weight false = negsuc 0

abbrev pub pairs_of : List VersionedMethod → List Pair
pairs_of [] = []
pairs_of (m ∷ ms) = (m.start_version, true) ∷ (m.end_version, false) ∷ pairs_of ms

-- The loop over the pairs.
abbrev pub exceeds : ℤ → List Pair → Bool
exceeds counter [] = false
exceeds counter (p ∷ ps) =
    let next = counter +ℤ weight p.1 in
    let rest = exceeds next ps in if ltb_ℤ (pos 1) next then true else rest

unfoldable pub check_for_versions_intersection : List VersionedMethod → Bool
check_for_versions_intersection func_list =
    exceeds (pos 0) (sort_by by_version (sort_by by_weight (pairs_of func_list)))

abbrev pub later_start : VersionedMethod → VersionedMethod → Bool
later_start a b = lt b.start_version a.start_version

-- The decorator of `api_version`: the method is appended, and stays in the list that is refused.
unfoldable pub api_version :
    VersionedMethod → List VersionedMethod → Result (Unit {0}) × List VersionedMethod
unfolding check_for_versions_intersection
api_version method registered =
    let func_list = registered ++ method ∷ [] in
    if check_for_versions_intersection func_list
    then (err api_versions_intersect, func_list)
    else (ok tt, sort_by later_start func_list)
