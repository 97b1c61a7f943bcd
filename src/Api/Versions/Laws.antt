-- ===== src/Api/Versions/Laws.antt =====
-- What a registration that magnum/api/controllers/base.py accepts means for the choice of a method.
use magnum.Common.{
  ◌+◌, ◌≤◌, ◌≡◌, refl, sym, Bool, true, false, not, ◌&&◌, List, [], ◌∷◌, ◌++◌, All, arith, count,
  Bool-cases, inl, inr,
}
use magnum.Common.Int.{ℤ, pos, negsuc, ◌+ℤ◌, ltb_ℤ, pos_part, neg_part, +ℤ_parts}
use magnum.Errors.{ok}
use magnum.Api.Versions.{
  Version, lt, le, is_null, VersionedMethod, in_range, version_select, Pair, sort_by, by_weight,
  by_version, weight, pairs_of, exceeds, check_for_versions_intersection, later_start, api_version,
}
use magnum.Api.Versions.Sorting.{
  count-sort_by, NotBefore, Sorted, lexicographic, sort_by_weight-Sorted, sort_by_version-Sorted,
}

-- The starts up to a version, and the ends before it.
abbrev starts : Version → Pair → Bool
starts v p = p.1 && le p.0 v

abbrev ends : Version → Pair → Bool
ends v p = not p.1 && lt p.0 v

-- Behind a pair that is neither, there is none.
none_behind :
    (v : Version) (p : Pair) (ps : List Pair)
    → starts v p ≡ false
    → ends v p ≡ false
    → All (NotBefore lexicographic p) ps
    → (count (starts v) ps ≡ 0) × (count (ends v) ps ≡ 0)
none_behind v p [] a b h = (refl, refl)
none_behind v p (q ∷ qs) a b h =
    let (s, e) = none_behind v p qs a b h.1 in
    let first : (starts v q ≡ false) × (ends v q ≡ false) = ground (arith, a, b, h.0) in
    (ground (arith, first.0, s), ground (arith, first.1, e))

at_most_one : (c : ℤ) → ltb_ℤ (pos 1) c ≡ false → pos_part c ≤ 1 + neg_part c
at_most_one c b = ground arith

exceeds-step :
    (c : ℤ) (p : Pair) (ps : List Pair)
    → exceeds c (p ∷ ps) ≡ false
    → (ltb_ℤ (pos 1) (c +ℤ weight p.1) ≡ false) × (exceeds (c +ℤ weight p.1) ps ≡ false)
exceeds-step c p ps e = elim (Bool-cases (ltb_ℤ (pos 1) (c +ℤ weight p.1))) [
  | inl high ↦ absurd (cc (rw high at e))
  | inr low ↦ (low, rw low at e)
]

-- A counter that never exceeds 1 bounds how many ranges are open at a version.
exceeds-bound :
    (v : Version) (c : ℤ) (ps : List Pair)
    → Sorted lexicographic ps
    → exceeds c ps ≡ false
    → ltb_ℤ (pos 1) c ≡ false
    → pos_part c + count (starts v) ps ≤ 1 + neg_part c + count (ends v) ps
exceeds-bound v c [] h e b = ground arith
exceeds-bound v c ((u, true) ∷ ps) h e b =
    let (low, rest) = exceeds-step c (u, true) ps e in
    elim (Bool-cases (le u v)) [
      | inl opened ↦
          simp opened
            (omega (arith, exceeds-bound v (c +ℤ weight true) ps h.1 rest low, +ℤ_parts c (pos 1)))
      | inr later ↦
          let (s, e) = none_behind v (u, true) ps later refl h.0 in
          simp later (omega (arith, s, e, at_most_one c b))
    ]
exceeds-bound v c ((u, false) ∷ ps) h e b =
    let (low, rest) = exceeds-step c (u, false) ps e in
    elim (Bool-cases (lt u v)) [
      | inl closed ↦ simp closed (
          omega (arith, exceeds-bound v (c +ℤ weight false) ps h.1 rest low, +ℤ_parts c (negsuc 0)))
      | inr later ↦
          let (s, e) = none_behind v (u, false) ps refl later h.0 in
          simp later (omega (arith, s, e, at_most_one c b))
    ]

-- The ends of the ranges of a list, counted by method.
count-pairs_of :
    (v : Version) (ms : List VersionedMethod)
    → All (λ (m : VersionedMethod). le m.start_version m.end_version ≡ true) ms
    → count (in_range v) ms + count (ends v) (pairs_of ms) ≡ count (starts v) (pairs_of ms)
count-pairs_of v [] h = refl
count-pairs_of v (m ∷ ms) h = ground (arith, count-pairs_of v ms h.1, h.0)

-- If check_for_versions_intersection finds nothing, at most one of the methods matches any version.
-- Each of them must begin no later than it ends.
pub no_intersection_at_most_one :
    (func_list : List VersionedMethod) (v : Version)
    → All (λ (m : VersionedMethod). le m.start_version m.end_version ≡ true) func_list
    → check_for_versions_intersection func_list ≡ false
    → count (in_range v) func_list ≤ 1
unfolding check_for_versions_intersection
no_intersection_at_most_one ms v ordered accepted =
    let by_w : List Pair = sort_by by_weight (pairs_of ms) in
    let sorted = sort_by_version-Sorted by_w (sort_by_weight-Sorted (pairs_of ms)) in
    omega (
      arith,
      exceeds-bound v (pos 0) (sort_by by_version by_w) sorted accepted refl,
      count-sort_by by_version (starts v) by_w,
      count-sort_by by_weight (starts v) (pairs_of ms),
      count-sort_by by_version (ends v) by_w,
      count-sort_by by_weight (ends v) (pairs_of ms),
      count-pairs_of v ms ordered,
    )

count-member :
    (v : Version) (front : List VersionedMethod) (m : VersionedMethod) (back : List VersionedMethod)
    → in_range v m ≡ true
    → 1 ≤ count (in_range v) (front ++ m ∷ back)
count-member v [] m back h = simp h (omega arith)
count-member v (x ∷ front) m back h = omega (arith, count-member v front m back h)

version_select-only :
    (v : Version) (front : List VersionedMethod) (m : VersionedMethod) (back : List VersionedMethod)
    → is_null v ≡ false
    → in_range v m ≡ true
    → count (in_range v) (front ++ m ∷ back) ≤ 1
    → version_select v (front ++ m ∷ back) ≡ ok m.func
unfolding version_select
version_select-only v [] m back given h only = rw (given, h)
version_select-only v (x ∷ front) m back given h only = elim (Bool-cases (in_range v x)) [
  | inl other ↦ absurd (omega (arith, count-member v front m back h, simp other at only))
  | inr skipped ↦
      rw (given, skipped) (version_select-only v front m back given h (omega (arith, only)))
]

api_version-accepted :
    (method : VersionedMethod) (registered ms : List VersionedMethod)
    → api_version method registered ≡ (ok tt, ms)
    → (check_for_versions_intersection (registered ++ method ∷ []) ≡ false)
      × (ms ≡ sort_by later_start (registered ++ method ∷ []))
unfolding api_version
api_version-accepted method registered ms e =
    elim (Bool-cases (check_for_versions_intersection (registered ++ method ∷ []))) [
      | inl refused ↦ absurd (cc (rw refused at e))
      | inr accepted ↦ (accepted, sym (ground (arith, rw accepted at e)))
    ]

-- A registration that is accepted leaves no choice: whichever method of the list that it leaves
-- matches a version, version_select answers that method. The methods must begin no later than they
-- end, and the version must not be null.
pub api_version_selects :
    (method : VersionedMethod) (registered front back : List VersionedMethod) (m : VersionedMethod)
    (v : Version)
    → All
        (λ (n : VersionedMethod). le n.start_version n.end_version ≡ true)
        (registered ++ method ∷ [])
    → api_version method registered ≡ (ok tt, front ++ m ∷ back)
    → is_null v ≡ false
    → in_range v m ≡ true
    → version_select v (front ++ m ∷ back) ≡ ok m.func
api_version_selects method registered front back m v ordered e given h =
    let (accepted, sorted) = api_version-accepted method registered (front ++ m ∷ back) e in
    let func_list : List VersionedMethod = registered ++ method ∷ [] in
    version_select-only v front m back given h (
      rw sorted (
        omega (
          arith,
          count-sort_by later_start (in_range v) func_list,
          no_intersection_at_most_one func_list v ordered accepted,
        )))
