-- ===== src/Api/Versions/Sorting.antt =====
-- What the two stable sorts of check_for_versions_intersection
-- (magnum/api/controllers/base.py) make of the ends of the ranges.
use magnum.Common.{
  ◌≡◌, refl, Bool, false, ◌&&◌, ◌||◌, List, [], ◌∷◌, All, arith, count, Bool-cases, inl, inr,
}
use magnum.Api.Versions.{lt, eq, Pair, insert_by, sort_by, by_weight, by_version}

module _ {A : Type 0} (before : A → A → Bool) where
  All-insert_by :
      (P : A → Type 0) (x : A) (ys : List A) → P x → All P ys → All P (insert_by before x ys)
  All-insert_by P x [] h k = (h, tt)
  All-insert_by P x (y ∷ ys) h k = elim (Bool-cases (before y x)) [
    | inl b ↦ rw b (k.0, All-insert_by P x ys h k.1)
    | inr b ↦ rw b (h, k)
  ]

  pub All-sort_by : (P : A → Type 0) (xs : List A) → All P xs → All P (sort_by before xs)
  All-sort_by P [] h = tt
  All-sort_by P (x ∷ xs) h = All-insert_by P x (sort_by before xs) h.0 (All-sort_by P xs h.1)

  count-insert_by :
      (p : A → Bool) (x : A) (ys : List A) → count p (insert_by before x ys) ≡ count p (x ∷ ys)
  count-insert_by p x [] = refl
  count-insert_by p x (y ∷ ys) = ground (arith, count-insert_by p x ys)

  -- A sort permutes: as many elements pass a test as before.
  pub count-sort_by : (p : A → Bool) (xs : List A) → count p (sort_by before xs) ≡ count p xs
  count-sort_by p [] = refl
  count-sort_by p (x ∷ xs) =
      ground (arith, count-insert_by p x (sort_by before xs), count-sort_by p xs)

-- q does not come strictly before p in the order of the pairs.
abbrev pub NotBefore : (Pair → Pair → Bool) → Pair → Pair → Type 0
NotBefore before p q = before q p ≡ false

abbrev pub Sorted : (Pair → Pair → Bool) → List Pair → Type 0
Sorted before [] = Unit
Sorted before (p ∷ ps) = All (NotBefore before p) ps × Sorted before ps

-- By the version, and at one version the starts before the ends.
abbrev pub lexicographic : Pair → Pair → Bool
lexicographic p q = lt p.0 q.0 || (eq p.0 q.0 && by_weight p q)

All-map : (P Q : Pair → Type 0) (ps : List Pair) → ((p : Pair) → P p → Q p) → All P ps → All Q ps
All-map P Q [] f h = tt
All-map P Q (p ∷ ps) f h = (f p h.0, All-map P Q ps f h.1)

insert_by_weight-Sorted :
    (x : Pair) (ys : List Pair) → Sorted by_weight ys → Sorted by_weight (insert_by by_weight x ys)
insert_by_weight-Sorted x [] h = (tt, tt)
insert_by_weight-Sorted x (y ∷ ys) h = elim (Bool-cases (by_weight y x)) [
  | inl b ↦ rw b (
    All-insert_by by_weight (NotBefore by_weight y) x ys (ground arith) h.0,
    insert_by_weight-Sorted x ys h.1,
  )
  | inr b ↦
      rw b (
        (b, All-map (NotBefore by_weight y) (NotBefore by_weight x) ys (λ q k. ground arith) h.0),
        h,
      )
]

pub sort_by_weight-Sorted : (ps : List Pair) → Sorted by_weight (sort_by by_weight ps)
sort_by_weight-Sorted [] = tt
sort_by_weight-Sorted (p ∷ ps) =
    insert_by_weight-Sorted p (sort_by by_weight ps) (sort_by_weight-Sorted ps)

insert_by_version-Sorted :
    (x : Pair) (ys : List Pair)
    → All (NotBefore by_weight x) ys
    → Sorted lexicographic ys
    → Sorted lexicographic (insert_by by_version x ys)
insert_by_version-Sorted x [] w h = (tt, tt)
insert_by_version-Sorted x (y ∷ ys) w h = elim (Bool-cases (by_version y x)) [
  | inl b ↦ rw b (
    All-insert_by by_version (NotBefore lexicographic y) x ys (ground arith) h.0,
    insert_by_version-Sorted x ys w.1 h.1,
  )
  | inr b ↦ rw b ((ground (arith, w.0), after x y ys b w.1 h.0), h)
]
  where
    after :
        (x y : Pair) (ys : List Pair)
        → by_version y x ≡ false
        → All (NotBefore by_weight x) ys
        → All (NotBefore lexicographic y) ys
        → All (NotBefore lexicographic x) ys
    after x y [] b w h = tt
    after x y (q ∷ qs) b w h = (ground (arith, b, w.0, h.0), after x y qs b w.1 h.1)

-- The second sort keeps the order of the first among equal versions.
pub sort_by_version-Sorted :
    (ps : List Pair) → Sorted by_weight ps → Sorted lexicographic (sort_by by_version ps)
sort_by_version-Sorted [] h = tt
sort_by_version-Sorted (p ∷ ps) h =
    insert_by_version-Sorted p (sort_by by_version ps)
      (All-sort_by by_version (NotBefore by_weight p) ps h.0) (sort_by_version-Sorted ps h.1)
