-- ===== src/Api/Labels/Laws.antt =====
-- What get_labels_diff of magnum/api/utils.py tells about the two dicts.
use magnum.Common.{
  ◌≡◌, refl, ◌∙◌, Bool, true, false, not, String, str_eq, eq_iff, eq_of_str_eq, Option, none, some,
  [], ◌∷◌, is_some, ap, if◌then◌else◌, select, or_else, arith,
}
use magnum.Common.Dicts.{lookup, has_key, UniqueKeys, lookup-set_item, lookup-no_key}
use magnum.Objects.{Dict}
use magnum.Api.Labels.{Diff, diff_label, diff_labels, get_labels_diff}

-- What a label and the parent's value of the same key tell: the value that is overridden, and the
-- one that is added.
abbrev pub overridden_value : Option String → Option String → Option String
overridden_value none _ = none
overridden_value (some value) none = none
overridden_value (some value) (some parent_value) =
    if str_eq parent_value value then none else some parent_value

abbrev pub added_value : Option String → Option String → Option String
added_value none _ = none
added_value (some value) none = some value
added_value (some value) (some _) = none

-- A round for the key j, which no later label has, and the later rounds give what a look-up does.
round_then_rest :
    (f : Option String → Option String → Option String)
    → ((p : Option String) → f none p ≡ none)
    → (same_key : Bool) (later own of_j found : Option String) (v : String)
    → (same_key ≡ true → (later ≡ none) × (own ≡ of_j))
    → or_else (f later own) (or_else (if same_key then f (some v) of_j else none) found)
      ≡ or_else (f (if same_key then some v else later) own) found
round_then_rest f none_f true later own of_j found v h =
    rw ((h refl).0, (h refl).1, none_f of_j) refl
round_then_rest f none_f false later own of_j found v h = refl

module _ (k : String) where
  diff_label-overridden :
      (p : Option String) (j v : String) (diff : Diff)
      → lookup k (diff_label p j v diff).0
        ≡ or_else (if str_eq k j then overridden_value (some v) p else none) (lookup k diff.0)
  unfolding diff_label
  diff_label-overridden none j v (o, a) = ground arith
  diff_label-overridden (some w) j v (o, a) = ground (arith, lookup-set_item k j w o)

  diff_label-added :
      (p : Option String) (j v : String) (diff : Diff)
      → lookup k (diff_label p j v diff).1
        ≡ or_else (if str_eq k j then added_value (some v) p else none) (lookup k diff.1)
  unfolding diff_label
  diff_label-added none j v (o, a) = ground (arith, lookup-set_item k j v a)
  diff_label-added (some w) j v (o, a) = ground arith

  lookup-skipped :
      (labels parent_labels : Dict)
      → lookup k (select (λ (item : String × String). not (has_key item.0 labels)) parent_labels)
        ≡ (if has_key k labels then none else lookup k parent_labels)
  lookup-skipped labels [] = ground arith
  lookup-skipped labels ((j, w) ∷ parent_labels) =
      ground (arith, eq_iff k j, lookup-skipped labels parent_labels)

  has_key-lookup : (d : Dict) → has_key k d ≡ is_some (lookup k d)
  has_key-lookup [] = refl
  has_key-lookup ((j, v) ∷ d) = ground (arith, has_key-lookup d)

module _ (parent : Dict) (k : String) where
  same_label :
      (j : String) (labels : Dict)
      → has_key j labels ≡ false
      → str_eq k j ≡ true
      → (lookup k labels ≡ none) × (lookup k parent ≡ lookup j parent)
  same_label j labels h same =
      let e = eq_of_str_eq same in
      (ap (λ i. lookup i labels) e ∙ lookup-no_key j labels h, ap (λ i. lookup i parent) e)

  -- The loop keeps what it has found, and adds what the labels say of the key.
  diff_labels-overridden :
      (labels : Dict) (diff : Diff)
      → UniqueKeys labels
      → lookup k (diff_labels parent labels diff).0
        ≡ or_else (overridden_value (lookup k labels) (lookup k parent)) (lookup k diff.0)
  unfolding diff_labels
  diff_labels-overridden [] diff h = refl
  diff_labels-overridden ((j, v) ∷ labels) diff h =
      diff_labels-overridden labels (diff_label (lookup j parent) j v diff) h.1
      ∙ ap (or_else (overridden_value (lookup k labels) (lookup k parent)))
          (diff_label-overridden k (lookup j parent) j v diff)
      ∙ round_then_rest overridden_value (λ p. refl) (str_eq k j) (lookup k labels)
          (lookup k parent) (lookup j parent) (lookup k diff.0) v (same_label j labels h.0)

  diff_labels-added :
      (labels : Dict) (diff : Diff)
      → UniqueKeys labels
      → lookup k (diff_labels parent labels diff).1
        ≡ or_else (added_value (lookup k labels) (lookup k parent)) (lookup k diff.1)
  unfolding diff_labels
  diff_labels-added [] diff h = refl
  diff_labels-added ((j, v) ∷ labels) diff h =
      diff_labels-added labels (diff_label (lookup j parent) j v diff) h.1
      ∙ ap (or_else (added_value (lookup k labels) (lookup k parent)))
          (diff_label-added k (lookup j parent) j v diff)
      ∙ round_then_rest added_value (λ p. refl) (str_eq k j) (lookup k labels) (lookup k parent)
          (lookup j parent) (lookup k diff.1) v (same_label j labels h.0)

-- The case of one key: what is recovered from its label and the parent's value.
recovered_value :
    (label own : Option String)
    → own
      ≡ or_else (or_else (overridden_value label own) none) (
          or_else
            (if is_some label then none else own)
            (if is_some (or_else (added_value label own) none) then none else label))
recovered_value none none = refl
recovered_value none (some w) = refl
recovered_value (some v) none = refl
recovered_value (some v) (some w) = ground (arith, eq_iff w v)

-- The parent's labels can be read off the labels of a resource, which have no key twice, and what
-- get_labels_diff tells of them: for every key the parent has the value that is overridden, else
-- the one that is skipped, else nothing if the label was added, else the value of the labels.
pub get_labels_diff_recovers :
    (parent labels : Dict) (k : String)
    → UniqueKeys labels
    → let diff = get_labels_diff parent labels in
      lookup k parent
      ≡ or_else
          (lookup k diff.0.0)
          (or_else (lookup k diff.1) (if has_key k diff.0.1 then none else lookup k labels))
unfolding get_labels_diff
get_labels_diff_recovers parent labels k h =
    rw
      (
        diff_labels-overridden parent k labels ([], []) h,
        lookup-skipped k labels parent,
        has_key-lookup k labels,
        has_key-lookup k (diff_labels parent labels ([], [])).1,
        diff_labels-added parent k labels ([], []) h,
      )
      (recovered_value (lookup k labels) (lookup k parent))
