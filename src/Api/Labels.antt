-- ===== src/Api/Labels.antt =====
-- get_labels_diff of magnum/api/utils.py: how the labels of a resource differ from those of its
-- parent, a cluster from its ClusterTemplate and a nodegroup from its cluster.
pub mod Laws
use magnum.Common.{
  Bool, not, String, str_eq, Option, none, some, List, [], ◌∷◌, if◌then◌else◌, select,
}
use magnum.Common.Dicts.{lookup, has_key, set_item}
use magnum.Objects.{Dict}

-- The loop's state: the labels overridden and those added so far.
abbrev pub Diff : Type 0
Diff = Dict × Dict

-- One round of the loop, given `parent_labels.get(key)`.
unfoldable pub diff_label : Option String → String → String → Diff → Diff
diff_label none key value (overridden, added) = (overridden, set_item key value added)
diff_label (some parent_value) key value (overridden, added) =
    if str_eq parent_value value
    then (overridden, added)
    else (set_item key parent_value overridden, added)

unfoldable pub diff_labels : Dict → Dict → Diff → Diff
diff_labels parent_labels [] diff = diff
diff_labels parent_labels ((key, value) ∷ labels) diff =
    diff_labels parent_labels labels (diff_label (lookup key parent_labels) key value diff)

-- The labels overridden, added and skipped.
unfoldable pub get_labels_diff : Dict → Dict → Diff × Dict
get_labels_diff parent_labels labels = (
  diff_labels parent_labels labels ([], []),
  select (λ (item : String × String). not (has_key item.0 labels)) parent_labels,
)
