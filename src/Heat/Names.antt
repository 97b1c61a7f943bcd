-- ===== src/Heat/Names.antt =====
-- The name that `_create_stack` of magnum/drivers/heat/driver.py gives to a stack, as a list of code
-- points.
pub mod Laws
use magnum.Common.{
  ℕ, ◌+◌, zero, suc, Bool, true, false, ◌&&◌, ◌||◌, ◌==◌, leb, Option, none, some, String, List, [],
  ◌∷◌, ◌++◌, map, select, take, if◌then◌else◌,
}
use magnum.Common.Text.{codes}
use magnum.Errors.{Result, ok, err, unexpected}

abbrev between : ℕ → ℕ → ℕ → Bool
between a b c = leb a c && leb c b

-- `ascii_letters + digits + '-'`
unfoldable pub valid_char : ℕ → Bool
valid_char c = between b'a' b'z' c || (between b'A' b'Z' c || (between b'0' b'9' c || c == b'-'))

-- `stack_name.replace('_', '-').replace('.', '-')`
abbrev pub dashed : ℕ → ℕ
dashed c = if c == b'_' || c == b'.' then b'-' else c

abbrev pub lower : ℕ → ℕ
lower c = if between b'A' b'Z' c then c + 32 else c

-- The first part of the name: that of the cluster, or of the cluster and a nodegroup.
abbrev pub name_part : List ℕ → Option (List ℕ) → List ℕ
name_part cluster_name none = take 30 cluster_name
name_part cluster_name (some nodegroup_name) = take 20 cluster_name ++ b'-' ∷ take 9 nodegroup_name

unfoldable pub stack_name : List ℕ → Option (List ℕ) → List ℕ → List ℕ
unfolding valid_char
stack_name cluster_name nodegroup_name short_id =
    map lower
      (select valid_char (map dashed (name_part cluster_name nodegroup_name)) ++ b'-' ∷ short_id)
