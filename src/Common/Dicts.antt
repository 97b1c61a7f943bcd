-- ===== src/Common/Dicts.antt =====
-- Python's dicts with texts as keys, as lists of items in the order of their insertion.
use mathlib.Core.Bool.{Bool, true, false}
use mathlib.Core.Path.{◌≡◌, refl}
use mathlib.Core.Option.{Option, none, some}
use mathlib.Core.List.{List, [], ◌∷◌}
use Prim.Native.String.{String}
use native.Mathlib.Omega.{arith}
use text.Mathlib.TextEquality.{eq_iff}
use magnum.Common.Tests.{str_eq, or_else, if◌then◌else◌}

module _ {ℓ} {V : Type ℓ} where
  -- `d.get(k)`
  abbrev pub lookup : String → List (String × V) → Option V
  lookup k [] = none
  lookup k ((j, v) ∷ d) = if str_eq k j then some v else lookup k d

  -- `k in d`
  abbrev pub has_key : String → List (String × V) → Bool
  has_key k [] = false
  has_key k ((j, v) ∷ d) = if str_eq k j then true else has_key k d

  -- `d[k] = v`
  unfoldable pub set_item : String → V → List (String × V) → List (String × V)
  set_item k v [] = (k, v) ∷ []
  set_item k v ((j, w) ∷ d) = if str_eq k j then (j, v) ∷ d else (j, w) ∷ set_item k v d

  -- `d.update(e)`
  unfoldable pub update : List (String × V) → List (String × V) → List (String × V)
  unfolding set_item
  update d [] = d
  update d ((k, v) ∷ e) = update (set_item k v d) e

  -- A dict has no key twice.
  abbrev pub UniqueKeys : List (String × V) → Type 0
  UniqueKeys [] = Unit
  UniqueKeys ((k, v) ∷ d) = (has_key k d ≡ false) × UniqueKeys d

  pub lookup-set_item :
      (k j : String) (v : V) (d : List (String × V))
      → lookup k (set_item j v d) ≡ (if str_eq k j then some v else lookup k d)
  unfolding set_item
  lookup-set_item k j v [] = refl
  lookup-set_item k j v ((i, w) ∷ d) =
      ground (arith, eq_iff k j, eq_iff j i, eq_iff k i, lookup-set_item k j v d)

  pub lookup-no_key : (k : String) (d : List (String × V)) → has_key k d ≡ false → lookup k d ≡ none
  lookup-no_key k [] h = refl
  lookup-no_key k ((j, v) ∷ d) h = ground (arith, lookup-no_key k d)

  -- An updated dict has the items of the second dict, and for other keys those of the first.
  pub lookup-update :
      (k : String) (d e : List (String × V))
      → UniqueKeys e
      → lookup k (update d e) ≡ or_else (lookup k e) (lookup k d)
  unfolding update
  lookup-update k d [] h = refl
  lookup-update k d ((j, v) ∷ e) h = ground (
    arith,
    lookup-update k (set_item j v d) e,
    lookup-set_item k j v d,
    lookup-no_key j e,
    eq_iff k j,
  )
