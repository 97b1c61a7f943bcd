-- ===== src/Common/Text.antt =====
-- Python's string operations that the program uses, over the code points of a text.
use Prim.Native.Nat.{ℕ}
use Prim.Native.Char.{code}
use Prim.Native.String.{String, ◌++◌ as append}
use mathlib.Core.Bool.{Bool, true, false, ◌&&◌, ◌||◌}
use mathlib.Core.List.{List, [], ◌∷◌}
use magnum.Common.Tests.{◌==◌}

infixr 66 ◌^+◌
-- concatenation of texts
abbrev pub ◌^+◌ : String → String → String
a ^+ b = append a b

-- `', '.join(xs)`
abbrev pub join_comma : List String → String
join_comma [] = ""
join_comma (x ∷ []) = x
join_comma (x ∷ xs) = x ^+ ", " ^+ join_comma xs

abbrev pub codes : String → List ℕ
codes String.[] = []
codes (String.◌∷◌ c s) = code c ∷ codes s

abbrev pub codes_eq : List ℕ → List ℕ → Bool
codes_eq [] [] = true
codes_eq (a ∷ s') (b ∷ t') = (a == b) && codes_eq s' t'
codes_eq _ _ = false

-- `text.endswith(suffix)`: some rest of the text is the suffix.
abbrev pub ends_with : List ℕ → List ℕ → Bool
ends_with [] t = codes_eq [] t
ends_with (a ∷ s') t = codes_eq (a ∷ s') t || ends_with s' t

-- `text.startswith(prefix)`
abbrev pub begins_with : List ℕ → List ℕ → Bool
begins_with s [] = true
begins_with [] (_ ∷ _) = false
begins_with (a ∷ s') (b ∷ t') = (a == b) && begins_with s' t'

-- `part in text`
abbrev pub occurs_in : List ℕ → List ℕ → Bool
occurs_in part [] = codes_eq part []
occurs_in part (a ∷ s') = begins_with (a ∷ s') part || occurs_in part s'

-- `'/'.join(xs)`
abbrev pub join_slash : List String → String
join_slash [] = ""
join_slash (x ∷ []) = x
join_slash (x ∷ xs) = x ^+ "/" ^+ join_slash xs
