-- ===== src/Heat/Names/Laws.antt =====
-- The names of stacks are names of hosts.
use magnum.Common.{
  ℕ, ◌+◌, ◌≤◌, ◌≡◌, refl, true, Option, none, some, List, [], ◌∷◌, ◌++◌, map, select, length, all,
  arith, length-select-le, take, length-take,
}
use magnum.Heat.Names.{valid_char, dashed, lower, name_part, stack_name}

length-map : (f : ℕ → ℕ) (xs : List ℕ) → length (map f xs) ≡ length xs
length-map f [] = refl
length-map f (x ∷ xs) = omega (arith, length-map f xs)

length-append : (xs ys : List ℕ) → length (xs ++ ys) ≡ length xs + length ys
length-append [] ys = omega arith
length-append (x ∷ xs) ys = omega (arith, length-append xs ys)

length-name_part : (c : List ℕ) (n : Option (List ℕ)) → length (name_part c n) ≤ 30
length-name_part c none = length-take 30 c
length-name_part c (some n) =
    omega (arith, length-append (take 20 c) (b'-' ∷ take 9 n), length-take 20 c, length-take 9 n)

lower_valid : (c : ℕ) → valid_char c ≡ true → valid_char (lower c) ≡ true
unfolding valid_char
lower_valid c h = ground arith

all-select : (xs : List ℕ) → all valid_char (map lower (select valid_char xs)) ≡ true
all-select [] = refl
all-select (x ∷ xs) = ground (arith, all-select xs, lower_valid x)

all-lower : (xs : List ℕ) → all valid_char xs ≡ true → all valid_char (map lower xs) ≡ true
all-lower [] h = refl
all-lower (x ∷ xs) h = ground (arith, all-lower xs, lower_valid x)

all-append :
    (f : ℕ → ℕ) (xs ys : List ℕ)
    → all valid_char (map f xs) ≡ true
    → all valid_char (map f ys) ≡ true
    → all valid_char (map f (xs ++ ys)) ≡ true
all-append f [] ys h k = k
all-append f (x ∷ xs) ys h k = ground (arith, all-append f xs ys)

dash_valid : valid_char b'-' ≡ true
unfolding valid_char
dash_valid = refl

-- The name of a stack is a valid name of a host: it has only letters, digits and dashes, whatever the
-- names of the cluster and of the nodegroup are, if the random id has only those; and with an id of
-- at most 32 characters it has at most 63.
pub stack_name_valid :
    (cluster_name : List ℕ) (nodegroup_name : Option (List ℕ)) (short_id : List ℕ)
    → all valid_char short_id ≡ true
    → length short_id ≤ 32
    → (all valid_char (stack_name cluster_name nodegroup_name short_id) ≡ true)
      × (length (stack_name cluster_name nodegroup_name short_id) ≤ 63)
unfolding stack_name
stack_name_valid c n id valid short =
    let cleaned : List ℕ = select valid_char (map dashed (name_part c n)) in
    (
      all-append lower cleaned (b'-' ∷ id) (all-select (map dashed (name_part c n)))
          (all-lower (b'-' ∷ id) (ground (arith, dash_valid))),
      omega (
        arith,
        length-map lower (cleaned ++ b'-' ∷ id),
        length-append cleaned (b'-' ∷ id),
        length-select-le valid_char (map dashed (name_part c n)),
        length-map dashed (name_part c n),
        length-name_part c n,
      ),
    )
