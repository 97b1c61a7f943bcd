-- ===== src/Db/Table.antt =====
-- What the operations of magnum/db/sqlalchemy/api.py use of SQLAlchemy's queries: `filter`,
-- `one`, `count`, the update of the rows of a query and their deletion; and the identity that
-- `add_identity_filter` looks at.
use magnum.Common.{
  ℕ, ◌≡◌, refl, Bool, not, ◌==◌, String, str_eq, List, [], ◌∷◌, if◌then◌else◌, ◌||◌, select, any,
  ◌++◌, true, false, length, arith, ◌+◌,
}
use magnum.Errors.{Error, Result, ok, err, multiple_results_found, invalid_identity}

-- A value as `strutils.is_int_like` and `uuidutils.is_uuid_like` of oslo_utils tell it apart.
pub data Identity : Type 0 where
  int_like : ℕ → Identity
  uuid_like : String → Identity
  unlike : String → Identity

module _ {ℓ} {R : Type ℓ} where
  -- `query.one()`: the only row; NoResultFound is turned into the caller's exception, and
  -- MultipleResultsFound into `many`.
  unfoldable pub one_or : Error → Error → List R → Result R
  one_or missing many [] = err missing
  one_or missing many (r ∷ []) = ok r
  one_or missing many (r ∷ _ ∷ _) = err many

  abbrev pub one : Error → List R → Result R
  one missing = one_or missing multiple_results_found

  -- The rows of a table that a transaction changes, and those that it deletes.
  abbrev pub update_where : (R → Bool) → (R → R) → List R → List R
  update_where p f [] = []
  update_where p f (r ∷ rs) = (if p r then f r else r) ∷ update_where p f rs

  abbrev pub delete_where : (R → Bool) → List R → List R
  delete_where p = select (λ r. not (p r))

  -- `add_identity_filter(query, value)`, as the test that the query gets.
  unfoldable pub identity_filter : (R → ℕ) → (R → String) → Identity → Result (R → Bool)
  identity_filter id uuid (int_like n) = ok (λ r. id r == n)
  identity_filter id uuid (uuid_like u) = ok (λ r. str_eq (uuid r) u)
  identity_filter id uuid (unlike t) = err (invalid_identity t)

  -- How many rows pass a test.
  abbrev pub count_where : (R → Bool) → List R → ℕ
  count_where p rs = length (select p rs)

  pub count-delete_where :
      (p : R → Bool) (rs : List R) → length (delete_where p rs) + count_where p rs ≡ length rs
  count-delete_where p [] = refl
  count-delete_where p (r ∷ rs) = ground (arith, count-delete_where p rs)

  pub length-update_where :
      (p : R → Bool) (f : R → R) (rs : List R) → length (update_where p f rs) ≡ length rs
  length-update_where p f [] = refl
  length-update_where p f (r ∷ rs) = ground (arith, length-update_where p f rs)

  pub select-delete_where : (p : R → Bool) (rs : List R) → select p (delete_where p rs) ≡ []
  select-delete_where p [] = refl
  select-delete_where p (r ∷ rs) = ground (arith, select-delete_where p rs)

module _ {ℓ} {R : Type ℓ} where
  -- A deletion keeps what another test finds, unless the only deleted row passes that test.
  pub any-delete_where :
      (p q : R → Bool) (r : R) (rs : List R)
      → select p rs ≡ r ∷ []
      → q r ≡ false
      → any q rs ≡ true
      → any q (delete_where p rs) ≡ true
  any-delete_where p q r [] one_row other found = cc
  any-delete_where p q r (x ∷ xs) one_row other found =
      ground (arith, any-delete_where p q r xs, select-empty_delete_where p xs)
    where
      select-empty_delete_where :
          (p : R → Bool) (xs : List R) → select p xs ≡ [] → delete_where p xs ≡ xs
      select-empty_delete_where p [] h = refl
      select-empty_delete_where p (y ∷ ys) h = ground (arith, select-empty_delete_where p ys)

  pub select-append :
      (p : R → Bool) (xs ys : List R) → select p (xs ++ ys) ≡ select p xs ++ select p ys
  select-append p [] ys = refl
  select-append p (x ∷ xs) ys = ground (arith, select-append p xs ys)

  pub select-append_false :
      (p : R → Bool) (xs : List R) (y : R) → p y ≡ false → select p (xs ++ y ∷ []) ≡ select p xs
  select-append_false p [] y h = ground arith
  select-append_false p (x ∷ xs) y h = ground (arith, select-append_false p xs y)

  pub any-append_false :
      (p : R → Bool) (xs : List R) (y : R)
      → any p xs ≡ false
      → p y ≡ false
      → any p (xs ++ y ∷ []) ≡ false
  any-append_false p [] y h k = ground arith
  any-append_false p (x ∷ xs) y h k = ground (arith, any-append_false p xs y)

  -- `one` answers a row exactly when it is the only one.
  pub one-eq-ok :
      (missing many : Error) (rs : List R) (r : R) → one_or missing many rs ≡ ok r → rs ≡ r ∷ []
  unfolding one_or
  one-eq-ok missing many [] r h = cc
  one-eq-ok missing many (x ∷ []) r h = cc
  one-eq-ok missing many (x ∷ y ∷ ys) r h = cc

module _ {ℓ} {R : Type ℓ} (p : R → Bool) where
  pub update_where-select_nil :
      (f : R → R) (rs : List R) → select p rs ≡ [] → update_where p f rs ≡ rs
  update_where-select_nil f [] h = refl
  update_where-select_nil f (x ∷ xs) h = ground (arith, update_where-select_nil f xs)

  -- The row that was written is the one that is found.
  pub select-update_where :
      (f : R → R) (r : R) (rs : List R)
      → select p rs ≡ r ∷ []
      → p (f r) ≡ true
      → select p (update_where p f rs) ≡ f r ∷ []
  select-update_where f r [] h k = cc
  select-update_where f r (x ∷ xs) h k =
      ground (arith, select-update_where f r xs, update_where-select_nil f xs)

  pub select-holds : (r : R) (rs : List R) → select p rs ≡ r ∷ [] → p r ≡ true
  select-holds r [] h = cc
  select-holds r (x ∷ xs) h = ground (arith, select-holds r xs)

  delete_where-select_nil : (rs : List R) → select p rs ≡ [] → delete_where p rs ≡ rs
  delete_where-select_nil [] h = refl
  delete_where-select_nil (x ∷ xs) h = ground (arith, delete_where-select_nil xs)

  -- The deletion or the update of the only row of a test is not seen by a test that fails on it.
  pub select-delete_where_one :
      (q : R → Bool) (r : R) (rs : List R)
      → select p rs ≡ r ∷ []
      → q r ≡ false
      → select q (delete_where p rs) ≡ select q rs
  select-delete_where_one q r [] one_row other = cc
  select-delete_where_one q r (x ∷ xs) one_row other =
      ground (arith, select-delete_where_one q r xs, delete_where-select_nil xs)

  pub select-update_where_one :
      (q : R → Bool) (f : R → R) (r : R) (rs : List R)
      → select p rs ≡ r ∷ []
      → q r ≡ false
      → q (f r) ≡ false
      → select q (update_where p f rs) ≡ select q rs
  select-update_where_one q f r [] one_row other after = cc
  select-update_where_one q f r (x ∷ xs) one_row other after =
      ground (arith, select-update_where_one q f r xs, update_where-select_nil f xs)

  -- A write that gives the row back its values undoes the one before it.
  pub update_where_undo :
      (f g : R → R) (r : R) (rs : List R)
      → select p rs ≡ r ∷ []
      → p (f r) ≡ true
      → g (f r) ≡ r
      → update_where p g (update_where p f rs) ≡ rs
  update_where_undo f g r [] h k e = cc
  update_where_undo f g r (x ∷ xs) h k e = ground (
    arith,
    update_where_undo f g r xs,
    update_where-select_nil f xs,
    update_where-select_nil g xs,
  )

module _ {ℓ} {R : Type ℓ} where
  -- A deletion leaves what a disjoint test finds.
  pub select-delete_where_disjoint :
      (p q : R → Bool) (rs : List R)
      → ((r : R) → q r ≡ true → p r ≡ false)
      → select q (delete_where p rs) ≡ select q rs
  select-delete_where_disjoint p q [] h = refl
  select-delete_where_disjoint p q (x ∷ xs) h =
      ground (arith, h x, select-delete_where_disjoint p q xs h)

  pub delete_where_twice :
      (p q : R → Bool) (rs : List R)
      → delete_where q (delete_where p rs) ≡ delete_where (λ r. p r || q r) rs
  delete_where_twice p q [] = refl
  delete_where_twice p q (x ∷ xs) = ground (arith, delete_where_twice p q xs)

  -- A test that finds the row that was written finds it again, if it passes.
  pub select-update_where_same :
      (p q : R → Bool) (f : R → R) (r : R) (rs : List R)
      → select p rs ≡ r ∷ []
      → select q rs ≡ r ∷ []
      → q (f r) ≡ true
      → select q (update_where p f rs) ≡ f r ∷ []
  select-update_where_same p q f r [] h k t = cc
  select-update_where_same p q f r (x ∷ xs) h k t = ground (
    arith,
    select-update_where_same p q f r xs,
    update_where-select_nil p f xs,
    select-holds p r (x ∷ xs) h,
    select-holds q r (x ∷ xs) k,
  )
