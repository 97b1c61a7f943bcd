-- ===== src/Api/Quotas/Rows.antt =====
-- The rows of a project and a resource under the quota operations of magnum/db/sqlalchemy/api.py.
use magnum.Common.{
  ℕ, ◌≡◌, refl, sym, ap, ◌∙◌, Bool, true, false, ◌||◌, ◌==◌, String, str_eq_refl, eq_iff, some,
  List, [], ◌∷◌, ◌++◌, arith, any, select, if◌then◌else◌,
}
use magnum.Errors.{
  Result, ok, err, answer_of, ok_inj, quota_not_found, unexpected, multiple_results_found,
}
use magnum.Db.Table.{
  one, one_or, update_where, delete_where, one-eq-ok, select-append, select-update_where,
}
use magnum.Db.Tenant.{Context}
use magnum.Db.Quotas.{
  Quota, names_quota, quota_of, no_quota, id_taken, create_quota, update_quota, delete_quota,
  get_quota_by_project_id_resource, cluster_limit, limit_or_default,
}

-- The two ways in which the rows of a project and a resource are looked for find the same.
pub quota_of-names_quota :
    (project_id resource : String) (quotas : List Quota)
    → select (quota_of (some project_id) resource) quotas
      ≡ select (names_quota project_id resource) quotas
quota_of-names_quota project_id resource [] = refl
quota_of-names_quota project_id resource (q ∷ quotas) = ground (
  arith,
  eq_iff project_id q.project_id,
  eq_iff q.project_id project_id,
  quota_of-names_quota project_id resource quotas,
)

-- The limit as a function of the rows that are found.
abbrev pub limit_of_rows : ℕ → List Quota → Result ℕ
limit_of_rows default [] = ok default
limit_of_rows default (q ∷ []) = ok q.hard_limit
limit_of_rows default (_ ∷ _ ∷ _) = err multiple_results_found

limit_of_rows-one :
    (default : ℕ) (text : String) (rows : List Quota)
    → limit_or_default default (one_or (quota_not_found text) multiple_results_found rows)
      ≡ limit_of_rows default rows
unfolding one_or
limit_of_rows-one default text [] = refl
limit_of_rows-one default text (q ∷ []) = refl
limit_of_rows-one default text (_ ∷ _ ∷ _) = refl

pub cluster_limit-rows :
    (default : ℕ) (ctx : Context) (project_id : String) (quotas : List Quota)
    → ctx.project_id ≡ some project_id
    → cluster_limit default ctx quotas
      ≡ limit_of_rows default (select (names_quota project_id "Cluster") quotas)
unfolding cluster_limit get_quota_by_project_id_resource
cluster_limit-rows default ctx project_id quotas of =
    ap (λ p. limit_or_default default (get_quota_by_project_id_resource p "Cluster" quotas)) of
    ∙ limit_of_rows-one default _ (select (quota_of (some project_id) "Cluster") quotas)
    ∙ ap (limit_of_rows default) (quota_of-names_quota project_id "Cluster" quotas)

select-nil_any_or :
    (p q : Quota → Bool) (quotas : List Quota)
    → any (λ x. p x || q x) quotas ≡ false
    → select p quotas ≡ []
select-nil_any_or p q [] h = refl
select-nil_any_or p q (x ∷ quotas) h = ground (arith, select-nil_any_or p q quotas)

-- The rows of a project and a resource after each operation.
pub create_quota-rows :
    (n : ℕ) (values row : Quota) (quotas after : List Quota)
    → create_quota n values quotas ≡ ok (row, after)
    → let mine = names_quota values.project_id values.resource in
      (row ≡ record values { id = n })
      × (after ≡ quotas ++ row ∷ [])
      × (select mine quotas ≡ [])
      × (select mine after ≡ row ∷ [])
unfolding create_quota
create_quota-rows n values row quotas after h =
    let mine = names_quota values.project_id values.resource in
    let free : any (λ q. mine q || q.id == n) quotas ≡ false = ground (arith, h) in
    let made : row ≡ record values { id = n } = ground (arith, h) in
    let stored : after ≡ quotas ++ row ∷ [] = ground (arith, h) in
    let none_yet = select-nil_any_or mine (λ q. q.id == n) quotas free in
    let passes : mine row ≡ true =
      ap mine made ∙ rw (str_eq_refl values.project_id, str_eq_refl values.resource) refl in
    (
      made,
      stored,
      none_yet,
      ap (select mine) stored
          ∙ select-append mine quotas (row ∷ [])
          ∙ ap (λ xs. xs ++ select mine (row ∷ [])) none_yet
          ∙ ground (arith, passes),
    )

module _ (p r : String) where
  pub update_quota-rows :
      (assign : Quota → Quota) (row : Quota) (quotas after : List Quota)
      → ((q : Quota) → names_quota p r (assign q) ≡ true)
      → update_quota p r assign quotas ≡ ok (row, after)
      → (q : Quota) × (select (names_quota p r) quotas ≡ q ∷ [])
        × (after ≡ update_where (names_quota p r) assign quotas)
        × (select (names_quota p r) after ≡ assign q ∷ [])
  unfolding update_quota
  update_quota-rows assign row quotas after keeps h =
      let (q, found, rest) =
        answer_of (one (no_quota p r) (select (names_quota p r) quotas))
          (λ q.
            if id_taken p r (assign q) quotas
            then err (unexpected "DBDuplicateEntry")
            else ok (assign q, update_where (names_quota p r) assign quotas))
          h in
      let stored : after ≡ update_where (names_quota p r) assign quotas = ground (arith, rest) in
      let only = one-eq-ok _ _ (select (names_quota p r) quotas) q found in
      (
        q,
        only,
        stored,
        rw stored (select-update_where (names_quota p r) assign q quotas only (keeps q)),
      )

  pub delete_quota-rows :
      (quotas after : List Quota)
      → delete_quota p r quotas ≡ ok after
      → (q : Quota) × (select (names_quota p r) quotas ≡ q ∷ [])
        × (after ≡ delete_where (names_quota p r) quotas)
  unfolding delete_quota
  delete_quota-rows quotas after h =
      let (q, found, rest) =
        answer_of (one (no_quota p r) (select (names_quota p r) quotas))
          (λ q. ok (delete_where (names_quota p r) quotas)) h in
      (q, one-eq-ok _ _ (select (names_quota p r) quotas) q found, sym (ok_inj rest))
