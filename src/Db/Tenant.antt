-- ===== src/Db/Tenant.antt =====
-- `Connection._add_tenant_filters` of magnum/db/sqlalchemy/api.py: which rows a request may see.
use Prim.Native.String.{String}
use Prim.Native.Char.{code}
use magnum.Common.{
  ◌≡◌, Bool, true, false, ◌&&◌, not, ◌==◌, str_eq, Option, none, some, if◌then◌else◌, arith, eq_iff,
}
use magnum.Errors.{Result, ok, err, index_error}

-- The fields of RequestContext that the queries read.
pub record Context : Type 0 where
  pub is_admin : Bool
  pub all_tenants : Bool
  pub project_id : Option String
  pub domain_id : Option String
  pub user_id : String

-- What Keystone answers: the trustee domain, and the name of a user.
pub record Keystone : Type 0 where
  pub trustee_domain_id : String
  pub user_name : String → String

-- The text up to the first underscore, and the rest behind it where there is one.
unfoldable pub cut : String → String × Option String
cut String.[] = ("", none)
cut (String.◌∷◌ c s) =
    let (a, rest) = cut s in if code c == b'_' then ("", some s) else (String.◌∷◌ c a, rest)

-- `name.split('_', 2)[1]`
unfoldable pub second_part : String → Result String
unfolding cut
second_part s = elim (cut s).1 [ none ↦ err index_error | some rest ↦ ok (cut rest).0 ]

abbrev pub is_text : Option String → String → Bool
is_text none _ = false
is_text (some s) t = str_eq s t

-- `context.project_id` counts as given only if it is neither None nor empty.
abbrev pub given : Option String → Bool
given none = false
given (some s) = not (str_eq s "")

module _ {R : Type 0} (k : Keystone) (project_of user_of : R → String) where
  -- The test that `_add_tenant_filters` adds to a query.
  unfoldable pub tenant_filter : Context → Result (R → Bool)
  unfolding second_part
  tenant_filter c =
      if c.is_admin && c.all_tenants
      then ok (λ _. true)
      else if given c.project_id && not (is_text c.domain_id k.trustee_domain_id)
      then ok (λ r. is_text c.project_id (project_of r))
      else if is_text c.domain_id k.trustee_domain_id
      then elim (second_part (k.user_name c.user_id)) [
        | ok p ↦ ok (λ r. str_eq (project_of r) p)
        | err e ↦ err e
      ]
      else ok (λ r. str_eq (user_of r) c.user_id)

  -- A request of a project outside of the trustee domain sees the rows of its own project only,
  -- unless it comes from an administrator that asks for all tenants.
  pub tenant_filter_isolates :
      (c : Context) (p : String) (f : R → Bool) (r : R)
      → (c.is_admin && c.all_tenants) ≡ false
      → c.project_id ≡ some p
      → str_eq p "" ≡ false
      → is_text c.domain_id k.trustee_domain_id ≡ false
      → tenant_filter c ≡ ok f
      → f r ≡ true
      → project_of r ≡ p
  unfolding tenant_filter
  tenant_filter_isolates c p f r admin project filled domain e visible =
      ground (arith, eq_iff p (project_of r))
