-- ===== src/Db/X509KeyPairs.antt =====
-- The x509keypair operations of `Connection` in magnum/db/sqlalchemy/api.py.
pub mod Laws
use magnum.Common.{
  ℕ, Bool, true, false, not, ◌&&◌, ◌==◌, String, str_eq, Option, none, some, List, [], ◌∷◌, ◌++◌,
  select, any, if◌then◌else◌,
}
use magnum.Common.Text.{◌^+◌}
use magnum.Errors.{
  Error, Result, ok, err, ◌>>=◌, invalid_parameter_value, x509_key_pair_not_found,
  x509_key_pair_already_exists,
}
use magnum.Db.Table.{Identity, one, one_or, update_where, delete_where, identity_filter}
use magnum.Db.Tenant.{Context, Keystone, tenant_filter}
use magnum.Db.Clusters.{identity_text}
use magnum.Db.Nodegroups.{passes}

pub record X509KeyPair : Type 0 where
  pub id : ℕ
  pub uuid : String
  pub certificate : Option String
  pub private_key : Option String
  pub private_key_passphrase : Option String
  pub intermediates : Option String
  pub project_id : String
  pub user_id : String

-- `create_x509keypair`, given the id and the uuid that a new row is to get
unfoldable pub create_x509keypair :
    ℕ → String → X509KeyPair → List X509KeyPair → Result (X509KeyPair × List X509KeyPair)
create_x509keypair n u values pairs =
    let uuid = if str_eq values.uuid "" then u else values.uuid in
    let row = record values { id = n; uuid = uuid } in
    if any (λ (p : X509KeyPair). str_eq p.uuid uuid) pairs
    then err (x509_key_pair_already_exists uuid)
    else ok (row, pairs ++ row ∷ [])

abbrev pub pair_filter : Identity → Result (X509KeyPair → Bool)
pair_filter i = identity_filter (λ p. p.id) (λ p. p.uuid) i

abbrev pub no_pair : String → Error
no_pair x509keypair =
    x509_key_pair_not_found ("A key pair " ^+ x509keypair ^+ " could not be found.")

module _ (k : Keystone) where
  abbrev pub visible_pairs : Context → List X509KeyPair → Result (List X509KeyPair)
  visible_pairs ctx pairs = do
    mine ← tenant_filter k (λ (p : X509KeyPair). p.project_id) (λ p. p.user_id) ctx
    ok (select mine pairs)

  -- The text says "id" in place of the number.
  unfoldable pub get_x509keypair_by_id : Context → ℕ → List X509KeyPair → Result X509KeyPair
  unfolding tenant_filter one_or
  get_x509keypair_by_id ctx n pairs = do
    rows ← visible_pairs ctx pairs
    one (no_pair "id") (select (λ (p : X509KeyPair). p.id == n) rows)

  unfoldable pub get_x509keypair_by_uuid : Context → String → List X509KeyPair → Result X509KeyPair
  unfolding tenant_filter one_or
  get_x509keypair_by_uuid ctx u pairs = do
    rows ← visible_pairs ctx pairs
    one (no_pair u) (select (λ (p : X509KeyPair). str_eq p.uuid u) rows)

  -- `get_x509keypair_list`, without a page; the filters are a project and a user, each given or not.
  unfoldable pub get_x509keypair_list :
      Context → Option String → Option String → List X509KeyPair → Result (List X509KeyPair)
  unfolding tenant_filter
  get_x509keypair_list ctx project_id user_id pairs = do
    rows ← visible_pairs ctx pairs
    ok (
        select
          (λ (p : X509KeyPair).
            passes (λ v. str_eq p.project_id v) project_id
            && passes (λ v. str_eq p.user_id v) user_id)
          rows)

-- `if count != 1`; the identity is given to the exception as its message.
abbrev deleted_one : Error → (X509KeyPair → Bool) → List X509KeyPair → Result (List X509KeyPair)
deleted_one missing p pairs = elim (select p pairs) [
  | x ∷ [] ↦ ok (delete_where p pairs)
  | _ ↦ err missing
]

unfoldable pub destroy_x509keypair : Identity → List X509KeyPair → Result (List X509KeyPair)
unfolding identity_filter
destroy_x509keypair i pairs = do p ← pair_filter i; deleted_one (no_pair (identity_text i)) p pairs

unfoldable pub do_update_x509keypair :
    Identity → (X509KeyPair → X509KeyPair) → List X509KeyPair → Result (List X509KeyPair)
unfolding identity_filter one_or
do_update_x509keypair i assign pairs = do
  p ← pair_filter i
  ref ← one (no_pair (identity_text i)) (select p pairs)
  ok (update_where p assign pairs)

-- `update_x509keypair`, given whether a uuid is among the values
unfoldable pub update_x509keypair :
    Bool → Identity → (X509KeyPair → X509KeyPair) → List X509KeyPair → Result (List X509KeyPair)
unfolding do_update_x509keypair
update_x509keypair true i assign pairs =
    err (invalid_parameter_value "Cannot overwrite UUID for an existing X509KeyPair.")
update_x509keypair false i assign pairs = do_update_x509keypair i assign pairs
