-- ===== src/Db/X509KeyPairs/Laws.antt =====
-- Whose key pairs a request reads (magnum/db/sqlalchemy/api.py).
use magnum.Common.{
  ◌≡◌, ◌∙◌, ap, false, ◌&&◌, String, str_eq, some, List, [], ◌∷◌, select, select_comm,
}
use magnum.Errors.{ok, answer_of, ok_inj, multiple_results_found}
use magnum.Db.Table.{one-eq-ok, select-holds}
use magnum.Db.Tenant.{Context, Keystone, tenant_filter, tenant_filter_isolates, is_text}
use magnum.Db.X509KeyPairs.{X509KeyPair, visible_pairs, no_pair, get_x509keypair_by_uuid}

-- A key pair, with its private key, is read by its own project only: where a request of a project
-- outside of the trustee domain reads a key pair by its uuid, and is not an administrator's that
-- asks for all tenants, the key pair is the project's.
pub get_x509keypair_by_uuid_isolates :
    (k : Keystone) (ctx : Context) (project u : String) (pairs : List X509KeyPair)
    (pair : X509KeyPair)
    → (ctx.is_admin && ctx.all_tenants) ≡ false
    → ctx.project_id ≡ some project
    → str_eq project "" ≡ false
    → is_text ctx.domain_id k.trustee_domain_id ≡ false
    → get_x509keypair_by_uuid k ctx u pairs ≡ ok pair
    → pair.project_id ≡ project
unfolding get_x509keypair_by_uuid
get_x509keypair_by_uuid_isolates k ctx project u pairs pair admin of filled domain h =
    let named = λ (p : X509KeyPair). str_eq p.uuid u in
    let (rows, seen, found) = answer_of (visible_pairs k ctx pairs) _ h in
    let (mine, filter, selected) =
      answer_of (tenant_filter k (λ (p : X509KeyPair). p.project_id) (λ p. p.user_id) ctx) _ seen in
    let only = one-eq-ok (no_pair u) multiple_results_found (select named rows) pair found in
    let mine_only : select mine (select named pairs) ≡ pair ∷ [] =
      select_comm mine named pairs ∙ ap (select named) (ok_inj selected) ∙ only in
    tenant_filter_isolates k (λ (p : X509KeyPair). p.project_id) (λ p. p.user_id) ctx project mine
      pair admin of filled domain filter (select-holds mine pair (select named pairs) mine_only)
