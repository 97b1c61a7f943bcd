-- ===== src/Session/Monad.antt =====
-- State and exceptions of a handler, and the services that it calls: Heat, Keystone, the
-- certificate store and Octavia, which are not part of the program.
use magnum.Common.{ℕ, Bool, String, Option, List, [], ◌∷◌, ◌≡◌, ap}
use magnum.Errors.{Error, Result, ok, err}
use magnum.Status.{ClusterStatus}
use magnum.Objects.{Cluster, NodeGroup, Database}

-- pycadf's taxonomy, as far as the conductor uses it
pub data CadfAction : Type 0 where
  action_create action_update action_delete : CadfAction

pub data CadfOutcome : Type 0 where
  outcome_pending outcome_success outcome_failure : CadfOutcome

-- What a request has done outside of the database; the name of a stack is a list of code points, and
-- its creation has a time limit in minutes.
pub data Event : Type 0 where
  notified : CadfAction → CadfOutcome → ClusterStatus → Event
  stack_create : List ℕ → ℕ → Event
  stack_update stack_delete stack_get : String → Event
  trustee_create trust_create trustee_delete trust_delete : String → Event
  cert_store cert_delete : String → Event
  load_balancers_delete client_files_delete : String → Event

-- A stack of Heat, as `stacks.get` describes it. Its status is one of those of ClusterStatus.
pub record Stack : Type 0 where
  pub stack_status : ClusterStatus
  pub stack_status_reason : Option String
  pub outputs : List (String × String)
  pub parameters : List (String × String)

-- `changes` and `ng_changes` are what has been assigned to the two objects since they were read or
-- saved (`obj_get_changes`), as functions on a row.
pub record Session : Type 0 where
  pub cluster : Cluster
  pub changes : Cluster → Cluster
  pub nodegroup : NodeGroup
  pub ng_changes : NodeGroup → NodeGroup
  pub db : Database
  pub events : List Event

-- Each answer may depend on all that was done before, so a service may answer one question
-- differently at different times; a new id and a new uuid may depend on the tables too.
pub record Cloud : Type 0 where
  pub create_stack : List Event → List ℕ → ℕ → Result String
  pub update_stack : List Event → String → Result (Unit {0})
  pub delete_stack : List Event → String → Result (Unit {0})
  pub get_stack : List Event → String → Result Stack
  pub create_trustee : List Event → String → Result (String × String)
  pub create_trust : List Event → String → Result String
  pub delete_trustee : List Event → String → Result (Unit {0})
  pub delete_trust : List Event → String → Result (Unit {0})
  pub store_cert : List Event → String → Result String
  pub delete_cert : List Event → String → Result (Unit {0})
  pub octavia_enabled : Bool
  pub delete_loadbalancers : List Event → String → Result (Unit {0})
  pub generate_password : List Event → String
  pub generate_id : List Event → String
  pub next_id : List Event → Database → ℕ
  pub generate_uuid : List Event → Database → String
  pub integer_field : String → Result ℕ
  pub create_timeout : ℕ

abbrev pub Action {ℓ} : Type ℓ → Type ℓ
Action A = Session → Result A × Session

module _ {ℓ} {A : Type ℓ} where
  abbrev pub pure : A → Action A
  pure a s = (ok a, s)

  abbrev pub raise : Error → Action A
  raise e s = (err e, s)

  abbrev pub lift : Result A → Action A
  lift r s = (r, s)

  abbrev pub gets : (Session → A) → Action A
  gets f s = (ok (f s), s)

  -- A call whose outcome depends on the session.
  abbrev pub asks : (Session → Result A) → Action A
  asks f s = (f s, s)

  -- `try: … except Exception as e: …`, once the body is done
  abbrev pub handle : (Error → Action A) → Result A × Session → Result A × Session
  handle handler (ok a, s) = (ok a, s)
  handle handler (err e, s) = handler e s

  abbrev pub try_except : Action A → (Error → Action A) → Action A
  try_except m handler s = handle handler (m s)

-- `try: … except …: … else: …`: what follows a body that has not raised.
abbrev pub settle {ℓ κ} :
    {A : Type ℓ} {B : Type κ}
    → (A → Action B)
    → (Error → Action B)
    → Result A × Session
    → Result B × Session
settle f handler (ok a, s) = f a s
settle f handler (err e, s) = handler e s

abbrev pub try_else {ℓ κ} :
    {A : Type ℓ} {B : Type κ} → Action A → (A → Action B) → (Error → Action B) → Action B
try_else m f handler s = settle f handler (m s)

-- A block goes on with what its first part has answered, unless that has raised.
abbrev pub continue {ℓ κ} :
    {A : Type ℓ} {B : Type κ} → (A → Action B) → Result A × Session → Result B × Session
continue f (ok a, s) = f a s
continue f (err e, s) = (err e, s)

infixl 5 ◌>>=◌ ◌>>◌
abbrev pub ◌>>=◌ {ℓ κ} : {A : Type ℓ} {B : Type κ} → Action A → (A → Action B) → Action B
◌>>=◌ m f s = continue f (m s)

abbrev pub ◌>>◌ {ℓ κ} : {A : Type ℓ} {B : Type κ} → Action A → Action B → Action B
m >> k = m >>= λ _. k

abbrev pub modify : (Session → Session) → Action (Unit {0})
modify f s = (ok tt, f s)

abbrev pub on_cluster : (Cluster → Cluster) → Action (Unit {0})
on_cluster f = modify (λ s. record s { cluster = f s.cluster; changes = λ c. f (s.changes c) })

abbrev pub on_nodegroup : (NodeGroup → NodeGroup) → Action (Unit {0})
on_nodegroup f =
    modify (λ s. record s { nodegroup = f s.nodegroup; ng_changes = λ n. f (s.ng_changes n) })

-- The object in hand is the row that was read.
abbrev pub take_nodegroup : NodeGroup → Action (Unit {0})
take_nodegroup n = modify (λ s. record s { nodegroup = n; ng_changes = λ m. m })

abbrev pub tell : Event → Action (Unit {0})
tell e = modify (λ s. record s { events = e ∷ s.events })

-- A transaction of the database: it is done, or it raises and changes nothing.
abbrev pub transact : (Database → Result Database) → Action (Unit {0})
transact f s = elim (f s.db) [ ok d ↦ (ok tt, record s { db = d }) | err e ↦ (err e, s) ]

-- `for x in xs: body(x)`
unfoldable pub for_each {ℓ} : {A : Type ℓ} → List A → (A → Action (Unit {0})) → Action (Unit {0})
for_each [] body = pure tt
for_each (x ∷ xs) body = let rest = for_each xs body in body x >> rest

-- A call of a service is noted, and then answered.
abbrev pub call {ℓ} : {A : Type ℓ} → Event → (List Event → Result A) → Action A
call e f s = (f s.events, record s { events = e ∷ s.events })

-- How a block goes on where a part of it is known.
module _ {ℓ κ} {A : Type ℓ} {B : Type κ} (m : Action A) (f : A → Action B) {s s' : Session} where
  pub bind_ok : {a : A} → m s ≡ (ok a, s') → (m >>= f) s ≡ f a s'
  bind_ok h = ap (continue f) h

  pub bind_err : {e : Error} → m s ≡ (err e, s') → (m >>= f) s ≡ (err e, s')
  bind_err h = ap (continue f) h

module _ {ℓ} {A : Type ℓ} (m : Action A) (handler : Error → Action A) {s s' : Session} where
  pub try_ok : {a : A} → m s ≡ (ok a, s') → try_except m handler s ≡ (ok a, s')
  try_ok h = ap (handle handler) h

  pub try_err : {e : Error} → m s ≡ (err e, s') → try_except m handler s ≡ handler e s'
  try_err h = ap (handle handler) h
