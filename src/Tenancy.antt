-- ===== src/Tenancy.antt =====
-- Tenant contexts and lookup scopes (core/tenancy.py): the context variables, the transaction-local
-- settings that the row-level-security policies read, and the blocks that set them. PostgreSQL's SET
-- LOCAL lasts until the transaction ends, and is undone by a rollback to a savepoint.
pub mod Isolation
pub mod Restoration
pub mod Forms
mod Tests
use review_flow.Base.{
  ℕ, ◌+◌, Bool, true, false, ◌&&◌, not, ◌==◌, Option, none, some, List, [], ◌∷◌, ◌++◌, is_some,
  is_none, if◌then◌else◌,
}

-- The lookup scopes, `user_lookup_atomic` to `platform_write_atomic`.
pub data Scope : Type 0 where
  user api_key integration billing_ref whatsapp_number platform_write : Scope

abbrev pub scope_number : Scope → ℕ
scope_number user = 0
scope_number api_key = 1
scope_number integration = 2
scope_number billing_ref = 3
scope_number whatsapp_number = 4
scope_number platform_write = 5

abbrev pub Scopes : Type 0
Scopes = Scope → Option ℕ

abbrev pub set_scope : Scope → Option ℕ → Scopes → Scopes
set_scope k v scopes c = if scope_number c == scope_number k then v else scopes c

-- The settings `app.current_merchant_id` and those of the scopes.
pub record Settings : Type 0 where
  pub merchant : Option ℕ
  pub scopes : Scopes

abbrev pub no_settings : Settings
no_settings = record { merchant = none; scopes = λ c. none }

-- The context variables, and the connection: how many atomic blocks are open, and the settings.
pub record State : Type 0 where
  pub merchant : Option ℕ
  pub scopes : Scopes
  pub depth : ℕ
  pub settings : Settings

-- A piece of code by the blocks that it opens. A statement reads the database under the settings.
-- The value of a scope is `none` where its form is refused (`ValueError`).
pub data Block : Type 0 where
  statement : Block
  raising : Block
  sequence : Block → Block → Block
  suppress : Block → Block
  tenant_context : ℕ → Block → Block
  tenant_atomic : Bool → Block → Block
  scope_atomic : Scope → Option ℕ → Block → Block
  atomic : Bool → Block → Block

-- The scopes by their names; the value is `none` where its form is refused.
abbrev pub user_lookup_atomic : Option ℕ → Block → Block
user_lookup_atomic user_id body = scope_atomic user user_id body

abbrev pub api_key_lookup_atomic : Option ℕ → Block → Block
api_key_lookup_atomic key_hash body = scope_atomic api_key key_hash body

abbrev pub integration_lookup_atomic : Option ℕ → Block → Block
integration_lookup_atomic integration_id body = scope_atomic integration integration_id body

abbrev pub billing_ref_lookup_atomic : Option ℕ → Block → Block
billing_ref_lookup_atomic ref body = scope_atomic billing_ref ref body

abbrev pub whatsapp_number_lookup_atomic : Option ℕ → Block → Block
whatsapp_number_lookup_atomic phone_number_id body =
    scope_atomic whatsapp_number phone_number_id body

abbrev pub platform_write_atomic : Option ℕ → Block → Block
platform_write_atomic scope body = scope_atomic platform_write scope body

-- The wrapper of `tenant_task`.
abbrev pub tenant_task : ℕ → Block → Block
tenant_task m body = tenant_context m body

-- Whether the code ended without an exception, the state, and the settings of every statement.
pub record Run : Type 0 where
  pub ended : Bool
  pub state : State
  pub seen : List Settings

abbrev pub stopped : State → Run
stopped s = record { ended = false; state = s; seen = [] }

-- The end of an atomic block that began in `s`: a rollback restores the settings, and the end of the
-- outermost transaction clears what it set.
abbrev pub closed : State → Run → Run
closed s r = record r {
  state = record (r.state) {
    depth = s.depth;
    settings =
        if s.depth == 0 then no_settings else if r.ended then r.state.settings else s.settings;
  };
}

-- `transaction.atomic(durable=...)` is refused in another atomic block if it is durable.
abbrev pub refused : Bool → State → Bool
refused durable s = durable && not (s.depth == 0)

abbrev pub opened : State → State
opened s = record s { depth = s.depth + 1 }

abbrev pub with_merchant : Option ℕ → State → State
with_merchant m s = record s { settings = record (s.settings) { merchant = m } }

abbrev pub with_scope : Scope → ℕ → State → State
with_scope k v s = record s {
  settings = record (s.settings) { scopes = set_scope k (some v) s.settings.scopes };
}

-- The token's reset of a scope's variable.
abbrev pub reset_scope : Scope → State → Run → Run
reset_scope k s r = record r {
  state = record (r.state) { scopes = set_scope k (s.scopes k) r.state.scopes };
}

abbrev pub reset_merchant : State → Run → Run
reset_merchant s r = record r { state = record (r.state) { merchant = s.merchant } }

abbrev pub then_run : Run → Run → Run
then_run r next = record next { seen = r.seen ++ next.seen }

-- `active is not None and active != merchant_id`
abbrev pub other_active : Option ℕ → ℕ → Bool
other_active none m = false
other_active (some active) m = not (active == m)

unfoldable pub run : Block → State → Run
run statement s = record { ended = true; state = s; seen = s.settings ∷ [] }
run raising s = stopped s
run (sequence first second) s =
    let r = run first s in let next = run second r.state in if r.ended then then_run r next else r
run (suppress body) s = record (run body s) { ended = true }
run (tenant_context m body) s =
    let r = run body (record s { merchant = some m }) in
    if other_active s.merchant m then stopped s else reset_merchant s r
run (tenant_atomic durable body) s =
    let r = run body (with_merchant s.merchant (opened s)) in
    if is_none s.merchant then stopped s else if refused durable s then stopped s else closed s r
run (scope_atomic k none body) s = stopped s
run (scope_atomic k (some v) body) s =
    let entered : State = record s { scopes = set_scope k (some v) s.scopes } in
    let r = run body (with_scope k v (opened entered)) in
    if is_some s.merchant
    then stopped s
    else if refused true s
    then reset_scope k s (stopped entered)
    else reset_scope k s (closed entered r)
run (atomic durable body) s =
    let r = run body (opened s) in if refused durable s then stopped s else closed s r
