-- ===== src/Billing/Context.antt =====
-- The tenant context that every billing service requires (`_merchant_id`), and the errors that stand
-- for a misuse of the services.
use review_flow.Base.{ℕ, Option, none, some, Bool, true, false}

pub data Checked (A : Type 0) : Type 0 where
  ok : A → Checked A
  tenant_context_error : Checked A
  runtime_error : Checked A

infixl 5 ◌>>=◌
abbrev pub ◌>>=◌ : {A B : Type 0} → Checked A → (A → Checked B) → Checked B
ok a >>= f = f a
tenant_context_error >>= f = tenant_context_error
runtime_error >>= f = runtime_error

-- `_merchant_id`
unfoldable pub merchant_id : Option ℕ → Checked ℕ
merchant_id none = tenant_context_error
merchant_id (some id) = ok id

-- `if not in_atomic_block: raise RuntimeError(...)`
unfoldable pub require_transaction : Bool → Checked (Unit {0})
require_transaction true = ok tt
require_transaction false = runtime_error
