-- ===== src/Billing/Exec.antt =====
-- What an endpoint of the billing services runs in: the merchant's rows, the calls of the provider and
-- the clock. A step may raise; what was written before a raise stays written, unless it stands in a
-- savepoint (`with tenant_atomic()` in the request's transaction), which a raise rolls back.
mod Errors
pub mod Keeps
pub mod Aborts
pub mod Creates
pub mod Gives
use review_flow.Base.{
  not, ℕ, ◌+◌, Bool, true, false, Option, none, some, List, [], ◌∷◌, String, if◌then◌else◌,
}
pub use Errors.*
use review_flow.Billing.Model.{Plan, Subscription, Kind}
use review_flow.Billing.Provider.{Value, Reply, answered, unavailable, rejected, not_configured}
use review_flow.Billing.Session.{Session, no_fields}

-- The calls of billing.razorpay: a fetch, a cancel (at the cycle's end or at once), a create with its
-- `start_at` and `expire_by`, and an update (now or at the cycle's end).
pub data Call : Type 0 where
  fetch : String → Call
  cancel : String → Bool → Call
  create : Option String → Option ℕ → Option ℕ → Call
  update : String → Option String → Bool → Call
  list_invoices : String → Call

-- What `fetch_invoices` ends in.
pub data Invoices : Type 0 where
  listed : List Value → Invoices
  failed : Reply → Invoices
  unimplemented : Invoices

-- The gates of the plan-change replacement in billing.razorpay, which ship closed.
pub record Gates : Type 0 where
  pub refusals : List (ℕ × String × String)
  pub start_field : Option String
  pub expiry_field : Option String

abbrev pub shipped_gates : Gates
shipped_gates = record { refusals = []; start_field = none; expiry_field = none }

-- The rest of the world: the request's tenant and transaction, the key of the next row, the row that a
-- concurrent first checkout has inserted, the plans, the provider, which answers a call after those already made, the
-- readings of the clock, and the settings. A window is `none` if unset, no integer or not positive.
pub record Env : Type 0 where
  pub merchant_id : Option ℕ
  pub in_transaction : Bool
  pub new_row : ℕ
  pub rival : Option Session
  pub plans : List Plan
  pub provider : List Call → Call → Reply
  pub invoices : List Call → String → Invoices
  pub clock : ℕ → ℕ
  pub gates : Gates
  pub is_configured : Bool
  pub is_enabled : Kind → Bool
  pub window : Kind → Option ℕ

-- The merchant's rows as the transaction holds them, the calls made, newest first, and how often the
-- clock was read.
pub record World : Type 0 where
  pub stored : Option Session
  pub calls : List Call
  pub ticks : ℕ

pub data Result (A : Type 0) : Type 0 where
  ok : A → Result A
  err : Error → Result A

abbrev pub Exec : Type 0 → Type 0
Exec A = World → Result A × World

abbrev pub pure : {A : Type 0} → A → Exec A
pure a w = (ok a, w)

abbrev pub raise : {A : Type 0} → Error → Exec A
raise e w = (err e, w)

abbrev pub continue : {A B : Type 0} → Result A → (A → Exec B) → Exec B
continue (ok a) f w = f a w
continue (err e) f w = (err e, w)

infixl 5 ◌>>=◌ ◌>>◌
unfoldable pub ◌>>=◌ : {A B : Type 0} → Exec A → (A → Exec B) → Exec B
◌>>=◌ m f w = let (r, w') = m w in continue r f w'

abbrev pub ◌>>◌ : {A B : Type 0} → Exec A → Exec B → Exec B
m >> n = m >>= λ _. n

-- `if test: raise`
abbrev pub refuse_if : Bool → Error → Exec (Unit {0})
refuse_if true e = raise e
refuse_if false e = pure tt

abbrev undone : {A : Type 0} → Option Session → Result A × World → Result A × World
undone before (ok a, w) = (ok a, w)
undone before (err e, w) = (err e, record w { stored = before })

-- `with tenant_atomic():` inside the request's transaction.
unfoldable pub savepoint : {A : Type 0} → Exec A → Exec A
savepoint m w = undone w.stored (m w)

abbrev pub log : Call → World → World
log c w = record w { calls = c ∷ w.calls }

unfoldable pub call : Env → Call → Exec Reply
call env c w = (ok (env.provider w.calls c), log c w)

unfoldable pub call_invoices : Env → String → Exec Invoices
call_invoices env ref w = (ok (env.invoices w.calls ref), log (list_invoices ref) w)

-- `dj_timezone.now()`
unfoldable pub now : Env → Exec ℕ
now env w = (ok (env.clock w.ticks), record w { ticks = w.ticks + 1 })

-- The exceptions of a call whose rejection the caller turns into `BillingProviderUnavailable`.
abbrev pub expect : Reply → Exec Value
expect (answered entity) = pure entity
expect unavailable = raise provider_unavailable
expect (rejected status code why) = raise provider_unavailable
expect not_configured = raise provider_not_configured

-- The transaction's own rows, replaced by what a locked step made of them.
abbrev pub put : Session → Exec (Unit {0})
put s w = (ok tt, record w { stored = some s })

-- The row is locked and read again: what was saved is what the next step sees.
abbrev pub relocked : Session → Session
relocked s = record s { sub = s.row; fields = no_fields }

-- `_lock_current_subscription`
unfoldable pub lock_current_subscription : Exec (Option Session)
lock_current_subscription w = (ok (elim w.stored [ none ↦ none | some s ↦ some (relocked s) ]), w)

-- `_merchant_id`, then `_require_request_transaction`.
abbrev pub with_tenant : Env → Option ℕ → Exec ℕ
with_tenant env none = raise no_tenant
with_tenant env (some merchant) =
    refuse_if (not env.in_transaction) outside_transaction >> pure merchant

unfoldable pub require_request : Env → Exec ℕ
require_request env = with_tenant env env.merchant_id

-- `_require_configured`
abbrev pub require_configured : Env → Exec (Unit {0})
require_configured env = refuse_if (not env.is_configured) provider_not_configured
