-- ===== src/Billing/Sync.antt =====
-- The synchronisation (billing/services.py): the sync of the main subscription, which of the inbox's
-- events it and the replacement's sync have observed, and the sync that a webhook enqueues.
pub mod Events
use review_flow.Base.{
  ℕ, ◌+◌, ◌*◌, Bool, true, false, ◌&&◌, not, Option, none, some, List, [], ◌∷◌, String, ltb, any,
  is_none, if◌then◌else◌,
}
use review_flow.Base.Text.{same_text}
use review_flow.Billing.Model.{BillingEvent, Subscription, second, Status}
use review_flow.Billing.Provider.{Value, Reply, answered, unavailable, rejected, not_configured}
use review_flow.Billing.Session.{Session}
use review_flow.Billing.Retired.{holds}
use review_flow.Billing.Snapshot.{SnapshotResult}
use review_flow.Billing.Exec.{
  Call, fetch, Invoices, listed, failed, unimplemented, Env, World, Exec, not_implemented, pure,
  raise, ◌>>=◌, ◌>>◌, refuse_if, call, call_invoices, now, put, relocked, lock_current_subscription,
  with_tenant,
}
use review_flow.Billing.Exec.{no_tenant}
use review_flow.Billing.Request.{needs_invoices, apply_snapshot_step}

-- `EVENT_CLOCK_SKEW`
abbrev pub event_clock_skew : ℕ
event_clock_skew = 5 * second

-- `processed_at__isnull=True, created_at__lt=fetch_started_at - EVENT_CLOCK_SKEW`
abbrev pub observed : ℕ → BillingEvent → Bool
observed started e = is_none e.processed_at && ltb (e.created_at + event_clock_skew) started

-- The events of the main step: not those that name the live replacement.
unfoldable pub observed_by_main : ℕ → Option String → BillingEvent → Bool
observed_by_main started replacement e =
    observed started e && not (holds replacement e.provider_ref)

-- Those of the replacement's step.
unfoldable pub observed_by_replacement : ℕ → String → BillingEvent → Bool
observed_by_replacement started ref e = same_text e.provider_ref ref && observed started e

-- `.update(processed_at=stamp, updated_at=stamp)`
unfoldable pub mark_where : (BillingEvent → Bool) → ℕ → List BillingEvent → List BillingEvent
mark_where test stamp [] = []
mark_where test stamp (e ∷ events) =
    (if test e then record e { processed_at = some stamp } else e) ∷ mark_where test stamp events

-- The end of `_sync_main`, on the row that the snapshot left.
unfoldable pub settle_main : ℕ → ℕ → SnapshotResult → Session → Session
settle_main started stamp result s =
    if result.settled
    then record s {
      events = mark_where (observed_by_main started s.row.replacement_provider_ref) stamp s.events;
    }
    else s

-- The end of `_sync_replacement`'s transaction.
unfoldable pub settle_replacement : ℕ → ℕ → String → SnapshotResult → Session → Session
settle_replacement started stamp ref result s =
    if result.settled
    then record s { events = mark_where (observed_by_replacement started ref) stamp s.events }
    else s

-- `.filter(processed_at__isnull=True).exists()`
abbrev pub pending : List BillingEvent → Bool
pending events = any (λ e. is_none e.processed_at) events

abbrev apply_main : Env → Value → Option (List Value) → ℕ → Option Session → Exec (Unit {0})
apply_main env entity invoices started none = pure tt
apply_main env entity invoices started (some s) = do
  applied ← apply_snapshot_step env s entity invoices started none
  stamp ← now env
  put (settle_main started stamp applied.0 applied.1)

-- A failed fetch of the invoices ends the step; a `NotImplementedError` is not caught.
abbrev with_invoices : Env → Value → ℕ → Invoices → Exec (Unit {0})
with_invoices env entity started (listed invoices) =
    lock_current_subscription >>= apply_main env entity (some invoices) started
with_invoices env entity started (failed reply) = pure tt
with_invoices env entity started unimplemented = raise not_implemented

abbrev after_fetch : Env → String → ℕ → Session → Reply → Exec (Unit {0})
after_fetch env ref started read (answered entity) =
    if needs_invoices read.row.status read.row.current_period_start entity
    then call_invoices env ref >>= with_invoices env entity started
    else lock_current_subscription >>= apply_main env entity none started
after_fetch env ref started read unavailable = pure tt
after_fetch env ref started read (rejected status code why) = pure tt
after_fetch env ref started read not_configured = pure tt

abbrev fetch_main : Env → Session → Option String → Exec (Unit {0})
fetch_main env read none = pure tt
fetch_main env read (some ref) = do
  started ← now env
  reply ← call env (fetch ref)
  after_fetch env ref started read reply

abbrev sync_read : Env → Option Session → Exec (Unit {0})
sync_read env none = pure tt
sync_read env (some s) = fetch_main env s s.row.payment_provider_ref

-- `_sync_main`
unfoldable pub sync_main : Env → Exec (Unit {0})
sync_main env = do
  refuse_if (is_none env.merchant_id) no_tenant
  read ← lock_current_subscription
  sync_read env read

abbrev has_pending : Option Session → Bool
has_pending none = false
has_pending (some s) = pending s.events

-- `sync_pending_events`, with the synchronisation that it starts.
unfoldable pub sync_pending_events : Env → Exec (Unit {0}) → Exec (Unit {0})
sync_pending_events env sync = do
  refuse_if (is_none env.merchant_id) no_tenant
  read ← lock_current_subscription
  if has_pending read then sync else pure tt
