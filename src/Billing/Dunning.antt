-- ===== src/Billing/Dunning.antt =====
-- The sweep's local work (billing/services.py): dunning checkpoints, the end of the grace period, the
-- owed provider cancel, and the test that decides whether a merchant is swept.
pub mod Checkpoints
pub mod Sweep
use review_flow.Base.{
  ◌*◌, ℕ, ◌+◌, ◌-◌, Bool, true, false, ◌&&◌, ◌||◌, not, Option, none, some, List, [], ◌∷◌, String,
  ltb, leb, any, is_some, is_none, if◌then◌else◌,
}
use review_flow.Base.Text.{same_text}
use review_flow.Billing.Context.{Checked, ok, ◌>>=◌, merchant_id}
use review_flow.Billing.Model.{
  Status, incomplete, active, past_due, cancelled, expired, same_status, ProviderStatus,
  Subscription, BillingEvent, days, grace, second, subscription_expired, dunning_checkpoint,
  from_status, to_status, stage, status_value, number,
}
use review_flow.Billing.Provider.{
  Value, Reply, answered, unavailable, rejected, not_configured, entity_status, truncated,
  provider_may_be_cancelled, is_terminal,
}
use review_flow.Billing.Session.{Session, Column, add, save, record_audit}
use review_flow.Billing.Transition.{grace_over}
use review_flow.Billing.Session

-- `DUNNING_STAGES`, with the offsets in the order of the tuple.
abbrev pub dunning_stages : List (ℕ × ℕ)
dunning_stages = (6, days 6) ∷ (3, days 3) ∷ []

-- `dunning_stage < stage` in the conditional update; a NULL stage is not below any.
abbrev pub stage_below : Option ℕ → ℕ → Bool
stage_below none n = false
stage_below (some m) n = ltb m n

-- The conditional update and its audit row. The row is locked, so its `past_due_at` is that of `sub`.
unfoldable pub reach_stage : ℕ → ℕ → Session → Session
reach_stage now n s =
    if stage_below s.row.dunning_stage n
    then record_audit dunning_checkpoint none ((stage, number n) ∷ [])
        (record s { row = record (s.row) { dunning_stage = some n; updated_at = now } })
    else s

-- The loop: the first stage whose offset has passed is the only one that is tried.
unfoldable pub reach_first : ℕ → ℕ → List (ℕ × ℕ) → Session → Session
reach_first now since [] s = s
reach_first now since ((n, offset) ∷ stages) s =
    if leb (since + offset) now then reach_stage now n s else reach_first now since stages s

-- The day-7 rule.
unfoldable pub expire_grace : ℕ → Session → Session
expire_grace stamp s =
    record_audit subscription_expired none
      ((from_status, status_value past_due) ∷ (to_status, status_value expired) ∷ [])
      (save stamp (record s {
        sub = record (s.sub) { status = expired; past_due_at = none; dunning_stage = none };
        fields =
            add
              (Session.status ∷ Session.past_due_at ∷ Session.dunning_stage ∷ Session.updated_at
                ∷ [])
              Session.no_fields;
      }))

-- `_advance_past_due`; a PAST_DUE row has a `past_due_at` (a check constraint).
unfoldable pub advance_past_due : ℕ → ℕ → Session → Session
advance_past_due now stamp s = elim s.sub.past_due_at [
  | none ↦ s
  | some since ↦
      if leb (since + grace) now
      then expire_grace stamp s
      else reach_first now since dunning_stages s
]

-- The transaction of `advance_dunning` on the locked row.
unfoldable pub advance_dunning : ℕ → ℕ → Session → Session
advance_dunning now stamp s =
    if same_status s.sub.status past_due then advance_past_due now stamp s else s

abbrev has_ended : Status → Bool
has_ended cancelled = true
has_ended expired = true
has_ended _ = false

-- The query of `_retry_owed_provider_cancel`: the reference whose provider cancel is owed.
unfoldable pub owed_cancel : Subscription → Option String
owed_cancel row =
    if has_ended row.status && provider_may_be_cancelled row.provider_status
    then row.payment_provider_ref
    else none

abbrev pub answered_status : Reply → Option ProviderStatus
answered_status (answered entity) = entity_status entity
answered_status unavailable = none
answered_status (rejected status code why) = none
answered_status not_configured = none

abbrev points_at : Option String → String → Bool
points_at none ref = false
points_at (some stored) ref = same_text stored ref

-- The update after the provider's answer, on the row as it is by then: it is written only while the
-- row still points at the subscription that was cancelled.
unfoldable pub record_cancel : String → Reply → Subscription → Subscription
record_cancel ref reply row = elim (answered_status reply) [
  | none ↦ row
  | some status ↦
      if points_at row.payment_provider_ref ref
      then record row { provider_status = some (truncated status) }
      else row
]

-- `EVENT_SETTLE_AFTER` and `INCOMPLETE_SWEEP_WINDOW`
abbrev pub event_settle_after : ℕ
event_settle_after = 120 * second

abbrev pub incomplete_sweep_window : ℕ
incomplete_sweep_window = days 7

-- `processed_at__isnull=True, created_at__lte=now - EVENT_SETTLE_AFTER`
abbrev pub is_overdue : ℕ → BillingEvent → Bool
is_overdue now e = is_none e.processed_at && leb (e.created_at + event_settle_after) now

abbrev lapsed : ℕ → Option ℕ → Bool
lapsed now none = false
lapsed now (some end) = leb end now

abbrev not_terminal : Option ProviderStatus → Bool
not_terminal none = true
not_terminal (some status) = not (is_terminal status)

-- The disjunction of the subscription's query.
unfoldable pub row_due : ℕ → Subscription → Bool
row_due now row =
    (same_status row.status incomplete
      && is_some row.payment_provider_ref
      && leb now (row.updated_at + incomplete_sweep_window))
    || (same_status row.status active
        && lapsed now row.current_period_end
        && is_some row.payment_provider_ref)
    || same_status row.status past_due
    || is_some row.replacement_provider_ref
    || is_some row.retired_provider_ref
    || (has_ended row.status
        && is_some row.payment_provider_ref
        && not_terminal row.provider_status)

abbrev any_row_due : ℕ → Option Subscription → Bool
any_row_due now none = false
any_row_due now (some row) = row_due now row

-- `maintenance_due`
unfoldable pub maintenance_due :
    Option ℕ → ℕ → List BillingEvent → Option Subscription → Checked Bool
maintenance_due context now events row =
    merchant_id context >>= λ _. ok (any (is_overdue now) events || any_row_due now row)
