-- ===== src/Billing/Session.antt =====
-- A row lock held on the subscription: the object in memory, the row in the database, the columns
-- that a later `save(update_fields=...)` will write, and the other tables of the transaction.
pub mod Save
use review_flow.Base.{
  ◌≡◌, ℕ, Bool, true, false, ◌||◌, ◌&&◌, Option, none, some, List, [], ◌∷◌, String, ◌==◌, ltb,
  is_none, any, map, if◌then◌else◌,
}
use review_flow.Base.Text.{same_text}
use review_flow.Billing.Model.{
  Subscription, UsageRecord, PaymentAttempt, BillingEvent, AuditRow, Action, MetaKey, MetaValue,
}

-- The columns of `Subscription` that some service writes.
pub data Column : Type 0 where
  plan status current_period_start current_period_end payment_provider_ref pending_plan : Column
  past_due_at dunning_stage cancel_at_period_end provider_status provider_synced_at : Column
  replacement_provider_ref replacement_expires_at replacement_plan : Column
  replacement_committed_at replacement_cancel_confirmed_at : Column
  retired_provider_ref retired_kind updated_at : Column

abbrev pub column_number : Column → ℕ
column_number plan = 0
column_number status = 1
column_number current_period_start = 2
column_number current_period_end = 3
column_number payment_provider_ref = 4
column_number pending_plan = 5
column_number past_due_at = 6
column_number dunning_stage = 7
column_number cancel_at_period_end = 8
column_number provider_status = 9
column_number provider_synced_at = 10
column_number replacement_provider_ref = 11
column_number replacement_expires_at = 12
column_number replacement_plan = 13
column_number replacement_committed_at = 14
column_number replacement_cancel_confirmed_at = 15
column_number retired_provider_ref = 16
column_number retired_kind = 17
column_number updated_at = 18

-- A set of columns, `set[str]`, by its membership test.
abbrev pub Fields : Type 0
Fields = Column → Bool

abbrev pub no_fields : Fields
no_fields c = false

-- `fields.update({...})`
abbrev pub add : List Column → Fields → Fields
add [] fields c = fields c
add (d ∷ ds) fields c = column_number c == column_number d || add ds fields c

pub record Session : Type 0 where
  pub sub : Subscription
  pub row : Subscription
  pub fields : Fields
  pub usage : List UsageRecord
  pub payments : List PaymentAttempt
  pub events : List BillingEvent
  pub audit : List AuditRow

-- `_audit`, newest first. The actor is the user of an accepted member, or none.
abbrev pub record_audit : Action → Option ℕ → List (MetaKey × MetaValue) → Session → Session
record_audit action actor metadata s = record s {
  audit = record { action = action; actor = actor; metadata = metadata } ∷ s.audit;
}

-- `sub.save(update_fields=sorted(fields))`: only the columns of the set are written, and
-- `updated_at`, if it is one of them, takes the time of the save.
unfoldable pub written : Fields → ℕ → Subscription → Subscription → Subscription
written f now row sub = record {
  id = row.id;
  merchant_id = row.merchant_id;
  plan = if f plan then sub.plan else row.plan;
  status = if f status then sub.status else row.status;
  current_period_start =
      if f current_period_start then sub.current_period_start else row.current_period_start;
  current_period_end =
      if f current_period_end then sub.current_period_end else row.current_period_end;
  payment_provider_ref =
      if f payment_provider_ref then sub.payment_provider_ref else row.payment_provider_ref;
  pending_plan_id = if f pending_plan then sub.pending_plan_id else row.pending_plan_id;
  past_due_at = if f past_due_at then sub.past_due_at else row.past_due_at;
  dunning_stage = if f dunning_stage then sub.dunning_stage else row.dunning_stage;
  cancel_at_period_end =
      if f cancel_at_period_end then sub.cancel_at_period_end else row.cancel_at_period_end;
  provider_status = if f provider_status then sub.provider_status else row.provider_status;
  provider_synced_at =
      if f provider_synced_at then sub.provider_synced_at else row.provider_synced_at;
  replacement_provider_ref =
      if f replacement_provider_ref
      then sub.replacement_provider_ref
      else row.replacement_provider_ref;
  replacement_expires_at =
      if f replacement_expires_at then sub.replacement_expires_at else row.replacement_expires_at;
  replacement_plan = if f replacement_plan then sub.replacement_plan else row.replacement_plan;
  replacement_committed_at =
      if f replacement_committed_at
      then sub.replacement_committed_at
      else row.replacement_committed_at;
  replacement_cancel_confirmed_at =
      if f replacement_cancel_confirmed_at
      then sub.replacement_cancel_confirmed_at
      else row.replacement_cancel_confirmed_at;
  retired_provider_ref =
      if f retired_provider_ref then sub.retired_provider_ref else row.retired_provider_ref;
  retired_kind = if f retired_kind then sub.retired_kind else row.retired_kind;
  updated_at = if f updated_at then now else row.updated_at;
}

unfoldable pub save : ℕ → Session → Session
save now s = record s { row = written s.fields now s.row s.sub }

-- `if changed: update_fields.add("updated_at")`
abbrev pub with_stamp : Bool → Session → Session
with_stamp changed s = record s {
  fields = if changed then add (updated_at ∷ []) s.fields else s.fields;
}

-- `_lock_subscription`: the row locked, then read.
abbrev pub locked :
    Subscription
    → List UsageRecord
    → List PaymentAttempt
    → List BillingEvent
    → List AuditRow
    → Session
locked row usage payments events audit = record {
  sub = row;
  row = row;
  fields = no_fields;
  usage = usage;
  payments = payments;
  events = events;
  audit = audit;
}

-- The row has just been locked and read, and nothing is written yet.
abbrev pub IsLocked : Session → Type 0
IsLocked s = (s.row ≡ s.sub) × (s.fields ≡ no_fields)

-- `_mark_events_processed`: every unprocessed event that names the reference, with one stamp.
unfoldable pub mark_events_processed : String → ℕ → List BillingEvent → List BillingEvent
mark_events_processed ref stamp [] = []
mark_events_processed ref stamp (e ∷ events) =
    (if same_text e.provider_ref ref && is_none e.processed_at
      then record e { processed_at = some stamp }
      else e)
    ∷ mark_events_processed ref stamp events
