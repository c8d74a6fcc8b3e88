-- ===== src/Billing/Tests.antt =====
-- A merchant on the growth plan: concrete rows and answers on which the services run.
mod Snapshots
mod Reservations
mod Sweeps
mod Requests
mod Deliveries
use review_flow.Base.{
  ℕ, ◌+◌, ◌*◌, ◌<◌, ◌≤◌, Bool, true, false, ◌≡◌, ◌≢◌, refl, Option, none, some, List, [], ◌∷◌,
  arith, String,
}
use review_flow.Base.Int.{pos}
use review_flow.Billing.Model.{
  Plan, growth, pro, starter, second, days, Status, Subscription, ProviderStatus, UsageRecord,
  BillingEvent,
}
use review_flow.Billing.Provider.{
  Value, text, int, dict, entries, unix_epoch, answered, unavailable,
}
use review_flow.Billing.Session.{Session, locked, IsLocked}
use review_flow.Billing.Retire.{Surroundings}

-- The instant of a Unix time.
abbrev pub at : ℕ → ℕ
at n = (unix_epoch + n) * second

abbrev pub start_unix : ℕ
start_unix = 1760000000

abbrev pub end_unix : ℕ
end_unix = 1762592000

abbrev pub growth_plan : Plan
growth_plan = record {
  id = 2;
  name = growth;
  monthly_price = 99900;
  quota_requests = 2;
  provider_plan_id = some "plan_growth";
  is_active = true;
}

abbrev pub starter_plan : Plan
starter_plan = record {
  id = 1;
  name = starter;
  monthly_price = 49900;
  quota_requests = 1;
  provider_plan_id = some "plan_starter";
  is_active = true;
}

abbrev pub plans : List Plan
plans = starter_plan ∷ growth_plan ∷ []

-- A checkout that waits for its first payment.
abbrev pub waiting : Subscription
waiting = record {
  id = 1;
  merchant_id = 7;
  plan = growth_plan;
  status = Status.incomplete;
  current_period_start = none;
  current_period_end = none;
  payment_provider_ref = some "sub_A";
  pending_plan_id = none;
  past_due_at = none;
  dunning_stage = none;
  cancel_at_period_end = false;
  provider_status = some ProviderStatus.created;
  provider_synced_at = none;
  replacement_provider_ref = none;
  replacement_expires_at = none;
  replacement_plan = none;
  replacement_committed_at = none;
  replacement_cancel_confirmed_at = none;
  retired_provider_ref = none;
  retired_kind = none;
  updated_at = at start_unix;
}

abbrev pub paying : Subscription
paying = record waiting {
  status = Status.active;
  current_period_start = some (at start_unix);
  current_period_end = some (at end_unix);
  provider_status = some ProviderStatus.active;
}

-- A downgrade to starter is under way.
abbrev pub replacing : Subscription
replacing = record paying {
  replacement_provider_ref = some "sub_B";
  replacement_expires_at = some (at end_unix);
  replacement_plan = some starter_plan;
}

abbrev pub overdue : Subscription
overdue = record paying {
  status = Status.past_due;
  past_due_at = some (at end_unix);
  dunning_stage = some 0;
}

abbrev pub ended_row : Subscription
ended_row = record paying {
  status = Status.cancelled;
  provider_status = some ProviderStatus.halted;
}

abbrev pub unit_record : UsageRecord
unit_record = record { period_start = at start_unix; period_end = at end_unix; requests_used = 1 }

abbrev pub usage : List UsageRecord
usage = unit_record ∷ []

abbrev pub session : Subscription → Session
session row = locked row usage [] [] []

abbrev pub entity : String → String → String → ℕ → ℕ → Value
entity id plan_id status from until = dict (
    entries (
      ("id", text id)
      ∷ ("plan_id", text plan_id)
      ∷ ("status", text status)
      ∷ ("current_start", int (pos from))
      ∷ ("current_end", int (pos until))
      ∷ []))

abbrev pub invoice_of : String → ℕ → ℕ → Value
invoice_of ref from until = dict (
    entries (
      ("subscription_id", text ref)
      ∷ ("status", text "paid")
      ∷ ("amount_due", int (pos 0))
      ∷ ("payment_id", text "pay_1")
      ∷ ("billing_start", int (pos from))
      ∷ ("billing_end", int (pos until))
      ∷ []))

abbrev pub active_entity : Value
active_entity = entity "sub_A" "plan_growth" "active" start_unix end_unix

abbrev pub invoices : Option (List Value)
invoices = some (invoice_of "sub_A" start_unix end_unix ∷ [])

abbrev pub failed_entity : Value
failed_entity = entity "sub_A" "plan_growth" "halted" start_unix end_unix

abbrev pub next_entity : Value
next_entity = entity "sub_B" "plan_starter" "active" end_unix 1765184000

abbrev pub next_invoices : Option (List Value)
next_invoices = some (invoice_of "sub_B" end_unix 1765184000 ∷ [])

abbrev pub world : Surroundings
world = record { plans = plans; reread = unavailable; stamp = at end_unix }

abbrev pub first_fetch : ℕ
first_fetch = at start_unix

abbrev pub second_fetch : ℕ
second_fetch = at end_unix
