-- ===== src/Billing/Quota.antt =====
-- Entitlement and quota (billing/services.py, W3): what a merchant may send, and the reservation of
-- one unit of the current period.
pub mod Reservation
pub mod Bound
use review_flow.Base.{
  ◌||◌, ℕ, ◌+◌, ◌-◌, Bool, true, false, ◌&&◌, not, ◌==◌, Option, none, some, List, [], ◌∷◌, ltb,
  leb, find, same_option, is_some, if◌then◌else◌,
}
use review_flow.Billing.Context.{
  Checked, ok, tenant_context_error, runtime_error, ◌>>=◌, merchant_id, require_transaction,
}
use review_flow.Billing.Model.{Plan, Status, active, same_status, Subscription, UsageRecord}
use review_flow.Billing.Transition.{has_period}

-- `Entitlement`
pub record Entitlement : Type 0 where
  pub status : Option Status
  pub plan : Option Plan
  pub period_start : Option ℕ
  pub period_end : Option ℕ
  pub quota_requests : Option ℕ
  pub requests_used : Option ℕ
  pub requests_remaining : Option ℕ
  pub can_send : Bool

-- `ReservationResult`
pub data ReservationResult : Type 0 where
  reserved quota_exhausted not_entitled : ReservationResult

-- `.filter(period_start=..., period_end=...).first()`: no record has a NULL bound.
abbrev pub usage_of : Option ℕ → Option ℕ → List UsageRecord → Option UsageRecord
usage_of none end usage = none
usage_of (some start) none usage = none
usage_of (some start) (some end) usage = find (has_period start end) usage

-- `_usage_for`
unfoldable pub usage_for : Subscription → List UsageRecord → Option UsageRecord
usage_for sub usage = usage_of sub.current_period_start sub.current_period_end usage

-- `current_period_end is not None and now() < current_period_end`
abbrev before_end : ℕ → Option ℕ → Bool
before_end now none = false
before_end now (some end) = ltb now end

-- `_entitled_now`
unfoldable pub entitled_now : ℕ → Option Subscription → Bool
entitled_now now none = false
entitled_now now (some sub) = same_status sub.status active && before_end now sub.current_period_end

abbrev used_below : Option UsageRecord → ℕ → Bool
used_below none quota = false
used_below (some u) quota = ltb u.requests_used quota

abbrev used : Option UsageRecord → Option ℕ
used none = none
used (some u) = some u.requests_used

-- `max(quota - used, 0)`: the subtraction on ℕ stops at 0.
abbrev remaining : ℕ → Option UsageRecord → Option ℕ
remaining quota none = none
remaining quota (some u) = some (quota - u.requests_used)

no_entitlement : Entitlement
no_entitlement = record {
  status = none;
  plan = none;
  period_start = none;
  period_end = none;
  quota_requests = none;
  requests_used = none;
  requests_remaining = none;
  can_send = false;
}

entitlement_of : ℕ → Subscription → Option UsageRecord → Entitlement
entitlement_of now sub usage = record {
  status = some sub.status;
  plan = some sub.plan;
  period_start = sub.current_period_start;
  period_end = sub.current_period_end;
  quota_requests = some sub.plan.quota_requests;
  requests_used = used usage;
  requests_remaining = remaining sub.plan.quota_requests usage;
  can_send =
      same_status sub.status active
      && before_end now sub.current_period_end
      && used_below usage sub.plan.quota_requests;
}

-- `get_entitlement`, in a tenant context.
unfoldable pub entitlement : ℕ → Option Subscription → List UsageRecord → Entitlement
unfolding no_entitlement entitlement_of
entitlement now none usage = no_entitlement
entitlement now (some sub) usage = entitlement_of now sub (usage_for sub usage)

unfoldable pub get_entitlement :
    Option ℕ → ℕ → Option Subscription → List UsageRecord → Checked Entitlement
get_entitlement context now row usage = merchant_id context >>= λ _. ok (entitlement now row usage)

-- `.filter(pk=usage.pk).update(requests_used=F("requests_used") + 1)`: the period's only record.
unfoldable pub add_unit : ℕ → ℕ → List UsageRecord → List UsageRecord
add_unit start end [] = []
add_unit start end (u ∷ usage) =
    if has_period start end u
    then record u { requests_used = u.requests_used + 1 } ∷ usage
    else u ∷ add_unit start end usage

-- The re-check on the row as the lock's waiter reads it, and the increment. No service deletes a row, so
-- `.get` finds it; what has no row is not entitled here.
unfoldable pub reserve_locked :
    ℕ → Option Subscription → UsageRecord → List UsageRecord → ReservationResult × List UsageRecord
reserve_locked now none u usage = (not_entitled, usage)
reserve_locked now (some sub) u usage =
    if not (entitled_now now (some sub))
      || not (
          same_option sub.current_period_start (some u.period_start)
          && same_option sub.current_period_end (some u.period_end))
    then (not_entitled, usage)
    else if leb sub.plan.quota_requests u.requests_used
    then (quota_exhausted, usage)
    else (reserved, add_unit u.period_start u.period_end usage)

-- The body of `reserve_quota_unit`: the row is read once before the UsageRecord's lock, and once
-- under it, when other transactions may have committed: `row` and `usage` are as they are then.
unfoldable pub reserve :
    ℕ
    → ℕ
    → Option Subscription
    → Option Subscription
    → List UsageRecord
    → ReservationResult × List UsageRecord
reserve now now' none row usage = (not_entitled, usage)
reserve now now' (some first) row usage =
    if not (entitled_now now (some first))
    then (not_entitled, usage)
    else elim (usage_for first usage) [
      | none ↦ (not_entitled, usage)
      | some u ↦ reserve_locked now' row u usage
    ]

-- `reserve_quota_unit`
unfoldable pub reserve_quota_unit :
    Option ℕ
    → Bool
    → ℕ
    → ℕ
    → Option Subscription
    → Option Subscription
    → List UsageRecord
    → Checked (ReservationResult × List UsageRecord)
reserve_quota_unit context in_transaction now now' first row usage = merchant_id context >>= λ _.
    require_transaction in_transaction >>= λ _. ok (reserve now now' first row usage)
