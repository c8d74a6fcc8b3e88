-- ===== src/Billing/Snapshot.antt =====
-- `_apply_snapshot` (billing/services.py): the single place where a status, plan or period changes.
pub mod Cases
pub mod Saved
pub mod Constraints
pub mod Entitlement
pub mod Lifecycle
pub mod Order
pub mod Usage
use review_flow.Billing.Session.{
  with_stamp, Session, Column, add, save, provider_status, provider_synced_at, updated_at,
}
use review_flow.Base.{
  ℕ, Bool, true, false, ◌||◌, ◌&&◌, not, ◌==◌, Option, none, some, List, [], ◌∷◌, String, leb,
  is_some, if◌then◌else◌,
}
use review_flow.Base.Text.{same_text, is_empty}
use review_flow.Billing.Model.{
  Plan, Status, active, same_status, ProviderStatus, created, authenticated, pending, halted,
  cancelled, completed, expired, paused, unrecognized, Subscription, past_due_row, row_ended,
}
use review_flow.Billing.Provider.{Value, get, as_text, entity_status, truncated, plan_named}
use review_flow.Billing.Retire.{Surroundings, abandon_unless_active, not_active}
use review_flow.Billing.Transition.{
  Outcome, outcome, apply_active, apply_payment_failed, apply_terminal, reset_usage_period,
}
use review_flow.Billing.Model
use review_flow.Billing.Context.{Checked, ok, tenant_context_error}

-- `SnapshotResult`
pub record SnapshotResult : Type 0 where
  pub changed : Bool
  pub settled : Bool

abbrev pub result : Bool → Bool → SnapshotResult
result changed settled = record { changed = changed; settled = settled }

-- `not (not ref or sub.payment_provider_ref != ref)`
abbrev pub names_row : Option String → Option String → Bool
names_row none stored = false
names_row (some ref) none = false
names_row (some ref) (some stored) = not (is_empty ref) && same_text stored ref

-- `sub.provider_synced_at is not None and fetch_started_at <= sub.provider_synced_at`
abbrev pub is_stale : ℕ → Option ℕ → Bool
is_stale fetch_started_at none = false
is_stale fetch_started_at (some synced_at) = leb fetch_started_at synced_at

-- `_committed_downgrade_replacement`
abbrev pub committed_downgrade_replacement : Subscription → Bool
committed_downgrade_replacement sub =
    same_status sub.status active
    && is_some sub.replacement_provider_ref
    && is_some sub.replacement_committed_at

-- A transition out of ACTIVE or PAST_DUE takes an uncommitted replacement with it.
abbrev with_abandonment : Surroundings → Model.Reason → Bool × Session → Outcome × Session
with_abandonment w why (false, s) = (outcome false true false, s)
with_abandonment w why (true, s) =
    (outcome true true false, (abandon_unless_active w s why not_active none).2)

-- A terminal status: rule 5 defers it while a committed downgrade replacement stands.
unfoldable pub ending : Surroundings → ℕ → Session → Outcome × Session
ending w now s =
    if committed_downgrade_replacement s.sub
    then (outcome false true false, s)
    else with_abandonment w row_ended (apply_terminal s now)

-- The cases on the provider's status.
unfoldable pub by_status :
    Surroundings
    → ℕ
    → Session
    → Value
    → Option (List Value)
    → Plan
    → Option ℕ
    → ProviderStatus
    → Outcome × Session
by_status w now s entity invoices plan actor ProviderStatus.active =
    apply_active s entity invoices plan actor none
by_status w now s entity invoices plan actor pending =
    with_abandonment w past_due_row (apply_payment_failed s now)
by_status w now s entity invoices plan actor halted =
    with_abandonment w past_due_row (apply_payment_failed s now)
by_status w now s entity invoices plan actor cancelled = ending w now s
by_status w now s entity invoices plan actor completed = ending w now s
by_status w now s entity invoices plan actor expired = ending w now s
by_status w now s entity invoices plan actor created = (outcome false true false, s)
by_status w now s entity invoices plan actor authenticated = (outcome false true false, s)
by_status w now s entity invoices plan actor paused = (outcome false true false, s)
by_status w now s entity invoices plan actor (unrecognized text) = (outcome false true false, s)

-- The fields that every applied snapshot writes.
abbrev with_provider_fields : Session → Session
with_provider_fields s = record s {
  fields = add (provider_status ∷ provider_synced_at ∷ []) s.fields;
}

abbrev pub stamped : ProviderStatus → ℕ → Session → Session
stamped status fetch_started_at s = record s {
  sub = record (s.sub) {
    provider_status = some (truncated status);
    provider_synced_at = some fetch_started_at;
  };
}

-- The end of `_apply_snapshot`: the provider's status and the fetch time are stored, the row is
-- saved, and a proven period has its UsageRecord opened. `now` is the reading of the clock for both
-- times that are stored.
unfoldable pub finish : ℕ → ProviderStatus → ℕ → Outcome × Session → SnapshotResult × Session
finish now status fetch_started_at (o, s) =
    let saved = save now (with_stamp o.changed (stamped status fetch_started_at s)) in
    (result o.changed o.settled, if o.advanced then reset_usage_period saved else saved)

-- The body under the row lock.
unfoldable pub apply_locked :
    Surroundings
    → ℕ
    → Session
    → Value
    → Option (List Value)
    → ℕ
    → Option ℕ
    → SnapshotResult × Session
apply_locked w now s entity invoices fetch_started_at actor =
    if not (names_row (as_text (get entity "id")) s.sub.payment_provider_ref)
    then (result false false, s)
    else if is_stale fetch_started_at s.sub.provider_synced_at
    then (result false false, s)
    else elim (plan_named w.plans (get entity "plan_id")) [
      | none ↦ (result false false, s)
      | some plan ↦ elim (entity_status entity) [
        | none ↦ (result false false, s)
        | some status ↦
            finish now status fetch_started_at
              (by_status w now (with_provider_fields s) entity invoices plan actor status)
      ]
    ]

-- `_apply_snapshot`; `merchant` is the active tenant context.
unfoldable pub apply_snapshot :
    Option ℕ
    → Surroundings
    → ℕ
    → Session
    → Value
    → Option (List Value)
    → ℕ
    → Option ℕ
    → Checked (SnapshotResult × Session)
apply_snapshot none w now s entity invoices fetch_started_at actor = tenant_context_error
apply_snapshot (some merchant) w now s entity invoices fetch_started_at actor =
    if s.sub.merchant_id == merchant
    then ok (apply_locked w now s entity invoices fetch_started_at actor)
    else tenant_context_error
