-- ===== src/Billing/Replacement.antt =====
-- The plan-change replacement (billing/services.py, "plan-change replacement lifecycle"): its
-- snapshot, the switch to it, and the clearing of a committed one that failed.
pub mod Cases
pub mod Saved
pub mod Tracking
use review_flow.Base.{
  ℕ, Bool, true, false, ◌&&◌, ◌||◌, not, ◌==◌, Option, none, some, List, [], ◌∷◌, String, ltb, any,
  is_some, is_none, same_option, if◌then◌else◌,
}
use review_flow.Base.Text.{same_text}
use review_flow.Billing.Context.{Checked, ok, tenant_context_error}
use review_flow.Billing.Model.{
  Plan, Status, incomplete, active, past_due, cancelled, expired, same_status, ProviderStatus,
  Subscription, switched_old, Action, AuditRow, replacement_paid_after_end, Effect,
  replacement_immediate, replacement_scheduled, Reason, past_due_row, row_ended, provider_failed,
  deadline_passed, committed_replacement_failed, row_status, plan_name, status_value, name_value,
}
use review_flow.Billing.Provider.{
  Value, get, as_text, entity_status, from_unix, truncated, plan_named,
}
use review_flow.Billing.Paid.{current_period_paid}
use review_flow.Billing.Session.{Session, add, save, record_audit, mark_events_processed, no_fields}
use review_flow.Billing.Session
use review_flow.Billing.Retire.{
  Surroundings, abandon_unless_active, retire_replacement, refetched, has_failed, not_active,
  failed_or_lapsed, status_allows,
}
use review_flow.Billing.Transition.{Outcome, apply_active, reset_usage_period}
use review_flow.Billing.Snapshot.{SnapshotResult, result, names_row}

-- `fields | {"updated_at"}`, and the save.
abbrev pub save_updated : ℕ → Session → Session
save_updated now s = save now (record s { fields = add (Session.updated_at ∷ []) s.fields })

-- `_clear_failed_committed`
unfoldable pub clear_failed_committed : Surroundings → ℕ → Session → SnapshotResult × Session
clear_failed_committed w now s = elim s.sub.replacement_provider_ref [
  | none ↦ (result false false, s)
  | some ref ↦ elim (refetched ref w.reread) [
    | none ↦ (result false false, s)
    | some entity ↦
        if not (status_allows has_failed (entity_status entity))
          || is_some s.sub.retired_provider_ref
        then (result false false, s)
        else (
          result true true,
          save_updated now
              (retire_replacement w.plans w.stamp s entity committed_replacement_failed none),
        )
  ]
]

abbrev is_paid_after_end : AuditRow → Bool
is_paid_after_end a = elim a.action [ replacement_paid_after_end ↦ true | _ ↦ false ]

-- A paid replacement of a row that has ended: staff are told once.
abbrev pub tell_paid_after_end : Plan → Session → Session
tell_paid_after_end p s =
    if any is_paid_after_end s.audit
    then s
    else record_audit replacement_paid_after_end none
        ((row_status, status_value s.sub.status) ∷ (plan_name, name_value p.name) ∷ []) s

-- The columns that the switch moves.
abbrev pub switched : Subscription → Value → ℕ → Option String → Subscription
switched sub entity fetched departing = record sub {
  retired_provider_ref = departing;
  retired_kind = some switched_old;
  payment_provider_ref = sub.replacement_provider_ref;
  replacement_provider_ref = none;
  replacement_plan = none;
  replacement_expires_at = none;
  replacement_committed_at = none;
  replacement_cancel_confirmed_at = none;
  pending_plan_id = none;
  cancel_at_period_end = false;
  provider_status = elim (entity_status entity) [
    | none ↦ sub.provider_status
    | some status ↦ some (truncated status)
  ];
  provider_synced_at = some fetched;
}

abbrev pub switched_session : Session → Value → ℕ → Option String → Session
switched_session s entity fetched departing = record s {
  sub = switched s.sub entity fetched departing;
  fields =
      add
        (Session.payment_provider_ref ∷ Session.replacement_provider_ref ∷ Session.replacement_plan
          ∷ Session.replacement_expires_at ∷ Session.replacement_committed_at
          ∷ Session.replacement_cancel_confirmed_at ∷ Session.retired_provider_ref
          ∷ Session.retired_kind ∷ Session.pending_plan ∷ Session.cancel_at_period_end ∷ [])
        s.fields;
}

-- `if departing: _mark_events_processed(departing)`; a stored reference is never empty.
abbrev pub mark_departing : Option String → ℕ → Session → Session
mark_departing none stamp s = s
mark_departing (some ref) stamp s = record s { events = mark_events_processed ref stamp s.events }

abbrev pub with_provider_columns : Session → Session
with_provider_columns s = record s {
  fields = add (Session.provider_status ∷ Session.provider_synced_at ∷ []) no_fields;
}

abbrev pub effect_of_switch : Plan → Plan → Effect
effect_of_switch p old =
    if ltb p.monthly_price old.monthly_price then replacement_scheduled else replacement_immediate

-- `start is None or start == sub.current_period_start`
abbrev no_new_period : Option ℕ → Option ℕ → Bool
no_new_period none current = true
no_new_period (some start) current = same_option (some start) current

-- The end of the switch, after `_apply_active`.
unfoldable pub complete_switch :
    Surroundings → ℕ → Option String → Value → ℕ → Outcome × Session → SnapshotResult × Session
complete_switch w now departing entity fetched (o, s) =
    if not o.advanced then (result false false, s) else (
      result true true,
      mark_departing departing w.stamp
          (reset_usage_period (save_updated now (switched_session s entity fetched departing))),
    )

-- `switch_to_replacement`
unfoldable pub switch_to_replacement :
    Surroundings → ℕ → Session → Value → Option (List Value) → Plan → ℕ → SnapshotResult × Session
switch_to_replacement w now s entity invoices p fetched =
    if no_new_period (from_unix (get entity "current_start")) s.sub.current_period_start
      || is_some s.sub.retired_provider_ref
    then (result false false, s)
    else complete_switch w now s.sub.payment_provider_ref entity fetched (
        apply_active (with_provider_columns s) entity invoices p none
          (some (effect_of_switch p s.sub.plan)))

-- The cases of `_replacement_active` on the row's status, with a paid proof and a known plan.
pub by_row_status :
    Surroundings
    → ℕ
    → Session
    → Value
    → Option (List Value)
    → Plan
    → ℕ
    → Status
    → SnapshotResult × Session
by_row_status w now s entity invoices p fetched cancelled =
    (result false true, tell_paid_after_end p s)
by_row_status w now s entity invoices p fetched expired =
    (result false true, tell_paid_after_end p s)
by_row_status w now s entity invoices p fetched incomplete = (result false false, s)
by_row_status w now s entity invoices p fetched active =
    switch_to_replacement w now s entity invoices p fetched
by_row_status w now s entity invoices p fetched past_due =
    switch_to_replacement w now s entity invoices p fetched

-- `_replacement_active`
unfoldable pub replacement_active :
    Surroundings → ℕ → Session → Value → Option (List Value) → ℕ → SnapshotResult × Session
unfolding by_row_status
replacement_active w now s entity invoices fetched = elim (current_period_paid entity invoices) [
  | none ↦ (result false false, s)
  | some invoice ↦ elim (plan_named w.plans (get entity "plan_id")) [
    | none ↦ (result false false, s)
    | some p ↦ by_row_status w now s entity invoices p fetched s.sub.status
  ]
]

-- The test and the reason of an abandonment, by the row's status.
abbrev pub abandon_test : ℕ → Subscription → ProviderStatus → Bool
abandon_test now sub =
    if same_status sub.status active
    then failed_or_lapsed now sub.replacement_expires_at
    else not_active

abbrev pub abandon_reason : Subscription → ProviderStatus → Reason
abandon_reason sub status =
    if same_status sub.status active
    then (if has_failed status then provider_failed else deadline_passed)
    else if same_status sub.status past_due
    then past_due_row
    else row_ended

abbrev saved_if : ℕ → Bool × Option Value × Session → SnapshotResult × Session
saved_if now (false, entity, s) = (result false false, s)
saved_if now (true, entity, s) = (result true true, save_updated now s)

abbrev pub is_active_status : ProviderStatus → Bool
is_active_status ProviderStatus.active = true
is_active_status _ = false

-- The body of `_apply_replacement_snapshot` under the row lock, once the entity has a status text.
unfoldable pub by_replacement_status :
    Surroundings
    → ℕ
    → Session
    → Value
    → Option (List Value)
    → ℕ
    → ProviderStatus
    → SnapshotResult × Session
by_replacement_status w now s entity invoices fetched status =
    if is_active_status status
    then replacement_active w now s entity invoices fetched
    else if is_some s.sub.replacement_committed_at
    then (if has_failed status then clear_failed_committed w now s else (result false true, s))
    else if abandon_test now s.sub status
    then saved_if now
        (abandon_unless_active w s (abandon_reason s.sub status) (abandon_test now s.sub) none)
    else (result false true, s)

unfoldable pub apply_replacement_locked :
    Surroundings → ℕ → Session → Value → Option (List Value) → ℕ → SnapshotResult × Session
apply_replacement_locked w now s entity invoices fetched =
    if not (names_row (as_text (get entity "id")) s.sub.replacement_provider_ref)
    then (result false false, s)
    else elim (entity_status entity) [
      | none ↦ (result false false, s)
      | some status ↦ by_replacement_status w now s entity invoices fetched status
    ]

-- `_apply_replacement_snapshot`
unfoldable pub apply_replacement_snapshot :
    Option ℕ
    → Surroundings
    → ℕ
    → Session
    → Value
    → Option (List Value)
    → ℕ
    → Checked (SnapshotResult × Session)
apply_replacement_snapshot none w now s entity invoices fetched = tenant_context_error
apply_replacement_snapshot (some merchant) w now s entity invoices fetched =
    if s.sub.merchant_id == merchant
    then ok (apply_replacement_locked w now s entity invoices fetched)
    else tenant_context_error
