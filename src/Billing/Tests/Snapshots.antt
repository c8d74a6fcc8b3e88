-- ===== src/Billing/Tests/Snapshots.antt =====
-- Snapshots of the merchant's subscriptions.
use review_flow.Billing.Transition.{
  active_in_period, apply_active, reactivate, record_payment, advance_period, reset_usage_period,
  has_period, grace_over,
}
use review_flow.Billing.Replacement.{
  complete_switch, switch_to_replacement, replacement_active, by_replacement_status,
  apply_replacement_locked,
}
use review_flow.Billing.Provider.{from_unix, provider_status_of, entries, Value, entity_status}
use review_flow.Billing.Snapshot.{
  by_status, finish, SnapshotResult, result, apply_locked, committed_downgrade_replacement,
}
use review_flow.Billing.Session.{written, save, Session}
use review_flow.Base.{true, false, ◌≡◌, ◌≢◌, refl, none, some, arith, ◌⊎◌, if◌then◌else◌, find}
use review_flow.Billing.Model.{active, ProviderStatus}
use review_flow.Billing.Tests.{
  at, start_unix, end_unix, waiting, paying, replacing, unit_record, session, active_entity,
  invoices, failed_entity, next_entity, next_invoices, world, first_fetch, second_fetch, invoice_of,
}
use review_flow.Billing.Constraints.{MeetsConstraints}
use review_flow.Billing.Paid.{current_period_paid}
use review_flow.Billing.Paid.Window.{
  IsProof, current_period_paid_sound, current_period_paid_complete,
}
use review_flow.Billing.Transition.Proof.{SameTerm}
use review_flow.Billing.Snapshot.Saved.{apply_locked_saves}
use review_flow.Billing.Snapshot.Constraints.{apply_locked-MeetsConstraints}
use review_flow.Billing.Snapshot.Entitlement.{active_only_if_paid}
use review_flow.Billing.Snapshot.Lifecycle.{apply_locked-status, moved, applied_status, is_proven}
use review_flow.Billing.Snapshot.Order.{older_fetch_ignored, relocked}
use review_flow.Billing.Snapshot.Usage.{usage_kept}
use review_flow.Billing.Replacement.Saved.{apply_replacement_locked_saves}
use review_flow.Billing.Replacement.Tracking.{apply_replacement_locked-tracked, tracked}

abbrev the_invoice : Value
the_invoice = invoice_of "sub_A" start_unix end_unix

paid_period : current_period_paid active_entity invoices ≡ some the_invoice
unfolding current_period_paid entries
paid_period = refl

current_period_paid_sound_example : IsProof active_entity invoices the_invoice
current_period_paid_sound_example = current_period_paid_sound active_entity invoices paid_period

the_invoice-IsProof : IsProof active_entity invoices the_invoice
the_invoice-IsProof = current_period_paid_sound active_entity invoices paid_period

current_period_paid_complete_example : current_period_paid active_entity invoices ≢ none
current_period_paid_complete_example =
    current_period_paid_complete active_entity invoices the_invoice the_invoice-IsProof

-- The first snapshot of a paid checkout.
abbrev first_run : SnapshotResult × Session
first_run = apply_locked world first_fetch (session waiting) active_entity invoices first_fetch none

apply_locked_saves_example : first_run.1.row ≡ record (first_run.1.sub) {
  updated_at = if first_run.0.changed then first_fetch else at start_unix;
}
apply_locked_saves_example =
    apply_locked_saves world first_fetch (session waiting) active_entity invoices first_fetch none
      (refl, refl)

waiting-MeetsConstraints : MeetsConstraints waiting
waiting-MeetsConstraints = record {
  period_set = refl;
  period_order = refl;
  past_due_at = refl;
  dunning_episode = refl;
  dunning_stage = refl;
  replacement_ref_differs = refl;
  replacement_expiry_set = refl;
  replacement_plan_set = refl;
  replacement_committed_needs_ref = refl;
  retired_kind_set = refl;
  replacement_confirmed_needs_committed = refl;
}

apply_locked-MeetsConstraints_example : MeetsConstraints first_run.1.row
apply_locked-MeetsConstraints_example =
    apply_locked-MeetsConstraints world first_fetch (session waiting) active_entity invoices
      first_fetch none (refl, refl) waiting-MeetsConstraints

first_run-active : first_run.1.row.status ≡ active
unfolding apply_locked entries finish by_status provider_status_of apply_active from_unix
    active_in_period current_period_paid reset_usage_period save written advance_period
    record_payment reactivate
first_run-active = refl

active_only_if_paid_example :
    SameTerm waiting first_run.1.row
    ⊎ ((entity_status active_entity ≡ some ProviderStatus.active)
        × ((invoice : Value) × IsProof active_entity invoices invoice))
active_only_if_paid_example =
    active_only_if_paid world first_fetch (session waiting) active_entity invoices first_fetch none
      (refl, refl) first_run-active

first_run-settled : first_run.0.settled ≡ true
unfolding apply_locked entries finish by_status provider_status_of apply_active from_unix
    active_in_period current_period_paid
first_run-settled = refl

-- A fetch of the same instant that reports a failed payment comes too late.
older_fetch_ignored_example :
    apply_locked world second_fetch (relocked first_run.1) failed_entity none first_fetch none
    ≡ (result false false, relocked first_run.1)
older_fetch_ignored_example =
    older_fetch_ignored world world first_fetch second_fetch (session waiting) active_entity
      failed_entity invoices none first_fetch first_fetch none none (refl, refl) (omega arith)
      first_run-settled

usage_kept_example :
    find
      (has_period (at start_unix) (at end_unix))
      (apply_locked world first_fetch (session paying) failed_entity none first_fetch none).1.usage
    ≡ some unit_record
usage_kept_example =
    usage_kept world first_fetch (session paying) failed_entity none first_fetch none
      (at start_unix) (at end_unix) unit_record refl

apply_locked-status_example :
    (apply_locked world first_fetch
      (session paying)
      failed_entity
      none
      first_fetch
      none).1.row.status
    ≡ moved
        (applied_status world (session paying) failed_entity first_fetch)
        (is_proven failed_entity none)
        (committed_downgrade_replacement paying)
        (grace_over none first_fetch)
        active
apply_locked-status_example =
    apply_locked-status world first_fetch (session paying) failed_entity none first_fetch none
      (refl, refl)

-- The downgrade's replacement has started and is paid.
abbrev switch_run : SnapshotResult × Session
switch_run =
    apply_replacement_locked world second_fetch (session replacing) next_entity next_invoices
      second_fetch

switch_run-changed : switch_run.0.changed ≡ true
unfolding apply_replacement_locked entries by_replacement_status provider_status_of
    replacement_active current_period_paid switch_to_replacement from_unix complete_switch
    apply_active active_in_period
switch_run-changed = refl

apply_replacement_locked_saves_example : switch_run.1.row ≡ (
    if switch_run.0.changed
    then record (switch_run.1.sub) { updated_at = second_fetch }
    else replacing)
apply_replacement_locked_saves_example =
    apply_replacement_locked_saves world second_fetch (session replacing) next_entity next_invoices
      second_fetch (refl, refl)

apply_replacement_locked-tracked_example :
    tracked "sub_A" switch_run.1.row ≡ tracked "sub_A" replacing
apply_replacement_locked-tracked_example =
    apply_replacement_locked-tracked world second_fetch (session replacing) next_entity
      next_invoices second_fetch "sub_A" (refl, refl)
