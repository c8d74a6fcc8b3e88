-- ===== src/Billing/Replacement/Cases.antt =====
-- The ways through `_apply_replacement_snapshot`.
use review_flow.Base.{
  refl, ℕ, Bool, true, false, ◌≡◌, ◌||◌, not, Option, none, some, List, arith, inl, inr, Bool-cases,
  if_keeps, option_keeps, is_some,
}
use review_flow.Billing.Model.{Plan, Status, ProviderStatus, Reason, Effect}
use review_flow.Billing.Session.{Session}
use review_flow.Billing.Provider.{Value, get, as_text, entity_status, from_unix, plan_named}
use review_flow.Billing.Paid.{current_period_paid}
use review_flow.Billing.Retire.{
  Surroundings, retire_replacement, abandon_unless_active, refetched, has_failed, status_allows,
}
use review_flow.Billing.Retire.Cases.{abandon_cases}
use review_flow.Billing.Transition.{apply_active}
use review_flow.Billing.Snapshot.{SnapshotResult, result, names_row}
use review_flow.Billing.Replacement.{
  save_updated, clear_failed_committed, tell_paid_after_end, with_provider_columns, complete_switch,
  switch_to_replacement, no_new_period, by_row_status, replacement_active, abandon_test,
  abandon_reason, saved_if, is_active_status, by_replacement_status, apply_replacement_locked,
}

module _ {ℓ} (P : SnapshotResult × Session → Type ℓ) (w : Surroundings) (now : ℕ) (s : Session)
    (kept : (checked : Bool) → P (result false checked, s))
    (retired : (entity : Value) (why : Reason)
      → is_some s.sub.replacement_provider_ref ≡ true
      → s.sub.retired_provider_ref ≡ none
      → P (
        result true true,
        save_updated now (retire_replacement w.plans w.stamp s entity why none),
      )) where
  clear_failed_committed_cases : P (clear_failed_committed w now s)
  unfolding clear_failed_committed
  clear_failed_committed_cases =
      option_keeps P s.sub.replacement_provider_ref (kept false) (λ ref e.
        option_keeps P (refetched ref w.reread) (kept false) (λ entity q.
          elim (Bool-cases (
            not (status_allows has_failed (entity_status entity))
            || is_some s.sub.retired_provider_ref)) [
              | inl refused ↦ rw refused (kept false)
              | inr allowed ↦ rw allowed (retired entity _ (rw e refl) (ground arith))
            ]))

  saved_if_cases :
      (why : Reason) (abandonable : ProviderStatus → Bool)
      → P (saved_if now (abandon_unless_active w s why abandonable none))
  saved_if_cases why abandonable =
      abandon_cases (λ b t. (x : Option Value) → P (saved_if now (b, x, t))) w s why abandonable
        none (λ x. kept false)
        (λ entity may x. retired entity why (rw may.pending refl) may.slot_free) _

  module _ (entity : Value) (invoices : Option (List Value)) (fetched : ℕ)
      (told : (plan : Plan) → P (result false true, tell_paid_after_end plan s))
      (switching : (plan : Plan) (effect : Effect)
        → s.sub.retired_provider_ref ≡ none
        → P (
            complete_switch w now s.sub.payment_provider_ref entity fetched (
              apply_active
                (with_provider_columns s)
                entity
                invoices
                plan
                none
                (some effect)))) where
    switch_cases : (plan : Plan) → P (switch_to_replacement w now s entity invoices plan fetched)
    unfolding switch_to_replacement
    switch_cases plan =
        elim (Bool-cases (
          no_new_period (from_unix (get entity "current_start")) s.sub.current_period_start
          || is_some s.sub.retired_provider_ref)) [
            | inl refused ↦ rw refused (kept false)
            | inr allowed ↦ rw allowed (switching plan _ (ground arith))
          ]

    by_row_status_cases :
        (plan : Plan) (status : Status)
        → P (by_row_status w now s entity invoices plan fetched status)
    unfolding by_row_status
    by_row_status_cases plan Status.cancelled = told plan
    by_row_status_cases plan Status.expired = told plan
    by_row_status_cases plan Status.incomplete = kept false
    by_row_status_cases plan Status.active = switch_cases plan
    by_row_status_cases plan Status.past_due = switch_cases plan

    replacement_active_cases : P (replacement_active w now s entity invoices fetched)
    unfolding replacement_active
    replacement_active_cases =
        option_keeps P (current_period_paid entity invoices) (kept false) (λ invoice _.
          option_keeps P (plan_named w.plans (get entity "plan_id")) (kept false)
            (λ plan _. by_row_status_cases plan s.sub.status))

    by_replacement_status_cases :
        (status : ProviderStatus) → P (by_replacement_status w now s entity invoices fetched status)
    unfolding by_replacement_status
    by_replacement_status_cases status =
        if_keeps P (is_active_status status) replacement_active_cases (
          if_keeps P (is_some s.sub.replacement_committed_at)
            (if_keeps P (has_failed status) clear_failed_committed_cases (kept true))
            (if_keeps P (abandon_test now s.sub status)
              (saved_if_cases (abandon_reason s.sub status) (abandon_test now s.sub)) (kept true)))

    pub replacement_cases : P (apply_replacement_locked w now s entity invoices fetched)
    unfolding apply_replacement_locked
    replacement_cases =
        if_keeps P (not (names_row (as_text (get entity "id")) s.sub.replacement_provider_ref))
          (kept false)
          (option_keeps P (entity_status entity) (kept false)
            (λ status _. by_replacement_status_cases status))
