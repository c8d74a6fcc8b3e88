-- ===== src/Billing/Cancel.antt =====
-- The OWNER's cancellations (billing/services.py): POST /billing/cancel and
-- POST /billing/replacement/cancel.
pub mod Keeps
pub mod Sound
pub mod PastDue
use review_flow.Base.{
  ℕ, Bool, true, false, ◌&&◌, ◌||◌, not, Option, none, some, List, [], ◌∷◌, String, is_some,
  is_none, if◌then◌else◌,
}
use review_flow.Billing.Model.{
  Plan, Status, active, past_due, cancelled, same_status, ProviderStatus, created, authenticated,
  paused, Subscription, Reason, row_ended, merchant_cancelled, cancellation_requested, effective,
  from_status, to_status, effect_value, status_value, period_end, immediate,
}
use review_flow.Billing.Provider.{
  Value, entity_status, truncated, provider_may_be_cancelled, Reply, answered, unavailable,
  rejected, not_configured,
}
use review_flow.Billing.Session
use review_flow.Billing.Session.{Session, record_audit}
use review_flow.Billing.Retire.{
  refetched, status_allows, not_active, retire_replacement, abandon_unless_active,
}
use review_flow.Billing.Replacement.{save_updated}
use review_flow.Billing.Exec.{
  Error, provider_unavailable, state_unsupported, replacement_activating, replacement_is_committed,
  not_cancellable, internal, Call, fetch, cancel, Env, World, Exec, pure, raise, ◌>>=◌, ◌>>◌,
  refuse_if, savepoint, call, now, expect, put, relocked, lock_current_subscription,
  require_request,
}
use review_flow.Billing.Request.{
  save_columns, is_active_entity, reread_replacement, surroundings, reconcile, cancel_first,
}
use review_flow.Billing.PlanChange.{is_current}

-- `_refetch_replacement`
unfoldable pub refetch_replacement : Env → Option String → Exec (Option Value)
refetch_replacement env none = pure none
refetch_replacement env (some ref) = call env (fetch ref) >>= λ reply. pure (refetched ref reply)

abbrev readable : Option Value → Exec Value
readable none = raise provider_unavailable
readable (some entity) = pure entity

-- `status in ("created", "authenticated")`
abbrev pub is_unpaid : Option ProviderStatus → Bool
is_unpaid (some created) = true
is_unpaid (some authenticated) = true
is_unpaid _ = false

-- `_cancel_and_retire_replacement`, and the row as it stands in memory.
unfoldable pub cancel_and_retire_replacement :
    Env → Option ℕ → Reason → Bool → Session → Exec Session
cancel_and_retire_replacement env actor why refuse_committed s = savepoint (do
  refuse_if (refuse_committed && is_some s.sub.replacement_committed_at) replacement_is_committed
  read ← refetch_replacement env s.sub.replacement_provider_ref
  entity ← readable read
  refuse_if (is_active_entity entity) replacement_activating
  refuse_if
      (not (status_allows not_active (entity_status entity)) || is_some s.sub.retired_provider_ref)
      state_unsupported
  cancel_first env
      (if is_unpaid (entity_status entity) then s.sub.replacement_provider_ref else none)
  at ← now env
  let after = relocked (save_updated at (retire_replacement env.plans at s entity why actor))
  put after
  pure after)

abbrev retire_pending : Env → Option ℕ → Bool → Session → Exec Session
retire_pending env actor refuse_committed s =
    if is_some s.sub.replacement_provider_ref
    then cancel_and_retire_replacement env actor merchant_cancelled refuse_committed s
    else pure s

abbrev retire_found : Env → Option ℕ → Option Session → Exec (Option Session)
retire_found env actor none = pure none
retire_found env actor (some s) = retire_pending env actor true s >>= λ after. pure (some after)

-- `cancel_replacement`
unfoldable pub cancel_replacement : Env → Option ℕ → Exec (Option Session)
cancel_replacement env actor = do
  merchant_id ← require_request env
  stored ← lock_current_subscription
  retire_found env actor stored

-- The row whose cancellation at the period's end is requested.
unfoldable pub request_cancellation : ℕ → Option ℕ → Session → Session
request_cancellation at actor s =
    record_audit cancellation_requested actor ((effective, effect_value period_end) ∷ []) (
      save_columns (Session.cancel_at_period_end ∷ []) at
        (record s.sub { cancel_at_period_end = true }) s)

abbrev cancel_at_cycle_end : Env → Option String → Exec Value
cancel_at_cycle_end env none = raise internal
cancel_at_cycle_end env (some ref) = call env (cancel ref true) >>= expect

-- `_cancel_at_period_end`
unfoldable pub cancel_at_period_end : Env → Option ℕ → Session → Exec Session
cancel_at_period_end env actor s = do
  answer ← cancel_at_cycle_end env s.sub.payment_provider_ref
  at ← now env
  let after = relocked (request_cancellation at actor s)
  put after
  pure after

abbrev pub ended_now : Subscription → Subscription
ended_now sub = record sub { status = cancelled; past_due_at = none; dunning_stage = none }

-- The row that a PAST_DUE cancellation ends.
unfoldable pub end_past_due : ℕ → Option ℕ → Session → Session
end_past_due at actor s =
    record_audit cancellation_requested actor
      ((from_status, status_value past_due)
        ∷ (to_status, status_value cancelled)
        ∷ (effective, effect_value immediate)
        ∷ [])
      (save_columns (Session.status ∷ Session.past_due_at ∷ Session.dunning_stage ∷ []) at
        (ended_now s.sub) s)

abbrev given_up : ℕ → Session → Bool → Session → Session
given_up at s true t = relocked (save_updated at t)
given_up at s false t = s

-- The local part: the row ends, and with it a replacement that the provider does not report active.
unfoldable pub end_locally : Env → Option ℕ → Session → Exec Session
end_locally env actor s = do
  at ← now env
  let ended = relocked (end_past_due at actor s)
  put ended
  reply ← reread_replacement env true ended
  stamp ← now env
  let r = abandon_unless_active (surroundings env reply stamp) ended row_ended not_active none
  let after = given_up stamp ended r.0 r.2
  put after
  pure after

-- `.filter(pk=..., payment_provider_ref=ref).update(provider_status=status[:16])`
abbrev pub with_status : String → Option ProviderStatus → Session → Session
with_status ref none s = s
with_status ref (some status) s =
    if is_current ref s.row.payment_provider_ref
    then record s {
      sub = record s.row { provider_status = some (truncated status) };
      row = record s.row { provider_status = some (truncated status) };
    }
    else s

abbrev store_answer : String → Reply → Session → Exec Session
store_answer ref (answered entity) s =
    put (with_status ref (entity_status entity) s)
    >> pure (with_status ref (entity_status entity) s)
store_answer ref unavailable s = pure s
store_answer ref (rejected status code why) s = pure s
store_answer ref not_configured s = pure s

abbrev tell_provider : Env → Option String → Option ProviderStatus → Session → Exec Session
tell_provider env none status s = pure s
tell_provider env (some ref) status s =
    if provider_may_be_cancelled status
    then call env (cancel ref false) >>= (λ reply. store_answer ref reply s)
    else pure s

-- `_cancel_past_due`
unfoldable pub cancel_past_due : Env → Option ℕ → Session → Exec Session
cancel_past_due env actor s = do
  ended ← savepoint (end_locally env actor s)
  tell_provider env s.sub.payment_provider_ref s.sub.provider_status ended

abbrev is_paused : Option ProviderStatus → Bool
is_paused (some paused) = true
is_paused _ = false

abbrev cancel_reconciled : Env → Option ℕ → Session × Value → Exec Session
cancel_reconciled env actor (s, entity) =
    if same_status s.sub.status active
    then if is_paused (entity_status entity)
      then raise state_unsupported
      else cancel_at_period_end env actor s
    else if same_status s.sub.status past_due
    then cancel_past_due env actor s
    else raise not_cancellable

abbrev cancel_active : Env → Option ℕ → Session → Option String → Exec Session
cancel_active env actor s none = raise state_unsupported
cancel_active env actor s (some ref) = reconcile env none ref s >>= cancel_reconciled env actor

-- What follows the replacement's cancellation.
unfoldable pub cancel_alone : Env → Option ℕ → Session → Exec Session
cancel_alone env actor s =
    if same_status s.sub.status active
    then if s.sub.cancel_at_period_end
      then pure s
      else cancel_active env actor s s.sub.payment_provider_ref
    else cancel_past_due env actor s

abbrev pub is_cancellable : Status → Bool
is_cancellable status = same_status status active || same_status status past_due

unfoldable pub cancel_locked : Env → Option ℕ → Session → Exec Session
cancel_locked env actor s =
    if is_cancellable s.sub.status
    then retire_pending env actor false s >>= cancel_alone env actor
    else raise not_cancellable

abbrev cancel_found : Env → Option ℕ → Option Session → Exec Session
cancel_found env actor none = raise not_cancellable
cancel_found env actor (some s) = cancel_locked env actor s

-- `cancel_subscription`
unfoldable pub cancel_subscription : Env → Option ℕ → Exec Session
cancel_subscription env actor = do
  merchant_id ← require_request env
  stored ← lock_current_subscription
  cancel_found env actor stored
