-- ===== src/Billing/Checkout.antt =====
-- `start_checkout` (billing/services.py): the state table of POST /billing/checkout.
pub mod Keeps
pub mod Aborts
pub mod Creates
use review_flow.Base.{
  ℕ, Bool, true, false, ◌&&◌, ◌||◌, not, Option, none, some, List, [], ◌∷◌, String, ◌==◌,
  same_option, is_some, is_none, find, if◌then◌else◌,
}
use review_flow.Base.Text.{same_text}
use review_flow.Billing.Model.{
  Plan, Status, incomplete, active, past_due, cancelled, expired, same_status, ProviderStatus,
  created, Subscription,
}
use review_flow.Billing.Provider.{
  Value, get, has_provider_plan_id, entity_status, is_terminal, provider_may_be_cancelled,
}
use review_flow.Billing.Session.{Session, locked}
use review_flow.Billing.Exec.{
  Error, state_unsupported, subscription_past_due, subscription_activating, plan_not_available,
  replacement_in_progress, internal, Env, World, Exec, pure, raise, ◌>>=◌, ◌>>◌, refuse_if,
  savepoint, now, put, relocked, lock_current_subscription, require_request, require_configured,
}
use review_flow.Billing.Request.{
  CheckoutResult, unchanged, reconcile, check_provider_state, create_and_store,
  replace_provider_subscription,
}
use review_flow.Billing.PlanChange.{checkout_active}

abbrev is_offered : ℕ → Plan → Bool
is_offered plan_id p = p.id == plan_id && p.is_active

-- `plan is None or not plan.provider_plan_id`
abbrev is_sellable : Plan → Bool
is_sellable p = elim p.provider_plan_id [ none ↦ false | some id ↦ not (same_text id "") ]

abbrev sold : Option Plan → Exec Plan
sold none = raise plan_not_available
sold (some p) = if is_sellable p then pure p else raise plan_not_available

-- `_offered_plan`; `none` is a plan id that is none.
unfoldable pub offered_plan : Env → Option ℕ → Exec Plan
offered_plan env none = raise plan_not_available
offered_plan env (some plan_id) = sold (find (is_offered plan_id) env.plans)

-- A new row, as `Subscription.objects.create` fills it.
abbrev pub new_row : ℕ → ℕ → Plan → ℕ → Subscription
new_row id merchant_id p at = record {
  id = id;
  merchant_id = merchant_id;
  plan = p;
  status = incomplete;
  current_period_start = none;
  current_period_end = none;
  payment_provider_ref = none;
  pending_plan_id = none;
  past_due_at = none;
  dunning_stage = none;
  cancel_at_period_end = false;
  provider_status = none;
  provider_synced_at = none;
  replacement_provider_ref = none;
  replacement_expires_at = none;
  replacement_plan = none;
  replacement_committed_at = none;
  replacement_cancel_confirmed_at = none;
  retired_provider_ref = none;
  retired_kind = none;
  updated_at = at;
}

abbrev insert_and_create : Env → Option ℕ → ℕ → Plan → Exec (Option CheckoutResult)
insert_and_create env actor merchant_id p = do
  at ← now env
  let s = locked (new_row env.new_row merchant_id p at) [] [] [] []
  put s
  result ← create_and_store env actor p s
  pure (some result)

abbrev unless_raced : Env → Option ℕ → ℕ → Plan → Option Session → Exec (Option CheckoutResult)
unless_raced env actor merchant_id p none = savepoint (insert_and_create env actor merchant_id p)
unless_raced env actor merchant_id p (some s) = put s >> pure none

-- `_first_checkout`: `none` if another first checkout has inserted the row, which is then committed.
unfoldable pub first_checkout : Env → Option ℕ → ℕ → Plan → Exec (Option CheckoutResult)
first_checkout env actor merchant_id p = unless_raced env actor merchant_id p env.rival

abbrev is_target : Option Plan → Plan → Bool
is_target none p = false
is_target (some q) p = q.id == p.id

-- `_replacement_pending`
unfoldable pub replacement_pending : Session → Plan → Exec CheckoutResult
replacement_pending s p =
    if is_target s.sub.replacement_plan p
    then pure (record { created = false; checkout = s.sub.replacement_provider_ref })
    else raise replacement_in_progress

abbrev is_terminal_status : Option ProviderStatus → Bool
is_terminal_status none = false
is_terminal_status (some status) = is_terminal status

abbrev is_created : Option ProviderStatus → Bool
is_created (some created) = true
is_created _ = false

-- `_checkout_incomplete`
unfoldable pub checkout_incomplete :
    Env → Option ℕ → Plan → Session → Option Value → Exec CheckoutResult
checkout_incomplete env actor p s none = replace_provider_subscription env actor p none s
checkout_incomplete env actor p s (some entity) =
    if is_terminal_status (entity_status entity)
    then replace_provider_subscription env actor p none s
    else if has_provider_plan_id (get entity "plan_id") p
    then pure (record { created = false; checkout = s.sub.payment_provider_ref })
    else if is_created (entity_status entity)
    then replace_provider_subscription env actor p s.sub.payment_provider_ref s
    else raise subscription_activating

-- `_checkout_ended`
unfoldable pub checkout_ended : Env → Option ℕ → Plan → Session → Option Value → Exec CheckoutResult
checkout_ended env actor p s none = replace_provider_subscription env actor p none s
checkout_ended env actor p s (some entity) =
    if is_terminal_status (entity_status entity)
    then replace_provider_subscription env actor p none s
    else if provider_may_be_cancelled (entity_status entity)
    then replace_provider_subscription env actor p s.sub.payment_provider_ref s
    else raise state_unsupported

-- The state table, after the reconcile; `before` is the status that the request found.
unfoldable pub checkout_reconciled :
    Env → Option ℕ → Plan → Bool → Status → Session → Option Value → Exec CheckoutResult
checkout_reconciled env actor p acknowledged before s entity =
    if same_status s.sub.status active
    then if not (same_status before active) && s.sub.plan.id == p.id
      then pure unchanged
      else checkout_active env actor p acknowledged s
    else if same_status s.sub.status incomplete
    then checkout_incomplete env actor p s entity
    else checkout_ended env actor p s entity

abbrev checkout_referenced :
    Env → Option ℕ → Plan → Bool → Session → Option String → Exec CheckoutResult
checkout_referenced env actor p acknowledged s none =
    if same_status s.sub.status active
    then raise state_unsupported
    else checkout_reconciled env actor p acknowledged s.sub.status s none
checkout_referenced env actor p acknowledged s (some ref) = do
  read ← reconcile env none ref s
  refuse_if (same_status read.0.sub.status past_due) subscription_past_due
  check_provider_state env read.1
  checkout_reconciled env actor p acknowledged s.sub.status read.0 (some read.1)

-- The checkout of a merchant with a row.
unfoldable pub checkout_locked : Env → Option ℕ → Plan → Bool → Session → Exec CheckoutResult
checkout_locked env actor p acknowledged s =
    if same_status s.sub.status past_due
    then raise subscription_past_due
    else if same_status s.sub.status active && is_some s.sub.replacement_provider_ref
    then replacement_pending s p
    else checkout_referenced env actor p acknowledged s s.sub.payment_provider_ref

-- The row that won the race is locked; `AttributeError` if there is none.
abbrev checkout_found : Env → Option ℕ → Plan → Bool → Option Session → Exec CheckoutResult
checkout_found env actor p acknowledged none = raise internal
checkout_found env actor p acknowledged (some s) = checkout_locked env actor p acknowledged s

abbrev after_first : Env → Option ℕ → Plan → Bool → Option CheckoutResult → Exec CheckoutResult
after_first env actor p acknowledged (some result) = pure result
after_first env actor p acknowledged none =
    lock_current_subscription >>= checkout_found env actor p acknowledged

abbrev checkout_stored : Env → Option ℕ → ℕ → Plan → Bool → Option Session → Exec CheckoutResult
checkout_stored env actor merchant_id p acknowledged none =
    first_checkout env actor merchant_id p >>= after_first env actor p acknowledged
checkout_stored env actor merchant_id p acknowledged (some s) =
    checkout_locked env actor p acknowledged s

-- `start_checkout`
unfoldable pub start_checkout : Env → Option ℕ → Option ℕ → Bool → Exec CheckoutResult
start_checkout env actor plan_id acknowledged = do
  merchant_id ← require_request env
  p ← offered_plan env plan_id
  require_configured env
  stored ← lock_current_subscription
  checkout_stored env actor merchant_id p acknowledged stored
