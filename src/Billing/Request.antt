-- ===== src/Billing/Request.antt =====
-- The steps that the OWNER endpoints share (billing/services.py): the reconcile, and the creation and
-- replacement of the provider subscription. A stored reference is never empty.
pub mod Rows
pub mod Keeps
pub mod Resets
pub mod Creates
pub mod Refused
use review_flow.Base.{
  ℕ, Bool, true, false, ◌&&◌, ◌||◌, not, Option, none, some, List, [], ◌∷◌, String, is_some,
  is_none, same_option, any, if◌then◌else◌,
}
use review_flow.Tenancy.Forms.{is_valid_billing_ref}
use review_flow.Billing.Model.{
  Plan, Status, incomplete, active, same_status, ProviderStatus, Subscription, Reason, row_ended,
  checkout_started, plan_id, plan_name, number, name_value,
}
use review_flow.Billing.Provider.{
  Value, get, as_text, is_text, entity_status, from_unix, truncated, has_provider_plan_id, Reply,
  answered, unavailable, rejected, not_configured,
}
use review_flow.Billing.Session
use review_flow.Billing.Session.{Session, Column, add, no_fields, save, record_audit}
use review_flow.Billing.Retire.{Surroundings, not_active, abandon_unless_active, refetched}
use review_flow.Billing.Replacement.{save_updated}
use review_flow.Billing.Snapshot.{SnapshotResult, apply_locked}
use review_flow.Billing.Exec.{
  Error, provider_unavailable, provider_not_configured, state_unsupported, plan_unsupported,
  replacement_activating, not_implemented, Call, fetch, cancel, create, Invoices, listed, failed,
  unimplemented, Env, World, Exec, pure, raise, ◌>>=◌, ◌>>◌, refuse_if, savepoint, call,
  call_invoices, now, expect, put, relocked,
}

-- `CheckoutResult`, with the reference of the checkout's payload.
pub record CheckoutResult : Type 0 where
  pub created : Bool
  pub checkout : Option String

abbrev pub unchanged : CheckoutResult
unchanged = record { created = false; checkout = none }

-- `sub.save(update_fields=[..., "updated_at"])` of the locked row with these columns changed.
unfoldable pub save_columns : List Column → ℕ → Subscription → Session → Session
save_columns columns at changed s =
    save_updated at (record s { sub = changed; fields = add columns no_fields })

abbrev pub is_active_entity : Value → Bool
is_active_entity entity = is_text (get entity "status") "active"

-- The test of `_fetch_invoices_if_needed`.
abbrev pub needs_invoices : Status → Option ℕ → Value → Bool
needs_invoices old_status old_start entity =
    is_active_entity entity
    && not (
        same_status old_status active
        && is_some old_start
        && same_option (from_unix (get entity "current_start")) old_start)

-- `_fetch_invoices_if_needed`, with a rejection as `BillingProviderUnavailable`.
abbrev invoices_of : Invoices → Exec (Option (List Value))
invoices_of (listed invoices) = pure (some invoices)
invoices_of (failed not_configured) = raise provider_not_configured
invoices_of (failed reply) = raise provider_unavailable
invoices_of unimplemented = raise not_implemented

unfoldable pub fetch_invoices_if_needed :
    Env → String → Status → Option ℕ → Value → Exec (Option (List Value))
fetch_invoices_if_needed env ref old_status old_start entity =
    if needs_invoices old_status old_start entity
    then call_invoices env ref >>= invoices_of
    else pure none

-- `_fetch_provider_entity`
abbrev pub checked_entity : String → Value → Exec Value
checked_entity ref entity =
    if is_text (get entity "id") ref && is_some (as_text (get entity "status"))
    then pure entity
    else raise provider_unavailable

unfoldable pub fetch_provider_entity : Env → String → Exec Value
fetch_provider_entity env ref = do
  reply ← call env (fetch ref)
  entity ← expect reply
  checked_entity ref entity

-- `_refetch_replacement` is called at all only for an uncommitted replacement that was not just read.
abbrev pub must_reread : Session → Bool
must_reread s = is_some s.sub.replacement_provider_ref && is_none s.sub.replacement_committed_at

abbrev pub call_reread : Env → Option String → Exec Reply
call_reread env none = pure unavailable
call_reread env (some ref) = call env (fetch ref)

unfoldable pub reread_replacement : Env → Bool → Session → Exec Reply
reread_replacement env wanted s =
    if wanted && must_reread s
    then call_reread env s.sub.replacement_provider_ref
    else pure unavailable

abbrev pub surroundings : Env → Reply → ℕ → Surroundings
surroundings env reply stamp = record { plans = env.plans; reread = reply; stamp = stamp }

-- Whether `_apply_snapshot` comes to `_abandon_unless_active`: a transition out of the provider's
-- `active`, which does not depend on what the re-read answers.
abbrev pub abandons : Env → ℕ → Session → Value → Option (List Value) → ℕ → Option ℕ → Bool
abandons env at s entity invoices started actor =
    (apply_locked (surroundings env unavailable at) at s entity invoices started actor).0.changed
    && not (is_active_entity entity)

-- `_apply_snapshot` of the merchant's own row, with its re-read of the replacement, and the row as it
-- is locked next.
unfoldable pub apply_snapshot_step :
    Env → Session → Value → Option (List Value) → ℕ → Option ℕ → Exec (SnapshotResult × Session)
apply_snapshot_step env s entity invoices started actor = do
  at ← now env
  reply ← reread_replacement env (abandons env at s entity invoices started actor) s
  stamp ← now env
  let applied = apply_locked (surroundings env reply stamp) at s entity invoices started actor
  put (relocked applied.1)
  pure (applied.0, relocked applied.1)

-- `_reconcile`, of a row with a provider subscription.
unfoldable pub reconcile : Env → Option ℕ → String → Session → Exec (Session × Value)
reconcile env actor ref s = do
  started ← now env
  entity ← fetch_provider_entity env ref
  invoices ← fetch_invoices_if_needed env ref s.sub.status s.sub.current_period_start entity
  applied ← apply_snapshot_step env s entity invoices started actor
  pure (applied.1, entity)

-- `status == "paused" or status not in RECOGNIZED_PROVIDER_STATUSES`
abbrev pub is_unsupported : Option ProviderStatus → Bool
is_unsupported none = true
is_unsupported (some ProviderStatus.paused) = true
is_unsupported (some (ProviderStatus.unrecognized text)) = true
is_unsupported (some _) = false

-- `_check_provider_state`
abbrev pub check_provider_state : Env → Value → Exec (Unit {0})
check_provider_state env entity = do
  refuse_if (is_unsupported (entity_status entity)) state_unsupported
  refuse_if (not (any (has_provider_plan_id (get entity "plan_id")) env.plans)) plan_unsupported

-- `isinstance(entity, dict) and is_valid_billing_ref(entity.get("id"))`, with the reference.
abbrev pub usable_ref : Value → Option String
usable_ref entity = elim (as_text (get entity "id")) [
  | none ↦ none
  | some ref ↦ if is_valid_billing_ref ref then some ref else none
]

abbrev created_ref : Value → Option String → Exec (String × Value)
created_ref entity none = raise provider_unavailable
created_ref entity (some ref) = pure (ref, entity)

-- `_create_provider_subscription`: the reference and the entity.
unfoldable pub create_provider_subscription : Env → Plan → Exec (String × Value)
create_provider_subscription env p = do
  reply ← call env (create p.provider_plan_id none none)
  entity ← expect reply
  created_ref entity (usable_ref entity)

-- `_cancel_old_provider_subscription`
unfoldable pub cancel_old_provider_subscription : Env → String → Exec Value
cancel_old_provider_subscription env ref = call env (cancel ref false) >>= expect

abbrev stored_status : Option ProviderStatus → Option ProviderStatus
stored_status none = none
stored_status (some status) = some (truncated status)

-- The row of a checkout that waits for its first payment.
abbrev pub fresh : Subscription → Plan → String → Value → Subscription
fresh sub p ref entity = record sub {
  plan = p;
  status = incomplete;
  payment_provider_ref = some ref;
  provider_status = stored_status (entity_status entity);
  pending_plan_id = none;
  cancel_at_period_end = false;
  provider_synced_at = none;
  current_period_start = none;
  current_period_end = none;
}

-- `_store_new_provider_subscription`
unfoldable pub store_new_provider_subscription :
    ℕ → Option ℕ → Plan → String → Value → Session → Session
store_new_provider_subscription at actor p ref entity s =
    record_audit checkout_started actor
      ((plan_id, number p.id) ∷ (plan_name, name_value p.name) ∷ [])
      (save_columns
        (Session.plan ∷ Session.status ∷ Session.payment_provider_ref ∷ Session.provider_status
          ∷ Session.pending_plan ∷ Session.cancel_at_period_end ∷ Session.provider_synced_at
          ∷ Session.current_period_start ∷ Session.current_period_end ∷ [])
        at (fresh s.sub p ref entity) s)

-- The refusals of `_clear_replacement_before_reset`.
abbrev refuse_reset : Subscription → Option Value → Exec Session
refuse_reset sub none =
    if is_none sub.replacement_committed_at
    then raise provider_unavailable
    else raise state_unsupported
refuse_reset sub (some entity) =
    if is_active_entity entity then raise replacement_activating else raise state_unsupported

abbrev cleared : ℕ → Session → Bool × Option Value × Session → Exec Session
cleared at s (true, entity, t) =
    (let after = relocked (save_updated at t) in put after >> pure after)
cleared at s (false, entity, t) = refuse_reset s.sub entity

-- `_clear_replacement_before_reset`
unfoldable pub clear_replacement_before_reset : Env → Session → Exec Session
clear_replacement_before_reset env s = if is_none s.sub.replacement_provider_ref then pure s else do
  reply ← reread_replacement env true s
  at ← now env
  cleared at s (abandon_unless_active (surroundings env reply at) s row_ended not_active none)

abbrev pub cancel_first : Env → Option String → Exec (Unit {0})
cancel_first env none = pure tt
cancel_first env (some ref) = cancel_old_provider_subscription env ref >> pure tt

-- The creation, and the row that stores it.
unfoldable pub create_and_store : Env → Option ℕ → Plan → Session → Exec CheckoutResult
create_and_store env actor p s = do
  made ← create_provider_subscription env p
  at ← now env
  put (relocked (store_new_provider_subscription at actor p made.0 made.1 s))
  pure (record { created = true; checkout = some made.0 })

-- `_replace_provider_subscription`
unfoldable pub replace_provider_subscription :
    Env → Option ℕ → Plan → Option String → Session → Exec CheckoutResult
replace_provider_subscription env actor p cancel_ref s = savepoint (do
  after ← clear_replacement_before_reset env s
  cancel_first env cancel_ref
  create_and_store env actor p after)
