-- ===== src/Billing/PlanChange.antt =====
-- The OWNER's plan change of an ACTIVE subscription (billing/services.py): the provider's update of
-- the plan, and the replacement subscription where the provider refuses the update.
pub mod Keeps
pub mod Aborts
pub mod Creates
use review_flow.Base.{
  ℕ, ◌+◌, ◌-◌, ◌*◌, ◌/◌, Bool, true, false, ◌&&◌, ◌||◌, not, Option, none, some, List, [], ◌∷◌,
  String, ◌==◌, ltb, leb, is_some, is_none, same_option, any, if◌then◌else◌,
}
use review_flow.Base.Int.{ℤ, pos, negsuc}
use review_flow.Base.Text.{same_text}
use review_flow.Billing.Model.{
  Plan, second, Subscription, Kind, upgrade, downgrade, plan_changed, replacement_started,
  effective, from_plan, to_plan, plan_id, kind, scheduled, effect_value, name_value, number,
  kind_value,
}
use review_flow.Billing.Provider.{
  Value, null, bool, int, text, other, dict, as_text, unix_epoch, Reply, answered, unavailable,
  rejected, not_configured,
}
use review_flow.Billing.Session
use review_flow.Billing.Session.{Session, record_audit}
use review_flow.Billing.Exec.{
  Error, provider_unavailable, provider_not_configured, subscription_cancelling, plan_unchanged,
  plan_change_unsupported, replacement_in_progress, acknowledgement_required, internal, Call,
  create, update, Gates, Env, World, Exec, pure, raise, ◌>>=◌, ◌>>◌, refuse_if, savepoint, call,
  now, expect, put, relocked,
}
use review_flow.Billing.Request.{
  CheckoutResult, unchanged, save_columns, checked_entity, fetch_invoices_if_needed,
  apply_snapshot_step, usable_ref,
}

abbrev is_int : Value → ℕ → Bool
is_int (int (pos n)) m = n == m
is_int (int (negsuc n)) m = false
is_int null m = false
is_int (bool b) m = false
is_int (text s) m = false
is_int other m = false
is_int (dict entries) m = false

abbrev is_same_text : Value → String → Bool
is_same_text v s = elim (as_text v) [ none ↦ false | some t ↦ same_text t s ]

abbrev is_listed : Value → Value → Value → ℕ × String × String → Bool
is_listed status code why (known, known_code, known_why) =
    is_int status known && is_same_text code known_code && is_same_text why known_why

-- `is_update_unsupported_refusal` of a rejection.
unfoldable pub is_update_unsupported_refusal : Gates → Value → Value → Value → Bool
is_update_unsupported_refusal gates status code why = any (is_listed status code why) gates.refusals

-- `replacement_window`
abbrev checked_window : Option ℕ → Exec ℕ
checked_window none = raise provider_not_configured
checked_window (some seconds) = pure (seconds * second)

unfoldable pub replacement_window : Env → Kind → Exec ℕ
replacement_window env k = checked_window (env.window k)

-- `int(t.timestamp())`, of an instant after 1970.
abbrev pub timestamp : ℕ → ℕ
timestamp t = t / second - unix_epoch

-- When a replacement starts, and until when it may be authorized.
pub record Schedule : Type 0 where
  pub start_at : Option ℕ
  pub expires_at : ℕ

-- A downgrade ends a second before its cutoff, the window before the period's end.
abbrev downgrade_schedule : Env → ℕ → ℕ → Option ℕ → Exec Schedule
downgrade_schedule env window at none = raise internal
downgrade_schedule env window at (some period_end) =
    if is_none env.gates.start_field || leb period_end (at + window)
    then raise plan_change_unsupported
    else pure (record {
      start_at = some (timestamp period_end);
      expires_at = period_end - window - second;
    })

abbrev pub schedule_of : Env → Kind → ℕ → ℕ → Option ℕ → Exec Schedule
schedule_of env upgrade window at period_end =
    pure (record { start_at = none; expires_at = at + window })
schedule_of env downgrade window at period_end = downgrade_schedule env window at period_end

abbrev pub is_upgrade : Kind → Bool
is_upgrade upgrade = true
is_upgrade downgrade = false

abbrev pub is_current : String → Option String → Bool
is_current ref none = false
is_current ref (some current) = same_text ref current

-- `_create_replacement_subscription`: the new reference, never the current one.
abbrev new_ref : Option String → Option String → Exec String
new_ref current none = raise provider_unavailable
new_ref current (some ref) = if is_current ref current then raise provider_unavailable else pure ref

unfoldable pub create_replacement_subscription :
    Env → Plan → Option ℕ → ℕ → Option String → Exec String
create_replacement_subscription env p start_at expire_by current = do
  reply ← call env (create p.provider_plan_id start_at (some expire_by))
  entity ← expect reply
  new_ref current (usable_ref entity)

-- The row with its replacement.
abbrev pub with_replacement : Kind → Plan → String → ℕ → Subscription → Subscription
with_replacement k p ref expires_at sub = record sub {
  replacement_provider_ref = some ref;
  replacement_plan = some p;
  replacement_expires_at = some expires_at;
  pending_plan_id = if is_upgrade k then sub.pending_plan_id else some p.id;
}

abbrev replacement_columns : List Session.Column
replacement_columns =
    Session.replacement_provider_ref ∷ Session.replacement_plan ∷ Session.replacement_expires_at
    ∷ []

abbrev pub columns_of : Kind → List Session.Column
columns_of upgrade = replacement_columns
columns_of downgrade = Session.pending_plan ∷ replacement_columns

unfoldable pub store_replacement : ℕ → Option ℕ → Kind → Plan → String → ℕ → Session → Session
store_replacement at actor k p ref expires_at s =
    record_audit replacement_started actor
      ((kind, kind_value k)
        ∷ (from_plan, name_value s.sub.plan.name)
        ∷ (to_plan, name_value p.name)
        ∷ (plan_id, number p.id)
        ∷ [])
      (save_columns (columns_of k) at (with_replacement k p ref expires_at s.sub) s)

-- `start_plan_change_replacement`
unfoldable pub start_plan_change_replacement :
    Env → Option ℕ → Plan → Kind → Bool → Session → Exec CheckoutResult
start_plan_change_replacement env actor p k acknowledged s = do
  window ← replacement_window env k
  at ← now env
  times ← schedule_of env k window at s.sub.current_period_end
  refuse_if (is_some s.sub.retired_provider_ref) replacement_in_progress
  refuse_if (is_upgrade k && not acknowledged) acknowledgement_required
  ref ←
      create_replacement_subscription env p times.start_at (timestamp times.expires_at)
        s.sub.payment_provider_ref
  stamp ← now env
  put (relocked (store_replacement stamp actor k p ref times.expires_at s))
  pure (record { created = true; checkout = some ref })

-- The `SCHEDULED` change of a downgrade.
unfoldable pub schedule_plan : ℕ → Option ℕ → Plan → Session → Session
schedule_plan at actor p s =
    record_audit plan_changed actor
      ((effective, effect_value scheduled)
        ∷ (from_plan, name_value s.sub.plan.name)
        ∷ (to_plan, name_value p.name)
        ∷ (plan_id, number p.id)
        ∷ [])
      (save_columns (Session.pending_plan ∷ []) at (record s.sub { pending_plan_id = some p.id }) s)

abbrev upgraded : Env → Option ℕ → String → ℕ → Value → Session → Exec CheckoutResult
upgraded env actor ref started answer s = do
  entity ← checked_entity ref answer
  invoices ← fetch_invoices_if_needed env ref s.sub.status s.sub.current_period_start entity
  applied ← apply_snapshot_step env s entity invoices started actor
  pure unchanged

abbrev downgraded : Env → Option ℕ → Plan → Session → Exec CheckoutResult
downgraded env actor p s = do
  at ← now env
  put (relocked (schedule_plan at actor p s))
  pure unchanged

abbrev pub kind_of : Plan → Subscription → Kind
kind_of p sub = if ltb sub.plan.monthly_price p.monthly_price then upgrade else downgrade

-- What follows the provider's answer to the update.
abbrev updated :
    Env → Option ℕ → Plan → Bool → String → ℕ → Kind → Reply → Session → Exec CheckoutResult
updated env actor p acknowledged ref started upgrade (answered entity) s =
    savepoint (upgraded env actor ref started entity s)
updated env actor p acknowledged ref started downgrade (answered entity) s =
    savepoint (downgraded env actor p s)
updated env actor p acknowledged ref started k (rejected status code why) s =
    if is_update_unsupported_refusal env.gates status code why && env.is_enabled k
    then start_plan_change_replacement env actor p k acknowledged s
    else raise plan_change_unsupported
updated env actor p acknowledged ref started k unavailable s = raise provider_unavailable
updated env actor p acknowledged ref started k not_configured s = raise provider_not_configured

-- An ACTIVE row without a reference does not come here; `_check_ref` would refuse it.
abbrev request_update : Env → Option ℕ → Plan → Bool → Option String → Session → Exec CheckoutResult
request_update env actor p acknowledged none s = raise internal
request_update env actor p acknowledged (some ref) s = do
  started ← now env
  reply ← call env (update ref p.provider_plan_id (is_upgrade (kind_of p s.sub)))
  updated env actor p acknowledged ref started (kind_of p s.sub) reply s

-- `_checkout_active`
unfoldable pub checkout_active : Env → Option ℕ → Plan → Bool → Session → Exec CheckoutResult
checkout_active env actor p acknowledged s = do
  refuse_if s.sub.cancel_at_period_end subscription_cancelling
  refuse_if (p.id == s.sub.plan.id || p.monthly_price == s.sub.plan.monthly_price) plan_unchanged
  if same_option s.sub.pending_plan_id (some p.id)
      then pure unchanged
      else request_update env actor p acknowledged s.sub.payment_provider_ref s
