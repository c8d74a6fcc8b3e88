-- ===== src/Billing/Overview.antt =====
-- The dashboard's view of the subscription (billing/services.py): the next action, the replacement
-- member and the checkout member, from local columns only.
use review_flow.Base.{
  ℕ, ◌+◌, Bool, true, false, ◌&&◌, Option, none, some, String, ltb, is_some, if◌then◌else◌,
}
use review_flow.Billing.Model.{
  Plan, Status, incomplete, active, past_due, cancelled, expired, same_status, ProviderStatus,
  pending, Subscription, grace,
}

-- The `type` of the next action.
pub data NextType : Type 0 where
  subscribe complete_checkout update_payment_method resubscribe cancellation plan_change renewal :
      NextType

pub record NextAction : Type 0 where
  pub kind : NextType
  pub at : Option ℕ

abbrev next : NextType → Option ℕ → NextAction
next kind at = record { kind = kind; at = at }

abbrev is_pending_status : Option ProviderStatus → Bool
is_pending_status (some pending) = true
is_pending_status _ = false

-- The cases on the row's status.
abbrev next_by_status : Subscription → Option ℕ → Status → NextAction
next_by_status sub grace_ends_at cancelled = next subscribe none
next_by_status sub grace_ends_at expired = next subscribe none
next_by_status sub grace_ends_at incomplete = next complete_checkout none
next_by_status sub grace_ends_at past_due =
    next (if is_pending_status sub.provider_status then update_payment_method else resubscribe)
      grace_ends_at
next_by_status sub grace_ends_at active =
    if sub.cancel_at_period_end
    then next cancellation sub.current_period_end
    else if is_some sub.pending_plan_id
    then next plan_change sub.current_period_end
    else next renewal sub.current_period_end

-- `_next_action`
unfoldable pub next_action : Option Subscription → Option ℕ → NextAction
next_action none grace_ends_at = next subscribe none
next_action (some sub) grace_ends_at = next_by_status sub grace_ends_at sub.status

pub record ReplacementView : Type 0 where
  pub plan : Plan
  pub is_downgrade : Bool
  pub committed : Bool
  pub effective_at : Option ℕ

-- `_replacement_view`; a row with a replacement has its plan (a check constraint).
abbrev view_of : Subscription → Option Plan → Option ReplacementView
view_of sub none = none
view_of sub (some target) =
    let downgrade = ltb target.monthly_price sub.plan.monthly_price in
    some (record {
      plan = target;
      is_downgrade = downgrade;
      committed = is_some sub.replacement_committed_at;
      effective_at = if downgrade then sub.current_period_end else none;
    })

unfoldable pub replacement_view : Option Subscription → Option ReplacementView
replacement_view none = none
replacement_view (some sub) =
    if is_some sub.replacement_provider_ref then view_of sub sub.replacement_plan else none

-- The reference and the `card_change` of the checkout member.
pub record Checkout : Type 0 where
  pub ref : String
  pub card_change : Bool

-- The `checkout` member, for an OWNER; a stored reference is never empty.
abbrev checkout_of : Subscription → Option String → Option Checkout
checkout_of sub none = none
checkout_of sub (some ref) =
    if same_status sub.status incomplete
    then some (record { ref = ref; card_change = false })
    else if same_status sub.status past_due && is_pending_status sub.provider_status
    then some (record { ref = ref; card_change = true })
    else none

unfoldable pub checkout : Bool → Option Subscription → Option Checkout
checkout is_owner none = none
checkout is_owner (some sub) = if is_owner then checkout_of sub sub.payment_provider_ref else none

-- `grace_ends_at`
abbrev grace_end : Option ℕ → Option ℕ
grace_end none = none
grace_end (some since) = some (since + grace)

unfoldable pub grace_ends_at : Option Subscription → Option ℕ
grace_ends_at none = none
grace_ends_at (some sub) =
    if same_status sub.status past_due then grace_end sub.past_due_at else none
