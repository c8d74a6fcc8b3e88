-- ===== src/Billing/Checkout/Creates.antt =====
-- How many provider subscriptions a checkout creates.
use review_flow.Base.{
  ℕ, ◌≤◌, suc, String, Bool, true, not, ◌&&◌, ◌==◌, Option, none, some, find, is_some, arith, ◌≡◌,
  refl,
}
use review_flow.Billing.Model.{Plan, Status, active, incomplete, past_due, same_status}
use review_flow.Billing.Provider.{
  Value, get, has_provider_plan_id, entity_status, provider_may_be_cancelled,
}
use review_flow.Billing.Session.{Session}
use review_flow.Billing.Exec.{
  Env, World, Exec, Result, ok, err, provider_not_configured, pure, raise, ◌>>=◌,
  lock_current_subscription, require_request, with_tenant,
}
use review_flow.Billing.Exec.Creates.{
  creations, Creates, Creates-pure, Creates-raise, Creates-if, Creates-savepoint, Creates-now,
  Creates-put, Creates-refuse_if, Creates-bind, Creates-first, Creates-first_of,
}
use review_flow.Billing.Exec.Keeps.{
  Post, Ensures, Keeps, Any, Ensures-pure, Ensures-savepoint, Keeps-bind, Keeps-now, Keeps-put,
}
use review_flow.Billing.Request.{CheckoutResult, unchanged}
use review_flow.Billing.Request.Creates.{
  reconcile-Creates, check_provider_state-Creates, create_and_store-Creates,
  replace_provider_subscription-Creates,
}
use review_flow.Billing.PlanChange.Creates.{checkout_active-Creates}
use review_flow.Billing.Checkout.{
  is_sellable, sold, offered_plan, is_offered, insert_and_create, unless_raced, first_checkout,
  is_target, replacement_pending, is_terminal_status, is_created, checkout_incomplete,
  checkout_ended, checkout_reconciled, checkout_referenced, checkout_locked, checkout_found,
  after_first, checkout_stored, start_checkout,
}

sold-Creates : (p : Option Plan) → Creates 0 (sold p)
sold-Creates none = Creates-raise _
sold-Creates (some p) = Creates-if (is_sellable p) _ _ (Creates-pure _) (Creates-raise _)

offered_plan-Creates : (env : Env) (plan_id : Option ℕ) → Creates 0 (offered_plan env plan_id)
unfolding offered_plan
offered_plan-Creates env none = Creates-raise _
offered_plan-Creates env (some plan_id) = sold-Creates (find (is_offered plan_id) env.plans)

with_tenant-Creates : (env : Env) (merchant : Option ℕ) → Creates 0 (with_tenant env merchant)
with_tenant-Creates env none = Creates-raise _
with_tenant-Creates env (some merchant) =
    Creates-bind _ _ (Creates-refuse_if _ _) (λ _. Creates-pure merchant)

require_request-Creates : (env : Env) → Creates 0 (require_request env)
unfolding require_request
require_request-Creates env = with_tenant-Creates env env.merchant_id

lock_current_subscription-Creates : Creates 0 lock_current_subscription
unfolding lock_current_subscription
lock_current_subscription-Creates = record { at = λ w. omega arith }

Any-Post : {A : Type 0} (r : Result A) → Post Any r
Any-Post (ok a) = tt
Any-Post (err e) = tt

Any-Keeps : {A : Type 0} {m : Exec A} → Keeps (λ _. Unit {0}) m
Any-Keeps {A} {m} = record { at = λ w h. (tt, Any-Post (m w).0) }

abbrev IsDone : Option CheckoutResult → Type 0
IsDone first = is_some first ≡ true

module _ (env : Env) (actor : Option ℕ) (p : Plan) where
  insert_and_create-IsDone :
      (merchant_id : ℕ) → Ensures (λ _. Unit {0}) IsDone (insert_and_create env actor merchant_id p)
  insert_and_create-IsDone merchant_id = Keeps-bind _ _ (Keeps-now env) (λ at.
      Keeps-bind _ _ (Keeps-put _ tt)
        (λ _. Keeps-bind _ _ Any-Keeps (λ result. Ensures-pure (some result) refl)))

  checkout_incomplete-Creates :
      (s : Session) (entity : Option Value) → Creates 1 (checkout_incomplete env actor p s entity)
  unfolding checkout_incomplete
  checkout_incomplete-Creates s none = replace_provider_subscription-Creates env actor p none s
  checkout_incomplete-Creates s (some entity) =
      Creates-if (is_terminal_status (entity_status entity)) _ _
        (replace_provider_subscription-Creates env actor p none s)
        (Creates-if (has_provider_plan_id (get entity "plan_id") p) _ _ (Creates-pure _) (
          Creates-if (is_created (entity_status entity)) _ _
            (replace_provider_subscription-Creates env actor p s.sub.payment_provider_ref s)
            (Creates-raise _)))

  checkout_ended-Creates :
      (s : Session) (entity : Option Value) → Creates 1 (checkout_ended env actor p s entity)
  unfolding checkout_ended
  checkout_ended-Creates s none = replace_provider_subscription-Creates env actor p none s
  checkout_ended-Creates s (some entity) =
      Creates-if (is_terminal_status (entity_status entity)) _ _
        (replace_provider_subscription-Creates env actor p none s)
        (Creates-if (provider_may_be_cancelled (entity_status entity)) _ _
          (replace_provider_subscription-Creates env actor p s.sub.payment_provider_ref s)
          (Creates-raise _))

  module _ (acknowledged : Bool) where
    checkout_reconciled-Creates :
        (before : Status) (s : Session) (entity : Option Value)
        → Creates 1 (checkout_reconciled env actor p acknowledged before s entity)
    unfolding checkout_reconciled
    checkout_reconciled-Creates before s entity =
        Creates-if (same_status s.sub.status active) _ _
          (Creates-if (not (same_status before active) && s.sub.plan.id == p.id) (pure unchanged) _
            (Creates-pure unchanged) (checkout_active-Creates env actor p acknowledged s))
          (Creates-if (same_status s.sub.status incomplete) _ _
            (checkout_incomplete-Creates s entity) (checkout_ended-Creates s entity))

    checkout_referenced-Creates :
        (s : Session) (ref : Option String)
        → Creates 1 (checkout_referenced env actor p acknowledged s ref)
    checkout_referenced-Creates s none =
        Creates-if (same_status s.sub.status active) _ _ (Creates-raise _)
          (checkout_reconciled-Creates s.sub.status s none)
    checkout_referenced-Creates s (some ref) =
        Creates-bind _ _ (reconcile-Creates env none ref s) (λ read.
          Creates-bind _ _ (Creates-refuse_if _ _) (λ _.
            Creates-bind _ _ (check_provider_state-Creates env read.1)
              (λ _. checkout_reconciled-Creates s.sub.status read.0 (some read.1))))

    checkout_locked-Creates : (s : Session) → Creates 1 (checkout_locked env actor p acknowledged s)
    unfolding checkout_locked replacement_pending
    checkout_locked-Creates s =
        Creates-if (same_status s.sub.status past_due) _ _ (Creates-raise _) (
          Creates-if (same_status s.sub.status active && is_some s.sub.replacement_provider_ref) _ _
            (Creates-if (is_target s.sub.replacement_plan p) (pure _) (raise _) (Creates-pure _)
              (Creates-raise _))
            (checkout_referenced-Creates s s.sub.payment_provider_ref))

    checkout_found-Creates :
        (stored : Option Session) → Creates 1 (checkout_found env actor p acknowledged stored)
    checkout_found-Creates none = Creates-raise _
    checkout_found-Creates (some s) = checkout_locked-Creates s

    after_first-Creates :
        (first : Option CheckoutResult) → Creates 1 (after_first env actor p acknowledged first)
    after_first-Creates (some result) = Creates-pure result
    after_first-Creates none =
        Creates-bind _ _ lock_current_subscription-Creates checkout_found-Creates

    after_done-Creates :
        (first : Option CheckoutResult)
        → IsDone first
        → Creates 0 (after_first env actor p acknowledged first)
    after_done-Creates (some result) h = Creates-pure result
    after_done-Creates none h = ground arith

    -- Either this request inserts the row, or the one that did is locked.
    raced-Creates :
        (merchant_id : ℕ) (rival : Option Session)
        → Creates 1
            (unless_raced env actor merchant_id p rival >>= after_first env actor p acknowledged)
    raced-Creates merchant_id none =
        Creates-first_of IsDone _ _
          (Creates-savepoint _ (
            Creates-bind _ _ (Creates-now env) (λ at. Creates-bind _ _ (Creates-put _) (λ _.
              Creates-first _ _ (create_and_store-Creates env actor p _) (λ _. Creates-pure _)))))
          (Ensures-savepoint _ (insert_and_create-IsDone merchant_id)) after_done-Creates
    raced-Creates merchant_id (some s) =
        Creates-bind _ _ (Creates-bind _ _ (Creates-put s) (λ _. Creates-pure none))
          after_first-Creates

    checkout_stored-Creates :
        (merchant_id : ℕ) (stored : Option Session)
        → Creates 1 (checkout_stored env actor merchant_id p acknowledged stored)
    unfolding first_checkout
    checkout_stored-Creates merchant_id none = raced-Creates merchant_id env.rival
    checkout_stored-Creates merchant_id (some s) = checkout_locked-Creates s

start-Creates :
    (env : Env) (actor plan_id : Option ℕ) (acknowledged : Bool)
    → Creates 1 (start_checkout env actor plan_id acknowledged)
unfolding start_checkout
start-Creates env actor plan_id acknowledged =
    Creates-bind _ _ (require_request-Creates env) (λ merchant_id.
      Creates-bind _ _ (offered_plan-Creates env plan_id) (λ p.
        Creates-bind _ _ (Creates-refuse_if (not env.is_configured) provider_not_configured) (λ _.
          Creates-bind _ _ lock_current_subscription-Creates
            (checkout_stored-Creates env actor p acknowledged merchant_id))))

-- A checkout creates at most one provider subscription, whatever the provider answers and whether it
-- succeeds, is refused or loses the race of two first checkouts.
pub start_checkout-creations :
    (env : Env) (actor plan_id : Option ℕ) (acknowledged : Bool) (w : World)
    → creations (start_checkout env actor plan_id acknowledged w).1 ≤ suc (creations w)
start_checkout-creations env actor plan_id acknowledged w =
    omega (arith, (start-Creates env actor plan_id acknowledged).at w)
