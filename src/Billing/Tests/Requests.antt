-- ===== src/Billing/Tests/Requests.antt =====
-- Checkouts and cancellations of the merchant on the growth plan.
use review_flow.Billing.PlanChange.{is_update_unsupported_refusal, checkout_active}
use review_flow.Billing.Exec.{
  call, now, ◌>>=◌, Call, fetch, cancel, create, update, list_invoices, unimplemented,
  shipped_gates, Env, World, ok,
}
use review_flow.Base.{arith, true, false, ◌≡◌, ◌≤◌, suc, refl, none, some, List, []}
use review_flow.Billing.Model.{active}
use review_flow.Billing.Provider.{null, text, Reply, answered, unavailable, rejected}
use review_flow.Billing.Session.{Session}
use review_flow.Billing.Exec.Aborts.{has_failed}
use review_flow.Billing.Exec.Creates.{creations}
use review_flow.Billing.Request.{replace_provider_subscription}
use review_flow.Billing.Request.Keeps.{Sound}
use review_flow.Billing.Request.Refused.{replace_provider_subscription_waits}
use review_flow.Billing.Checkout.{start_checkout, checkout_reconciled}
use review_flow.Billing.Checkout.Creates.{start_checkout-creations}
use review_flow.Billing.Checkout.Aborts.{checkout_reconciled-stored}
use review_flow.Billing.Cancel.{cancel_past_due, cancel_subscription, cancel_replacement}
use review_flow.Billing.Cancel.PastDue.{HasEnded, cancel_past_due_returns}
use review_flow.Billing.Cancel.Sound.{requests-Sound}
use review_flow.Billing.Tests.{
  start_unix, end_unix, starter_plan, plans, waiting, paying, replacing, overdue, ended_row,
  session, entity, first_fetch,
}

-- The provider knows an ended subscription, creates new ones, and neither updates nor cancels.
abbrev provider : List Call → Call → Reply
provider calls (fetch ref) = answered (entity ref "plan_growth" "cancelled" start_unix end_unix)
provider calls (create p start_at expire_by) =
    answered (entity "sub_new" "plan_starter" "created" start_unix end_unix)
provider calls (cancel ref at_cycle_end) = unavailable
provider calls (update ref p immediate) = rejected (text "400") (text "BAD_REQUEST_ERROR") null
provider calls (list_invoices ref) = unavailable

abbrev env : Env
env = record {
  merchant_id = some 7;
  in_transaction = true;
  new_row = 1;
  rival = none;
  plans = plans;
  provider = provider;
  invoices = λ calls ref. unimplemented;
  clock = λ n. first_fetch;
  gates = shipped_gates;
  is_configured = true;
  is_enabled = λ k. false;
  window = λ k. none;
}

abbrev with_row : Session → World
with_row s = record { stored = some s; calls = []; ticks = 0 }

replacing-Sound : Sound (some (session replacing))
replacing-Sound = ((refl, refl), ground arith)

start_checkout-creations_example :
    creations (start_checkout env (some 5) (some 1) false (with_row (session ended_row))).1 ≤ suc 0
start_checkout-creations_example =
    start_checkout-creations env (some 5) (some 1) false (with_row (session ended_row))

replace_provider_subscription_waits_example :
    let (r, after) =
      replace_provider_subscription env
        (some 5)
        starter_plan
        (some "sub_A")
        (session waiting)
        (with_row (session waiting)) in
    (has_failed r ≡ true) × (creations after ≤ 0) × (after.stored ≡ some (session waiting))
replace_provider_subscription_waits_example =
    replace_provider_subscription_waits env "sub_A" (some 5) starter_plan (session waiting)
      (with_row (session waiting)) (λ calls. refl)

refused :
    has_failed
      (checkout_reconciled env
        (some 5)
        starter_plan
        false
        active
        (session paying)
        none
        (with_row (session paying))).0
    ≡ true
unfolding checkout_reconciled checkout_active ◌>>=◌ now call is_update_unsupported_refusal
refused = refl

checkout_reconciled-stored_example :
    (checkout_reconciled env
      (some 5)
      starter_plan
      false
      active
      (session paying)
      none
      (with_row (session paying))).1.stored
    ≡ some (session paying)
checkout_reconciled-stored_example =
    checkout_reconciled-stored env (some 5) starter_plan false active (session paying) none
      (with_row (session paying)) refused

cancel_past_due_returns_example :
    (after : Session) × ((cancel_past_due env
        (some 5)
        (session overdue)
        (with_row (session overdue))).0
      ≡ ok after)
    × ((cancel_past_due env (some 5) (session overdue) (with_row (session overdue))).1.stored
        ≡ some after)
    × HasEnded after.row
cancel_past_due_returns_example =
    cancel_past_due_returns env (some 5) (session overdue) (with_row (session overdue)) (refl, refl)

requests-Sound_example :
    Sound (start_checkout env (some 5) (some 1) false (with_row (session replacing))).1.stored
    × Sound (cancel_subscription env (some 5) (with_row (session replacing))).1.stored
    × Sound (cancel_replacement env (some 5) (with_row (session replacing))).1.stored
requests-Sound_example =
    requests-Sound env (some 5) (some 1) false (with_row (session replacing)) tt replacing-Sound
