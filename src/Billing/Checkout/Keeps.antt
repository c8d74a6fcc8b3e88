-- ===== src/Billing/Checkout/Keeps.antt =====
-- A checkout keeps the check constraints of the stored row.
use review_flow.Base.{
  [], ℕ, Bool, false, ◌&&◌, not, ◌==◌, ◌≡◌, refl, Option, none, some, String, arith, find, is_some,
}
use review_flow.Billing.Model.{Plan, Status, active, incomplete, past_due, same_status}
use review_flow.Billing.Provider.{
  Value, get, has_provider_plan_id, entity_status, provider_may_be_cancelled,
}
use review_flow.Billing.Session.{Session, locked}
use review_flow.Billing.Exec.{
  Env, pure, raise, relocked, lock_current_subscription, require_request, with_tenant,
}
use review_flow.Billing.Exec.Keeps.{
  Ensures, Keeps, Ensures-pure, Ensures-raise, Ensures-if, Ensures-savepoint, Ensures-bind,
  Keeps-bind, Keeps-now, Keeps-put, Keeps-refuse_if, Keeps-refuse_any,
}
use review_flow.Billing.Request.{CheckoutResult, unchanged}
use review_flow.Billing.Request.Keeps.{
  IsGood, Sound, relocked-IsGood, reconcile-IsGood, check_provider_state-Keeps,
}
use review_flow.Billing.Request.Resets.{
  MayClear, MayReset, create_and_store-Keeps, replace_provider_subscription-Keeps,
}
use review_flow.Billing.PlanChange.Keeps.{checkout_active-Keeps}
use review_flow.Billing.Checkout.{
  is_sellable, sold, offered_plan, is_offered, new_row, insert_and_create, first_checkout,
  replacement_pending, is_terminal_status, is_created, checkout_incomplete, checkout_ended,
  checkout_reconciled, checkout_referenced, checkout_locked, checkout_found, after_first,
  checkout_stored, start_checkout, unless_raced, is_target,
}

sold-Keeps : (p : Option Plan) → Keeps Sound (sold p)
sold-Keeps none = Ensures-raise _
sold-Keeps (some p) = Ensures-if (is_sellable p) _ _ (λ _. Ensures-pure _ tt) (λ _. Ensures-raise _)

offered_plan-Keeps : (env : Env) (plan_id : Option ℕ) → Keeps Sound (offered_plan env plan_id)
unfolding offered_plan
offered_plan-Keeps env none = Ensures-raise _
offered_plan-Keeps env (some plan_id) = sold-Keeps (find (is_offered plan_id) env.plans)

with_tenant-Keeps : (env : Env) (merchant : Option ℕ) → Keeps Sound (with_tenant env merchant)
with_tenant-Keeps env none = Ensures-raise _
with_tenant-Keeps env (some merchant) =
    Keeps-bind _ _ (Keeps-refuse_any _ _) (λ _. Ensures-pure merchant tt)

pub require_request-Keeps : (env : Env) → Keeps Sound (require_request env)
unfolding require_request
require_request-Keeps env = with_tenant-Keeps env env.merchant_id

relocked-Sound :
    (stored : Option Session)
    → Sound stored
    → Sound (elim stored [ none ↦ none | some s ↦ some (relocked s) ])
relocked-Sound none h = tt
relocked-Sound (some s) h = relocked-IsGood s h.1

-- What is locked is sound.
pub lock_current_subscription-Sound : Ensures Sound Sound lock_current_subscription
unfolding lock_current_subscription
lock_current_subscription-Sound = record { at = λ w h. (h, relocked-Sound w.stored h) }

new_row-MayReset :
    (id merchant_id : ℕ) (p : Plan) (at : ℕ)
    → MayReset (locked (new_row id merchant_id p at) [] [] [] [])
new_row-MayReset id merchant_id p at = (((refl, refl), ground arith), refl, refl)

module _ (env : Env) (actor : Option ℕ) (p : Plan) where
  insert_and_create-Keeps :
      (merchant_id : ℕ) → Keeps Sound (insert_and_create env actor merchant_id p)
  insert_and_create-Keeps merchant_id = Keeps-bind _ _ (Keeps-now env) (λ at.
      let may = new_row-MayReset env.new_row merchant_id p at in
      let s = locked (new_row env.new_row merchant_id p at) [] [] [] [] in
      Keeps-bind _ _ (Keeps-put s may.0) (λ _.
        Keeps-bind _ _ (create_and_store-Keeps env actor p s may) (λ result. Ensures-pure _ tt)))

  unless_raced-Keeps :
      (merchant_id : ℕ) (rival : Option Session)
      → Sound rival
      → Keeps Sound (unless_raced env actor merchant_id p rival)
  unless_raced-Keeps merchant_id none h = Ensures-savepoint _ (insert_and_create-Keeps merchant_id)
  unless_raced-Keeps merchant_id (some s) h =
      Keeps-bind _ _ (Keeps-put s h) (λ _. Ensures-pure none tt)

  checkout_incomplete-Keeps :
      (s : Session) (entity : Option Value)
      → MayClear s
      → Keeps Sound (checkout_incomplete env actor p s entity)
  unfolding checkout_incomplete
  checkout_incomplete-Keeps s none may = replace_provider_subscription-Keeps env actor p none s may
  checkout_incomplete-Keeps s (some entity) may =
      Ensures-if (is_terminal_status (entity_status entity)) _ _
        (λ _. replace_provider_subscription-Keeps env actor p none s may)
        (λ _.
          Ensures-if (has_provider_plan_id (get entity "plan_id") p) _ _ (λ _. Ensures-pure _ tt)
            (λ _.
              Ensures-if (is_created (entity_status entity)) _ _
                (λ _.
                  replace_provider_subscription-Keeps env actor p s.sub.payment_provider_ref s may)
                (λ _. Ensures-raise _)))

  checkout_ended-Keeps :
      (s : Session) (entity : Option Value)
      → MayClear s
      → Keeps Sound (checkout_ended env actor p s entity)
  unfolding checkout_ended
  checkout_ended-Keeps s none may = replace_provider_subscription-Keeps env actor p none s may
  checkout_ended-Keeps s (some entity) may =
      Ensures-if (is_terminal_status (entity_status entity)) _ _
        (λ _. replace_provider_subscription-Keeps env actor p none s may)
        (λ _.
          Ensures-if (provider_may_be_cancelled (entity_status entity)) _ _
            (λ _. replace_provider_subscription-Keeps env actor p s.sub.payment_provider_ref s may)
            (λ _. Ensures-raise _))

  checkout_reconciled-Keeps :
      (acknowledged : Bool) (before : Status) (s : Session) (entity : Option Value)
      → MayClear s
      → Keeps Sound (checkout_reconciled env actor p acknowledged before s entity)
  unfolding checkout_reconciled
  checkout_reconciled-Keeps acknowledged before s entity may =
      Ensures-if (same_status s.sub.status active) _ _
        (λ _.
          Ensures-if (not (same_status before active) && s.sub.plan.id == p.id) (pure unchanged) _
            (λ _. Ensures-pure unchanged tt)
            (λ _. checkout_active-Keeps env actor p acknowledged s may.0))
        (λ _.
          Ensures-if (same_status s.sub.status incomplete) _ _
            (λ _. checkout_incomplete-Keeps s entity may) (λ _. checkout_ended-Keeps s entity may))

  checkout_referenced-Keeps :
      (acknowledged : Bool) (s : Session) (ref : Option String)
      → MayClear s
      → Keeps Sound (checkout_referenced env actor p acknowledged s ref)
  checkout_referenced-Keeps acknowledged s none may =
      Ensures-if (same_status s.sub.status active) _ _ (λ _. Ensures-raise _)
        (λ _. checkout_reconciled-Keeps acknowledged s.sub.status s none may)
  checkout_referenced-Keeps acknowledged s (some ref) may =
      Ensures-bind (λ r. IsGood r.0) _ _ (reconcile-IsGood env none ref s may.0)
        (λ read good.
          Ensures-bind (λ _. same_status read.0.sub.status past_due ≡ false) _ _
            (Keeps-refuse_if _ _)
            (λ _ live. Keeps-bind _ _ (check_provider_state-Keeps env read.1) (λ _.
              checkout_reconciled-Keeps acknowledged s.sub.status read.0 (some read.1)
                (good, rw good.0.0 live))))

  checkout_locked-Keeps :
      (acknowledged : Bool) (s : Session)
      → IsGood s
      → Keeps Sound (checkout_locked env actor p acknowledged s)
  unfolding checkout_locked replacement_pending
  checkout_locked-Keeps acknowledged s good =
      Ensures-if (same_status s.sub.status past_due) _ _ (λ _. Ensures-raise _)
        (λ live.
          Ensures-if (same_status s.sub.status active && is_some s.sub.replacement_provider_ref) _ _
            (λ _.
              Ensures-if (is_target s.sub.replacement_plan p) (pure _) (raise _)
                (λ _. Ensures-pure _ tt) (λ _. Ensures-raise _))
            (λ _.
              checkout_referenced-Keeps acknowledged s s.sub.payment_provider_ref
                (good, rw good.0.0 live)))

  checkout_found-Keeps :
      (acknowledged : Bool) (stored : Option Session)
      → Sound stored
      → Keeps Sound (checkout_found env actor p acknowledged stored)
  checkout_found-Keeps acknowledged none h = Ensures-raise _
  checkout_found-Keeps acknowledged (some s) h = checkout_locked-Keeps acknowledged s h

  after_first-Keeps :
      (acknowledged : Bool) (first : Option CheckoutResult)
      → Keeps Sound (after_first env actor p acknowledged first)
  after_first-Keeps acknowledged (some result) = Ensures-pure _ tt
  after_first-Keeps acknowledged none =
      Ensures-bind Sound _ _ lock_current_subscription-Sound (checkout_found-Keeps acknowledged)

first_checkout-Keeps :
    (env : Env) (actor : Option ℕ) (merchant_id : ℕ) (p : Plan)
    → Sound env.rival
    → Keeps Sound (first_checkout env actor merchant_id p)
unfolding first_checkout
first_checkout-Keeps env actor merchant_id p rival =
    unless_raced-Keeps env actor p merchant_id env.rival rival

checkout_stored-Keeps :
    (env : Env) (actor : Option ℕ) (merchant_id : ℕ) (p : Plan) (acknowledged : Bool)
    (stored : Option Session)
    → Sound env.rival
    → Sound stored
    → Keeps Sound (checkout_stored env actor merchant_id p acknowledged stored)
checkout_stored-Keeps env actor merchant_id p acknowledged none rival h =
    Keeps-bind _ _ (first_checkout-Keeps env actor merchant_id p rival)
      (after_first-Keeps env actor p acknowledged)
checkout_stored-Keeps env actor merchant_id p acknowledged (some s) rival h =
    checkout_locked-Keeps env actor p acknowledged s h

pub start_checkout-Keeps :
    (env : Env) (actor plan_id : Option ℕ) (acknowledged : Bool)
    → Sound env.rival
    → Keeps Sound (start_checkout env actor plan_id acknowledged)
unfolding start_checkout
start_checkout-Keeps env actor plan_id acknowledged rival =
    Keeps-bind _ _ (require_request-Keeps env) (λ merchant_id.
      Keeps-bind _ _ (offered_plan-Keeps env plan_id) (λ p.
        Keeps-bind _ _ (Keeps-refuse_any _ _) (λ _.
          Ensures-bind Sound _ _ lock_current_subscription-Sound (λ stored h.
            checkout_stored-Keeps env actor merchant_id p acknowledged stored rival h))))
