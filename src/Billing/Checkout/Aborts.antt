-- ===== src/Billing/Checkout/Aborts.antt =====
-- What a refused checkout leaves of the stored row.
use review_flow.Base.{String, ℕ, Bool, true, not, ◌&&◌, ◌==◌, ◌≡◌, Option, none, some}
use review_flow.Billing.Model.{Plan, Status, active, incomplete, same_status}
use review_flow.Billing.Provider.{
  Value, get, has_provider_plan_id, entity_status, provider_may_be_cancelled,
}
use review_flow.Billing.Session.{Session}
use review_flow.Billing.Exec.{Env, World, pure}
use review_flow.Billing.Exec.Aborts.{
  has_failed, Aborts, Aborts-savepoint, Aborts-pure, Aborts-raise, Aborts-if,
}
use review_flow.Billing.Request.{unchanged, replace_provider_subscription}
use review_flow.Billing.PlanChange.Aborts.{checkout_active-Aborts}
use review_flow.Billing.Checkout.{
  is_terminal_status, is_created, checkout_incomplete, checkout_ended, checkout_reconciled,
}

module _ (env : Env) (actor : Option ℕ) (p : Plan) (acknowledged : Bool) (s : Session) where
  replace-Aborts :
      (cancel_ref : Option String) → Aborts (replace_provider_subscription env actor p cancel_ref s)
  unfolding replace_provider_subscription
  replace-Aborts cancel_ref = Aborts-savepoint _

  checkout_incomplete-Aborts :
      (entity : Option Value) → Aborts (checkout_incomplete env actor p s entity)
  unfolding checkout_incomplete
  checkout_incomplete-Aborts none = replace-Aborts none
  checkout_incomplete-Aborts (some entity) =
      Aborts-if (is_terminal_status (entity_status entity)) _ _ (replace-Aborts none) (
        Aborts-if (has_provider_plan_id (get entity "plan_id") p) _ _ (Aborts-pure _) (
          Aborts-if (is_created (entity_status entity)) _ _
            (replace-Aborts s.sub.payment_provider_ref) (Aborts-raise _)))

  checkout_ended-Aborts : (entity : Option Value) → Aborts (checkout_ended env actor p s entity)
  unfolding checkout_ended
  checkout_ended-Aborts none = replace-Aborts none
  checkout_ended-Aborts (some entity) =
      Aborts-if (is_terminal_status (entity_status entity)) _ _ (replace-Aborts none) (
        Aborts-if (provider_may_be_cancelled (entity_status entity)) _ _
          (replace-Aborts s.sub.payment_provider_ref) (Aborts-raise _))

  pub checkout_reconciled-Aborts :
      (before : Status) (entity : Option Value)
      → Aborts (checkout_reconciled env actor p acknowledged before s entity)
  unfolding checkout_reconciled
  checkout_reconciled-Aborts before entity =
      Aborts-if (same_status s.sub.status active) _ _
        (Aborts-if (not (same_status before active) && s.sub.plan.id == p.id) (pure unchanged) _
          (Aborts-pure unchanged) (checkout_active-Aborts env actor p acknowledged s))
        (Aborts-if (same_status s.sub.status incomplete) _ _ (checkout_incomplete-Aborts entity)
          (checkout_ended-Aborts entity))

-- A checkout that raises after its reconcile, in any status of the row and at any step, leaves the
-- stored row as the reconcile left it.
pub checkout_reconciled-stored :
    (env : Env) (actor : Option ℕ) (p : Plan) (acknowledged : Bool) (before : Status) (s : Session)
    (entity : Option Value) (w : World)
    → has_failed (checkout_reconciled env actor p acknowledged before s entity w).0 ≡ true
    → (checkout_reconciled env actor p acknowledged before s entity w).1.stored ≡ w.stored
checkout_reconciled-stored env actor p acknowledged before s entity w =
    (checkout_reconciled-Aborts env actor p acknowledged s before entity).at w
