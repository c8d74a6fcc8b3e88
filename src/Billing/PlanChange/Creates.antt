-- ===== src/Billing/PlanChange/Creates.antt =====
-- How many provider subscriptions a plan change creates.
use review_flow.Base.{ℕ, Bool, ◌&&◌, refl, Option, none, some, String, same_option}
use review_flow.Billing.Model.{Plan, Kind, upgrade, downgrade}
use review_flow.Billing.Provider.{Value, Reply, answered, unavailable, rejected, not_configured}
use review_flow.Billing.Session.{Session}
use review_flow.Billing.Exec.{Env, pure}
use review_flow.Billing.Exec.Creates.{
  Creates, Creates-pure, Creates-raise, Creates-if, Creates-savepoint, Creates-call, Creates-create,
  Creates-now, Creates-put, Creates-refuse_if, Creates-expect, Creates-bind, Creates-first,
  Creates-weaken,
}
use review_flow.Billing.Request.{unchanged, usable_ref}
use review_flow.Billing.Request.Creates.{
  checked_entity-Creates, fetch_invoices_if_needed-Creates, apply_snapshot_step-Creates,
}
use review_flow.Billing.PlanChange.{
  checked_window, replacement_window, schedule_of, is_current, new_ref,
  create_replacement_subscription, start_plan_change_replacement, upgraded, downgraded, updated,
  request_update, checkout_active, kind_of, is_update_unsupported_refusal,
}

checked_window-Creates : (w : Option ℕ) → Creates 0 (checked_window w)
checked_window-Creates none = Creates-raise _
checked_window-Creates (some seconds) = Creates-pure _

schedule_of-Creates :
    (env : Env) (k : Kind) (window at : ℕ) (period_end : Option ℕ)
    → Creates 0 (schedule_of env k window at period_end)
schedule_of-Creates env upgrade window at period_end = Creates-pure _
schedule_of-Creates env downgrade window at none = Creates-raise _
schedule_of-Creates env downgrade window at (some period_end) =
    Creates-if _ _ _ (Creates-raise _) (Creates-pure _)

new_ref-Creates : (current ref : Option String) → Creates 0 (new_ref current ref)
new_ref-Creates current none = Creates-raise _
new_ref-Creates current (some ref) =
    Creates-if (is_current ref current) _ _ (Creates-raise _) (Creates-pure ref)

module _ (env : Env) (actor : Option ℕ) (p : Plan) (acknowledged : Bool) where
  create_replacement_subscription-Creates :
      (start_at : Option ℕ) (expire_by : ℕ) (current : Option String)
      → Creates 1 (create_replacement_subscription env p start_at expire_by current)
  unfolding create_replacement_subscription
  create_replacement_subscription-Creates start_at expire_by current =
      Creates-first _ _ (Creates-create env _ _ _) (λ reply.
        Creates-bind _ _ (Creates-expect reply)
          (λ entity. new_ref-Creates current (usable_ref entity)))

  start_plan_change_replacement-Creates :
      (k : Kind) (s : Session)
      → Creates 1 (start_plan_change_replacement env actor p k acknowledged s)
  unfolding start_plan_change_replacement replacement_window
  start_plan_change_replacement-Creates k s =
      Creates-bind _ _ (checked_window-Creates (env.window k)) (λ window.
        Creates-bind _ _ (Creates-now env) (λ at.
          Creates-bind _ _ (schedule_of-Creates env k window at s.sub.current_period_end) (λ times.
            Creates-bind _ _ (Creates-refuse_if _ _) (λ _.
              Creates-bind _ _ (Creates-refuse_if _ _) (λ _.
                Creates-first _ _ (create_replacement_subscription-Creates times.start_at _ _)
                  (λ ref.
                    Creates-bind _ _ (Creates-now env)
                      (λ stamp. Creates-bind _ _ (Creates-put _) (λ _. Creates-pure _))))))))

  upgraded-Creates :
      (ref : String) (started : ℕ) (answer : Value) (s : Session)
      → Creates 0 (upgraded env actor ref started answer s)
  upgraded-Creates ref started answer s =
      Creates-bind _ _ (checked_entity-Creates ref answer) (λ entity.
        Creates-bind _ _ (fetch_invoices_if_needed-Creates env ref _ _ entity) (λ invoices.
          Creates-bind _ _ (apply_snapshot_step-Creates env s entity invoices started actor)
            (λ _. Creates-pure _)))

  downgraded-Creates : (s : Session) → Creates 0 (downgraded env actor p s)
  downgraded-Creates s =
      Creates-bind _ _ (Creates-now env)
        (λ at. Creates-bind _ _ (Creates-put _) (λ _. Creates-pure _))

  updated-Creates :
      (ref : String) (started : ℕ) (k : Kind) (reply : Reply) (s : Session)
      → Creates 1 (updated env actor p acknowledged ref started k reply s)
  updated-Creates ref started upgrade (answered entity) s =
      Creates-weaken _ (Creates-savepoint _ (upgraded-Creates ref started entity s))
  updated-Creates ref started downgrade (answered entity) s =
      Creates-weaken _ (Creates-savepoint _ (downgraded-Creates s))
  updated-Creates ref started k (rejected status code why) s =
      Creates-if (is_update_unsupported_refusal env.gates status code why && env.is_enabled k) _ _
        (start_plan_change_replacement-Creates k s) (Creates-raise _)
  updated-Creates ref started k unavailable s = Creates-raise _
  updated-Creates ref started k not_configured s = Creates-raise _

  request_update-Creates :
      (ref : Option String) (s : Session)
      → Creates 1 (request_update env actor p acknowledged ref s)
  request_update-Creates none s = Creates-raise _
  request_update-Creates (some ref) s = Creates-bind _ _ (Creates-now env) (λ started.
      Creates-bind _ _ (Creates-call env _ refl)
        (λ reply. updated-Creates ref started (kind_of p s.sub) reply s))

  pub checkout_active-Creates :
      (s : Session) → Creates 1 (checkout_active env actor p acknowledged s)
  unfolding checkout_active
  checkout_active-Creates s = Creates-bind _ _ (Creates-refuse_if _ _) (λ _.
      Creates-bind _ _ (Creates-refuse_if _ _) (λ _.
        Creates-if (same_option s.sub.pending_plan_id (some p.id)) (pure unchanged) _
          (Creates-pure unchanged) (request_update-Creates s.sub.payment_provider_ref s)))
