-- ===== src/Billing/PlanChange/Aborts.antt =====
-- A plan change that is refused leaves the stored row as it was.
use review_flow.Base.{ℕ, Bool, true, ◌&&◌, Option, none, some, String, same_option}
use review_flow.Billing.Model.{Plan, Kind, upgrade, downgrade}
use review_flow.Billing.Provider.{Reply, answered, unavailable, rejected, not_configured}
use review_flow.Billing.Session.{Session}
use review_flow.Billing.Exec.{Env, pure, relocked}
use review_flow.Billing.Exec.Aborts.{
  Quiet, Aborts, Aborts-savepoint, Quiet-pure, Quiet-raise, Aborts-pure, Aborts-raise, Aborts-if,
  Quiet-if, Quiet-call, Quiet-now, Quiet-refuse_if, Quiet-expect, Quiet-bind, Aborts-bind,
  Aborts-put,
}
use review_flow.Billing.Request.{unchanged, usable_ref}
use review_flow.Billing.PlanChange.{
  checked_window, replacement_window, schedule_of, is_current, new_ref,
  create_replacement_subscription, store_replacement, start_plan_change_replacement, updated,
  request_update, checkout_active, kind_of, is_update_unsupported_refusal,
}

checked_window-Quiet : (w : Option ℕ) → Quiet (checked_window w)
checked_window-Quiet none = Quiet-raise _
checked_window-Quiet (some seconds) = Quiet-pure _

schedule_of-Quiet :
    (env : Env) (k : Kind) (window at : ℕ) (period_end : Option ℕ)
    → Quiet (schedule_of env k window at period_end)
schedule_of-Quiet env upgrade window at period_end = Quiet-pure _
schedule_of-Quiet env downgrade window at none = Quiet-raise _
schedule_of-Quiet env downgrade window at (some period_end) =
    Quiet-if _ _ _ (Quiet-raise _) (Quiet-pure _)

new_ref-Quiet : (current ref : Option String) → Quiet (new_ref current ref)
new_ref-Quiet current none = Quiet-raise _
new_ref-Quiet current (some ref) =
    Quiet-if (is_current ref current) _ _ (Quiet-raise _) (Quiet-pure ref)

create_replacement_subscription-Quiet :
    (env : Env) (p : Plan) (start_at : Option ℕ) (expire_by : ℕ) (current : Option String)
    → Quiet (create_replacement_subscription env p start_at expire_by current)
unfolding create_replacement_subscription
create_replacement_subscription-Quiet env p start_at expire_by current =
    Quiet-bind _ _ (Quiet-call env _) (λ reply.
      Quiet-bind _ _ (Quiet-expect reply) (λ entity. new_ref-Quiet current (usable_ref entity)))

pub start_plan_change_replacement-Aborts :
    (env : Env) (actor : Option ℕ) (p : Plan) (k : Kind) (acknowledged : Bool) (s : Session)
    → Aborts (start_plan_change_replacement env actor p k acknowledged s)
unfolding start_plan_change_replacement replacement_window
start_plan_change_replacement-Aborts env actor p k acknowledged s =
    Aborts-bind _ _ (checked_window-Quiet (env.window k)) (λ window.
      Aborts-bind _ _ (Quiet-now env) (λ at.
        Aborts-bind _ _ (schedule_of-Quiet env k window at s.sub.current_period_end) (λ times.
          Aborts-bind _ _ (Quiet-refuse_if _ _) (λ _. Aborts-bind _ _ (Quiet-refuse_if _ _) (λ _.
            Aborts-bind _ _ (create_replacement_subscription-Quiet env p times.start_at _ _) (λ ref.
              Aborts-bind _ _ (Quiet-now env) (λ stamp.
                Aborts-put (relocked (store_replacement stamp actor k p ref times.expires_at s))
                  (record { created = true; checkout = some ref }))))))))

module _ (env : Env) (actor : Option ℕ) (p : Plan) (acknowledged : Bool) where
  updated-Aborts :
      (ref : String) (started : ℕ) (k : Kind) (reply : Reply) (s : Session)
      → Aborts (updated env actor p acknowledged ref started k reply s)
  updated-Aborts ref started upgrade (answered entity) s = Aborts-savepoint _
  updated-Aborts ref started downgrade (answered entity) s = Aborts-savepoint _
  updated-Aborts ref started k (rejected status code why) s =
      Aborts-if (is_update_unsupported_refusal env.gates status code why && env.is_enabled k) _ _
        (start_plan_change_replacement-Aborts env actor p k acknowledged s) (Aborts-raise _)
  updated-Aborts ref started k unavailable s = Aborts-raise _
  updated-Aborts ref started k not_configured s = Aborts-raise _

  request_update-Aborts :
      (ref : Option String) (s : Session) → Aborts (request_update env actor p acknowledged ref s)
  request_update-Aborts none s = Aborts-raise _
  request_update-Aborts (some ref) s = Aborts-bind _ _ (Quiet-now env) (λ started.
      Aborts-bind _ _ (Quiet-call env _)
        (λ reply. updated-Aborts ref started (kind_of p s.sub) reply s))

  pub checkout_active-Aborts : (s : Session) → Aborts (checkout_active env actor p acknowledged s)
  unfolding checkout_active
  checkout_active-Aborts s = Aborts-bind _ _ (Quiet-refuse_if _ _) (λ _.
      Aborts-bind _ _ (Quiet-refuse_if _ _) (λ _.
        Aborts-if (same_option s.sub.pending_plan_id (some p.id)) (pure unchanged) _
          (Aborts-pure unchanged) (request_update-Aborts s.sub.payment_provider_ref s)))
