-- ===== src/Billing/Transition/Usage.antt =====
-- The transitions leave the usage records alone; only a proven period opens one.
use review_flow.Base.{
  leb, ◌∙◌, ℕ, Bool, Option, none, some, ◌≡◌, refl, List, arith, if_keeps, option_keeps,
}
use review_flow.Billing.Model.{Plan, Effect}
use review_flow.Billing.Provider.{Value, get, from_unix}
use review_flow.Billing.Paid.{current_period_paid}
use review_flow.Billing.Session.{Session}
use review_flow.Billing.Transition.{
  Outcome, record_payment, record_payment?, refresh_plan, take_plan, audit_plan_change,
  advance_period, reactivate, clear_grace, active_in_period, apply_active, apply_payment_failed,
  apply_terminal, is_same_period,
}

record_payment-usage :
    (s : Session) (invoice : Value) (was : Bool) → (record_payment s invoice was).usage ≡ s.usage
unfolding record_payment
record_payment-usage s invoice was = ground arith

record_payment?-usage :
    (s : Session) (invoice : Option Value) (was : Bool)
    → (record_payment? s invoice was).usage ≡ s.usage
record_payment?-usage s none was = refl
record_payment?-usage s (some invoice) was = record_payment-usage s invoice was

refresh_plan-usage :
    (s : Session) (p : Plan) (actor : Option ℕ) (effect : Option Effect)
    → (refresh_plan s p actor effect).1.usage ≡ s.usage
unfolding refresh_plan take_plan audit_plan_change
refresh_plan-usage s p actor effect = ground arith

advance_period-usage :
    (s : Session) (start end : ℕ) (invoice : Value) (p : Plan) (actor : Option ℕ)
    (effect : Option Effect)
    → (advance_period s start end invoice p actor effect).usage ≡ s.usage
unfolding advance_period take_plan reactivate clear_grace audit_plan_change
advance_period-usage s start end invoice p actor effect =
    record_payment-usage _ invoice _ ∙ ground arith

active_in_period-usage :
    (s : Session) (entity : Value) (invoices : Option (List Value)) (p : Plan) (actor : Option ℕ)
    (effect : Option Effect) (start end : ℕ)
    → (active_in_period s entity invoices p actor effect start end).1.usage ≡ s.usage
unfolding active_in_period
active_in_period-usage s entity invoices p actor effect start end =
    if_keeps (λ (r : Outcome × Session). r.1.usage ≡ s.usage) (is_same_period s.sub start)
      (record_payment?-usage _ (current_period_paid entity invoices) _
        ∙ refresh_plan-usage s p actor effect)
      (option_keeps (λ (r : Outcome × Session). r.1.usage ≡ s.usage)
        (current_period_paid entity invoices) refl
        (λ invoice _. advance_period-usage s start end invoice p actor effect))

pub apply_active-usage :
    (s : Session) (entity : Value) (invoices : Option (List Value)) (p : Plan) (actor : Option ℕ)
    (effect : Option Effect)
    → (apply_active s entity invoices p actor effect).1.usage ≡ s.usage
unfolding apply_active
apply_active-usage s entity invoices p actor effect =
    option_keeps (λ (r : Outcome × Session). r.1.usage ≡ s.usage)
      (from_unix (get entity "current_start")) refl
      (λ start _.
        option_keeps (λ (r : Outcome × Session). r.1.usage ≡ s.usage)
          (from_unix (get entity "current_end")) refl
          (λ end _.
            if_keeps (λ (r : Outcome × Session). r.1.usage ≡ s.usage) (leb end start) refl
              (active_in_period-usage s entity invoices p actor effect start end)))

pub apply_payment_failed-usage :
    (s : Session) (now : ℕ) → (apply_payment_failed s now).1.usage ≡ s.usage
unfolding apply_payment_failed
apply_payment_failed-usage s now = ground arith

pub apply_terminal-usage : (s : Session) (now : ℕ) → (apply_terminal s now).1.usage ≡ s.usage
unfolding apply_terminal clear_grace
apply_terminal-usage s now = ground arith
