-- ===== src/Billing/Transition/Constraints.antt =====
-- No transition breaks a check constraint of the subscription's table.
use review_flow.Base.{
  leb, Bool-cases, ℕ, ◌<◌, ◌≡◌, Option, none, some, arith, List, if_keeps, option_keeps, Bool, true,
  inl, inr,
}
use review_flow.Billing.Provider.{get, from_unix, Value}
use review_flow.Billing.Transition.{
  current_period_paid, is_same_period, apply_active, active_in_period, Outcome,
  apply_payment_failed, apply_terminal, record_payment?,
}
use review_flow.Billing.Constraints.{MeetsConstraints}
use review_flow.Billing.Model.{Plan, Subscription, active, same_status, Effect}
use review_flow.Billing.Session.{Session}
use review_flow.Billing.Transition.Rows.{
  advanced_row, refreshed_row, graced_row, ended_row, is_live, advance_period-sub, refresh_plan-sub,
  apply_payment_failed-sub, apply_terminal-sub, record_payment-sub,
}

-- Each of these rows meets the check constraints if the row before it does.
advanced_row-MeetsConstraints :
    (sub : Subscription) (start end : ℕ) (p : Plan)
    → start < end
    → MeetsConstraints sub
    → MeetsConstraints (advanced_row sub start end p)
advanced_row-MeetsConstraints sub start end p h m = ground arith

refreshed_row-MeetsConstraints :
    (sub : Subscription) (p : Plan) → MeetsConstraints sub → MeetsConstraints (refreshed_row sub p)
refreshed_row-MeetsConstraints sub p m = ground arith

graced_row-MeetsConstraints :
    (sub : Subscription) (now : ℕ)
    → sub.status ≡ active
    → MeetsConstraints sub
    → MeetsConstraints (graced_row sub now)
graced_row-MeetsConstraints sub now e m = ground arith

ended_row-MeetsConstraints :
    (sub : Subscription) (now : ℕ)
    → is_live sub.status ≡ true
    → MeetsConstraints sub
    → MeetsConstraints (ended_row sub now)
ended_row-MeetsConstraints sub now e m = ground arith

record_payment?-MeetsConstraints :
    (s : Session) (invoice : Option Value) (was_past_due : Bool)
    → MeetsConstraints s.sub
    → MeetsConstraints (record_payment? s invoice was_past_due).sub
record_payment?-MeetsConstraints s none was_past_due m = m
record_payment?-MeetsConstraints s (some invoice) was_past_due m =
    rw (record_payment-sub s invoice was_past_due) m

active_in_period-MeetsConstraints :
    (s : Session) (entity : Value) (invoices : Option (List Value)) (p : Plan) (actor : Option ℕ)
    (effect : Option Effect) (start end : ℕ)
    → start < end
    → MeetsConstraints s.sub
    → MeetsConstraints (active_in_period s entity invoices p actor effect start end).1.sub
unfolding active_in_period
active_in_period-MeetsConstraints s entity invoices p actor effect start end order m =
    if_keeps (λ (r : Outcome × Session). MeetsConstraints r.1.sub) (is_same_period s.sub start)
      (record_payment?-MeetsConstraints _ (current_period_paid entity invoices) _
        (rw (refresh_plan-sub s p actor effect) (refreshed_row-MeetsConstraints s.sub p m)))
      (option_keeps (λ (r : Outcome × Session). MeetsConstraints r.1.sub)
        (current_period_paid entity invoices) m
        (λ invoice _.
          rw (advance_period-sub s start end invoice p actor effect)
            (advanced_row-MeetsConstraints s.sub start end p order m)))

pub apply_active-MeetsConstraints :
    (s : Session) (entity : Value) (invoices : Option (List Value)) (p : Plan) (actor : Option ℕ)
    (effect : Option Effect)
    → MeetsConstraints s.sub
    → MeetsConstraints (apply_active s entity invoices p actor effect).1.sub
unfolding apply_active
apply_active-MeetsConstraints s entity invoices p actor effect m =
    option_keeps (λ (r : Outcome × Session). MeetsConstraints r.1.sub)
      (from_unix (get entity "current_start")) m
      (λ start _.
        option_keeps (λ (r : Outcome × Session). MeetsConstraints r.1.sub)
          (from_unix (get entity "current_end")) m
          (λ end _. elim (Bool-cases (leb end start)) [
            | inl wrong ↦ rw wrong m
            | inr order ↦ rw order (
                active_in_period-MeetsConstraints s entity invoices p actor effect start end
                  (ground arith) m)
          ]))

pub apply_payment_failed-MeetsConstraints :
    (s : Session) (now : ℕ)
    → MeetsConstraints s.sub
    → MeetsConstraints (apply_payment_failed s now).1.sub
apply_payment_failed-MeetsConstraints s now m =
    rw (apply_payment_failed-sub s now) (elim (Bool-cases (same_status s.sub.status active)) [
      | inl e ↦ rw e (graced_row-MeetsConstraints s.sub now (ground arith) m)
      | inr e ↦ rw e m
    ])

pub apply_terminal-MeetsConstraints :
    (s : Session) (now : ℕ) → MeetsConstraints s.sub → MeetsConstraints (apply_terminal s now).1.sub
apply_terminal-MeetsConstraints s now m =
    rw (apply_terminal-sub s now) (elim (Bool-cases (is_live s.sub.status)) [
      | inl e ↦ rw e (ended_row-MeetsConstraints s.sub now e m)
      | inr e ↦ rw e m
    ])
