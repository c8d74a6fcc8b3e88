-- ===== src/Billing/Transition/Covered.antt =====
-- Every transition adds each column that it changes, so the save of the snapshot loses no write.
use review_flow.Billing.Transition.{
  Outcome, current_period_paid, is_same_period, record_payment?, take_plan, clear_grace,
  record_payment, audit_plan_change, refresh_plan, advance_period, active_in_period, apply_active,
  apply_payment_failed, apply_terminal, reactivate, switched_in_grace,
}
use review_flow.Base.{
  leb, option_keeps, not, ◌==◌, if_keeps, ℕ, Bool, Option, none, some, arith, List,
}
use review_flow.Billing.Provider.{get, from_unix, Value}
use review_flow.Billing.Model.{Subscription, Plan, Status, active, same_status, Effect}
use review_flow.Billing.Session.{Session}
use review_flow.Billing.Session.Save.{IsCovered}

take_plan-IsCovered :
    {row : Subscription} {marked : Bool} (s : Session) (p : Plan) (old_pending : Option ℕ)
    (period : Option (ℕ × ℕ))
    → IsCovered row marked s
    → IsCovered row marked (take_plan s p old_pending period)
unfolding take_plan
take_plan-IsCovered s p old_pending none h = ground arith
take_plan-IsCovered s p old_pending (some (start, end)) h = ground arith

clear_grace-IsCovered :
    {row : Subscription} {marked : Bool} (s : Session)
    → IsCovered row marked s
    → IsCovered row marked (clear_grace s)
unfolding clear_grace
clear_grace-IsCovered s h = ground arith

pub apply_payment_failed-IsCovered :
    {row : Subscription} {marked : Bool} (s : Session) (now : ℕ)
    → IsCovered row marked s
    → IsCovered row marked (apply_payment_failed s now).1
unfolding apply_payment_failed
apply_payment_failed-IsCovered s now h = ground arith

pub apply_terminal-IsCovered :
    {row : Subscription} {marked : Bool} (s : Session) (now : ℕ)
    → IsCovered row marked s
    → IsCovered row marked (apply_terminal s now).1
unfolding apply_terminal clear_grace
apply_terminal-IsCovered s now h = ground arith

record_payment-IsCovered :
    {row : Subscription} {marked : Bool} (s : Session) (invoice : Value) (was : Bool)
    → IsCovered row marked s
    → IsCovered row marked (record_payment s invoice was)
unfolding record_payment
record_payment-IsCovered s invoice was h = ground arith

audit_plan_change-IsCovered :
    {row : Subscription} {marked : Bool} (s : Session) (actor : Option ℕ) (old p : Plan)
    (pending : Option ℕ) (effect : Option Effect)
    → IsCovered row marked s
    → IsCovered row marked (audit_plan_change s actor old p pending effect)
unfolding audit_plan_change
audit_plan_change-IsCovered s actor old p pending effect h = ground arith

refresh_plan-IsCovered :
    {row : Subscription} {marked : Bool} (s : Session) (p : Plan) (actor : Option ℕ)
    (effect : Option Effect)
    → IsCovered row marked s
    → IsCovered row marked (refresh_plan s p actor effect).1
unfolding refresh_plan audit_plan_change
refresh_plan-IsCovered s p actor effect h =
    ground (arith, take_plan-IsCovered s p s.sub.pending_plan_id none h)

reactivate-IsCovered :
    {row : Subscription} {marked : Bool} (s : Session) (p : Plan) (old : Status)
    → IsCovered row marked s
    → IsCovered row marked (reactivate s p old)
unfolding reactivate clear_grace
reactivate-IsCovered s p old h = ground arith

advance_period-IsCovered :
    {row : Subscription} {marked : Bool} (s : Session) (start end : ℕ) (invoice : Value) (p : Plan)
    (actor : Option ℕ) (effect : Option Effect)
    → IsCovered row marked s
    → IsCovered row marked (advance_period s start end invoice p actor effect)
unfolding advance_period
advance_period-IsCovered s start end invoice p actor effect h =
    let taken = take_plan-IsCovered s p s.sub.pending_plan_id (some (start, end)) h in
    let active_row = reactivate-IsCovered _ p s.sub.status taken in
    record_payment-IsCovered _ invoice _ (
      if_keeps (IsCovered _ _) (not (same_status s.sub.status active))
        (if_keeps (IsCovered _ _) (switched_in_grace effect s.sub.status s.sub.plan p)
          (audit_plan_change-IsCovered _ actor s.sub.plan p s.sub.pending_plan_id effect active_row)
          active_row)
        (if_keeps (IsCovered _ _) (not (s.sub.plan.id == p.id))
          (audit_plan_change-IsCovered _ actor s.sub.plan p s.sub.pending_plan_id effect taken)
          taken))

record_payment?-IsCovered :
    {row : Subscription} {marked : Bool} (s : Session) (invoice : Option Value)
    (was_past_due : Bool)
    → IsCovered row marked s
    → IsCovered row marked (record_payment? s invoice was_past_due)
record_payment?-IsCovered s none was_past_due h = h
record_payment?-IsCovered s (some invoice) was_past_due h =
    record_payment-IsCovered s invoice was_past_due h

active_in_period-IsCovered :
    {row : Subscription} {marked : Bool} (s : Session) (entity : Value)
    (invoices : Option (List Value)) (p : Plan) (actor : Option ℕ) (effect : Option Effect)
    (start end : ℕ)
    → IsCovered row marked s
    → IsCovered row marked (active_in_period s entity invoices p actor effect start end).1
unfolding active_in_period
active_in_period-IsCovered {row} {marked} s entity invoices p actor effect start end h =
    if_keeps (λ (r : Outcome × Session). IsCovered row marked r.1) (is_same_period s.sub start)
      (record_payment?-IsCovered _ (current_period_paid entity invoices) _
        (refresh_plan-IsCovered s p actor effect h))
      (option_keeps (λ (r : Outcome × Session). IsCovered row marked r.1)
        (current_period_paid entity invoices) h
        (λ invoice _. advance_period-IsCovered s start end invoice p actor effect h))

pub apply_active-IsCovered :
    {row : Subscription} {marked : Bool} (s : Session) (entity : Value)
    (invoices : Option (List Value)) (p : Plan) (actor : Option ℕ) (effect : Option Effect)
    → IsCovered row marked s
    → IsCovered row marked (apply_active s entity invoices p actor effect).1
unfolding apply_active
apply_active-IsCovered {row} {marked} s entity invoices p actor effect h =
    option_keeps (λ (r : Outcome × Session). IsCovered row marked r.1)
      (from_unix (get entity "current_start")) h
      (λ start _.
        option_keeps (λ (r : Outcome × Session). IsCovered row marked r.1)
          (from_unix (get entity "current_end")) h
          (λ end _.
            if_keeps (λ (r : Outcome × Session). IsCovered row marked r.1) (leb end start) h
              (active_in_period-IsCovered s entity invoices p actor effect start end h)))
