-- ===== src/Billing/Transition/Rows.antt =====
-- The subscription after each transition, as one record over the subscription before it.
use review_flow.Base.{
  ◌&&◌, ◌==◌, ℕ, Bool, Option, none, some, ◌≡◌, ◌∙◌, true, false, arith, if◌then◌else◌,
}
use review_flow.Billing.Model.{
  Plan, Subscription, Status, incomplete, active, past_due, cancelled, expired, same_status, Effect,
}
use review_flow.Billing.Provider.{Value}
use review_flow.Billing.Session.{Session}
use review_flow.Billing.Transition.{
  take_plan, clear_grace, record_payment, audit_plan_change, refresh_plan, advance_period,
  apply_payment_failed, apply_terminal, fulfils, reactivate, grace_over,
}

pub record_payment-sub :
    (s : Session) (invoice : Value) (was : Bool) → (record_payment s invoice was).sub ≡ s.sub
unfolding record_payment
record_payment-sub s invoice was = ground arith

-- A row that takes a proven period.
abbrev pub advanced_row : Subscription → ℕ → ℕ → Plan → Subscription
advanced_row sub start end p = record sub {
  plan = p;
  status = active;
  current_period_start = some start;
  current_period_end = some end;
  pending_plan_id = if fulfils sub.pending_plan_id p then none else sub.pending_plan_id;
  past_due_at = if same_status sub.status past_due then none else sub.past_due_at;
  dunning_stage = if same_status sub.status past_due then none else sub.dunning_stage;
  cancel_at_period_end =
      if same_status sub.status active
      then sub.cancel_at_period_end
      else if same_status sub.status past_due
      then sub.cancel_at_period_end
      else false;
}

-- A row that refreshes its plan inside the period.
abbrev pub refreshed_row : Subscription → Plan → Subscription
refreshed_row sub p = record sub {
  plan = if sub.plan.id == p.id then sub.plan else p;
  pending_plan_id = if fulfils sub.pending_plan_id p then none else sub.pending_plan_id;
}

pub advance_period-sub :
    (s : Session) (start end : ℕ) (invoice : Value) (p : Plan) (actor : Option ℕ)
    (effect : Option Effect)
    → (advance_period s start end invoice p actor effect).sub ≡ advanced_row s.sub start end p
unfolding advance_period take_plan reactivate clear_grace audit_plan_change
advance_period-sub s start end invoice p actor effect =
    record_payment-sub _ invoice _ ∙ ground arith

pub refresh_plan-sub :
    (s : Session) (p : Plan) (actor : Option ℕ) (effect : Option Effect)
    → (refresh_plan s p actor effect).1.sub ≡ refreshed_row s.sub p
unfolding refresh_plan take_plan audit_plan_change
refresh_plan-sub s p actor effect = ground arith

-- A row that enters the grace period.
abbrev pub graced_row : Subscription → ℕ → Subscription
graced_row sub now = record sub {
  status = past_due;
  past_due_at = some now;
  dunning_stage = some 0;
}

pub apply_payment_failed-sub :
    (s : Session) (now : ℕ)
    → (apply_payment_failed s now).1.sub
      ≡ (if same_status s.sub.status active then graced_row s.sub now else s.sub)
unfolding apply_payment_failed
apply_payment_failed-sub s now = ground arith

-- A row that ends.
abbrev pub ended_row : Subscription → ℕ → Subscription
ended_row sub now = record sub {
  status =
      if same_status sub.status past_due && grace_over sub.past_due_at now
      then expired
      else cancelled;
  past_due_at = if same_status sub.status past_due then none else sub.past_due_at;
  dunning_stage = if same_status sub.status past_due then none else sub.dunning_stage;
}

abbrev pub is_live : Status → Bool
is_live active = true
is_live past_due = true
is_live incomplete = false
is_live cancelled = false
is_live expired = false

pub apply_terminal-sub :
    (s : Session) (now : ℕ)
    → (apply_terminal s now).1.sub ≡ (if is_live s.sub.status then ended_row s.sub now else s.sub)
unfolding apply_terminal clear_grace
apply_terminal-sub s now = ground arith
