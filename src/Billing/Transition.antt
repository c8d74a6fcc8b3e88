-- ===== src/Billing/Transition.antt =====
-- The transitions of the subscription that a provider snapshot makes (billing/services.py,
-- "Reconciliation"). Each works on a locked session and adds every column that it writes.
pub mod Covered
pub mod Rows
pub mod Constraints
pub mod Proof
pub mod Usage
use text.Mathlib.Text.{starts_with}
use review_flow.Base.{
  ℕ, ◌+◌, Bool, true, false, ◌||◌, ◌&&◌, not, ◌==◌, Option, none, some, List, [], ◌∷◌, String, leb,
  ltb, any, same_option, if◌then◌else◌,
}
use review_flow.Base.Text.{same_text}
use review_flow.Billing.Model.{
  Plan, Status, active, past_due, cancelled, expired, same_status, Subscription, UsageRecord,
  PaymentAttempt, AttemptType, renewal, retry, grace, Action, plan_changed, activated,
  went_past_due, recovered, subscription_cancelled, subscription_expired, Effect, applied,
  immediate, replacement_immediate, MetaKey, MetaValue, from_status, to_status, plan_id, plan_name,
  from_plan, to_plan, effective, acknowledged_no_credit, status_value, name_value, number,
  effect_value, flag,
}
use review_flow.Billing.Provider.{Value, get, as_text, from_unix}
use review_flow.Billing.Paid.{current_period_paid}
use review_flow.Billing.Session.{
  Session, Column, add, record_audit, plan, status, current_period_start, current_period_end,
  pending_plan, past_due_at, dunning_stage, cancel_at_period_end,
}

-- A violation of the unique constraint or of the `pay_` check is caught: the row is not inserted.
insert_payment : PaymentAttempt → List PaymentAttempt → List PaymentAttempt
insert_payment p payments =
    if any (λ q. same_text q.provider_attempt_id p.provider_attempt_id) payments
      || not (starts_with p.provider_attempt_id "pay_")
    then payments
    else p ∷ payments

abbrev attempt_type_of : Bool → AttemptType
attempt_type_of was_past_due = if was_past_due then retry else renewal

-- The insert, once the invoice is known to have a `paid_at` and a payment id.
abbrev pay : Option ℕ → Option String → Bool → Session → Session
pay none id was_past_due s = s
pay (some paid_at) none was_past_due s = s
pay (some paid_at) (some id) was_past_due s = record s {
  payments =
      insert_payment
        (record {
          merchant_id = s.sub.merchant_id;
          provider_attempt_id = id;
          attempt_type = attempt_type_of was_past_due;
          attempted_at = paid_at;
        })
        s.payments;
}

-- `_record_payment`, on an invoice that `current_period_paid` returned: it has a payment id.
unfoldable pub record_payment : Session → Value → Bool → Session
unfolding insert_payment
record_payment s invoice was_past_due =
    pay (from_unix (get invoice "paid_at")) (as_text (get invoice "payment_id")) was_past_due s

abbrev record_payment? : Session → Option Value → Bool → Session
record_payment? s none was_past_due = s
record_payment? s (some invoice) was_past_due = record_payment s invoice was_past_due

-- `old_pending is not None and old_pending == plan.pk`
abbrev fulfils : Option ℕ → Plan → Bool
fulfils none p = false
fulfils (some id) p = id == p.id

abbrev clear_pending : Bool → Session → Session
clear_pending false s = s
clear_pending true s = record s {
  sub = record (s.sub) { pending_plan_id = none };
  fields = add (pending_plan ∷ []) s.fields;
}

abbrev take_period : Option (ℕ × ℕ) → Session → Session
take_period none s = s
take_period (some (start, end)) s = record s {
  sub = record (s.sub) { current_period_start = some start; current_period_end = some end };
  fields = add (current_period_start ∷ current_period_end ∷ []) s.fields;
}

-- `_take_plan`
unfoldable pub take_plan : Session → Plan → Option ℕ → Option (ℕ × ℕ) → Session
take_plan s p old_pending period = take_period period (
    clear_pending (fulfils old_pending p)
      (record s { sub = record (s.sub) { plan = p }; fields = add (plan ∷ []) s.fields }))

-- `_clear_grace`
unfoldable pub clear_grace : Session → Session
clear_grace s = record s {
  sub = record (s.sub) { past_due_at = none; dunning_stage = none };
  fields = add (past_due_at ∷ dunning_stage ∷ []) s.fields;
}

-- `effective or ("APPLIED" if old_pending == plan.pk else "IMMEDIATE")`
abbrev effect_of : Option Effect → Option ℕ → Plan → Effect
effect_of (some e) old_pending p = e
effect_of none old_pending p = if fulfils old_pending p then applied else immediate

abbrev acknowledgement : Option Effect → List (MetaKey × MetaValue)
acknowledgement (some replacement_immediate) = (acknowledged_no_credit, flag true) ∷ []
acknowledgement (some _) = []
acknowledgement none = []

-- `_audit_plan_change`
unfoldable pub audit_plan_change :
    Session → Option ℕ → Plan → Plan → Option ℕ → Option Effect → Session
audit_plan_change s actor old_plan p old_pending effect =
    record_audit plan_changed actor
      ((effective, effect_value (effect_of effect old_pending p))
        ∷ (from_plan, name_value old_plan.name)
        ∷ (to_plan, name_value p.name)
        ∷ (plan_id, number p.id)
        ∷ acknowledgement effect)
      s

-- What `_apply_active` returns beside the session.
pub record Outcome : Type 0 where
  pub changed : Bool
  pub settled : Bool
  pub advanced : Bool

abbrev pub outcome : Bool → Bool → Bool → Outcome
outcome changed settled advanced = record {
  changed = changed;
  settled = settled;
  advanced = advanced;
}

-- The branch of an unchanged period: a refresh of the plan needs no paid proof.
unfoldable pub refresh_plan : Session → Plan → Option ℕ → Option Effect → Bool × Session
refresh_plan s p actor effect =
    let old_plan = s.sub.plan in
    let old_pending = s.sub.pending_plan_id in
    if not (old_plan.id == p.id)
    then (
      true,
      audit_plan_change (take_plan s p old_pending none) actor old_plan p old_pending effect,
    )
    else if fulfils old_pending p
    then (true, clear_pending true s)
    else (false, s)

-- The move into ACTIVE of a row in another status.
unfoldable pub reactivate : Session → Plan → Status → Session
reactivate s p old_status =
    let was_past_due = same_status old_status past_due in
    let activated_row : Session = record s {
      sub = record (s.sub) { status = active };
      fields = add (status ∷ []) s.fields;
    } in
    record_audit (if was_past_due then recovered else activated) none
      ((from_status, status_value old_status)
        ∷ (to_status, status_value active)
        ∷ (plan_id, number p.id)
        ∷ (plan_name, name_value p.name)
        ∷ [])
      (if was_past_due then clear_grace activated_row else record activated_row {
        sub = record (activated_row.sub) { cancel_at_period_end = false };
        fields = add (cancel_at_period_end ∷ []) activated_row.fields;
      })

-- `effective is not None and was_past_due and old_plan.pk != plan.pk`
abbrev switched_in_grace : Option Effect → Status → Plan → Plan → Bool
switched_in_grace none old_status old_plan p = false
switched_in_grace (some e) old_status old_plan p =
    same_status old_status past_due && not (old_plan.id == p.id)

-- The branch of a new period that `invoice` proves paid.
unfoldable pub advance_period : Session → ℕ → ℕ → Value → Plan → Option ℕ → Option Effect → Session
advance_period s start end invoice p actor effect =
    let old_plan = s.sub.plan in
    let old_status = s.sub.status in
    let old_pending = s.sub.pending_plan_id in
    let taken = take_plan s p old_pending (some (start, end)) in
    let told : Session =
      if not (same_status old_status active)
      then (let active_row : Session = reactivate taken p old_status in
          if switched_in_grace effect old_status old_plan p
          then audit_plan_change active_row actor old_plan p old_pending effect
          else active_row)
      else if not (old_plan.id == p.id)
      then audit_plan_change taken actor old_plan p old_pending effect
      else taken in
    record_payment told invoice (same_status old_status past_due)

-- `old_status == ACTIVE and sub.current_period_start == current_start`
abbrev pub is_same_period : Subscription → ℕ → Bool
is_same_period sub start =
    same_status sub.status active && same_option sub.current_period_start (some start)

-- `_apply_active` from a valid period on.
unfoldable pub active_in_period :
    Session
    → Value
    → Option (List Value)
    → Plan
    → Option ℕ
    → Option Effect
    → ℕ
    → ℕ
    → Outcome × Session
active_in_period s entity invoices p actor effect start end =
    let paid = current_period_paid entity invoices in
    if is_same_period s.sub start
    then (let (changed, refreshed) = refresh_plan s p actor effect in
        (
          outcome changed true false,
          record_payment? refreshed paid (same_status s.sub.status past_due),
        ))
    else elim paid [
      | none ↦ (outcome false false false, s)
      | some invoice ↦ (outcome true true true, advance_period s start end invoice p actor effect)
    ]

-- `_apply_active`
unfoldable pub apply_active :
    Session → Value → Option (List Value) → Plan → Option ℕ → Option Effect → Outcome × Session
apply_active s entity invoices p actor effect = elim (from_unix (get entity "current_start")) [
  | none ↦ (outcome false false false, s)
  | some start ↦ elim (from_unix (get entity "current_end")) [
    | none ↦ (outcome false false false, s)
    | some end ↦
        if leb end start
        then (outcome false false false, s)
        else active_in_period s entity invoices p actor effect start end
  ]
]

-- `_apply_payment_failed`
unfoldable pub apply_payment_failed : Session → ℕ → Bool × Session
apply_payment_failed s now = if not (same_status s.sub.status active) then (false, s) else (
  true,
  record_audit went_past_due none
      ((from_status, status_value s.sub.status)
        ∷ (to_status, status_value past_due)
        ∷ (plan_id, number s.sub.plan.id)
        ∷ [])
      (record s {
        sub = record (s.sub) { status = past_due; past_due_at = some now; dunning_stage = some 0 };
        fields = add (status ∷ past_due_at ∷ dunning_stage ∷ []) s.fields;
      }),
)

-- `now >= sub.past_due_at + GRACE`. A PAST_DUE row has a `past_due_at` (a check constraint); without
-- one Python would raise.
abbrev pub grace_over : Option ℕ → ℕ → Bool
grace_over none now = false
grace_over (some since) now = leb (since + grace) now

-- The ending of a PAST_DUE row.
abbrev end_past_due : Session → Status → Action → Session
end_past_due s ended action =
    record_audit action none
      ((from_status, status_value s.sub.status) ∷ (to_status, status_value ended) ∷ [])
      (clear_grace
        (record s { sub = record (s.sub) { status = ended }; fields = add (status ∷ []) s.fields }))

abbrev end_active : Session → Session
end_active s =
    record_audit subscription_cancelled none
      ((from_status, status_value s.sub.status) ∷ (to_status, status_value cancelled) ∷ [])
      (record s {
        sub = record (s.sub) { status = cancelled };
        fields = add (status ∷ []) s.fields;
      })

-- `_apply_terminal`
unfoldable pub apply_terminal : Session → ℕ → Bool × Session
apply_terminal s now =
    if same_status s.sub.status active
    then (true, end_active s)
    else if same_status s.sub.status past_due
    then (
      true,
      if grace_over s.sub.past_due_at now
          then end_past_due s expired subscription_expired
          else end_past_due s cancelled subscription_cancelled,
    )
    else (false, s)

abbrev pub has_period : ℕ → ℕ → UsageRecord → Bool
has_period start end u = u.period_start == start && u.period_end == end

-- `reset_usage_period` on a subscription with a current period: insert, or keep what is there.
abbrev pub open_usage : Option ℕ → Option ℕ → List UsageRecord → List UsageRecord
open_usage none end usage = usage
open_usage (some start) none usage = usage
open_usage (some start) (some end) usage =
    if any (has_period start end) usage
    then usage
    else record { period_start = start; period_end = end; requests_used = 0 } ∷ usage

unfoldable pub reset_usage_period : Session → Session
reset_usage_period s = record s {
  usage = open_usage s.sub.current_period_start s.sub.current_period_end s.usage;
}
