-- ===== src/Billing/Transition/Proof.antt =====
-- When the provider's `active` moves the row: a new status or period rests on a paid invoice.
use review_flow.Base.{
  leb, ℕ, Bool, Option, none, some, ◌≡◌, refl, ◌⊎◌, inl, inr, List, if_keeps, option_keeps,
}
use review_flow.Billing.Model.{Plan, Subscription, Effect}
use review_flow.Billing.Provider.{Value, get, from_unix}
use review_flow.Billing.Paid.{current_period_paid}
use review_flow.Billing.Session.{Session}
use review_flow.Billing.Transition.{
  Outcome, apply_active, active_in_period, record_payment?, is_same_period,
}
use review_flow.Billing.Transition.Rows.{record_payment-sub, refresh_plan-sub}

-- The status and the period are as they were.
abbrev pub SameTerm : Subscription → Subscription → Type 0
SameTerm a b =
    (b.status ≡ a.status)
    × (b.current_period_start ≡ a.current_period_start)
    × (b.current_period_end ≡ a.current_period_end)

-- Some fetched invoice proves the period paid.
abbrev pub IsPaid : Value → Option (List Value) → Type 0
IsPaid entity invoices = (invoice : Value) × (current_period_paid entity invoices ≡ some invoice)

abbrev Backed : Subscription → Value → Option (List Value) → Outcome × Session → Type 0
Backed sub entity invoices r = SameTerm sub r.1.sub ⊎ IsPaid entity invoices

pub record_payment?-sub :
    (s : Session) (invoice : Option Value) (was_past_due : Bool)
    → (record_payment? s invoice was_past_due).sub ≡ s.sub
record_payment?-sub s none was_past_due = refl
record_payment?-sub s (some invoice) was_past_due = record_payment-sub s invoice was_past_due

active_in_period-SameTerm :
    (s : Session) (entity : Value) (invoices : Option (List Value)) (p : Plan) (actor : Option ℕ)
    (effect : Option Effect) (start end : ℕ)
    → SameTerm s.sub (active_in_period s entity invoices p actor effect start end).1.sub
      ⊎ IsPaid entity invoices
unfolding active_in_period
active_in_period-SameTerm s entity invoices p actor effect start end =
    if_keeps (Backed s.sub entity invoices) (is_same_period s.sub start)
      (rw
        (
          record_payment?-sub _ (current_period_paid entity invoices) _,
          refresh_plan-sub s p actor effect,
        )
        (inl (refl, refl, refl)))
      (option_keeps (Backed s.sub entity invoices) (current_period_paid entity invoices)
        (inl (refl, refl, refl)) (λ invoice paid. inr (invoice, paid)))

pub apply_active-SameTerm :
    (s : Session) (entity : Value) (invoices : Option (List Value)) (p : Plan) (actor : Option ℕ)
    (effect : Option Effect)
    → SameTerm s.sub (apply_active s entity invoices p actor effect).1.sub ⊎ IsPaid entity invoices
unfolding apply_active
apply_active-SameTerm s entity invoices p actor effect =
    option_keeps (Backed s.sub entity invoices) (from_unix (get entity "current_start"))
      (inl (refl, refl, refl))
      (λ start _.
        option_keeps (Backed s.sub entity invoices) (from_unix (get entity "current_end"))
          (inl (refl, refl, refl))
          (λ end _.
            if_keeps (Backed s.sub entity invoices) (leb end start) (inl (refl, refl, refl))
              (active_in_period-SameTerm s entity invoices p actor effect start end)))
