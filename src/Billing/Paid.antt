-- ===== src/Billing/Paid.antt =====
-- `current_period_paid` (billing/services.py): the invoice that proves the current period paid.
pub mod Window
use review_flow.Base.{
  ℕ, Bool, true, false, ◌&&◌, not, Option, none, some, List, [], ◌∷◌, String, if◌then◌else◌,
}
use review_flow.Base.Int.{ℤ, leb_ℤ, ltb_ℤ, is_zero}
use review_flow.Base.Text.{is_empty}
use review_flow.Billing.Provider.{Value, get, is_dict, as_text, as_int, is_text}

-- `_is_int(invoice.get("amount_due")) and invoice["amount_due"] == 0`
nothing_due : Value → Bool
nothing_due v = elim (as_int v) [ none ↦ false | some n ↦ is_zero n ]

-- `isinstance(payment_id, str) and payment_id`
has_payment : Value → Bool
has_payment v = elim (as_text v) [ none ↦ false | some id ↦ not (is_empty id) ]

-- `billing_start <= current_start < billing_end`, of two integers.
in_window : Option ℤ → Option ℤ → ℤ → Bool
in_window none _ start = false
in_window (some from) none start = false
in_window (some from) (some until) start = leb_ℤ from start && ltb_ℤ start until

-- The conditions of the loop's body.
qualifies : String → ℤ → Value → Bool
unfolding nothing_due has_payment in_window
qualifies ref start invoice =
    is_dict invoice
    && is_text (get invoice "subscription_id") ref
    && is_text (get invoice "status") "paid"
    && nothing_due (get invoice "amount_due")
    && has_payment (get invoice "payment_id")
    && in_window (as_int (get invoice "billing_start")) (as_int (get invoice "billing_end")) start

first_qualifying : String → ℤ → List Value → Option Value
first_qualifying ref start [] = none
first_qualifying ref start (invoice ∷ rest) =
    if qualifies ref start invoice then some invoice else first_qualifying ref start rest

-- The loop, once the entity's `id` and `current_start` are known to be a text and an integer. `not
-- invoices` holds of `None` and of an empty list.
among_invoices : Option String → Option ℤ → Option (List Value) → Option Value
among_invoices none start invoices = none
among_invoices (some ref) none invoices = none
among_invoices (some ref) (some start) none = none
among_invoices (some ref) (some start) (some invoices) = first_qualifying ref start invoices

unfoldable pub current_period_paid : Value → Option (List Value) → Option Value
unfolding among_invoices first_qualifying qualifies
current_period_paid entity invoices =
    among_invoices (as_text (get entity "id")) (as_int (get entity "current_start")) invoices
