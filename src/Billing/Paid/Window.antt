-- ===== src/Billing/Paid/Window.antt =====
-- What a paid period is: the invoice that the loop finds, described by its fields.
use mathlib.Core.List.{Memᴰ}
use mathlib.Core.Path.{subst}
use review_flow.Base.{
  Bool, true, false, ◌&&◌, Option, none, some, List, [], ◌∷◌, String, ◌≡◌, refl, sym, ◌≢◌, arith,
  Bool-cases, inl, inr,
}
use review_flow.Base.Int.{ℤ, pos, ◌≤ℤ◌, ◌<ℤ◌}
use review_flow.Base.Text.{is_empty, same_text_iff}
use review_flow.Billing.Provider.{
  Value, null, bool, int, text, other, dict, get, is_dict, as_text, as_int, is_text,
}
use review_flow.Billing.Paid.{
  nothing_due, has_payment, in_window, qualifies, among_invoices, first_qualifying,
  current_period_paid,
}

-- An invoice of the subscription `ref` that is paid in full by a payment, and whose billing window
-- holds the instant `start`.
pub record ProvesPaid (ref : String) (start : ℤ) (invoice : Value) : Type 0 where
  pub subscription : get invoice "subscription_id" ≡ text ref
  pub paid : get invoice "status" ≡ text "paid"
  pub settled : get invoice "amount_due" ≡ int (pos 0)
  pub payment : (id : String) × (get invoice "payment_id" ≡ text id) × (is_empty id ≡ false)
  pub window :
      (from until : ℤ) × (get invoice "billing_start" ≡ int from)
      × (get invoice "billing_end" ≡ int until)
      × (from ≤ℤ start)
      × (start <ℤ until)

is_text-eq : (v : Value) (s : String) → is_text v s ≡ true → v ≡ text s
is_text-eq (text t) s h = ground (arith, same_text_iff t s)
is_text-eq null s h = cc
is_text-eq (bool b) s h = cc
is_text-eq (int n) s h = cc
is_text-eq other s h = cc
is_text-eq (dict f) s h = cc

nothing_due-eq : (v : Value) → nothing_due v ≡ true → v ≡ int (pos 0)
unfolding nothing_due
nothing_due-eq (int n) h = ground arith
nothing_due-eq null h = cc
nothing_due-eq (bool b) h = cc
nothing_due-eq (text s) h = cc
nothing_due-eq other h = cc
nothing_due-eq (dict f) h = cc

has_payment-eq :
    (v : Value) → has_payment v ≡ true → (id : String) × (v ≡ text id) × (is_empty id ≡ false)
unfolding has_payment
has_payment-eq (text s) h = (s, refl, ground arith)
has_payment-eq null h = cc
has_payment-eq (bool b) h = cc
has_payment-eq (int n) h = cc
has_payment-eq other h = cc
has_payment-eq (dict f) h = cc

as_text-eq : (v : Value) {s : String} → as_text v ≡ some s → v ≡ text s
as_text-eq (text t) h = ground arith
as_text-eq null h = cc
as_text-eq (bool b) h = cc
as_text-eq (int n) h = cc
as_text-eq other h = cc
as_text-eq (dict f) h = cc

as_int-eq : (v : Value) {n : ℤ} → as_int v ≡ some n → v ≡ int n
as_int-eq (int m) h = ground arith
as_int-eq null h = cc
as_int-eq (bool b) h = cc
as_int-eq (text s) h = cc
as_int-eq other h = cc
as_int-eq (dict f) h = cc

-- The window test, as an order of integers.
in_window-order :
    (from until : Option ℤ) (start : ℤ)
    → in_window from until start ≡ true
    → (b e : ℤ) × (from ≡ some b) × (until ≡ some e) × (b ≤ℤ start) × (start <ℤ e)
unfolding in_window
in_window-order none until start h = cc
in_window-order (some b) none start h = cc
in_window-order (some b) (some e) start h = (b, e, refl, refl, ground arith, ground arith)

&&-true : (a b : Bool) → (a && b) ≡ true → (a ≡ true) × (b ≡ true)
&&-true true b h = (refl, h)
&&-true false b h = cc

is_dict-get : (v : Value) (key s : String) → get v key ≡ text s → is_dict v ≡ true
is_dict-get (dict f) key s h = refl
is_dict-get null key s h = cc
is_dict-get (bool b) key s h = cc
is_dict-get (int n) key s h = cc
is_dict-get (text t) key s h = cc
is_dict-get other key s h = cc

qualifies_sound :
    (ref : String) (start : ℤ) (invoice : Value)
    → qualifies ref start invoice ≡ true
    → ProvesPaid ref start invoice
unfolding qualifies
qualifies_sound ref start invoice h =
    let (h1, w) = &&-true _ _ h in
    let (h2, d) = &&-true _ _ h1 in
    let (h3, c) = &&-true _ _ h2 in
    let (h4, b) = &&-true _ _ h3 in
    let a = (&&-true _ _ h4).1 in
    let (from, until, e, f, g, k) = in_window-order _ _ start w in
    record {
      subscription = is_text-eq _ ref a;
      paid = is_text-eq _ "paid" b;
      settled = nothing_due-eq _ c;
      payment = has_payment-eq _ d;
      window = (from, until, as_int-eq _ e, as_int-eq _ f, g, k);
    }

qualifies_complete :
    (ref : String) (start : ℤ) (invoice : Value)
    → ProvesPaid ref start invoice
    → qualifies ref start invoice ≡ true
unfolding qualifies nothing_due has_payment in_window
qualifies_complete ref start invoice p =
    let (id, q, full) = p.payment in
    let (from, until, b, e, l, r) = p.window in
    rw (is_dict-get invoice _ _ p.paid, p.subscription, p.paid, p.settled, q, b, e)
      (ground (arith, same_text_iff ref ref))

-- The loop returns the first invoice that qualifies, so it returns one exactly if one does.
first_qualifying_sound :
    (ref : String) (start : ℤ) (invoices : List Value) {invoice : Value}
    → first_qualifying ref start invoices ≡ some invoice
    → Memᴰ invoice invoices × ProvesPaid ref start invoice
unfolding first_qualifying
first_qualifying_sound ref start [] h = cc
first_qualifying_sound ref start (x ∷ rest) {invoice} h =
    elim (Bool-cases (qualifies ref start x)) [
      | inl hit ↦
          let e : x ≡ invoice = ground arith in
          (Memᴰ.head (sym e), subst (ProvesPaid ref start) e (qualifies_sound ref start x hit))
      | inr miss ↦
          let (m, p) = first_qualifying_sound ref start rest (ground arith) in (Memᴰ.tail m, p)
    ]

first_qualifying_complete :
    (ref : String) (start : ℤ) {invoice : Value} {invoices : List Value}
    → Memᴰ invoice invoices
    → ProvesPaid ref start invoice
    → first_qualifying ref start invoices ≢ none
unfolding first_qualifying
first_qualifying_complete ref start (Memᴰ.head {x = x} e) p =
    rw (qualifies_complete ref start x (subst (ProvesPaid ref start) e p)) (λ h. cc)
first_qualifying_complete ref start (Memᴰ.tail m) p =
    ground (arith, first_qualifying_complete ref start m p)

-- An invoice of the fetched list that proves the entity's own current period paid.
pub record IsProof (entity : Value) (invoices : Option (List Value)) (invoice : Value)
    : Type 0 where
  pub ref : String
  pub start : ℤ
  pub fetched : List Value
  pub entity_id : get entity "id" ≡ text ref
  pub entity_start : get entity "current_start" ≡ int start
  pub were_fetched : invoices ≡ some fetched
  pub is_fetched : Memᴰ invoice fetched
  pub proves : ProvesPaid ref start invoice

among_invoices_sound :
    (id : Option String) (begin : Option ℤ) (invoices : Option (List Value)) {invoice : Value}
    → among_invoices id begin invoices ≡ some invoice
    → (ref : String) × (start : ℤ) × (fetched : List Value) × (id ≡ some ref)
      × (begin ≡ some start)
      × (invoices ≡ some fetched)
      × Memᴰ invoice fetched
      × ProvesPaid ref start invoice
unfolding among_invoices
among_invoices_sound none begin invoices h = cc
among_invoices_sound (some ref) none invoices h = cc
among_invoices_sound (some ref) (some start) none h = cc
among_invoices_sound (some ref) (some start) (some fetched) h =
    let (m, p) = first_qualifying_sound ref start fetched h in
    (ref, start, fetched, refl, refl, refl, m, p)

-- Whatever `current_period_paid` returns is an invoice of the fetched list that belongs to the
-- subscription, is paid with nothing due and a payment id, and whose window holds the period's start.
pub current_period_paid_sound :
    (entity : Value) (invoices : Option (List Value)) {invoice : Value}
    → current_period_paid entity invoices ≡ some invoice
    → IsProof entity invoices invoice
unfolding current_period_paid
current_period_paid_sound entity invoices h =
    let (ref, start, fetched, a, b, c, m, p) = among_invoices_sound _ _ invoices h in
    record {
      ref = ref;
      start = start;
      fetched = fetched;
      entity_id = as_text-eq _ a;
      entity_start = as_int-eq _ b;
      were_fetched = c;
      is_fetched = m;
      proves = p;
    }

-- Conversely, a list that holds such an invoice is never refused.
pub current_period_paid_complete :
    (entity : Value) (invoices : Option (List Value)) (invoice : Value)
    → IsProof entity invoices invoice
    → current_period_paid entity invoices ≢ none
unfolding current_period_paid
current_period_paid_complete entity invoices invoice p =
    rw (p.entity_id, p.entity_start, p.were_fetched, among_invoices)
      (first_qualifying_complete p.ref p.start p.is_fetched p.proves)
