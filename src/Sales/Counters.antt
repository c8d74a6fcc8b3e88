-- ===== src/Sales/Counters.antt =====
-- The counters of the customers agree with the recorded sales.
use review_flow.Base.{
  if◌then◌else◌, ℕ, Bool, false, ◌&&◌, ◌==◌, ◌≡◌, refl, sym, Option, none, some, List, [], ◌∷◌,
  String, arith, find, map, count_if, if_keeps,
}
use review_flow.Base.Text.{is_empty}
use review_flow.Sales.{
  Customer, Sale, Ledger, SaleCreated, Owned, Recorded, Answer, returned, raised, committed,
  recorded, refused, validate_e164, has_phone, customer_of, get_or_create_customer, count_sale,
  count_for, has_external, new_sale, insert_sale, record_for, record_phone, record_sale,
}

abbrev pub bought_by : ℕ → Sale → Bool
bought_by id sale = elim sale.customer_id [ none ↦ false | some c ↦ c == id ]

-- Every customer's `total_transactions` is the number of its sales.
abbrev pub Counts : List Customer → List Sale → Type 0
Counts [] sales = Unit {0}
Counts (c ∷ customers) sales =
    (c.total_transactions ≡ count_if (bought_by c.id) sales) × Counts customers sales

-- What a call adds to the tables.
abbrev pub Adds : Answer → Ledger → Ledger → Type 0
Adds (raised why) before after = after ≡ before
Adds (returned sale created) before after =
    after.sales ≡ (if created then sale ∷ before.sales else before.sales)

abbrev KeepsCounts : List Sale → Recorded → Type 0
KeepsCounts before (recorded sale created after) =
    Counts after.customers after.sales × (after.sales ≡ (if created then sale ∷ before else before))
KeepsCounts before (refused e) = Unit {0}

committed-Counts :
    (before : Ledger) (r : Recorded)
    → Counts before.customers before.sales
    → KeepsCounts before.sales r
    → let (answer, after) = committed before r in
      Counts after.customers after.sales × Adds answer before after
committed-Counts before (recorded sale created after) h kept = kept
committed-Counts before (refused why) h kept = (h, refl)

-- A sale and its customer's counter go together.
uncounted :
    (sale : Sale) (customers : List Customer) (sales : List Sale)
    → sale.customer_id ≡ none
    → Counts customers sales
    → Counts customers (sale ∷ sales)
uncounted sale [] sales anonymous h = tt
uncounted sale (c ∷ customers) sales anonymous (e, h) =
    (ground (arith, anonymous, e), uncounted sale customers sales anonymous h)

counted :
    (sale : Sale) (id at : ℕ) (customers : List Customer) (sales : List Sale)
    → sale.customer_id ≡ some id
    → Counts customers sales
    → Counts (map (count_sale id at) customers) (sale ∷ sales)
counted sale id at [] sales known h = tt
counted sale id at (c ∷ customers) sales known (e, h) =
    (ground (arith, known, e), counted sale id at customers sales known h)

count_for-Counts :
    (sale : Sale) (customer : Option ℕ) (customers : List Customer) (sales : List Sale)
    → sale.customer_id ≡ customer
    → Counts customers sales
    → Counts (count_for customer sale.occurred_at customers) (sale ∷ sales)
count_for-Counts sale none customers sales known h = uncounted sale customers sales known h
count_for-Counts sale (some id) customers sales known h =
    counted sale id sale.occurred_at customers sales known h

insert_sale-KeepsCounts :
    (sale : Sale) (found : Option Sale) (customers : List Customer) (sales : List Sale)
    → Counts customers sales
    → KeepsCounts sales (insert_sale sale found customers sales)
insert_sale-KeepsCounts sale (some stored) customers sales h = (h, refl)
insert_sale-KeepsCounts sale none customers sales h =
    (count_for-Counts sale sale.customer_id customers sales refl h, refl)

module _ (sale_id merchant : ℕ) (integration location : Owned) (sale : SaleCreated) where
  record_for-KeepsCounts :
      (customer : Option ℕ) (customers : List Customer) (sales : List Sale)
      → Counts customers sales
      → KeepsCounts sales
          (record_for sale_id merchant integration location sale customer customers sales)
  record_for-KeepsCounts customer customers sales h =
      if_keeps (KeepsCounts sales)
        (location.merchant_id == merchant && integration.merchant_id == merchant)
        (insert_sale-KeepsCounts (new_sale sale_id merchant integration location sale customer)
          (find (has_external location.id sale.external_transaction_id) sales) customers sales h)
        tt

  customer_of-Counts :
      (id : ℕ) (phone : String) (name : Option String) (customers : List Customer)
      (found : Option Customer) (sales : List Sale)
      → count_if (bought_by id) sales ≡ 0
      → Counts customers sales
      → Counts (customer_of id merchant phone name customers found).1 sales
  customer_of-Counts id phone name customers (some c) sales fresh h = h
  customer_of-Counts id phone name customers none sales fresh h = (sym fresh, h)

  record_phone-KeepsCounts :
      (is_decimal : ℕ → Bool) (customer_id : ℕ) (phone : Option String) (ledger : Ledger)
      → count_if (bought_by customer_id) ledger.sales ≡ 0
      → Counts ledger.customers ledger.sales
      → KeepsCounts ledger.sales (
          record_phone is_decimal customer_id sale_id merchant integration location sale phone
            ledger)
  unfolding get_or_create_customer
  record_phone-KeepsCounts is_decimal customer_id none ledger fresh h =
      record_for-KeepsCounts none ledger.customers ledger.sales h
  record_phone-KeepsCounts is_decimal customer_id (some phone) ledger fresh h =
      if_keeps (KeepsCounts ledger.sales) (is_empty phone)
        (record_for-KeepsCounts none ledger.customers ledger.sales h)
        (if_keeps (KeepsCounts ledger.sales) (validate_e164 is_decimal phone)
          (record_for-KeepsCounts _ _ ledger.sales (
            customer_of-Counts customer_id phone sale.customer_name ledger.customers
              (find (has_phone merchant phone) ledger.customers) ledger.sales fresh h))
          tt)

-- If every customer's counter is the number of its recorded sales, it is so after a call, whether the
-- sale is new, a duplicate, anonymous or refused, in a merchant's context or in none; the key of a new
-- customer is no recorded sale's. After a refusal the tables are as they were, and so are the sales
-- after a duplicate; otherwise exactly the returned sale is added.
pub record_sale-Counts :
    (is_decimal : ℕ → Bool) (customer_id sale_id : ℕ) (merchant : Option ℕ)
    (integration location : Owned) (sale : SaleCreated) (ledger : Ledger)
    → count_if (bought_by customer_id) ledger.sales ≡ 0
    → Counts ledger.customers ledger.sales
    → let (answer, after) =
        record_sale is_decimal customer_id sale_id merchant integration location sale ledger in
      Counts after.customers after.sales × Adds answer ledger after
unfolding record_sale
record_sale-Counts is_decimal customer_id sale_id none integration location sale ledger fresh h =
    (h, refl)
record_sale-Counts is_decimal customer_id sale_id (some merchant) integration location sale ledger
      fresh h =
    committed-Counts ledger _ h (
      record_phone-KeepsCounts sale_id merchant integration location sale is_decimal customer_id
        sale.customer_phone ledger fresh h)
