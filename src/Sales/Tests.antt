-- ===== src/Sales/Tests.antt =====
-- A sale of a known customer.
use review_flow.Base.{ℕ, Bool, true, ◌≡◌, ◌&&◌, refl, none, some, [], ◌∷◌, leb}
use review_flow.Sales.{
  Customer, Ledger, SaleCreated, Owned, returned, record_sale, validate_e164,
  get_or_create_customer, new_customer, new_sale, count_sale,
}
use review_flow.Sales.Counters.{Counts, Adds, record_sale-Counts}

abbrev is_decimal : ℕ → Bool
is_decimal c = leb b'0' c && leb c b'9'

abbrev shop : Owned
shop = record { id = 3; merchant_id = 7 }

abbrev sale : SaleCreated
sale = record {
  customer_phone = some "+919812345678";
  customer_name = none;
  external_transaction_id = "ext_1";
  amount = 25000;
  currency = "INR";
  payment_method = none;
  occurred_at = 100;
}

abbrev customer : Customer
customer = new_customer 1 7 "+919812345678" none

abbrev ledger : Ledger
ledger = record { customers = customer ∷ []; sales = [] }

record_sale-Counts_example :
    let (answer, after) = record_sale is_decimal 2 1 (some 7) shop shop sale ledger in
    Counts after.customers after.sales × Adds answer ledger after
record_sale-Counts_example =
    record_sale-Counts is_decimal 2 1 (some 7) shop shop sale ledger refl (refl, tt)

counted_once : record_sale is_decimal 2 1 (some 7) shop shop sale ledger ≡ (
  returned (new_sale 1 7 shop shop sale (some 1)) true,
  record {
    customers = count_sale 1 100 customer ∷ [];
    sales = new_sale 1 7 shop shop sale (some 1) ∷ [];
  },
)
unfolding record_sale validate_e164 get_or_create_customer
counted_once = refl
