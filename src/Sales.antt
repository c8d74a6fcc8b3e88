-- ===== src/Sales.antt =====
-- The ledger of sales (transactions/services.py, customers/services.py): a sale is recorded once per
-- location and external id, under a customer per phone, whose counters follow the recorded sales.
pub mod Counters
mod Tests
use review_flow.Base.{
  ℕ, ◌+◌, Bool, true, false, ◌&&◌, ◌||◌, not, ◌==◌, Option, none, some, List, [], ◌∷◌, String, find,
  any, leb, map, if◌then◌else◌,
}
use review_flow.Base.Text.{same_text, is_empty, codes, matches}
use review_flow.Tenancy.Forms.{before_newline}

-- `Customer`
pub record Customer : Type 0 where
  pub id : ℕ
  pub merchant_id : ℕ
  pub phone : String
  pub name : Option String
  pub first_seen_at : Option ℕ
  pub last_seen_at : Option ℕ
  pub total_transactions : ℕ
  pub opted_out : Bool
  pub opted_out_at : Option ℕ

-- `Transaction`, every row of which is COMPLETED; the amount is in the hundredths of its two decimals.
pub record Sale : Type 0 where
  pub id : ℕ
  pub merchant_id : ℕ
  pub location_id : ℕ
  pub customer_id : Option ℕ
  pub integration_id : ℕ
  pub external_id : String
  pub amount : ℕ
  pub currency : String
  pub payment_method : Option String
  pub occurred_at : ℕ

-- The tables, as the merchant's transaction sees them.
pub record Ledger : Type 0 where
  pub customers : List Customer
  pub sales : List Sale

-- `SaleCreated`, as far as it is recorded.
pub record SaleCreated : Type 0 where
  pub customer_phone : Option String
  pub customer_name : Option String
  pub external_transaction_id : String
  pub amount : ℕ
  pub currency : String
  pub payment_method : Option String
  pub occurred_at : ℕ

pub data Refusal : Type 0 where
  invalid_phone tenant_context_error : Refusal

-- What `record_sale` returns or raises.
pub data Answer : Type 0 where
  returned : Sale → Bool → Answer
  raised : Refusal → Answer

-- What its block comes to, before it is committed or rolled back.
pub data Recorded : Type 0 where
  recorded : Sale → Bool → Ledger → Recorded
  refused : Refusal → Recorded

-- `E164_RE`: a plus sign, a digit from 1 to 9 and seven to fourteen decimal digits, which `\d` takes
-- from all of Unicode (`is_decimal`).
abbrev rest_is_e164 : (ℕ → Bool) → List ℕ → Bool
rest_is_e164 is_decimal [] = false
rest_is_e164 is_decimal (c ∷ cs) = leb b'1' c && leb c b'9' && matches is_decimal 7 14 cs

abbrev matches_e164 : (ℕ → Bool) → List ℕ → Bool
matches_e164 is_decimal [] = false
matches_e164 is_decimal (c ∷ cs) = c == b'+' && rest_is_e164 is_decimal cs

-- `validate_e164`; `$` also matches before a newline at the end.
unfoldable pub validate_e164 : (ℕ → Bool) → String → Bool
validate_e164 is_decimal phone =
    matches_e164 is_decimal (codes phone) || matches_e164 is_decimal (before_newline (codes phone))

abbrev pub has_phone : ℕ → String → Customer → Bool
has_phone merchant phone c = c.merchant_id == merchant && same_text c.phone phone

abbrev pub new_customer : ℕ → ℕ → String → Option String → Customer
new_customer id merchant phone name = record {
  id = id;
  merchant_id = merchant;
  phone = phone;
  name = name;
  first_seen_at = none;
  last_seen_at = none;
  total_transactions = 0;
  opted_out = false;
  opted_out_at = none;
}

-- `get_or_create_customer` of a valid phone, whose insert the unique constraint refuses if the phone
-- is there: the customer, and the customers.
abbrev customer_of :
    ℕ → ℕ → String → Option String → List Customer → Option Customer → Customer × List Customer
customer_of id merchant phone name customers (some c) = (c, customers)
customer_of id merchant phone name customers none =
    (new_customer id merchant phone name, new_customer id merchant phone name ∷ customers)

unfoldable pub get_or_create_customer :
    ℕ → ℕ → String → Option String → List Customer → Customer × List Customer
get_or_create_customer id merchant phone name customers =
    customer_of id merchant phone name customers (find (has_phone merchant phone) customers)

abbrev least : Option ℕ → ℕ → ℕ
least none at = at
least (some seen) at = if leb seen at then seen else at

abbrev greatest : Option ℕ → ℕ → ℕ
greatest none at = at
greatest (some seen) at = if leb seen at then at else seen

-- The update of the counters.
abbrev pub count_sale : ℕ → ℕ → Customer → Customer
count_sale id at c =
    if c.id == id
    then record c {
      total_transactions = c.total_transactions + 1;
      first_seen_at = some (least c.first_seen_at at);
      last_seen_at = some (greatest c.last_seen_at at);
    }
    else c

abbrev pub count_for : Option ℕ → ℕ → List Customer → List Customer
count_for none at customers = customers
count_for (some id) at customers = map (count_sale id at) customers

abbrev pub has_external : ℕ → String → Sale → Bool
has_external location external sale =
    sale.location_id == location && same_text sale.external_id external

-- An integration or a location, by its key and its merchant.
pub record Owned : Type 0 where
  pub id : ℕ
  pub merchant_id : ℕ

abbrev pub new_sale : ℕ → ℕ → Owned → Owned → SaleCreated → Option ℕ → Sale
new_sale id merchant integration location sale customer = record {
  id = id;
  merchant_id = merchant;
  location_id = location.id;
  customer_id = customer;
  integration_id = integration.id;
  external_id = sale.external_transaction_id;
  amount = sale.amount;
  currency = sale.currency;
  payment_method = sale.payment_method;
  occurred_at = sale.occurred_at;
}

-- The insert of the transaction, refused by its unique constraint if the sale is there, and the
-- counters of its customer.
abbrev insert_sale : Sale → Option Sale → List Customer → List Sale → Recorded
insert_sale sale (some stored) customers sales =
    recorded stored false (record { customers = customers; sales = sales })
insert_sale sale none customers sales = recorded sale true (record {
  customers = count_for sale.customer_id sale.occurred_at customers;
  sales = sale ∷ sales;
})

abbrev record_for :
    ℕ → ℕ → Owned → Owned → SaleCreated → Option ℕ → List Customer → List Sale → Recorded
record_for sale_id merchant integration location sale customer customers sales =
    if location.merchant_id == merchant && integration.merchant_id == merchant
    then insert_sale (new_sale sale_id merchant integration location sale customer)
        (find (has_external location.id sale.external_transaction_id) sales) customers sales
    else refused tenant_context_error

abbrev record_phone :
    (ℕ → Bool) → ℕ → ℕ → ℕ → Owned → Owned → SaleCreated → Option String → Ledger → Recorded
record_phone is_decimal customer_id sale_id merchant integration location sale none ledger =
    record_for sale_id merchant integration location sale none ledger.customers ledger.sales
record_phone is_decimal customer_id sale_id merchant integration location sale (some phone) ledger =
    if is_empty phone
    then record_for sale_id merchant integration location sale none ledger.customers ledger.sales
    else if validate_e164 is_decimal phone
    then (let (c, customers) =
          get_or_create_customer customer_id merchant phone sale.customer_name ledger.customers in
        record_for sale_id merchant integration location sale (some c.id) customers ledger.sales)
    else refused invalid_phone

-- `tenant_atomic`: what is refused leaves the tables as they were.
abbrev committed : Ledger → Recorded → Answer × Ledger
committed before (recorded sale created after) = (returned sale created, after)
committed before (refused why) = (raised why, before)

-- `record_sale`, in the context of a merchant, if there is one. The keys are those of the next rows.
unfoldable pub record_sale :
    (ℕ → Bool) → ℕ → ℕ → Option ℕ → Owned → Owned → SaleCreated → Ledger → Answer × Ledger
record_sale is_decimal customer_id sale_id none integration location sale ledger =
    (raised tenant_context_error, ledger)
record_sale is_decimal customer_id sale_id (some merchant) integration location sale ledger =
    committed ledger (
      record_phone is_decimal customer_id sale_id merchant integration location sale
        sale.customer_phone ledger)
