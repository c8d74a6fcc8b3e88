-- ===== src/Billing/Webhook.antt =====
-- The receiver of Razorpay's webhooks (billing/services.py, and verify_webhook_signature of
-- billing/razorpay.py): the checks of a delivery in their order, the lookup of the merchant by the
-- provider's reference, and the inbox write.
pub mod Payload
pub mod Cases
pub mod Deliveries
use review_flow.Base.{
  ℕ, Bool, true, false, ◌&&◌, ◌||◌, not, Option, none, some, List, [], ◌∷◌, String, ltb, leb, any,
  find, length, is_some, if◌then◌else◌,
}
use review_flow.Base.Text.{same_text, is_empty, codes, matches}
use review_flow.Tenancy.Forms.{is_valid_billing_ref}
use review_flow.Billing.Model.{Subscription, BillingEvent}
use review_flow.Billing.Provider.{Value, null, bool, int, text, other, dict, get, is_dict, as_text}
use review_flow.Billing.Retired.{holds}
use review_flow.Billing.Exec.{Error, webhook_rejected, invalid_payload, Result, ok, err}

pub data IdFailure : Type 0 where
  missing not_string empty too_long invalid_characters : IdFailure

-- `[\x21-\x7E]`
abbrev is_printable : ℕ → Bool
is_printable c = leb 33 c && leb c 126

abbrev text_failure : String → Option IdFailure
text_failure s =
    if is_empty s
    then some empty
    else if ltb 64 (length (codes s))
    then some too_long
    else if not (matches is_printable 1 64 (codes s))
    then some invalid_characters
    else none

-- `event_id_failure`
unfoldable pub event_id_failure : Value → Option IdFailure
event_id_failure null = some missing
event_id_failure (text s) = text_failure s
event_id_failure (bool b) = some not_string
event_id_failure (int n) = some not_string
event_id_failure other = some not_string
event_id_failure (dict entries) = some not_string

-- The secret of the settings, the HMAC in hexadecimal digits, and `json.loads`, `none` if it raises.
pub record Service : Type 0 where
  pub secret : String
  pub hmac : String → String → String
  pub loads : String → Option Value

-- `verify_webhook_signature`
unfoldable pub verify_webhook_signature : Service → String → Option String → Bool
verify_webhook_signature service body none = false
verify_webhook_signature service body (some signature) =
    not (is_empty service.secret)
    && not (is_empty signature)
    && same_text (service.hmac service.secret body) signature

-- `_parse_event`: the event's type and the subscription entity's id, `none` without an entity. An
-- entity without an id gives `null`, which is as little a reference as no entity.
abbrev event_of : Value → Option String → Result (String × Option Value)
event_of payload none = err invalid_payload
event_of payload (some event_type) =
    if leb 1 (length (codes event_type)) && leb (length (codes event_type)) 64
    then (let entity = get (get (get payload "payload") "subscription") "entity" in
        ok (event_type, if is_dict entity then some (get entity "id") else none))
    else err invalid_payload

abbrev read_payload : Option Value → Result (String × Option Value)
read_payload none = err invalid_payload
read_payload (some payload) =
    if is_dict payload
    then event_of payload (as_text (get payload "event"))
    else err invalid_payload

unfoldable pub parse_event : Service → String → Result (String × Option Value)
parse_event service body = read_payload (service.loads body)

-- A row of the inbox, with its merchant.
pub record Stored : Type 0 where
  pub merchant_id : ℕ
  pub event : BillingEvent

-- Every merchant's subscription and events, the references that were looked up, and the merchants
-- whose sync was enqueued.
pub record Inbox : Type 0 where
  pub rows : List Subscription
  pub events : List Stored
  pub lookups : List String
  pub enqueued : List ℕ

pub record Delivery : Type 0 where
  pub body : String
  pub signature : Option String
  pub event_id : Value

-- `Subscription.objects.for_lookup_ref(ref)`
abbrev pub names_ref : String → Subscription → Bool
names_ref ref sub = holds sub.payment_provider_ref ref || holds sub.replacement_provider_ref ref

abbrev pub has_event_id : String → Stored → Bool
has_event_id id stored = same_text stored.event.provider_event_id id

abbrev pub new_event : ℕ → Subscription → String → String → String → Stored
new_event at sub id event_type ref = record {
  merchant_id = sub.merchant_id;
  event = record {
    provider_event_id = id;
    event_type = event_type;
    provider_ref = ref;
    created_at = at;
    processed_at = none;
  };
}

-- The insert, unless the constraint on the event ids refuses it, and the sync on commit.
unfoldable pub insert_event : ℕ → String → String → String → Subscription → Inbox → Inbox
insert_event at id event_type ref sub inbox =
    if any (has_event_id id) inbox.events then inbox else record inbox {
      events = new_event at sub id event_type ref ∷ inbox.events;
      enqueued = sub.merchant_id ∷ inbox.enqueued;
    }

abbrev store_found : ℕ → String → String → String → Option Subscription → Inbox → Inbox
store_found at id event_type ref none inbox = inbox
store_found at id event_type ref (some sub) inbox = insert_event at id event_type ref sub inbox

abbrev looked_up : String → Inbox → Inbox
looked_up ref inbox = record inbox { lookups = ref ∷ inbox.lookups }

-- Steps 6 and 7, in no merchant's context.
abbrev resolve : Option ℕ → ℕ → String → String → String → Inbox → Result (Unit {0}) × Inbox
resolve (some merchant) at id event_type ref inbox = (err webhook_rejected, inbox)
resolve none at id event_type ref inbox = (
  ok tt,
  store_found at id event_type ref (find (names_ref ref) inbox.rows) (looked_up ref inbox),
)

abbrev valid_ref : Option String → Option String
valid_ref none = none
valid_ref (some ref) = if is_valid_billing_ref ref then some ref else none

abbrev pub event_ref : Option Value → Option String
event_ref none = none
event_ref (some id) = valid_ref (as_text id)

abbrev resolve_ref :
    Option ℕ → ℕ → String → String → Option String → Inbox → Result (Unit {0}) × Inbox
resolve_ref tenant at id event_type none inbox = (ok tt, inbox)
resolve_ref tenant at id event_type (some ref) inbox = resolve tenant at id event_type ref inbox

abbrev receive_parsed :
    Option ℕ → ℕ → String → Result (String × Option Value) → Inbox → Result (Unit {0}) × Inbox
receive_parsed tenant at id (err e) inbox = (err e, inbox)
receive_parsed tenant at id (ok (event_type, found)) inbox =
    resolve_ref tenant at id event_type (event_ref found) inbox

abbrev receive_named :
    Service → Option ℕ → ℕ → String → Option String → Inbox → Result (Unit {0}) × Inbox
receive_named service tenant at body none inbox = (err webhook_rejected, inbox)
receive_named service tenant at body (some id) inbox =
    receive_parsed tenant at id (parse_event service body) inbox

-- `receive_webhook`
unfoldable pub receive_webhook :
    Service → Option ℕ → ℕ → Delivery → Inbox → Result (Unit {0}) × Inbox
receive_webhook service tenant at d inbox =
    if verify_webhook_signature service d.body d.signature
      && not (is_some (event_id_failure d.event_id))
    then receive_named service tenant at d.body (as_text d.event_id) inbox
    else (err webhook_rejected, inbox)
