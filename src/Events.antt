-- ===== src/Events.antt =====
-- The inbox of sale events (events/services.py, events/models.py): its write, one processing
-- attempt, and the query of the retry sweep. What the adapters, the location mapping and the sales
-- ledger do with an event is a parameter, `Handle`.
pub mod Rules
pub mod Attempts
pub mod Retries
pub mod Sweep
pub mod Inbox
mod Tests
use review_flow.Base.{
  ℕ, ◌+◌, ◌-◌, ◌*◌, ◌^◌, Bool, true, false, ◌&&◌, ◌||◌, not, ◌==◌, Option, none, some, List, [],
  ◌∷◌, String, ltb, leb, find, any, if◌then◌else◌,
}
use review_flow.Base.Text.{same_text}

-- `IntegrationEvent.Status`
pub data Status : Type 0 where
  received processed failed dead_letter cancelled : Status

-- The columns that the services read or write. The payload is the handler's business.
pub record Event : Type 0 where
  pub id : ℕ
  pub integration_id : ℕ
  pub external_event_id : String
  pub status : Status
  pub received_at : Option ℕ
  pub attempt_count : ℕ
  pub error_code : Option String
  pub error_message : Option String
  pub location : Option ℕ
  pub processed_at : Option ℕ
  pub updated_at : ℕ

abbrev pub max_event_attempts : ℕ
max_event_attempts = 5

-- `RETRY_BASE` and `STALE_RECEIVED_AFTER`, in microseconds.
abbrev pub retry_base : ℕ
retry_base = 300000000

abbrev pub stale_received_after : ℕ
stale_received_after = 600000000

-- `SAFE_ERRORS`
abbrev pub safe_errors : List (String × String)
safe_errors =
    ("ADAPTER_NOT_FOUND", "No adapter is registered for this integration's provider.")
    ∷ ("PAYLOAD_INVALID", "The event payload failed validation.")
    ∷ ("INVALID_PHONE", "The customer phone is not a valid E.164 number.")
    ∷ ("INVALID_CURRENCY", "The currency is not a valid ISO 4217 code.")
    ∷ ("INVALID_AMOUNT", "The amount is missing or negative.")
    ∷ ("INVALID_OCCURRED_AT", "The sale time is missing or has no timezone.")
    ∷ ("INVALID_EXTERNAL_TRANSACTION_ID", "The external transaction ID is missing or too long.")
    ∷ ("LOCATION_UNRESOLVED", "The sale could not be mapped to a location.")
    ∷ ("PROCESSING_ERROR", "Event processing failed")
    ∷ []

-- An exception of the attempt, as `_safe_error` tells them apart: a payload error brings a code, any
-- other exception a text.
pub data Failure : Type 0 where
  adapter_not_found : Failure
  payload_validation : String → Failure
  location_unresolved : Failure
  unexpected : String → Failure

abbrev pub has_code : String → List (String × String) → Bool
has_code code [] = false
has_code code ((c, message) ∷ rest) = same_text c code || has_code code rest

-- `SAFE_ERRORS[code]`
abbrev pub message_of : String → List (String × String) → Option String
message_of code [] = none
message_of code ((c, message) ∷ rest) =
    if same_text c code then some message else message_of code rest

-- The code of `_safe_error`.
unfoldable pub safe_code : Failure → String
safe_code adapter_not_found = "ADAPTER_NOT_FOUND"
safe_code (payload_validation code) = if has_code code safe_errors then code else "PAYLOAD_INVALID"
safe_code location_unresolved = "LOCATION_UNRESOLVED"
safe_code (unexpected why) = "PROCESSING_ERROR"

-- The wait before the next attempt: `RETRY_BASE * (2 ** max(event.attempt_count - 1, 0))`.
unfoldable pub backoff : ℕ → ℕ
backoff attempts = retry_base * 2 ^ (attempts - 1)

-- `_is_due`
unfoldable pub is_due : ℕ → Event → Bool
is_due now e = leb (e.updated_at + backoff e.attempt_count) now

-- What the body of the savepoint ends in: the location of the sale and the sales as recorded, or an
-- exception, after which the savepoint is rolled back.
pub data Handled (Sales : Type 0) : Type 0 where
  sold : ℕ → Sales → Handled Sales
  raised : Failure → Handled Sales

abbrev pub Handle : Type 0 → Type 0
Handle Sales = Event → Sales → Handled Sales

-- The readings of the clock in one attempt: of `_is_due`, of `processed_at` and of the save.
pub record Clock : Type 0 where
  pub decided : ℕ
  pub finished : ℕ
  pub saved : ℕ

-- `_record_failure`
unfoldable pub record_failure : ℕ → Event → Failure → Event
record_failure saved e why =
    let count = e.attempt_count + 1 in
    let code = safe_code why in
    record e {
      attempt_count = count;
      error_code = some code;
      error_message = message_of code safe_errors;
      status = if leb max_event_attempts count then dead_letter else failed;
      updated_at = saved;
    }

-- The two early returns of `process_event`.
unfoldable pub skips : ℕ → Event → Bool
skips now e = elim e.status [
  | processed ↦ true
  | dead_letter ↦ true
  | cancelled ↦ true
  | received ↦ false
  | failed ↦ not (is_due now e)
]

-- The end of the attempt.
abbrev pub conclude : {Sales : Type 0} → Clock → Event → Sales → Handled Sales → Event × Sales
conclude clock e sales (raised why) = (record_failure clock.saved e why, sales)
conclude clock e sales (sold place sales') = (
  record e {
    status = processed;
    location = some place;
    processed_at = some clock.finished;
    error_code = none;
    error_message = none;
    updated_at = clock.saved;
  },
  sales',
)

-- `process_event`, on the locked row; `disconnected` is of the integration at that time.
unfoldable pub process_event :
    {Sales : Type 0} → Handle Sales → Clock → Bool → Event → Sales → Event × Sales
process_event handle clock disconnected e sales =
    if skips clock.decided e
    then (e, sales)
    else if disconnected
    then (record e { status = cancelled; updated_at = clock.saved }, sales)
    else conclude clock e sales (handle e sales)

-- The loop of `due_event_ids`, a candidate at a time.
unfoldable pub is_listed : ℕ → Event → Bool
is_listed now e = elim e.status [
  | received ↦ elim e.received_at [ none ↦ false | some at ↦ ltb (at + stale_received_after) now ]
  | failed ↦ is_due now e
  | processed ↦ false
  | dead_letter ↦ false
  | cancelled ↦ false
]

-- `due_event_ids`, of the rows that no other worker has locked.
unfoldable pub due_event_ids : ℕ → List Event → List ℕ
due_event_ids now [] = []
due_event_ids now (e ∷ events) =
    let rest = due_event_ids now events in if is_listed now e then e.id ∷ rest else rest

-- What `record_event` reads of the integration.
pub record Integration : Type 0 where
  pub id : ℕ
  pub merchant_id : ℕ
  pub is_disconnected : Bool

pub data Recorded : Type 0 where
  recorded : Event → Bool → List Event → Recorded
  tenant_context_error : Recorded
  integration_disconnected : Recorded

abbrev pub has_key : ℕ → String → Event → Bool
has_key integration external e =
    e.integration_id == integration && same_text e.external_event_id external

-- The row that `record_event` inserts; the key of the row is the database's choice.
abbrev pub new_event : ℕ → ℕ → ℕ → Integration → String → Event
new_event id now saved i external = record {
  id = id;
  integration_id = i.id;
  external_event_id = external;
  status = received;
  received_at = some now;
  attempt_count = 0;
  error_code = none;
  error_message = none;
  location = none;
  processed_at = none;
  updated_at = saved;
}

-- The insert, and the `get` after the unique constraint on the integration and the external id has
-- refused it: which of the two it is depends on whether the key is there.
abbrev insert_or_get : ℕ → ℕ → ℕ → Integration → String → List Event → Option Event → Recorded
insert_or_get id now saved i external events (some existing) = recorded existing false events
insert_or_get id now saved i external events none =
    let e = new_event id now saved i external in recorded e true (e ∷ events)

-- `record_event`
unfoldable pub record_event : Option ℕ → ℕ → ℕ → ℕ → Integration → String → List Event → Recorded
record_event none id now saved i external events = tenant_context_error
record_event (some merchant) id now saved i external events =
    if not (merchant == i.merchant_id)
    then tenant_context_error
    else if i.is_disconnected
    then integration_disconnected
    else insert_or_get id now saved i external events (find (has_key i.id external) events)
