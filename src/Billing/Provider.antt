-- ===== src/Billing/Provider.antt =====
-- What Razorpay answers: JSON values as Python reads them, subscription entities and instants. The
-- provider itself is no part of the repository: its answers are arguments of the services.
use review_flow.Base.{
  ℕ, suc, ◌+◌, ◌-◌, ◌*◌, Bool, true, false, Option, none, some, List, [], ◌∷◌, String, leb,
  if◌then◌else◌,
}
use review_flow.Base.Int.{ℤ, pos, negsuc}
use review_flow.Base.Text.{same_text, take}
use review_flow.Billing.Model.{
  ProviderStatus, created, authenticated, active, pending, halted, cancelled, completed, expired,
  paused, unrecognized, Plan, second,
}

-- A value of `json.loads`. `other` is a float or a list, which the services never look into.
pub data Value : Type 0 where
  null : Value
  bool : Bool → Value
  int : ℤ → Value
  text : String → Value
  other : Value
  dict : (String → Value) → Value

-- `value.get(key) if isinstance(value, dict) else None`; a dict gives `None` for a missing key.
abbrev pub get : Value → String → Value
get (dict entries) key = entries key
get null key = null
get (bool b) key = null
get (int n) key = null
get (text s) key = null
get other key = null

abbrev pub is_dict : Value → Bool
is_dict (dict _) = true
is_dict null = false
is_dict (bool b) = false
is_dict (int n) = false
is_dict (text s) = false
is_dict other = false

-- `isinstance(value, str)`, with the text.
abbrev pub as_text : Value → Option String
as_text (text s) = some s
as_text null = none
as_text (bool b) = none
as_text (int n) = none
as_text other = none
as_text (dict _) = none

-- `_is_int`, with the integer: a `bool` is none.
abbrev pub as_int : Value → Option ℤ
as_int (int n) = some n
as_int null = none
as_int (bool b) = none
as_int (text s) = none
as_int other = none
as_int (dict _) = none

-- `value == s`, of a value and a text.
abbrev pub is_text : Value → String → Bool
is_text (text s) t = same_text s t
is_text null t = false
is_text (bool b) t = false
is_text (int n) t = false
is_text other t = false
is_text (dict _) t = false

-- A dictionary display, for concrete entities.
unfoldable pub entries : List (String × Value) → String → Value
entries [] key = null
entries ((k, v) ∷ rest) key = if same_text k key then v else entries rest key

-- A status text by cases.
unfoldable pub provider_status_of : String → ProviderStatus
provider_status_of s =
    if same_text s "created"
    then created
    else if same_text s "authenticated"
    then authenticated
    else if same_text s "active"
    then active
    else if same_text s "pending"
    then pending
    else if same_text s "halted"
    then halted
    else if same_text s "cancelled"
    then cancelled
    else if same_text s "completed"
    then completed
    else if same_text s "expired"
    then expired
    else if same_text s "paused"
    then paused
    else unrecognized s

-- `entity.get("status")`, where it is a text.
abbrev pub entity_status : Value → Option ProviderStatus
entity_status entity = elim (as_text (get entity "status")) [
  | none ↦ none
  | some s ↦ some (provider_status_of s)
]

-- `status[:16]`: the names are shorter than that, and what is cut is none of them.
unfoldable pub truncated : ProviderStatus → ProviderStatus
truncated (unrecognized s) = unrecognized (take 16 s)
truncated created = created
truncated authenticated = authenticated
truncated active = active
truncated pending = pending
truncated halted = halted
truncated cancelled = cancelled
truncated completed = completed
truncated expired = expired
truncated paused = paused

-- `status in TERMINAL_PROVIDER_STATUSES`
abbrev pub is_terminal : ProviderStatus → Bool
is_terminal cancelled = true
is_terminal completed = true
is_terminal expired = true
is_terminal _ = false

-- `provider_may_be_cancelled`, `CANCELLABLE_PROVIDER_STATUSES`
unfoldable pub provider_may_be_cancelled : Option ProviderStatus → Bool
provider_may_be_cancelled none = false
provider_may_be_cancelled (some created) = true
provider_may_be_cancelled (some pending) = true
provider_may_be_cancelled (some halted) = true
provider_may_be_cancelled (some active) = true
provider_may_be_cancelled (some _) = false

-- The Unix epoch and the last second of the year 9999, in seconds from the first instant and from
-- the epoch.
abbrev pub unix_epoch : ℕ
unix_epoch = 62135596800

abbrev pub last_unix_second : ℕ
last_unix_second = 253402300799

-- `_from_unix`: `none` for what is no integer, and outside the years 1 to 9999.
unfoldable pub from_unix : Value → Option ℕ
from_unix (int (pos n)) = if leb n last_unix_second then some ((unix_epoch + n) * second) else none
from_unix (int (negsuc n)) =
    if leb (suc n) unix_epoch then some ((unix_epoch - suc n) * second) else none
from_unix null = none
from_unix (bool b) = none
from_unix (text s) = none
from_unix other = none
from_unix (dict _) = none

-- What a call of billing.razorpay ends in: an entity, or one of its three exceptions. A rejection
-- carries the status, the provider's code and the reason.
pub data Reply : Type 0 where
  answered : Value → Reply
  unavailable : Reply
  rejected : Value → Value → Value → Reply
  not_configured : Reply

-- `Plan.objects.filter(provider_plan_id=plan_id).first()`, the filter's test.
abbrev pub has_provider_plan_id : Value → Plan → Bool
has_provider_plan_id v p = elim p.provider_plan_id [ none ↦ false | some id ↦ is_text v id ]

abbrev pub plan_named : List Plan → Value → Option Plan
plan_named [] v = none
plan_named (p ∷ plans) v = if has_provider_plan_id v p then some p else plan_named plans v
