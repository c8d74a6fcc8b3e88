-- ===== src/Events/Rules.antt =====
-- What always holds of an event row.
use review_flow.Base.{
  ℕ, ◌+◌, ◌<◌, Bool, true, false, ◌≡◌, refl, Option, none, some, String, leb, is_some, is_none,
  Bool-cases, inl, inr, arith, ◌==◌, if_keeps, ◌&&◌,
}
use review_flow.Events.{
  Status, received, processed, failed, dead_letter, cancelled, Event, Failure, adapter_not_found,
  payload_validation, location_unresolved, unexpected, has_code, message_of, safe_errors, safe_code,
  record_failure, process_event, Handle, Handled, raised, sold, Clock, conclude, skips,
}

abbrev error_rule : Status → Option String → Option String → Bool
error_rule received code message = is_none code && is_none message
error_rule processed code message = is_none code && is_none message
error_rule failed none message = false
error_rule failed (some code) message = has_code code safe_errors
error_rule dead_letter none message = false
error_rule dead_letter (some code) message = has_code code safe_errors
error_rule cancelled none message = true
error_rule cancelled (some code) message = has_code code safe_errors

-- How many attempts have failed, by the status.
abbrev count_rule : Status → ℕ → Bool
count_rule received n = n == 0
count_rule processed n = leb n 4
count_rule failed n = leb 1 n && leb n 4
count_rule dead_letter n = n == 5
count_rule cancelled n = leb n 4

abbrev sale_rule : Status → Option ℕ → Option ℕ → Bool
sale_rule processed place at = is_some place && is_some at
sale_rule received place at = is_none place && is_none at
sale_rule failed place at = is_none place && is_none at
sale_rule dead_letter place at = is_none place && is_none at
sale_rule cancelled place at = is_none place && is_none at

-- The message is the fixed text of the code.
abbrev fixed_message : Option String → Option String
fixed_message none = none
fixed_message (some code) = message_of code safe_errors

pub record IsValid (e : Event) : Type 0 where
  pub count : count_rule e.status e.attempt_count ≡ true
  pub error : error_rule e.status e.error_code e.error_message ≡ true
  pub message : e.error_message ≡ fixed_message e.error_code
  pub sale : sale_rule e.status e.location e.processed_at ≡ true

safe_code-safe : (why : Failure) → has_code (safe_code why) safe_errors ≡ true
unfolding safe_code
safe_code-safe adapter_not_found = refl
safe_code-safe (payload_validation code) = elim (Bool-cases (has_code code safe_errors)) [
  | inl known ↦ rw (known, known) refl
  | inr unknown ↦ rw unknown refl
]
safe_code-safe location_unresolved = refl
safe_code-safe (unexpected why) = refl

record_failure-IsValid :
    (saved : ℕ) (e : Event) (why : Failure)
    → e.attempt_count < 5
    → sale_rule failed e.location e.processed_at ≡ true
    → IsValid (record_failure saved e why)
unfolding record_failure
record_failure-IsValid saved e why few unsold = elim (Bool-cases (leb 5 (e.attempt_count + 1))) [
  | inl last ↦ record {
    count = rw last (ground arith);
    error = rw last (safe_code-safe why);
    message = refl;
    sale = rw last unsold;
  }
  | inr more ↦ record {
    count = rw more (ground arith);
    error = rw more (safe_code-safe why);
    message = refl;
    sale = rw more unsold;
  }
]

-- The ways through `process_event`.
pub process_event_cases {ℓ} :
    {Sales : Type 0} (P : Event × Sales → Type ℓ) (handle : Handle Sales) (clock : Clock)
    (disconnected : Bool) (e : Event) (sales : Sales)
    → P (e, sales)
    → (skips clock.decided e ≡ false
        → P (record e { status = cancelled; updated_at = clock.saved }, sales))
    → (skips clock.decided e ≡ false → P (conclude clock e sales (handle e sales)))
    → P (process_event handle clock disconnected e sales)
unfolding process_event
process_event_cases P handle clock disconnected e sales kept called attempted =
    elim (Bool-cases (skips clock.decided e)) [
      | inl skipped ↦ rw skipped kept
      | inr tried ↦ rw tried (if_keeps P disconnected (called tried) (attempted tried))
    ]

-- What an attempt finds.
open_count :
    (now : ℕ) (e : Event)
    → IsValid e
    → skips now e ≡ false
    → (e.attempt_count < 5) × (sale_rule failed e.location e.processed_at ≡ true)
unfolding skips
open_count now e v tried = (ground (arith, v.count), ground (arith, v.sale))

cancelled-IsValid :
    (now saved : ℕ) (e : Event)
    → IsValid e
    → skips now e ≡ false
    → IsValid (record e { status = cancelled; updated_at = saved })
unfolding skips
cancelled-IsValid now saved e v tried = record {
  count = ground (arith, v.count);
  error = ground (arith, v.error);
  message = v.message;
  sale = ground (arith, v.sale);
}

conclude-IsValid :
    {Sales : Type 0} (clock : Clock) (e : Event) (sales : Sales) (h : Handled Sales)
    → IsValid e
    → skips clock.decided e ≡ false
    → IsValid (conclude clock e sales h).0
conclude-IsValid clock e sales (raised why) v tried =
    let (few, unsold) = open_count clock.decided e v tried in
    record_failure-IsValid clock.saved e why few unsold
conclude-IsValid clock e sales (sold place after) v tried =
    let (few, unsold) = open_count clock.decided e v tried in
    record { count = ground (arith, few); error = refl; message = refl; sale = refl }

-- A processing attempt keeps the rules of the row: at most five failed attempts, DEAD_LETTER exactly
-- at the fifth, an error code of `SAFE_ERRORS` with its fixed message and no other error text, and a
-- location and a time exactly on a processed event.
pub process_event-IsValid :
    {Sales : Type 0} (handle : Handle Sales) (clock : Clock) (disconnected : Bool) (e : Event)
    (sales : Sales)
    → IsValid e
    → IsValid (process_event handle clock disconnected e sales).0
process_event-IsValid {Sales} handle clock disconnected e sales v =
    process_event_cases (λ (r : Event × Sales). IsValid r.0) handle clock disconnected e sales v
      (λ tried. cancelled-IsValid clock.decided clock.saved e v tried)
      (λ tried. conclude-IsValid clock e sales (handle e sales) v tried)
