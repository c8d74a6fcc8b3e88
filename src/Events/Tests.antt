-- ===== src/Events/Tests.antt =====
-- An event of a shop's till: deliveries, attempts and sweeps.
use review_flow.Events.{
  backoff, is_due, is_listed, failed, dead_letter, Event, Integration, recorded, record_event,
  new_event, Handle, sold, raised, location_unresolved, Clock, process_event, due_event_ids, skips,
}
use mathlib.Core.List.{Memᴰ}
use review_flow.Base.{ℕ, ◌+◌, ◌*◌, true, false, ◌≡◌, refl, some, List, [], ◌∷◌, arith, inl}
use review_flow.Events.Rules.{IsValid, process_event-IsValid}
use review_flow.Events.Attempts.{Attempt, attempt_all, attempt_all-SoldOnce, SoldOnce}
use review_flow.Events.Retries.{KeepsFailing, attempt_all-gives_up}
use review_flow.Events.Sweep.{due_event_ids-tried, due_event_ids-complete}
use review_flow.Events.Inbox.{Call, record_all, record_event-repeated, record_event-swept}

abbrev till : Integration
till = record { id = 3; merchant_id = 7; is_disconnected = false }

abbrev hour : ℕ
hour = 3600000000

abbrev delivered : Event
delivered = new_event 1 hour hour till "sale-1"

first_delivery :
    record_event (some 7) 1 hour hour till "sale-1" [] ≡ recorded delivered true (delivered ∷ [])
unfolding record_event
first_delivery = refl

record_event-repeated_example :
    record_event (some 7) 2 (2 * hour) (2 * hour) till "sale-1" (delivered ∷ [])
    ≡ recorded delivered false (delivered ∷ [])
record_event-repeated_example =
    record_event-repeated 7 1 hour hour 2 (2 * hour) (2 * hour) till "sale-1" [] (delivered ∷ [])
      delivered true first_delivery

-- A second delivery, and another sale's.
abbrev calls : List Call
calls =
    record {
      merchant = some 7;
      id = 2;
      now = hour;
      saved = hour;
      integration = till;
      external = "sale-1";
    }
    ∷ record {
      merchant = some 7;
      id = 3;
      now = hour;
      saved = hour;
      integration = till;
      external = "sale-2";
    }
    ∷ []

record_event-swept_example :
    (delivered.integration_id ≡ 3)
    × (delivered.external_event_id ≡ "sale-1")
    × Memᴰ 1 (due_event_ids (2 * hour) (record_all calls (delivered ∷ [])))
    × (skips (3 * hour) delivered ≡ false)
record_event-swept_example =
    record_event-swept 7 1 hour hour (2 * hour) (3 * hour) till "sale-1" [] (delivered ∷ [])
      delivered calls first_delivery (omega arith) (omega arith)

-- The sales are counted; the sale is at location 4.
abbrev sell : Handle ℕ
sell e n = sold 4 (n + 1)

abbrev refuse : Handle ℕ
refuse e n = raised location_unresolved

abbrev clock : ℕ → Clock
clock n = record { decided = n * hour; finished = n * hour; saved = n * hour }

abbrev attempt : Handle ℕ → ℕ → Attempt ℕ
attempt handle n = record { clock = clock n; disconnected = false; handle = handle }

delivered-IsValid : IsValid delivered
delivered-IsValid = record { count = refl; error = refl; message = refl; sale = refl }

process_event-IsValid_example : IsValid (process_event refuse (clock 2) false delivered 0).0
process_event-IsValid_example =
    process_event-IsValid refuse (clock 2) false delivered 0 delivered-IsValid

abbrev mixed : List (Attempt ℕ)
mixed = attempt refuse 2 ∷ attempt sell 3 ∷ attempt sell 4 ∷ []

attempt_all-SoldOnce_example : SoldOnce mixed 0 (attempt_all mixed delivered 0)
attempt_all-SoldOnce_example = attempt_all-SoldOnce mixed delivered 0

abbrev failures : List (Attempt ℕ)
failures =
    attempt refuse 2
    ∷ attempt refuse 3
    ∷ attempt refuse 4
    ∷ attempt refuse 5
    ∷ attempt refuse 6
    ∷ []

keep_failing : KeepsFailing hour failures
keep_failing = (
  refl,
  omega arith,
  (λ e n. (location_unresolved, refl)),
  (
    refl,
    omega arith,
    (λ e n. (location_unresolved, refl)),
    (
      refl,
      omega arith,
      (λ e n. (location_unresolved, refl)),
      (
        refl,
        omega arith,
        (λ e n. (location_unresolved, refl)),
        (refl, omega arith, (λ e n. (location_unresolved, refl)), _),
      ),
    ),
  ),
)

attempt_all-gives_up_example : (attempt_all failures delivered 0).0.status ≡ dead_letter
attempt_all-gives_up_example =
    attempt_all-gives_up failures delivered 0 (inl refl) delivered-IsValid keep_failing
      (omega arith)

listed_id : Memᴰ 1 (due_event_ids (2 * hour) (delivered ∷ []))
unfolding due_event_ids is_listed
listed_id = Memᴰ.head refl

due_event_ids-tried_example :
    (e : Event) × Memᴰ e (delivered ∷ []) × (e.id ≡ 1) × (skips (3 * hour) e ≡ false)
due_event_ids-tried_example =
    due_event_ids-tried (2 * hour) (3 * hour) (delivered ∷ []) 1 listed_id (omega arith)

abbrev failed_once : Event
failed_once = record delivered {
  status = failed;
  attempt_count = 1;
  error_code = some "LOCATION_UNRESOLVED";
}

due_now : skips (2 * hour) failed_once ≡ false
unfolding skips is_due backoff
due_now = refl

due_event_ids-complete_example : Memᴰ 1 (due_event_ids (2 * hour) (failed_once ∷ []))
due_event_ids-complete_example =
    due_event_ids-complete (2 * hour) (failed_once ∷ []) failed_once (Memᴰ.head refl) refl due_now
