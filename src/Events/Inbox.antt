-- ===== src/Events/Inbox.antt =====
-- The inbox write: a delivery is stored once, whatever is delivered again.
use mathlib.Core.List.{Memᴰ}
use review_flow.Events.Sweep.{listed_member}
use review_flow.Base.{
  ◌<◌, ◌+◌, ◌*◌, not, if_keeps, ℕ, ◌≤◌, Bool, true, false, ◌≡◌, refl, ap, ◌==◌, Option, none, some,
  List, [], ◌∷◌, String, Bool-cases, inl, inr, arith, find,
}
use review_flow.Base.Text.{same_text_refl}
use review_flow.Events.{
  received, skips, is_listed, due_event_ids, Recorded, Event, Integration, recorded,
  tenant_context_error, integration_disconnected, record_event, insert_or_get, has_key, new_event,
}

new_event-has_key :
    (id now saved : ℕ) (i : Integration) (external : String)
    → has_key i.id external (new_event id now saved i external) ≡ true
new_event-has_key id now saved i external = ground (arith, same_text_refl external)

insert_or_get-repeated :
    (id now saved id' now' saved' : ℕ) (i : Integration) (external : String)
    (events after : List Event) (e : Event) (fresh : Bool) (found : Option Event)
    → find (has_key i.id external) events ≡ found
    → insert_or_get id now saved i external events found ≡ recorded e fresh after
    → insert_or_get id' now' saved' i external after (find (has_key i.id external) after)
      ≡ recorded e false after
insert_or_get-repeated id now saved id' now' saved' i external events after e fresh (some x) f h =
    let row : x ≡ e = cc in
    let same : events ≡ after = cc in rw (← same, f) (ap (λ t. recorded t false events) row)
insert_or_get-repeated id now saved id' now' saved' i external events after e fresh none f h =
    let row : new_event id now saved i external ≡ e = cc in
    let same : new_event id now saved i external ∷ events ≡ after = cc in
    rw (← same, new_event-has_key id now saved i external)
      (ap (λ t. recorded t false (new_event id now saved i external ∷ events)) row)

-- Delivering an event again, at any later time, returns the row of the first delivery, says that it
-- is not new and leaves the inbox as it is.
pub record_event-repeated :
    (merchant id now saved id' now' saved' : ℕ) (i : Integration) (external : String)
    (events after : List Event) (e : Event) (fresh : Bool)
    → record_event (some merchant) id now saved i external events ≡ recorded e fresh after
    → record_event (some merchant) id' now' saved' i external after ≡ recorded e false after
unfolding record_event
record_event-repeated merchant id now saved id' now' saved' i external events after e fresh h =
    elim (Bool-cases (merchant == i.merchant_id)) [
      | inr other ↦
          let wrong : tenant_context_error ≡ recorded e fresh after = rw other at h in cc wrong
      | inl own ↦ elim (Bool-cases i.is_disconnected) [
        | inl gone ↦
            let wrong : integration_disconnected ≡ recorded e fresh after = rw (own, gone) at h in
            cc wrong
        | inr connected ↦
            rw (own, connected)
              (insert_or_get-repeated id now saved id' now' saved' i external events after e fresh _
                refl (rw (own, connected) at h))
      ]
    ]

-- Calls of `record_event` one after the other, of any merchants and integrations; one that raises
-- leaves the inbox as it is.
pub record Call : Type 0 where
  pub merchant : Option ℕ
  pub id : ℕ
  pub now : ℕ
  pub saved : ℕ
  pub integration : Integration
  pub external : String

abbrev inbox_of : List Event → Recorded → List Event
inbox_of before (recorded e fresh after) = after
inbox_of before tenant_context_error = before
inbox_of before integration_disconnected = before

abbrev pub record_all : List Call → List Event → List Event
record_all [] events = events
record_all (c ∷ calls) events =
    record_all calls
      (inbox_of events (record_event c.merchant c.id c.now c.saved c.integration c.external events))

insert_or_get-member :
    (id now saved : ℕ) (i : Integration) (external : String) (events : List Event)
    (found : Option Event) (e : Event)
    → Memᴰ e events
    → Memᴰ e (inbox_of events (insert_or_get id now saved i external events found))
insert_or_get-member id now saved i external events (some x) e m = m
insert_or_get-member id now saved i external events none e m = Memᴰ.tail m

record_event-member :
    (context : Option ℕ) (id now saved : ℕ) (i : Integration) (external : String)
    (events : List Event) (e : Event)
    → Memᴰ e events
    → Memᴰ e (inbox_of events (record_event context id now saved i external events))
unfolding record_event
record_event-member none id now saved i external events e m = m
record_event-member (some merchant) id now saved i external events e m =
    if_keeps (λ (r : Recorded). Memᴰ e (inbox_of events r)) (not (merchant == i.merchant_id)) m
      (if_keeps (λ (r : Recorded). Memᴰ e (inbox_of events r)) i.is_disconnected m
        (insert_or_get-member id now saved i external events (find (has_key i.id external) events) e
          m))

record_all-member :
    (calls : List Call) (events : List Event) (e : Event)
    → Memᴰ e events
    → Memᴰ e (record_all calls events)
record_all-member [] events e m = m
record_all-member (c ∷ calls) events e m =
    record_all-member calls _ e
      (record_event-member c.merchant c.id c.now c.saved c.integration c.external events e m)

-- What a call reports as new is the row that it has inserted, with the delivered keys.
abbrev IsInserted : ℕ → Integration → String → List Event → Event → Type 0
IsInserted now i external after e =
    Memᴰ e after
    × (e.status ≡ received)
    × (e.received_at ≡ some now)
    × (e.integration_id ≡ i.id)
    × (e.external_event_id ≡ external)

insert_or_get-new :
    (id now saved : ℕ) (i : Integration) (external : String) (events after : List Event) (e : Event)
    (found : Option Event)
    → insert_or_get id now saved i external events found ≡ recorded e true after
    → IsInserted now i external after e
insert_or_get-new id now saved i external events after e (some x) h = cc h
insert_or_get-new id now saved i external events after e none h =
    let row : new_event id now saved i external ≡ e = cc in
    let same : new_event id now saved i external ∷ events ≡ after = cc in
    rw (← same, ← row) (Memᴰ.head refl, refl, refl, refl, refl)

record_event-new :
    (merchant id now saved : ℕ) (i : Integration) (external : String) (events after : List Event)
    (e : Event)
    → record_event (some merchant) id now saved i external events ≡ recorded e true after
    → IsInserted now i external after e
unfolding record_event
record_event-new merchant id now saved i external events after e h =
    elim (Bool-cases (merchant == i.merchant_id)) [
      | inr other ↦
          let wrong : tenant_context_error ≡ recorded e true after = rw other at h in cc wrong
      | inl own ↦ elim (Bool-cases i.is_disconnected) [
        | inl gone ↦
            let wrong : integration_disconnected ≡ recorded e true after = rw (own, gone) at h in
            cc wrong
        | inr connected ↦
            insert_or_get-new id now saved i external events after e _ (rw (own, connected) at h)
      ]
    ]

-- A delivery that is reported as new is not lost if nobody attempts it: it has the delivered keys, and
-- whatever deliveries follow, a sweep more than ten minutes after it lists it, and the attempt that
-- the sweep starts, then or later, does not skip it.
pub record_event-swept :
    (merchant id now saved swept_at tried_at : ℕ) (i : Integration) (external : String)
    (events after : List Event) (e : Event) (calls : List Call)
    → record_event (some merchant) id now saved i external events ≡ recorded e true after
    → now + 10 * 60 * 1000000 < swept_at
    → swept_at ≤ tried_at
    → (e.integration_id ≡ i.id)
      × (e.external_event_id ≡ external)
      × Memᴰ e.id (due_event_ids swept_at (record_all calls after))
      × (skips tried_at e ≡ false)
unfolding is_listed skips
record_event-swept merchant id now saved swept_at tried_at i external events after e calls h late
      le =
    let (m, st, at, integration, key) =
      record_event-new merchant id now saved i external events after e h in
    let listed : is_listed swept_at e ≡ true = ground (arith, st, at) in
    (
      integration,
      key,
      listed_member swept_at (record_all calls after) e (record_all-member calls after e m) listed,
      ground (arith, st),
    )
