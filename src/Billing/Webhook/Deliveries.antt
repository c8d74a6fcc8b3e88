-- ===== src/Billing/Webhook/Deliveries.antt =====
-- What one delivery of a webhook, and the same one again, do to the inbox.
use mathlib.Core.List.{Memᴰ}
use review_flow.Base.{
  ℕ, Bool, true, false, ◌≡◌, refl, sym, ◌⊎◌, inl, inr, Option, none, some, List, [], ◌∷◌, String,
  arith, any, find, Bool-cases,
}
use review_flow.Base.Text.{same_text_refl}
use review_flow.Billing.Model.{Subscription}
use review_flow.Billing.Provider.{as_text}
use review_flow.Billing.Webhook.{
  event_id_failure, Service, verify_webhook_signature, Inbox, Delivery, names_ref, has_event_id,
  new_event, insert_event, store_found, looked_up, receive_webhook,
}
use review_flow.Billing.Webhook.Payload.{Delivers}
use review_flow.Billing.Webhook.Cases.{Reply, receive_cases}

-- What a delivery adds to the inbox: nothing, or an unprocessed event under its own new id, for the
-- merchant of a row that holds the reference that its body names, and that merchant's sync.
abbrev pub Adds : Service → Delivery → ℕ → Inbox → Inbox → Type 0
Adds service d at before after =
    ((after.events ≡ before.events) × (after.enqueued ≡ before.enqueued))
    ⊎ ((sub : Subscription) × (id : String) × (event_type : String) × (ref : String) × Memᴰ sub
          before.rows
        × (names_ref ref sub ≡ true)
        × (verify_webhook_signature service d.body d.signature ≡ true)
        × (event_id_failure d.event_id ≡ none)
        × (as_text d.event_id ≡ some id)
        × Delivers service d.body event_type ref
        × (any (has_event_id id) before.events ≡ false)
        × (after.events ≡ new_event at sub id event_type ref ∷ before.events)
        × (after.enqueued ≡ sub.merchant_id ∷ before.enqueued))

find-member :
    (p : Subscription → Bool) (rows : List Subscription) (sub : Subscription)
    → find p rows ≡ some sub
    → Memᴰ sub rows × (p sub ≡ true)
find-member p [] sub e = ground (arith, e)
find-member p (x ∷ rows) sub e = elim (Bool-cases (p x)) [
  | inl holds_p ↦
      let same : x ≡ sub = ground (arith, e, holds_p) in (Memᴰ.head (sym same), rw (← same) holds_p)
  | inr fails ↦
      let later : find p rows ≡ some sub = ground (arith, e, fails) in
      let (m, h) = find-member p rows sub later in (Memᴰ.tail m, h)
]

module _ (service : Service) (d : Delivery) (id event_type ref : String)
    (signed : verify_webhook_signature service d.body d.signature ≡ true)
    (valid : event_id_failure d.event_id ≡ none) (named : as_text d.event_id ≡ some id)
    (delivers : Delivers service d.body event_type ref) where
  insert_event-Adds :
      (at : ℕ) (inbox : Inbox) (sub : Subscription)
      → Memᴰ sub inbox.rows
      → names_ref ref sub ≡ true
      → Adds service d at inbox (insert_event at id event_type ref sub (looked_up ref inbox))
  unfolding insert_event
  insert_event-Adds at inbox sub m holds_ref =
      elim (Bool-cases (any (has_event_id id) inbox.events)) [
        | inl duplicate ↦ rw duplicate (inl (refl, refl))
        | inr new ↦ rw new (
            inr (
              sub, id, event_type, ref, m, holds_ref, signed, valid, named, delivers, new, refl,
              refl,
            ))
      ]

  store_found-Adds :
      (at : ℕ) (inbox : Inbox) (found : Option Subscription)
      → find (names_ref ref) inbox.rows ≡ found
      → Adds service d at inbox (store_found at id event_type ref found (looked_up ref inbox))
  store_found-Adds at inbox none e = inl (refl, refl)
  store_found-Adds at inbox (some sub) e =
      let (m, holds_ref) = find-member (names_ref ref) inbox.rows sub e in
      insert_event-Adds at inbox sub m holds_ref

-- A delivery adds nothing to the inbox and enqueues nothing, or its signature and its event id are
-- valid, the id is new, its body is JSON with an event type and a valid subscription reference, and it
-- adds one unprocessed event with that id, type and reference, for the merchant of a row that holds
-- the reference, and enqueues that merchant's sync.
pub receive_webhook-Adds :
    (service : Service) (tenant : Option ℕ) (at : ℕ) (d : Delivery) (inbox : Inbox)
    → Adds service d at inbox (receive_webhook service tenant at d inbox).1
receive_webhook-Adds service tenant at d inbox =
    receive_cases (λ m. (at : ℕ) (inbox : Inbox) → Adds service d at inbox (m at inbox).1)
      (λ e at inbox. inl (refl, refl)) (λ at inbox. inl (refl, refl)) service tenant d
      (λ id event_type ref signed valid named delivers at inbox.
        store_found-Adds service d id event_type ref signed valid named delivers at inbox
          (find (names_ref ref) inbox.rows) refl)
      at inbox

-- The second of two runs answers as the first, and adds nothing.
abbrev Repeats : (ℕ → Inbox → Reply) → Type 0
Repeats m =
    (at later : ℕ) (inbox : Inbox)
    → let (r, after) = m at inbox in
      let (r', again) = m later after in
      (r' ≡ r) × (again.events ≡ after.events) × (again.enqueued ≡ after.enqueued)

store_found-Repeats :
    (id event_type ref : String) (at later : ℕ) (inbox : Inbox) (found : Option Subscription)
    → find (names_ref ref) inbox.rows ≡ found
    → let after = store_found at id event_type ref found (looked_up ref inbox) in
      let again =
        store_found later id event_type ref
          (find (names_ref ref) after.rows)
          (looked_up ref after) in
      (again.events ≡ after.events) × (again.enqueued ≡ after.enqueued)
unfolding insert_event
store_found-Repeats id event_type ref at later inbox none e = rw e (refl, refl)
store_found-Repeats id event_type ref at later inbox (some sub) e =
    elim (Bool-cases (any (has_event_id id) inbox.events)) [
      | inl duplicate ↦ rw (duplicate, e, duplicate) (refl, refl)
      | inr new ↦ rw (new, e, same_text_refl id) (refl, refl)
    ]

-- Delivering the same webhook again, at any later time, is answered as the first delivery and neither
-- changes the inbox's events nor enqueues anything.
pub receive_webhook-repeated :
    (service : Service) (tenant : Option ℕ) (at later : ℕ) (d : Delivery) (inbox : Inbox)
    → let (r, after) = receive_webhook service tenant at d inbox in
      let (r', again) = receive_webhook service tenant later d after in
      (r' ≡ r) × (again.events ≡ after.events) × (again.enqueued ≡ after.enqueued)
receive_webhook-repeated service tenant at later d inbox =
    receive_cases Repeats (λ e at later inbox. (refl, refl, refl))
      (λ at later inbox. (refl, refl, refl)) service tenant d
      (λ id event_type ref signed valid named delivers at later inbox.
        let (events, enqueued) =
          store_found-Repeats id event_type ref at later inbox (find (names_ref ref) inbox.rows)
            refl in
        (refl, events, enqueued))
      at later inbox
