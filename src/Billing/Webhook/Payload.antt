-- ===== src/Billing/Webhook/Payload.antt =====
-- What the body of a delivery names (billing/services.py, _parse_event).
use review_flow.Base.{
  ◌≤◌, ap, ◌∙◌, leb, length, Option-cases, true, ◌&&◌, ◌≡◌, refl, inl, inr, Option, none, some,
  String, arith, if◌then◌else◌, Bool-cases,
}
use review_flow.Base.Text.{codes}
use review_flow.Billing.Provider.{Value, null, bool, int, text, other, dict, get, is_dict, as_text}
use review_flow.Tenancy.Forms.{is_valid_billing_ref}
use review_flow.Billing.Exec.{invalid_payload, Result, ok, err}
use review_flow.Billing.Webhook.{Service, event_of, valid_ref, parse_event, event_ref}

-- The body delivers an event of that type about that subscription: it is JSON, its `event` is a text of
-- 1 to 64 characters, and `payload.subscription.entity.id` is a valid reference.
abbrev pub Delivers : Service → String → String → String → Type 0
Delivers service body event_type ref =
    (payload : Value) × (service.loads body ≡ some payload)
    × (get payload "event" ≡ text event_type)
    × (1 ≤ length (codes event_type))
    × (length (codes event_type) ≤ 64)
    × (get (get (get (get payload "payload") "subscription") "entity") "id" ≡ text ref)
    × (is_valid_billing_ref ref ≡ true)

as_text-eq : (value : Value) (s : String) → as_text value ≡ some s → value ≡ text s
as_text-eq (text t) s e = ap text (cc e)
as_text-eq null s e = cc e
as_text-eq (bool b) s e = cc e
as_text-eq (int n) s e = cc e
as_text-eq other s e = cc e
as_text-eq (dict entries) s e = cc e

valid_ref_lem :
    (found : Option String) (ref : String)
    → valid_ref found ≡ some ref
    → (found ≡ some ref) × (is_valid_billing_ref ref ≡ true)
valid_ref_lem none ref e = cc e
valid_ref_lem (some x) ref e = elim (Bool-cases (is_valid_billing_ref x)) [
  | inl valid ↦ let same : x ≡ ref = ground (arith, e, valid) in (ap some same, rw (← same) valid)
  | inr not_valid ↦ let wrong : none ≡ some ref = rw not_valid at e in cc wrong
]

event_ref_lem :
    (entity : Value) (ref : String)
    → event_ref (if is_dict entity then some (get entity "id") else none) ≡ some ref
    → (get entity "id" ≡ text ref) × (is_valid_billing_ref ref ≡ true)
event_ref_lem entity ref e = elim (Bool-cases (is_dict entity)) [
  | inr no_dict ↦ let wrong : none ≡ some ref = rw no_dict at e in cc wrong
  | inl a_dict ↦
      let (named, valid) = valid_ref_lem (as_text (get entity "id")) ref (rw a_dict at e) in
      (as_text-eq (get entity "id") ref named, valid)
]

event_of-Delivers :
    (service : Service) (body : String) (payload : Value) (found : Option String)
    (event_type ref : String) (id : Option Value)
    → service.loads body ≡ some payload
    → as_text (get payload "event") ≡ found
    → event_of payload found ≡ ok (event_type, id)
    → event_ref id ≡ some ref
    → Delivers service body event_type ref
event_of-Delivers service body payload none event_type ref id loaded named parsed named_ref =
    cc parsed
event_of-Delivers service body payload (some name) event_type ref id loaded named parsed named_ref =
    let entity = get (get (get payload "payload") "subscription") "entity" in
    let found : Option Value = if is_dict entity then some (get entity "id") else none in
    elim (Bool-cases (leb 1 (length (codes name)) && leb (length (codes name)) 64)) [
      | inr bad_length ↦
          let wrong : err invalid_payload ≡ ok (event_type, id) = rw bad_length at parsed in
          cc wrong
      | inl fits ↦
          let lower : 1 ≤ length (codes name) = ground (arith, fits) in
          let upper : length (codes name) ≤ 64 = ground (arith, fits) in
          let same : Result.ok (name, found) ≡ ok (event_type, id) = rw fits at parsed in
          let same_name : name ≡ event_type = cc same in
          let same_id : found ≡ id = cc same in
          let (own, valid) = event_ref_lem entity ref (rw same_id named_ref) in
          (
            payload,
            loaded,
            as_text-eq (get payload "event") event_type (named ∙ ap some same_name),
            rw (← same_name) lower,
            rw (← same_name) upper,
            own,
            valid,
          )
    ]

pub parse_event-Delivers :
    (service : Service) (body event_type ref : String) (id : Option Value)
    → parse_event service body ≡ ok (event_type, id)
    → event_ref id ≡ some ref
    → Delivers service body event_type ref
unfolding parse_event
parse_event-Delivers service body event_type ref id parsed named_ref =
    elim (Option-cases (service.loads body)) [
      | inl unread ↦
          let wrong : err invalid_payload ≡ ok (event_type, id) = rw unread at parsed in cc wrong
      | inr (payload, loaded) ↦ elim (Bool-cases (is_dict payload)) [
        | inr no_dict ↦
            let wrong : err invalid_payload ≡ ok (event_type, id) =
              rw (loaded, no_dict) at parsed in
            cc wrong
        | inl a_dict ↦
            event_of-Delivers service body payload (as_text (get payload "event")) event_type ref id
              loaded refl (rw (loaded, a_dict) at parsed) named_ref
      ]
    ]
