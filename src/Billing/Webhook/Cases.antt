-- ===== src/Billing/Webhook/Cases.antt =====
-- The checks of a delivery in their order (billing/services.py, receive_webhook), as one case rule.
use review_flow.Base.{
  ℕ, Bool, true, false, ◌&&◌, not, ◌≡◌, refl, Option, none, some, String, arith, find, is_some,
  if◌then◌else◌,
}
use review_flow.Billing.Provider.{Value, as_text}
use review_flow.Billing.Exec.{Error, Result, ok, err}
use review_flow.Billing.Webhook.{
  event_id_failure, Service, verify_webhook_signature, parse_event, Inbox, Delivery, names_ref,
  store_found, looked_up, resolve, event_ref, resolve_ref, receive_parsed, receive_named,
  receive_webhook,
}
use review_flow.Billing.Webhook.Payload.{Delivers, parse_event-Delivers}

abbrev pub Reply : Type 0
Reply = Result (Unit {0}) × Inbox

-- What a delivery does: it is refused, ignored, or looks its reference up. Which of these does not
-- depend on the inbox or the clock.
module _ (P : (ℕ → Inbox → Reply) → Type 0) (refused : (e : Error) → P (λ at inbox. (err e, inbox)))
    (ignored : P (λ at inbox. (ok tt, inbox))) where
  resolve_case :
      (tenant : Option ℕ) (id event_type ref : String)
      → P (λ at inbox. (
        ok tt,
        store_found at id event_type ref (find (names_ref ref) inbox.rows) (looked_up ref inbox),
      ))
      → P (λ at inbox. resolve tenant at id event_type ref inbox)
  resolve_case (some merchant) id event_type ref stored = refused _
  resolve_case none id event_type ref stored = stored

  resolve_ref_case :
      (tenant : Option ℕ) (id event_type : String) (found : Option String)
      → ((ref : String)
          → found ≡ some ref
          → P (λ at inbox. (
            ok tt,
            store_found at id event_type ref
                (find (names_ref ref) inbox.rows)
                (looked_up ref inbox),
          )))
      → P (λ at inbox. resolve_ref tenant at id event_type found inbox)
  resolve_ref_case tenant id event_type none stored = ignored
  resolve_ref_case tenant id event_type (some ref) stored =
      resolve_case tenant id event_type ref (stored ref refl)

  module _ (service : Service) (tenant : Option ℕ) where
    receive_parsed_case :
        (id : String) (parsed : Result (String × Option Value))
        → ((event_type ref : String) (found : Option Value)
            → parsed ≡ ok (event_type, found)
            → event_ref found ≡ some ref
            → P (λ at inbox. (
              ok tt,
              store_found at id event_type ref
                  (find (names_ref ref) inbox.rows)
                  (looked_up ref inbox),
            )))
        → P (λ at inbox. receive_parsed tenant at id parsed inbox)
    receive_parsed_case id (err e) stored = refused e
    receive_parsed_case id (ok (event_type, found)) stored =
        resolve_ref_case tenant id event_type (event_ref found)
          (λ ref. stored event_type ref found refl)

    receive_named_case :
        (body : String) (event_id : Option String)
        → ((id event_type ref : String)
            → event_id ≡ some id
            → Delivers service body event_type ref
            → P (λ at inbox. (
              ok tt,
              store_found at id event_type ref
                  (find (names_ref ref) inbox.rows)
                  (looked_up ref inbox),
            )))
        → P (λ at inbox. receive_named service tenant at body event_id inbox)
    receive_named_case body none stored = refused _
    receive_named_case body (some id) stored =
        receive_parsed_case id (parse_event service body) (λ event_type ref found parsed named.
          stored id event_type ref refl
            (parse_event-Delivers service body event_type ref found parsed named))

    checked_case :
        (b : Bool) (m : ℕ → Inbox → Reply) (e : Error)
        → (b ≡ true → P m)
        → P (λ at inbox. if b then m at inbox else (err e, inbox))
    checked_case true m e h = h refl
    checked_case false m e h = refused e

    pub receive_cases :
        (d : Delivery)
        → ((id event_type ref : String)
            → verify_webhook_signature service d.body d.signature ≡ true
            → event_id_failure d.event_id ≡ none
            → as_text d.event_id ≡ some id
            → Delivers service d.body event_type ref
            → P (λ at inbox. (
              ok tt,
              store_found at id event_type ref
                  (find (names_ref ref) inbox.rows)
                  (looked_up ref inbox),
            )))
        → P (λ at inbox. receive_webhook service tenant at d inbox)
    unfolding receive_webhook
    receive_cases d stored =
        checked_case
          (verify_webhook_signature service d.body d.signature
            && not (is_some (event_id_failure d.event_id)))
          (λ at inbox. receive_named service tenant at d.body (as_text d.event_id) inbox) _
          (λ both. receive_named_case d.body (as_text d.event_id) (λ id event_type ref e delivers.
            stored id event_type ref (ground arith) (ground arith) e delivers))
