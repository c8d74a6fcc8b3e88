-- ===== src/Billing/Retired.antt =====
-- The retired slot (billing/services.py, _sync_retired): the sweep drives a departed provider
-- subscription to a terminal status, and only then forgets its reference.
pub mod Release
use review_flow.Base.{
  ℕ, Bool, true, false, not, ◌≡◌, ◌≢◌, refl, Option, none, some, String, [], ◌∷◌, if◌then◌else◌,
  Bool-cases, inl, inr, ◌⊎◌, ◌↔◌, arith, sym, ap,
}
use review_flow.Base.Text.{same_text, same_text_iff, same_text_refl}
use review_flow.Billing.Model.{
  RetiredKind, switched_old, abandoned_replacement, ProviderStatus, created, authenticated,
  Subscription,
}
use review_flow.Billing.Provider.{
  Value, text, null, bool, int, other, dict, get, is_text, answered, unavailable, rejected,
  not_configured, Reply, entity_status, is_terminal,
}
use review_flow.Billing.Session
use review_flow.Billing.Session.{Session, add, no_fields, save, written, mark_events_processed}
use review_flow.Billing.Retire.{refetched}
use review_flow.Billing.Dunning.{answered_status}

abbrev before_charge : ProviderStatus → Bool
before_charge created = true
before_charge authenticated = true
before_charge _ = false

abbrev is_switched_old : Option RetiredKind → Bool
is_switched_old none = false
is_switched_old (some switched_old) = true
is_switched_old (some abandoned_replacement) = false

-- `_retired_may_be_cancelled`
unfoldable pub retired_may_be_cancelled : Option RetiredKind → ProviderStatus → Bool
retired_may_be_cancelled kind status =
    if is_terminal status
    then false
    else if is_switched_old kind
    then true
    else before_charge status

abbrev pub holds : Option String → String → Bool
holds none ref = false
holds (some stored) ref = same_text stored ref

-- `_clear_retired`, on the row as it is locked by then.
unfoldable pub clear_retired : ℕ → ℕ → String → Session → Session
clear_retired now stamp ref s =
    if holds s.sub.retired_provider_ref ref
    then (let saved : Session = save now (record s {
      sub = record (s.sub) { retired_provider_ref = none; retired_kind = none };
      fields =
          add (Session.retired_provider_ref ∷ Session.retired_kind ∷ Session.updated_at ∷ [])
            no_fields;
    }) in
        record saved { events = mark_events_processed ref stamp saved.events })
    else s

abbrev is_terminal_answer : Option ProviderStatus → Bool
is_terminal_answer none = false
is_terminal_answer (some status) = is_terminal status

abbrev pub fetched_status : String → Reply → Option ProviderStatus
fetched_status ref reply = elim (refetched ref reply) [
  | none ↦ none
  | some entity ↦ entity_status entity
]

-- Whether the provider has confirmed a terminal status: in its answer to the fetch, or else to the
-- cancel, which is sent only if the kind allows it.
unfoldable pub confirmed : Option RetiredKind → Option ProviderStatus → Reply → Bool
confirmed kind none cancel_reply = false
confirmed kind (some status) cancel_reply =
    if is_terminal status
    then true
    else if not (retired_may_be_cancelled kind status)
    then false
    else is_terminal_answer (answered_status cancel_reply)

-- `_sync_retired`: `row` is read first, the provider is called, and `s` is the row when it is locked.
unfoldable pub sync_retired : ℕ → ℕ → Option Subscription → Reply → Reply → Session → Session
sync_retired now stamp none fetch_reply cancel_reply s = s
sync_retired now stamp (some row) fetch_reply cancel_reply s = elim row.retired_provider_ref [
  | none ↦ s
  | some ref ↦
      if confirmed row.retired_kind (fetched_status ref fetch_reply) cancel_reply
      then clear_retired now stamp ref s
      else s
]
