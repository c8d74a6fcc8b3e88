-- ===== src/Billing/Retired/Release.antt =====
-- When the retired slot is emptied (billing/services.py, _sync_retired and _clear_retired).
use review_flow.Base.{
  ℕ, true, false, ◌≡◌, ◌≢◌, refl, Option, none, some, String, Bool-cases, inl, inr, ◌⊎◌, ◌↔◌, arith,
  ap,
}
use review_flow.Base.Text.{same_text, same_text_iff, same_text_refl}
use review_flow.Billing.Model.{
  RetiredKind, switched_old, ProviderStatus, created, authenticated, Subscription,
}
use review_flow.Billing.Provider.{
  Value, text, null, bool, int, other, dict, get, is_text, answered, unavailable, rejected,
  not_configured, Reply, entity_status,
}
use review_flow.Billing.Session.{Session, save, written}
use review_flow.Billing.Retire.{refetched}
use review_flow.Billing.Dunning.{answered_status}
use review_flow.Billing.Retired.{
  retired_may_be_cancelled, holds, clear_retired, fetched_status, confirmed, sync_retired,
}

-- The provider says that the subscription is over.
abbrev pub IsOver : Option ProviderStatus → Type 0
IsOver status =
    (status ≡ some ProviderStatus.cancelled)
    ⊎ (status ≡ some ProviderStatus.completed)
    ⊎ (status ≡ some ProviderStatus.expired)

-- The provider answers with the subscription of that reference, and it is over by this answer or by the
-- answer to its cancel. What a switch left may always be cancelled, any other subscription only before
-- its first charge.
abbrev pub Release : String → Option RetiredKind → Reply → Option ProviderStatus → Type 0
Release ref kind fetch_reply cancelled_to =
    (entity : Value) × (fetch_reply ≡ answered entity)
    × (get entity "id" ≡ text ref)
    × (IsOver (entity_status entity)
        ⊎ ((entity_status entity ≢ none)
            × ((kind ≡ some switched_old)
                ⊎ (entity_status entity ≡ some created)
                ⊎ (entity_status entity ≡ some authenticated))
            × IsOver cancelled_to))

confirmed_read :
    (kind : Option RetiredKind) (status : Option ProviderStatus) (cancel_reply : Reply)
    → (confirmed kind status cancel_reply ≡ true) ↔ (
        IsOver status
        ⊎ ((status ≢ none)
            × ((kind ≡ some switched_old) ⊎ (status ≡ some created) ⊎ (status ≡ some authenticated))
            × IsOver (answered_status cancel_reply)))
unfolding confirmed retired_may_be_cancelled
confirmed_read kind status cancel_reply = ground arith

is_text-eq : (value : Value) (ref : String) → is_text value ref ≡ true → value ≡ text ref
is_text-eq (text s) ref e = ap text ((same_text_iff s ref).0 e)
is_text-eq null ref e = cc e
is_text-eq (bool b) ref e = cc e
is_text-eq (int n) ref e = cc e
is_text-eq other ref e = cc e
is_text-eq (dict entries) ref e = cc e

fetched_status-answered :
    (ref : String) (entity : Value)
    → is_text (get entity "id") ref ≡ true
    → fetched_status ref (answered entity) ≡ entity_status entity
unfolding refetched
fetched_status-answered ref entity e = ground (arith, e)

fetched_status-other :
    (ref : String) (entity : Value)
    → is_text (get entity "id") ref ≡ false
    → fetched_status ref (answered entity) ≡ none
unfolding refetched
fetched_status-other ref entity e = ground (arith, e)

confirmed-Release :
    (ref : String) (kind : Option RetiredKind) (fetch_reply cancel_reply : Reply)
    → (confirmed kind (fetched_status ref fetch_reply) cancel_reply ≡ true)
      ↔ Release ref kind fetch_reply (answered_status cancel_reply)
unfolding refetched confirmed
confirmed-Release ref kind (answered entity) cancel_reply =
    elim (Bool-cases (is_text (get entity "id") ref)) [
      | inl own ↦
          let (sound, complete) = confirmed_read kind (entity_status entity) cancel_reply in
          rw (fetched_status-answered ref entity own) (
            (λ h. (entity, refl, is_text-eq (get entity "id") ref own, sound h)),
            (λ (x, same, id, h).
                let same_entity : entity ≡ x = cc same in complete (rw same_entity h)),
          )
      | inr foreign ↦ rw (fetched_status-other ref entity foreign) (
        (λ h. cc h),
        (λ (x, same, id, h).
            let same_entity : entity ≡ x = cc same in
            let own : is_text (get entity "id") ref ≡ true =
              rw (same_entity, id) (same_text_refl ref) in
            cc (own, foreign)),
      )
    ]
confirmed-Release ref kind unavailable cancel_reply = ground arith
confirmed-Release ref kind (rejected status code why) cancel_reply = ground arith
confirmed-Release ref kind not_configured cancel_reply = ground arith

clear_retired-row :
    (now stamp : ℕ) (ref : String) (s : Session)
    → s.row ≡ s.sub
    → holds s.sub.retired_provider_ref ref ≡ true
    → let row = (clear_retired now stamp ref s).row in
      (row.retired_provider_ref ≡ none) × (row.retired_kind ≡ none)
unfolding clear_retired save written
clear_retired-row now stamp ref s same held = rw held (refl, refl)

clear_retired-other :
    (now stamp : ℕ) (ref : String) (s : Session)
    → holds s.sub.retired_provider_ref ref ≡ false
    → clear_retired now stamp ref s ≡ s
unfolding clear_retired
clear_retired-other now stamp ref s other_ref = rw other_ref refl

-- On the locked row, the retired slot gives up the reference that it holds exactly if that is the
-- reference that was read before the calls and the provider has confirmed, in its answer to the fetch
-- or to a cancel that the kind and the status allow, that this subscription is cancelled, completed or
-- expired. Otherwise the step leaves everything as it is; a slot that gives up its reference forgets
-- the kind with it.
pub sync_retired-Release :
    (now stamp : ℕ) (row : Subscription) (ref held : String) (fetch_reply cancel_reply : Reply)
    (s : Session)
    → row.retired_provider_ref ≡ some ref
    → s.row ≡ s.sub
    → s.row.retired_provider_ref ≡ some held
    → let after = sync_retired now stamp (some row) fetch_reply cancel_reply s in
      ((after.row.retired_provider_ref ≡ none)
        ↔ ((held ≡ ref) × Release ref row.retired_kind fetch_reply (answered_status cancel_reply)))
      × ((after ≡ s) ⊎ ((after.row.retired_provider_ref ≡ none) × (after.row.retired_kind ≡ none)))
unfolding sync_retired
sync_retired-Release now stamp row ref held fetch_reply cancel_reply s read same slot =
    let (sound, complete) = confirmed-Release ref row.retired_kind fetch_reply cancel_reply in
    let sub_slot : s.sub.retired_provider_ref ≡ some held = rw (← same) slot in
    elim (Bool-cases (confirmed row.retired_kind (fetched_status ref fetch_reply) cancel_reply)) [
      | inr unconfirmed ↦
          rw (read, unconfirmed)
            (
              (λ gone. cc gone, λ (eq, h). let wrong = complete h in cc (wrong, unconfirmed)),
              inl refl,
            )
      | inl done ↦ elim (Bool-cases (same_text held ref)) [
        | inr foreign ↦
            rw (read, done, clear_retired-other now stamp ref s (rw sub_slot foreign))
              (
                (
                  λ gone. cc (gone, slot),
                  λ (eq, h). let own = (same_text_iff held ref).1 eq in cc (own, foreign),
                ),
                inl refl,
              )
        | inl own ↦
            let (no_ref, no_kind) = clear_retired-row now stamp ref s same (rw sub_slot own) in
            rw (read, done)
              (
                (λ _. ((same_text_iff held ref).0 own, sound done), λ _. no_ref),
                inr (no_ref, no_kind),
              )
      ]
    ]
