-- ===== src/Billing/Snapshot/Order.antt =====
-- Snapshots are applied in the order of their fetches.
use review_flow.Base.{
  ◌∙◌, ap, ℕ, ◌≤◌, Option, some, ◌≡◌, List, true, false, arith, inl, inr, Bool-cases,
}
use review_flow.Billing.Model.{ProviderStatus, Subscription}
use review_flow.Billing.Provider.{Value, get, as_text}
use review_flow.Billing.Session.{Session, IsLocked, no_fields}
use review_flow.Billing.Retire.{Surroundings}
use review_flow.Billing.Transition.{Outcome}
use review_flow.Billing.Snapshot.{SnapshotResult, result, finish, apply_locked, names_row, is_stale}
use review_flow.Billing.Snapshot.Cases.{apply_locked_cases}
use review_flow.Billing.Snapshot.Saved.{apply_locked_saves}
use review_flow.Billing.Snapshot.Constraints.{finish-sub}

-- The next transaction locks the row and reads it again.
abbrev pub relocked : Session → Session
relocked s = record s { sub = s.row; fields = no_fields }

finish-synced :
    (now : ℕ) (status : ProviderStatus) (fetched : ℕ) (o : Outcome) (s : Session)
    → (finish now status fetched (o, s)).1.sub.provider_synced_at ≡ some fetched
finish-synced now status fetched o s = rw (finish-sub now status fetched o s)

settled-synced :
    (w : Surroundings) (now : ℕ) (s : Session) (entity : Value) (invoices : Option (List Value))
    (fetched : ℕ) (actor : Option ℕ)
    → (apply_locked w now s entity invoices fetched actor).0.settled ≡ true
    → (apply_locked w now s entity invoices fetched actor).1.sub.provider_synced_at ≡ some fetched
settled-synced w now s entity invoices fetched actor =
    apply_locked_cases
      (λ (r : SnapshotResult × Session).
        r.0.settled ≡ true → r.1.sub.provider_synced_at ≡ some fetched)
      w now s entity invoices fetched actor (λ e. cc)
      (λ plan status _ _ _ _ e. finish-synced now status fetched _ _)

stale_ignored :
    (w : Surroundings) (now : ℕ) (s : Session) (entity : Value) (invoices : Option (List Value))
    (fetched last : ℕ) (actor : Option ℕ)
    → s.sub.provider_synced_at ≡ some last
    → fetched ≤ last
    → apply_locked w now s entity invoices fetched actor ≡ (result false false, s)
unfolding apply_locked
stale_ignored w now s entity invoices fetched last actor e le =
    elim (Bool-cases (names_row (as_text (get entity "id")) s.sub.payment_provider_ref)) [
      | inr other ↦ rw other
      | inl named ↦
          let stale : is_stale fetched s.sub.provider_synced_at ≡ true = rw e (ground arith) in
          rw (named, stale)
    ]

-- Once a snapshot has settled, a snapshot whose fetch started no later changes nothing at all in the
-- transaction that tries to apply it, whatever the provider answered to it: a slow or repeated fetch
-- never undoes a newer one.
pub older_fetch_ignored :
    (w w' : Surroundings) (now now' : ℕ) (s : Session) (entity entity' : Value)
    (invoices invoices' : Option (List Value)) (fetched fetched' : ℕ) (actor actor' : Option ℕ)
    → IsLocked s
    → fetched' ≤ fetched
    → (apply_locked w now s entity invoices fetched actor).0.settled ≡ true
    → let after = (apply_locked w now s entity invoices fetched actor).1 in
      apply_locked w' now' (relocked after) entity' invoices' fetched' actor'
      ≡ (result false false, relocked after)
older_fetch_ignored w w' now now' s entity entity' invoices invoices' fetched fetched' actor actor'
      h le e =
    stale_ignored w' now' _ entity' invoices' fetched' fetched actor'
      (ap (λ (t : Subscription). t.provider_synced_at)
          (apply_locked_saves w now s entity invoices fetched actor h)
        ∙ settled-synced w now s entity invoices fetched actor e)
      le
