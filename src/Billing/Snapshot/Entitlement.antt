-- ===== src/Billing/Snapshot/Entitlement.antt =====
-- An entitlement is granted only on a paid proof (spec: "Razorpay's `active` alone proves nothing").
use review_flow.Base.{
  ◌∙◌, sym, ℕ, Bool, Option, none, some, ◌≡◌, refl, ◌⊎◌, inl, inr, List, if_keeps, true, false,
  arith,
}
use review_flow.Billing.Model.{Plan, Subscription, ProviderStatus, Reason, Status}
use review_flow.Billing.Provider.{Value, entity_status}
use review_flow.Billing.Paid.Window.{IsProof, current_period_paid_sound}
use review_flow.Billing.Session.{Session, IsLocked}
use review_flow.Billing.Retire.{Surroundings, not_active, abandon_unless_active}
use review_flow.Billing.Retire.Cases.{abandon_cases}
use review_flow.Billing.Retire.Rows.{retire_replacement-sub}
use review_flow.Billing.Transition.{Outcome, apply_payment_failed, apply_terminal}
use review_flow.Billing.Transition.Rows.{apply_payment_failed-sub, apply_terminal-sub}
use review_flow.Billing.Transition.Proof.{SameTerm, IsPaid, apply_active-SameTerm}
use review_flow.Billing.Snapshot.{
  SnapshotResult, by_status, finish, apply_locked, with_abandonment, ending,
  committed_downgrade_replacement,
}
use review_flow.Billing.Snapshot.Cases.{apply_locked_cases}
use review_flow.Billing.Snapshot.Saved.{apply_locked_saves}
use review_flow.Billing.Snapshot.Constraints.{finish-sub}

-- A row that is ACTIVE is so on its old term, or on the provider's `active` with a paid proof.
abbrev Granted : Subscription → Value → Option (List Value) → Subscription → Type 0
Granted before entity invoices after =
    after.status ≡ Status.active
    → SameTerm before after
      ⊎ ((entity_status entity ≡ some ProviderStatus.active) × IsPaid entity invoices)

-- Giving up a replacement leaves the status and the period alone.
pub abandon_unless_active-SameTerm :
    (w : Surroundings) (s : Session) (why : Reason) (abandonable : ProviderStatus → Bool)
    (given : Option Value)
    → SameTerm s.sub (abandon_unless_active w s why abandonable given).2.sub
abandon_unless_active-SameTerm w s why abandonable given =
    abandon_cases (λ _ t. SameTerm s.sub t.sub) w s why abandonable given (refl, refl, refl)
      (λ entity _. rw (retire_replacement-sub w.plans w.stamp s entity why none) (refl, refl, refl))

pub with_abandonment-SameTerm :
    (w : Surroundings) (why : Reason) (changed : Bool) (s : Session)
    → SameTerm s.sub (with_abandonment w why (changed, s)).1.sub
with_abandonment-SameTerm w why false s = (refl, refl, refl)
with_abandonment-SameTerm w why true s = abandon_unless_active-SameTerm w s why not_active none

payment_failed_keeps :
    (s : Session) (now : ℕ)
    → (apply_payment_failed s now).1.sub.status ≡ Status.active
    → SameTerm s.sub (apply_payment_failed s now).1.sub
payment_failed_keeps s now = rw (apply_payment_failed-sub s now) (λ e. ground arith)

terminal_keeps :
    (s : Session) (now : ℕ)
    → (apply_terminal s now).1.sub.status ≡ Status.active
    → SameTerm s.sub (apply_terminal s now).1.sub
terminal_keeps s now = rw (apply_terminal-sub s now) (λ e. ground arith)

abandonment_keeps :
    (w : Surroundings) (why : Reason) (before : Subscription) (changed : Bool) (s : Session)
    → (s.sub.status ≡ Status.active → SameTerm before s.sub)
    → let after = (with_abandonment w why (changed, s)).1.sub in
      after.status ≡ Status.active → SameTerm before after
abandonment_keeps w why before changed s h e =
    let (st, from, until) = with_abandonment-SameTerm w why changed s in
    let (a, b, c) = h (sym st ∙ e) in (st ∙ a, from ∙ b, until ∙ c)

ending_keeps :
    (w : Surroundings) (now : ℕ) (s : Session)
    → (ending w now s).1.sub.status ≡ Status.active
    → SameTerm s.sub (ending w now s).1.sub
unfolding ending
ending_keeps w now s =
    if_keeps (λ (r : Outcome × Session). r.1.sub.status ≡ Status.active → SameTerm s.sub r.1.sub)
      (committed_downgrade_replacement s.sub) (λ _. (refl, refl, refl))
      (abandonment_keeps w _ s.sub _ _ (terminal_keeps s now))

by_status-Granted :
    (w : Surroundings) (now : ℕ) (s : Session) (entity : Value) (invoices : Option (List Value))
    (plan : Plan) (actor : Option ℕ) (status : ProviderStatus)
    → entity_status entity ≡ some status
    → Granted s.sub entity invoices (by_status w now s entity invoices plan actor status).1.sub
unfolding by_status
by_status-Granted w now s entity invoices plan actor ProviderStatus.active named e =
    elim (apply_active-SameTerm s entity invoices plan actor none) [
      | inl same ↦ inl same
      | inr paid ↦ inr (named, paid)
    ]
by_status-Granted w now s entity invoices plan actor ProviderStatus.pending named e =
    inl (abandonment_keeps w _ s.sub _ _ (payment_failed_keeps s now) e)
by_status-Granted w now s entity invoices plan actor ProviderStatus.halted named e =
    inl (abandonment_keeps w _ s.sub _ _ (payment_failed_keeps s now) e)
by_status-Granted w now s entity invoices plan actor ProviderStatus.cancelled named e =
    inl (ending_keeps w now s e)
by_status-Granted w now s entity invoices plan actor ProviderStatus.completed named e =
    inl (ending_keeps w now s e)
by_status-Granted w now s entity invoices plan actor ProviderStatus.expired named e =
    inl (ending_keeps w now s e)
by_status-Granted w now s entity invoices plan actor _ named e = inl (refl, refl, refl)

finish-Granted :
    (before : Subscription) (entity : Value) (invoices : Option (List Value)) (now : ℕ)
    (status : ProviderStatus) (fetched : ℕ) (o : Outcome) (s : Session)
    → Granted before entity invoices s.sub
    → Granted before entity invoices (finish now status fetched (o, s)).1.sub
finish-Granted before entity invoices now status fetched o s h =
    rw (finish-sub now status fetched o s) h

-- After a snapshot the stored row is ACTIVE only if it already was, over the same period, or if the
-- provider reports `active` and an invoice of the fetched list proves the entity's own period paid.
pub active_only_if_paid :
    (w : Surroundings) (now : ℕ) (s : Session) (entity : Value) (invoices : Option (List Value))
    (fetched : ℕ) (actor : Option ℕ)
    → IsLocked s
    → (apply_locked w now s entity invoices fetched actor).1.row.status ≡ Status.active
    → SameTerm s.sub (apply_locked w now s entity invoices fetched actor).1.row
      ⊎ ((entity_status entity ≡ some ProviderStatus.active)
          × ((invoice : Value) × IsProof entity invoices invoice))
active_only_if_paid w now s entity invoices fetched actor h =
    rw (apply_locked_saves w now s entity invoices fetched actor h) (λ e.
      elim (apply_locked_cases
        (λ (r : SnapshotResult × Session). Granted s.sub entity invoices r.1.sub) w now s entity
        invoices fetched actor (λ _. inl (refl, refl, refl))
        (λ plan status _ _ _ named.
          finish-Granted s.sub entity invoices now status fetched _ _
            (by_status-Granted w now _ entity invoices plan actor status named))
        e) [
          | inl same ↦ inl same
          | inr (named, (invoice, paid)) ↦
              inr (named, (invoice, current_period_paid_sound entity invoices paid))
        ])
