-- ===== src/Billing/Snapshot/Lifecycle.antt =====
-- The state machine of the subscription's status under snapshots (spec 07, "provider status" table).
use review_flow.Billing.Transition.{
  advance_period, Outcome, apply_active, active_in_period, apply_payment_failed, apply_terminal,
  grace_over, is_same_period,
}
use review_flow.Base.{
  Option-cases, ◌∙◌, inr, inl, Bool-cases, ℕ, Bool, Option, none, some, ◌≡◌, refl, List, true,
  false, arith, if◌then◌else◌, is_some, ◌&&◌, not, leb,
}
use review_flow.Billing.Snapshot.{
  outcome, by_status, finish, apply_locked, ending, committed_downgrade_replacement, names_row,
  is_stale,
}
use review_flow.Billing.Model.{
  Plan, ProviderStatus, Status, incomplete, past_due, cancelled, expired, Effect,
}
use review_flow.Billing.Provider.{Value, entity_status, get, as_text, from_unix, plan_named}
use review_flow.Billing.Paid.{current_period_paid}
use review_flow.Billing.Session.{Session, IsLocked}
use review_flow.Billing.Retire.{Surroundings}
use review_flow.Billing.Transition.Rows.{
  apply_payment_failed-sub, apply_terminal-sub, refresh_plan-sub, advance_period-sub,
}
use review_flow.Billing.Transition.Proof.{record_payment?-sub}
use review_flow.Billing.Snapshot.Saved.{apply_locked_saves}
use review_flow.Billing.Snapshot.Constraints.{finish-sub}
use review_flow.Billing.Snapshot.Entitlement.{with_abandonment-SameTerm}

-- The entity's period is one that `_apply_active` accepts.
abbrev ordered : Option ℕ → Option ℕ → Bool
ordered none end = false
ordered (some start) none = false
ordered (some start) (some end) = not (leb end start)

-- What the provider says of the current period: it is well formed and an invoice proves it paid.
abbrev pub is_proven : Value → Option (List Value) → Bool
is_proven entity invoices =
    ordered (from_unix (get entity "current_start")) (from_unix (get entity "current_end"))
    && is_some (current_period_paid entity invoices)

-- What a terminal status makes of a row.
abbrev pub ended_status : Bool → Status → Status
ended_status over Status.active = cancelled
ended_status over past_due = if over then expired else cancelled
ended_status over incomplete = incomplete
ended_status over cancelled = cancelled
ended_status over expired = expired

abbrev pub failed_status : Status → Status
failed_status Status.active = past_due
failed_status past_due = past_due
failed_status incomplete = incomplete
failed_status cancelled = cancelled
failed_status expired = expired

-- The status that follows a provider status: a proven `active` reactivates any row; a failed payment
-- starts the grace period of an ACTIVE row; a terminal status ends a live row, as EXPIRED once its
-- grace is over, unless a committed downgrade replacement defers it; nothing else moves it.
abbrev pub next_status : ProviderStatus → Bool → Bool → Bool → Status → Status
next_status ProviderStatus.active proven deferred over status =
    if proven then Status.active else status
next_status ProviderStatus.pending proven deferred over status = failed_status status
next_status ProviderStatus.halted proven deferred over status = failed_status status
next_status ProviderStatus.cancelled proven deferred over status =
    if deferred then status else ended_status over status
next_status ProviderStatus.completed proven deferred over status =
    if deferred then status else ended_status over status
next_status ProviderStatus.expired proven deferred over status =
    if deferred then status else ended_status over status
next_status ProviderStatus.created proven deferred over status = status
next_status ProviderStatus.authenticated proven deferred over status = status
next_status ProviderStatus.paused proven deferred over status = status
next_status (ProviderStatus.unrecognized text) proven deferred over status = status

by_proof :
    (s : Session) (entity : Value) (p : Plan) (actor : Option ℕ) (effect : Option Effect)
    (start end : ℕ) (paid : Option Value)
    → (elim paid as (λ _. Outcome × Session) [
      | none ↦ (outcome false false false, s)
      | some invoice ↦ (outcome true true true, advance_period s start end invoice p actor effect)
    ]).1.sub.status
      ≡ (if is_some paid then Status.active else s.sub.status)
by_proof s entity p actor effect start end none = refl
by_proof s entity p actor effect start end (some invoice) =
    rw (advance_period-sub s start end invoice p actor effect)

active_in_period-status :
    (s : Session) (entity : Value) (invoices : Option (List Value)) (p : Plan) (actor : Option ℕ)
    (effect : Option Effect) (start end : ℕ)
    → (active_in_period s entity invoices p actor effect start end).1.sub.status
      ≡ (if is_some (current_period_paid entity invoices) then Status.active else s.sub.status)
unfolding active_in_period
active_in_period-status s entity invoices p actor effect start end =
    elim (Bool-cases (is_same_period s.sub start)) [
      | inl same ↦
          rw
            (
              same,
              record_payment?-sub _ (current_period_paid entity invoices) _,
              refresh_plan-sub s p actor effect,
            )
            (ground arith)
      | inr new ↦
          rw new (by_proof s entity p actor effect start end (current_period_paid entity invoices))
    ]

apply_active-status :
    (s : Session) (entity : Value) (invoices : Option (List Value)) (p : Plan) (actor : Option ℕ)
    (effect : Option Effect)
    → (apply_active s entity invoices p actor effect).1.sub.status
      ≡ (if is_proven entity invoices then Status.active else s.sub.status)
unfolding apply_active
apply_active-status s entity invoices p actor effect =
    elim (Option-cases (from_unix (get entity "current_start"))) [
      | inl e ↦ rw (e, apply_active)
      | inr (start, e) ↦ elim (Option-cases (from_unix (get entity "current_end"))) [
        | inl f ↦ rw (e, f, apply_active)
        | inr (end, f) ↦ elim (Bool-cases (leb end start)) [
          | inl wrong ↦ rw (e, f, wrong, apply_active)
          | inr order ↦
              rw (e, f, order, apply_active)
                (active_in_period-status s entity invoices p actor effect start end)
        ]
      ]
    ]

payment_failed-status :
    (s : Session) (now : ℕ) → (apply_payment_failed s now).1.sub.status ≡ failed_status s.sub.status
payment_failed-status s now = rw (apply_payment_failed-sub s now) (ground arith)

terminal-status :
    (s : Session) (now : ℕ)
    → (apply_terminal s now).1.sub.status
      ≡ ended_status (grace_over s.sub.past_due_at now) s.sub.status
terminal-status s now = rw (apply_terminal-sub s now) (ground arith)

ending-status :
    (w : Surroundings) (now : ℕ) (s : Session)
    → (ending w now s).1.sub.status ≡ (
        if committed_downgrade_replacement s.sub
        then s.sub.status
        else ended_status (grace_over s.sub.past_due_at now) s.sub.status)
unfolding ending
ending-status w now s = elim (Bool-cases (committed_downgrade_replacement s.sub)) [
  | inl e ↦ rw e
  | inr e ↦ rw e ((with_abandonment-SameTerm w _ _ _).0 ∙ terminal-status s now)
]

by_status-status :
    (w : Surroundings) (now : ℕ) (s : Session) (entity : Value) (invoices : Option (List Value))
    (plan : Plan) (actor : Option ℕ) (status : ProviderStatus)
    → (by_status w now s entity invoices plan actor status).1.sub.status
      ≡ next_status status
          (is_proven entity invoices)
          (committed_downgrade_replacement s.sub)
          (grace_over s.sub.past_due_at now)
          s.sub.status
unfolding by_status
by_status-status w now s entity invoices plan actor ProviderStatus.active =
    apply_active-status s entity invoices plan actor none
by_status-status w now s entity invoices plan actor ProviderStatus.pending =
    (with_abandonment-SameTerm w _ _ _).0 ∙ payment_failed-status s now
by_status-status w now s entity invoices plan actor ProviderStatus.halted =
    (with_abandonment-SameTerm w _ _ _).0 ∙ payment_failed-status s now
by_status-status w now s entity invoices plan actor ProviderStatus.cancelled = ending-status w now s
by_status-status w now s entity invoices plan actor ProviderStatus.completed = ending-status w now s
by_status-status w now s entity invoices plan actor ProviderStatus.expired = ending-status w now s
by_status-status w now s entity invoices plan actor _ = refl

-- The provider status that a snapshot is applied under, if it is applied at all: its entity names
-- the row, was fetched after the last sync, has a known plan and a status text.
abbrev pub applied_status : Surroundings → Session → Value → ℕ → Option ProviderStatus
applied_status w s entity fetched =
    if names_row (as_text (get entity "id")) s.sub.payment_provider_ref
      && not (is_stale fetched s.sub.provider_synced_at)
      && is_some (plan_named w.plans (get entity "plan_id"))
    then entity_status entity
    else none

abbrev pub moved : Option ProviderStatus → Bool → Bool → Bool → Status → Status
moved none proven deferred over status = status
moved (some p) proven deferred over status = next_status p proven deferred over status

finish-status :
    (now : ℕ) (status : ProviderStatus) (fetched : ℕ) (o : Outcome) (s : Session)
    → (finish now status fetched (o, s)).1.sub.status ≡ s.sub.status
finish-status now status fetched o s = rw (finish-sub now status fetched o s)

apply_locked-sub_status :
    (w : Surroundings) (now : ℕ) (s : Session) (entity : Value) (invoices : Option (List Value))
    (fetched : ℕ) (actor : Option ℕ)
    → (apply_locked w now s entity invoices fetched actor).1.sub.status
      ≡ moved
          (applied_status w s entity fetched)
          (is_proven entity invoices)
          (committed_downgrade_replacement s.sub)
          (grace_over s.sub.past_due_at now)
          s.sub.status
unfolding apply_locked
apply_locked-sub_status w now s entity invoices fetched actor =
    elim (Bool-cases (names_row (as_text (get entity "id")) s.sub.payment_provider_ref)) [
      | inr other ↦ rw other
      | inl named ↦ elim (Bool-cases (is_stale fetched s.sub.provider_synced_at)) [
        | inl stale ↦ rw (named, stale)
        | inr newer ↦ elim (Option-cases (plan_named w.plans (get entity "plan_id"))) [
          | inl unknown ↦ rw (named, newer, unknown, apply_locked)
          | inr (plan, known) ↦ elim (Option-cases (entity_status entity)) [
            | inl missing ↦ rw (named, newer, known, missing, apply_locked)
            | inr (status, e) ↦
                rw (named, newer, known, e, apply_locked)
                  (finish-status now status fetched _ _
                    ∙ by_status-status w now _ entity invoices plan actor status)
          ]
        ]
      ]
    ]

-- The stored status after a snapshot is exactly the one that the state machine `next_status` gives
-- for the provider's status, and the old one if the snapshot is not applied.
pub apply_locked-status :
    (w : Surroundings) (now : ℕ) (s : Session) (entity : Value) (invoices : Option (List Value))
    (fetched : ℕ) (actor : Option ℕ)
    → IsLocked s
    → (apply_locked w now s entity invoices fetched actor).1.row.status
      ≡ moved
          (applied_status w s entity fetched)
          (is_proven entity invoices)
          (committed_downgrade_replacement s.sub)
          (grace_over s.sub.past_due_at now)
          s.sub.status
apply_locked-status w now s entity invoices fetched actor h =
    rw (apply_locked_saves w now s entity invoices fetched actor h)
      (apply_locked-sub_status w now s entity invoices fetched actor)
