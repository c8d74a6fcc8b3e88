-- ===== src/Billing/Replacement/Tracking.antt =====
-- No provider subscription is lost: the three reference slots of the row move as a whole.
use review_flow.Base.{
  ℕ, ◌+◌, ◌≡◌, refl, ap, sym, ◌∙◌, Option, none, some, List, arith, if_keeps, option_keeps, String,
  if◌then◌else◌, not, leb,
}
use review_flow.Base.Text.{same_text}
use review_flow.Billing.Model.{Plan, Subscription, Effect}
use review_flow.Billing.Provider.{Value, get, from_unix}
use review_flow.Billing.Paid.{current_period_paid}
use review_flow.Billing.Session.{Session, IsLocked, save}
use review_flow.Billing.Retire.{Surroundings}
use review_flow.Billing.Retire.Rows.{retired_row, retire_replacement-sub}
use review_flow.Billing.Transition.{Outcome, apply_active, active_in_period, is_same_period}
use review_flow.Billing.Transition.Rows.{refresh_plan-sub, advance_period-sub}
use review_flow.Billing.Transition.Proof.{record_payment?-sub}
use review_flow.Billing.Snapshot.{SnapshotResult}
use review_flow.Billing.Replacement.{
  switched, with_provider_columns, complete_switch, tell_paid_after_end, apply_replacement_locked,
}
use review_flow.Billing.Replacement.Cases.{replacement_cases}
use review_flow.Billing.Replacement.Saved.{apply_replacement_locked_saves, switched-sub}

abbrev names : String → Option String → ℕ
names ref none = 0
names ref (some t) = if same_text t ref then 1 else 0

-- How many slots of the row hold the reference.
abbrev pub tracked : String → Subscription → ℕ
tracked ref sub =
    names ref sub.payment_provider_ref
    + names ref sub.replacement_provider_ref
    + names ref sub.retired_provider_ref

-- The slots are those of the row before.
abbrev SameSlots : Subscription → Subscription → Type 0
SameSlots before after =
    (after.payment_provider_ref ≡ before.payment_provider_ref)
    × (after.replacement_provider_ref ≡ before.replacement_provider_ref)
    × (after.retired_provider_ref ≡ before.retired_provider_ref)

active_in_period-SameSlots :
    (s : Session) (entity : Value) (invoices : Option (List Value)) (p : Plan) (actor : Option ℕ)
    (effect : Option Effect) (start end : ℕ)
    → SameSlots s.sub (active_in_period s entity invoices p actor effect start end).1.sub
unfolding active_in_period
active_in_period-SameSlots s entity invoices p actor effect start end =
    if_keeps (λ (r : Outcome × Session). SameSlots s.sub r.1.sub) (is_same_period s.sub start)
      (rw
        (
          record_payment?-sub _ (current_period_paid entity invoices) _,
          refresh_plan-sub s p actor effect,
        )
        (refl, refl, refl))
      (option_keeps (λ (r : Outcome × Session). SameSlots s.sub r.1.sub)
        (current_period_paid entity invoices) (refl, refl, refl)
        (λ invoice _.
          rw (advance_period-sub s start end invoice p actor effect) (refl, refl, refl)))

apply_active-SameSlots :
    (s : Session) (entity : Value) (invoices : Option (List Value)) (p : Plan) (actor : Option ℕ)
    (effect : Option Effect)
    → SameSlots s.sub (apply_active s entity invoices p actor effect).1.sub
unfolding apply_active
apply_active-SameSlots s entity invoices p actor effect =
    option_keeps (λ (r : Outcome × Session). SameSlots s.sub r.1.sub)
      (from_unix (get entity "current_start")) (refl, refl, refl)
      (λ start _.
        option_keeps (λ (r : Outcome × Session). SameSlots s.sub r.1.sub)
          (from_unix (get entity "current_end")) (refl, refl, refl)
          (λ end _.
            if_keeps (λ (r : Outcome × Session). SameSlots s.sub r.1.sub) (leb end start)
              (refl, refl, refl)
              (active_in_period-SameSlots s entity invoices p actor effect start end)))

-- Giving up the replacement fills the free retired slot with its reference.
retired_row-tracked :
    (ref : String) (plans : List Plan) (sub : Subscription) (entity : Value)
    → sub.retired_provider_ref ≡ none
    → tracked ref (retired_row plans sub entity) ≡ tracked ref sub
retired_row-tracked ref plans sub entity free = rw free (omega arith)

-- The switch moves the replacement into the paying slot and the old reference into the retired one.
switched-tracked :
    (ref : String) (before sub : Subscription) (entity : Value) (fetched : ℕ)
    → SameSlots before sub
    → before.retired_provider_ref ≡ none
    → tracked ref (switched sub entity fetched before.payment_provider_ref) ≡ tracked ref before
switched-tracked ref before sub entity fetched (a, b, c) free = rw (b, free) (omega arith)

abbrev Keeps : String → Subscription → SnapshotResult × Session → Type 0
Keeps ref before r = tracked ref r.1.sub ≡ tracked ref before

complete_switch-tracked :
    (ref : String) (w : Surroundings) (now : ℕ) (before : Subscription) (entity : Value)
    (fetched : ℕ) (o : Outcome) (t : Session)
    → SameSlots before t.sub
    → before.retired_provider_ref ≡ none
    → Keeps ref before (complete_switch w now before.payment_provider_ref entity fetched (o, t))
unfolding complete_switch
complete_switch-tracked ref w now before entity fetched o t same free =
    if_keeps (Keeps ref before) (not o.advanced) (rw (same.0, same.1, same.2) refl) (
      ap (tracked ref) (switched-sub w.stamp now t entity fetched before.payment_provider_ref)
      ∙ switched-tracked ref before t.sub entity fetched same free)

told-sub : (p : Plan) (s : Session) → (tell_paid_after_end p s).sub ≡ s.sub
told-sub p s = ground arith

object-tracked :
    (w : Surroundings) (now : ℕ) (s : Session) (entity : Value) (invoices : Option (List Value))
    (fetched : ℕ) (ref : String)
    → Keeps ref s.sub (apply_replacement_locked w now s entity invoices fetched)
unfolding save
object-tracked w now s entity invoices fetched ref =
    replacement_cases (Keeps ref s.sub) w now s (λ _. refl)
      (λ entity why _ free.
        ap (tracked ref) (retire_replacement-sub w.plans w.stamp s entity why none)
        ∙ retired_row-tracked ref w.plans s.sub entity free)
      entity invoices fetched (λ plan. ap (tracked ref) (told-sub plan s))
      (λ plan effect free.
        complete_switch-tracked ref w now s.sub entity fetched _ _
          (apply_active-SameSlots (with_provider_columns s) entity invoices plan none (some effect))
          free)

-- A snapshot of a replacement loses no provider subscription and duplicates none: in the stored row,
-- the number of slots (paying, replacement, retired) that hold a reference is the same before and
-- after, for every reference.
pub apply_replacement_locked-tracked :
    (w : Surroundings) (now : ℕ) (s : Session) (entity : Value) (invoices : Option (List Value))
    (fetched : ℕ) (ref : String)
    → IsLocked s
    → tracked ref (apply_replacement_locked w now s entity invoices fetched).1.row
      ≡ tracked ref s.row
apply_replacement_locked-tracked w now s entity invoices fetched ref h =
    let (r, after) = apply_replacement_locked w now s entity invoices fetched in
    let same : tracked ref after.sub ≡ tracked ref s.row =
      object-tracked w now s entity invoices fetched ref ∙ ap (tracked ref) (sym h.0) in
    ap (tracked ref) (apply_replacement_locked_saves w now s entity invoices fetched h)
    ∙ if_keeps (λ (u : Subscription). tracked ref u ≡ tracked ref s.row) r.changed same refl
