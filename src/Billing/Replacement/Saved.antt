-- ===== src/Billing/Replacement/Saved.antt =====
-- What the snapshot of a replacement saves.
use review_flow.Base.{
  ℕ, Bool, true, false, ◌≡◌, refl, ap, sym, ◌∙◌, Option, none, some, List, arith, if_keeps, String,
  if◌then◌else◌, not,
}
use review_flow.Billing.Model.{Plan, Subscription}
use review_flow.Billing.Provider.{Value}
use review_flow.Billing.Session.{Session, IsLocked, Fields, save}
use review_flow.Billing.Session.Save.{IsCovered, save-with_stamp}
use review_flow.Billing.Retire.{Surroundings}
use review_flow.Billing.Retire.Covered.{retire_replacement-IsCovered}
use review_flow.Billing.Transition.{Outcome, reset_usage_period}
use review_flow.Billing.Transition.Covered.{apply_active-IsCovered}
use review_flow.Billing.Snapshot.{SnapshotResult, result}
use review_flow.Billing.Replacement.{
  save_updated, switched_session, with_provider_columns, complete_switch, mark_departing,
  tell_paid_after_end, apply_replacement_locked,
}
use review_flow.Billing.Replacement.Cases.{replacement_cases}

pub locked-IsCovered : (s : Session) → IsLocked s → IsCovered s.row false s
locked-IsCovered s (same, empty) = ground (arith, ap (λ (f : Fields). f) empty)

selected-IsCovered : (s : Session) → IsLocked s → IsCovered s.row true (with_provider_columns s)
selected-IsCovered s (same, empty) = ground arith

switched-IsCovered :
    {row : Subscription} (s : Session) (entity : Value) (fetched : ℕ) (departing : Option String)
    → IsCovered row true s
    → IsCovered row true (switched_session s entity fetched departing)
switched-IsCovered s entity fetched departing h = ground arith

-- The saved row is the object, at a new `updated_at`.
pub save_updated-row :
    {row : Subscription} {marked : Bool} (now : ℕ) (s : Session)
    → IsCovered row marked s
    → (save_updated now s).row ≡ record (s.sub) { updated_at = now }
save_updated-row now s h = save-with_stamp now true s h

mark_departing-row :
    (departing : Option String) (stamp : ℕ) (s : Session)
    → (mark_departing departing stamp s).row ≡ s.row
mark_departing-row none stamp s = refl
mark_departing-row (some ref) stamp s = refl

pub mark_departing-sub :
    (departing : Option String) (stamp : ℕ) (s : Session)
    → (mark_departing departing stamp s).sub ≡ s.sub
mark_departing-sub none stamp s = refl
mark_departing-sub (some ref) stamp s = refl

-- The row that a run leaves is the object, at a new `updated_at`, or the row before.
abbrev Saves : ℕ → Subscription → SnapshotResult × Session → Type 0
Saves now row (r, after) =
    after.row ≡ (if r.changed then record (after.sub) { updated_at = now } else row)

switched-row :
    {row : Subscription} (stamp now : ℕ) (t : Session) (entity : Value) (fetched : ℕ)
    (departing : Option String)
    → IsCovered row true t
    → (mark_departing departing stamp
        (reset_usage_period (save_updated now (switched_session t entity fetched departing)))).row
      ≡ record (switched_session t entity fetched departing).sub { updated_at = now }
unfolding reset_usage_period
switched-row stamp now t entity fetched departing covered =
    mark_departing-row departing stamp _
    ∙ save_updated-row now _ (switched-IsCovered t entity fetched departing covered)

pub switched-sub :
    (stamp now : ℕ) (t : Session) (entity : Value) (fetched : ℕ) (departing : Option String)
    → (mark_departing departing stamp
        (reset_usage_period (save_updated now (switched_session t entity fetched departing)))).sub
      ≡ (switched_session t entity fetched departing).sub
unfolding reset_usage_period save
switched-sub stamp now t entity fetched departing = mark_departing-sub departing stamp _

complete_switch-Saves :
    {row : Subscription} (w : Surroundings) (now : ℕ) (departing : Option String) (entity : Value)
    (fetched : ℕ) (o : Outcome) (t : Session)
    → IsCovered row true t
    → Saves now row (complete_switch w now departing entity fetched (o, t))
unfolding complete_switch
complete_switch-Saves {row} w now departing entity fetched o t covered =
    if_keeps (Saves now row) (not o.advanced) covered.same_row (
      switched-row w.stamp now t entity fetched departing covered
      ∙ ap (λ (u : Subscription). record u { updated_at = now })
          (sym (switched-sub w.stamp now t entity fetched departing)))

retired-Saves :
    {row : Subscription} (now : ℕ) (t : Session)
    → IsCovered row false t
    → Saves now row (result true true, save_updated now t)
unfolding save
retired-Saves now t covered = save_updated-row now t covered

told-row : (p : Plan) (s : Session) → (tell_paid_after_end p s).row ≡ s.row
told-row p s = ground arith

-- A snapshot of a replacement writes the whole subscription as it left it in memory, with a new
-- `updated_at`, exactly if its result says that something changed; otherwise the row stays as it is.
pub apply_replacement_locked_saves :
    (w : Surroundings) (now : ℕ) (s : Session) (entity : Value) (invoices : Option (List Value))
    (fetched : ℕ)
    → IsLocked s
    → let (r, after) = apply_replacement_locked w now s entity invoices fetched in
      after.row ≡ (if r.changed then record (after.sub) { updated_at = now } else s.row)
apply_replacement_locked_saves w now s entity invoices fetched h =
    replacement_cases (Saves now s.row) w now s (λ _. refl)
      (λ entity why _ _.
        retired-Saves now _
          (retire_replacement-IsCovered w.plans w.stamp s entity why none (locked-IsCovered s h)))
      entity invoices fetched (λ plan. told-row plan s)
      (λ plan effect _.
        complete_switch-Saves w now s.sub.payment_provider_ref entity fetched _ _ (
          apply_active-IsCovered _ entity invoices plan none (some effect)
            (selected-IsCovered s h)))
