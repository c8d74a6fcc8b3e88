-- ===== src/Billing/Session/Save.antt =====
-- When a save loses no write: every column that the object in memory has changed is in the set.
use review_flow.Billing.Session.{
  with_stamp, column_number, Column, Session, save, written, plan, status, current_period_start,
  current_period_end, payment_provider_ref, pending_plan, past_due_at, dunning_stage,
  cancel_at_period_end, provider_status, provider_synced_at, replacement_provider_ref,
  replacement_expires_at, replacement_plan, replacement_committed_at,
  replacement_cancel_confirmed_at, retired_provider_ref, retired_kind, updated_at,
}
use review_flow.Base.{◌<◌, ◌∙◌, sym, ℕ, Bool, true, false, ◌≡◌, refl, arith, if◌then◌else◌}
use review_flow.Billing.Model.{Subscription}

-- The row is the one that was locked, and agrees with the object in every column outside the set;
-- `updated_at`, which the save sets, is in the set of no transition. `marked` says whether the provider's
-- status and the fetch time are.
pub record IsCovered (row : Subscription) (marked : Bool) (s : Session) : Type 0 where
  pub same_row : s.row ≡ row
  pub marks_status : s.fields provider_status ≡ marked
  pub marks_sync : s.fields provider_synced_at ≡ marked
  pub unstamped : s.fields updated_at ≡ false
  pub id : s.row.id ≡ s.sub.id
  pub merchant_id : s.row.merchant_id ≡ s.sub.merchant_id
  pub plan : s.fields plan ≡ false → s.row.plan ≡ s.sub.plan
  pub status : s.fields status ≡ false → s.row.status ≡ s.sub.status
  pub current_period_start :
      s.fields current_period_start ≡ false
      → s.row.current_period_start ≡ s.sub.current_period_start
  pub current_period_end :
      s.fields current_period_end ≡ false → s.row.current_period_end ≡ s.sub.current_period_end
  pub payment_provider_ref :
      s.fields payment_provider_ref ≡ false
      → s.row.payment_provider_ref ≡ s.sub.payment_provider_ref
  pub pending_plan : s.fields pending_plan ≡ false → s.row.pending_plan_id ≡ s.sub.pending_plan_id
  pub past_due_at : s.fields past_due_at ≡ false → s.row.past_due_at ≡ s.sub.past_due_at
  pub dunning_stage : s.fields dunning_stage ≡ false → s.row.dunning_stage ≡ s.sub.dunning_stage
  pub cancel_at_period_end :
      s.fields cancel_at_period_end ≡ false
      → s.row.cancel_at_period_end ≡ s.sub.cancel_at_period_end
  pub provider_status :
      s.fields provider_status ≡ false → s.row.provider_status ≡ s.sub.provider_status
  pub provider_synced_at :
      s.fields provider_synced_at ≡ false → s.row.provider_synced_at ≡ s.sub.provider_synced_at
  pub replacement_provider_ref :
      s.fields replacement_provider_ref ≡ false
      → s.row.replacement_provider_ref ≡ s.sub.replacement_provider_ref
  pub replacement_expires_at :
      s.fields replacement_expires_at ≡ false
      → s.row.replacement_expires_at ≡ s.sub.replacement_expires_at
  pub replacement_plan :
      s.fields replacement_plan ≡ false → s.row.replacement_plan ≡ s.sub.replacement_plan
  pub replacement_committed_at :
      s.fields replacement_committed_at ≡ false
      → s.row.replacement_committed_at ≡ s.sub.replacement_committed_at
  pub replacement_cancel_confirmed_at :
      s.fields replacement_cancel_confirmed_at ≡ false
      → s.row.replacement_cancel_confirmed_at ≡ s.sub.replacement_cancel_confirmed_at
  pub retired_provider_ref :
      s.fields retired_provider_ref ≡ false
      → s.row.retired_provider_ref ≡ s.sub.retired_provider_ref
  pub retired_kind : s.fields retired_kind ≡ false → s.row.retired_kind ≡ s.sub.retired_kind

kept {ℓ} : {A : Type ℓ} {x y : A} (b : Bool) → (b ≡ false → y ≡ x) → (if b then x else y) ≡ x
kept true h = refl
kept false h = h refl

stamped_other :
    (changed : Bool) (s : Session) (c : Column)
    → column_number c < column_number updated_at
    → (with_stamp changed s).fields c ≡ s.fields c
stamped_other true s c h = ground arith
stamped_other false s c h = refl

stamped_updated_at :
    (changed : Bool) (s : Session)
    → s.fields updated_at ≡ false
    → (with_stamp changed s).fields updated_at ≡ changed
stamped_updated_at true s h = refl
stamped_updated_at false s h = h

-- `save` then writes the whole object, and moves `updated_at` exactly if told to.
pub save-with_stamp :
    (now : ℕ) (changed : Bool) {row : Subscription} {marked : Bool} (s : Session)
    → IsCovered row marked s
    → (save now (with_stamp changed s)).row
      ≡ record (s.sub) { updated_at = if changed then now else row.updated_at }
unfolding save written
save-with_stamp now changed {row} s h = λ i. record {
  id = h.id i;
  merchant_id = h.merchant_id i;
  plan =
      kept ((with_stamp changed s).fields plan)
        (λ e. h.plan (sym (stamped_other changed s plan (omega arith)) ∙ e)) i;
  status =
      kept ((with_stamp changed s).fields status)
        (λ e. h.status (sym (stamped_other changed s status (omega arith)) ∙ e)) i;
  current_period_start =
      kept ((with_stamp changed s).fields current_period_start)
        (λ e.
          h.current_period_start
            (sym (stamped_other changed s current_period_start (omega arith)) ∙ e))
        i;
  current_period_end =
      kept ((with_stamp changed s).fields current_period_end)
        (λ e.
          h.current_period_end (sym (stamped_other changed s current_period_end (omega arith)) ∙ e))
        i;
  payment_provider_ref =
      kept ((with_stamp changed s).fields payment_provider_ref)
        (λ e.
          h.payment_provider_ref
            (sym (stamped_other changed s payment_provider_ref (omega arith)) ∙ e))
        i;
  pending_plan_id =
      kept ((with_stamp changed s).fields pending_plan)
        (λ e. h.pending_plan (sym (stamped_other changed s pending_plan (omega arith)) ∙ e)) i;
  past_due_at =
      kept ((with_stamp changed s).fields past_due_at)
        (λ e. h.past_due_at (sym (stamped_other changed s past_due_at (omega arith)) ∙ e)) i;
  dunning_stage =
      kept ((with_stamp changed s).fields dunning_stage)
        (λ e. h.dunning_stage (sym (stamped_other changed s dunning_stage (omega arith)) ∙ e)) i;
  cancel_at_period_end =
      kept ((with_stamp changed s).fields cancel_at_period_end)
        (λ e.
          h.cancel_at_period_end
            (sym (stamped_other changed s cancel_at_period_end (omega arith)) ∙ e))
        i;
  provider_status =
      kept ((with_stamp changed s).fields provider_status)
        (λ e. h.provider_status (sym (stamped_other changed s provider_status (omega arith)) ∙ e))
        i;
  provider_synced_at =
      kept ((with_stamp changed s).fields provider_synced_at)
        (λ e.
          h.provider_synced_at (sym (stamped_other changed s provider_synced_at (omega arith)) ∙ e))
        i;
  replacement_provider_ref =
      kept ((with_stamp changed s).fields replacement_provider_ref)
        (λ e.
          h.replacement_provider_ref
            (sym (stamped_other changed s replacement_provider_ref (omega arith)) ∙ e))
        i;
  replacement_expires_at =
      kept ((with_stamp changed s).fields replacement_expires_at)
        (λ e.
          h.replacement_expires_at
            (sym (stamped_other changed s replacement_expires_at (omega arith)) ∙ e))
        i;
  replacement_plan =
      kept ((with_stamp changed s).fields replacement_plan)
        (λ e. h.replacement_plan (sym (stamped_other changed s replacement_plan (omega arith)) ∙ e))
        i;
  replacement_committed_at =
      kept ((with_stamp changed s).fields replacement_committed_at)
        (λ e.
          h.replacement_committed_at
            (sym (stamped_other changed s replacement_committed_at (omega arith)) ∙ e))
        i;
  replacement_cancel_confirmed_at =
      kept ((with_stamp changed s).fields replacement_cancel_confirmed_at)
        (λ e.
          h.replacement_cancel_confirmed_at
            (sym (stamped_other changed s replacement_cancel_confirmed_at (omega arith)) ∙ e))
        i;
  retired_provider_ref =
      kept ((with_stamp changed s).fields retired_provider_ref)
        (λ e.
          h.retired_provider_ref
            (sym (stamped_other changed s retired_provider_ref (omega arith)) ∙ e))
        i;
  retired_kind =
      kept ((with_stamp changed s).fields retired_kind)
        (λ e. h.retired_kind (sym (stamped_other changed s retired_kind (omega arith)) ∙ e)) i;
  updated_at =
      if stamped_updated_at changed s h.unstamped i then now else (h.same_row i).updated_at;
}
