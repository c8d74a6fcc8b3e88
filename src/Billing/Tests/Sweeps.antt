-- ===== src/Billing/Tests/Sweeps.antt =====
-- Sweeps of the merchant.
use review_flow.Billing.Session.{written, save}
use review_flow.Billing.Retired.{clear_retired, retired_may_be_cancelled, sync_retired, confirmed}
use review_flow.Billing.Provider.{
  provider_status_of, entries, Value, answered, provider_may_be_cancelled, truncated,
}
use review_flow.Billing.Retire.{refetched}
use review_flow.Billing.Model.{Subscription, expired, ProviderStatus, days, switched_old}
use review_flow.Billing.Retired.Release.{Release, sync_retired-Release}
use review_flow.Base.{
  String, List, ◌∷◌, ◌⊎◌, ℕ, ◌+◌, false, ◌≡◌, refl, none, some, [], arith, ◌↔◌, length,
}
use review_flow.Billing.Tests.{
  at, end_unix, overdue, ended_row, session, failed_entity, entity, start_unix, paying,
  active_entity,
}
use review_flow.Billing.Dunning.{owed_cancel, record_cancel, answered_status}
use review_flow.Billing.Dunning.Checkpoints.{swept, swept_in_grace, sweep_all, sweep_all-row}
use review_flow.Billing.Dunning.Sweep.{owed_cancel-record_cancel}

-- Four days after the failed payment.
abbrev fourth_day : ℕ
fourth_day = at end_unix + days 4

abbrev eighth_day : ℕ
eighth_day = at end_unix + days 8

swept_in_grace_example :
    ((swept fourth_day fourth_day (session overdue)).row
      ≡ record overdue { dunning_stage = some 3; updated_at = fourth_day })
    × (length (swept fourth_day fourth_day (session overdue)).audit ≡ 1)
swept_in_grace_example =
    swept_in_grace fourth_day fourth_day (session overdue) (at end_unix) 0 refl refl refl
      (omega arith)

-- A sweep on the fourth day, one at the end of the seventh, and one after it.
abbrev sweeps : List (ℕ × ℕ)
sweeps =
    (fourth_day, fourth_day)
    ∷ (at end_unix + days 7, at end_unix + days 7)
    ∷ (eighth_day, eighth_day)
    ∷ []

sweep_all-row_example :
    let row = (sweep_all sweeps (session overdue)).row in
    (row.status ≡ expired) × (row.past_due_at ≡ none) × (row.dunning_stage ≡ none)
sweep_all-row_example = sweep_all-row sweeps (session overdue) (at end_unix) 0 refl refl refl

owes : owed_cancel ended_row ≡ some "sub_A"
unfolding owed_cancel provider_may_be_cancelled
owes = refl

owed_cancel-record_cancel_example :
    (owed_cancel (record_cancel "sub_A" (answered failed_entity) ended_row) ≡ none) ↔ (
      (status : ProviderStatus) × (answered_status (answered failed_entity) ≡ some status)
      × (provider_may_be_cancelled (some (truncated status)) ≡ false))
owed_cancel-record_cancel_example =
    owed_cancel-record_cancel ended_row "sub_A" (answered failed_entity) owes

-- The old subscription after a switch, which the provider cancels when asked.
abbrev switched_away : Subscription
switched_away = record paying {
  retired_provider_ref = some "sub_A";
  retired_kind = some switched_old;
}

abbrev cancelled_entity : Value
cancelled_entity = entity "sub_A" "plan_growth" "cancelled" start_unix end_unix

abbrev old_ref : String
old_ref = "sub_A"

sync_retired-Release_example :
    let s = session switched_away in
    let after =
      sync_retired eighth_day eighth_day
        (some switched_away)
        (answered active_entity)
        (answered cancelled_entity)
        s in
    ((after.row.retired_provider_ref ≡ none) ↔ (
      (old_ref ≡ old_ref)
      × Release "sub_A"
          (some switched_old)
          (answered active_entity)
          (answered_status (answered cancelled_entity))))
    × ((after ≡ s) ⊎ ((after.row.retired_provider_ref ≡ none) × (after.row.retired_kind ≡ none)))
sync_retired-Release_example =
    sync_retired-Release eighth_day eighth_day switched_away "sub_A" "sub_A"
      (answered active_entity) (answered cancelled_entity) (session switched_away) refl refl refl

slot_freed :
    (sync_retired eighth_day eighth_day
      (some switched_away)
      (answered active_entity)
      (answered cancelled_entity)
      (session switched_away)).row.retired_provider_ref
    ≡ none
unfolding sync_retired confirmed refetched entries provider_status_of retired_may_be_cancelled
    clear_retired save written
slot_freed = refl
