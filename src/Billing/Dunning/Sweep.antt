-- ===== src/Billing/Dunning/Sweep.antt =====
-- Whatever work is owed, the sweep comes to it.
use review_flow.Base.Text.{same_text_refl}
use review_flow.Base.{
  ◌∙◌, ◌+◌, ◌*◌, ◌≤◌, false, sym, Option, Option-cases, ◌↔◌, ℕ, false, ◌≡◌, ◌≢◌, none, some, List,
  String, arith, inl, inr, ◌⊎◌,
}
use review_flow.Billing.Dunning.{truncated, answered_status, Reply, record_cancel, owed_cancel}
use review_flow.Billing.Session.{Session}
use review_flow.Billing.Retired.{sync_retired}
use review_flow.Billing.Dunning.Checkpoints.{swept}
use mathlib.Core.List.{Memᴰ}
use review_flow.Billing.Model.{
  incomplete, active, past_due, cancelled, expired, Subscription, BillingEvent, ProviderStatus,
}
use review_flow.Billing.Provider.{provider_may_be_cancelled}

-- The provider has not reported that the subscription is over.
abbrev pub IsOpen : Option ProviderStatus → Type 0
IsOpen status =
    (status ≢ some ProviderStatus.cancelled)
    × (status ≢ some ProviderStatus.completed)
    × (status ≢ some ProviderStatus.expired)

-- What a row waits for, in words of its own: a first payment of a checkout of the last seven days, a
-- period that has ended, a grace period, a plan-change replacement, a retired subscription, or the
-- end of the provider's subscription after the row's.
abbrev pub Waits : ℕ → Subscription → Type 0
Waits now row =
    ((row.status ≡ incomplete)
      × (row.payment_provider_ref ≢ none)
      × (now ≤ row.updated_at + 7 * 86400 * 1000000))
    ⊎ ((row.status ≡ active)
        × (row.payment_provider_ref ≢ none)
        × ((end : ℕ) × (row.current_period_end ≡ some end) × (end ≤ now)))
    ⊎ (row.status ≡ past_due)
    ⊎ (row.replacement_provider_ref ≢ none)
    ⊎ (row.retired_provider_ref ≢ none)
    ⊎ (((row.status ≡ cancelled) ⊎ (row.status ≡ expired))
        × (row.payment_provider_ref ≢ none)
        × IsOpen row.provider_status)

-- An event of two minutes ago that no sync has observed.
abbrev pub EventWaits : ℕ → List BillingEvent → Type 0
EventWaits now events =
    (e : BillingEvent) × Memᴰ e events
    × (e.processed_at ≡ none)
    × (e.created_at + 2 * 60 * 1000000 ≤ now)

-- The local work of a sweep and that of the retired slot leave the row as it is.
abbrev pub IsIdle : ℕ → ℕ → Reply → Reply → Session → Type 0
IsIdle now stamp fetch_reply cancel_reply s =
    ((swept now stamp s).row ≡ s.row)
    × (owed_cancel s.row ≡ none)
    × (sync_retired now stamp (some s.row) fetch_reply cancel_reply s ≡ s)

-- Once the provider answers an owed cancel with a terminal status, the cancel is owed no more; until
-- then, on a failure or another answer that may still be cancelled, it stays owed.
pub owed_cancel-record_cancel :
    (row : Subscription) (ref : String) (reply : Reply)
    → owed_cancel row ≡ some ref
    → (owed_cancel (record_cancel ref reply row) ≡ none) ↔ (
        (status : ProviderStatus) × (answered_status reply ≡ some status)
        × (provider_may_be_cancelled (some (truncated status)) ≡ false))
unfolding owed_cancel record_cancel
owed_cancel-record_cancel row ref reply owed = elim (Option-cases (answered_status reply)) [
  | inl failed ↦ (
    λ e.
        let same : record_cancel ref reply row ≡ row = rw (failed, record_cancel) in
        ground (arith, same),
    λ (st, g, h). let wrong : none ≡ some st = sym failed ∙ g in cc wrong,
  )
  | inr (status, e) ↦ (
    λ f. (status, e, ground (arith, same_text_refl ref)),
    λ (st, g, h). ground (arith, same_text_refl ref),
  )
]
