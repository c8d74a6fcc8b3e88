-- ===== src/Billing/Snapshot/Cases.antt =====
-- The ways through `_apply_snapshot`: it returns at once with nothing changed, or it dispatches on
-- the status of an entity that names the row, is newer than the last sync and has a known plan.
use review_flow.Base.{inl, inr, Bool-cases, ℕ, Option, some, ◌≡◌, List, option_keeps, true, false}
use review_flow.Billing.Model.{Plan, ProviderStatus}
use review_flow.Billing.Provider.{Value, get, as_text, plan_named, entity_status}
use review_flow.Billing.Session.{Session}
use review_flow.Billing.Retire.{Surroundings}
use review_flow.Billing.Snapshot.{
  SnapshotResult, result, names_row, is_stale, by_status, with_provider_fields, finish,
  apply_locked,
}

pub apply_locked_cases {ℓ} :
    (P : SnapshotResult × Session → Type ℓ) (w : Surroundings) (now : ℕ) (s : Session)
    (entity : Value) (invoices : Option (List Value)) (fetched : ℕ) (actor : Option ℕ)
    → P (result false false, s)
    → ((plan : Plan) (status : ProviderStatus)
        → names_row (as_text (get entity "id")) s.sub.payment_provider_ref ≡ true
        → is_stale fetched s.sub.provider_synced_at ≡ false
        → plan_named w.plans (get entity "plan_id") ≡ some plan
        → entity_status entity ≡ some status
        → P (
            finish now status fetched
              (by_status w now (with_provider_fields s) entity invoices plan actor status)))
    → P (apply_locked w now s entity invoices fetched actor)
unfolding apply_locked
apply_locked_cases P w now s entity invoices fetched actor same applied =
    elim (Bool-cases (names_row (as_text (get entity "id")) s.sub.payment_provider_ref)) [
      | inr other ↦ rw other same
      | inl named ↦ elim (Bool-cases (is_stale fetched s.sub.provider_synced_at)) [
        | inl stale ↦ rw (named, stale) same
        | inr newer ↦
            rw (named, newer)
              (option_keeps P (plan_named w.plans (get entity "plan_id")) same (λ plan p.
                option_keeps P (entity_status entity) same
                  (λ status q. applied plan status named newer p q)))
      ]
    ]
