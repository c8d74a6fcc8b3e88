-- ===== src/Billing/Commit/Outcome.antt =====
-- What the provider's answer to the commit's cancel leaves of the row.
use review_flow.Base.{
  ◌≢◌, ◌⊎◌, refl, Option-cases, ℕ, Bool, true, false, ◌≡◌, none, arith, is_some, is_none, if_keeps,
  Bool-cases, inl, inr,
}
use review_flow.Billing.Constraints.{MeetsConstraints}
use review_flow.Billing.Model.{cancel_refused, Subscription}
use review_flow.Billing.Provider.{Value, Reply, answered, unavailable, rejected, not_configured}
use review_flow.Billing.Session.{Session, IsLocked}
use review_flow.Billing.Session.Save.{IsCovered}
use review_flow.Billing.Retire.{Surroundings, not_active, abandon_unless_active}
use review_flow.Billing.Retire.Covered.{abandon_unless_active-IsCovered}
use review_flow.Billing.Retire.Rows.{abandon_unless_active-MeetsConstraints}
use review_flow.Billing.Replacement.Saved.{save_updated-row}
use review_flow.Billing.Request.Rows.{restamped-MeetsConstraints}
use review_flow.Billing.Commit.{
  Intent, still_committed, confirm, cleared_intent, refuse_commit, record_outcome, record_reissued,
}
use review_flow.Billing.Commit.Recovery.{confirm-row}

confirm-MeetsConstraints :
    (now at : ℕ) (s : Session)
    → IsLocked s
    → MeetsConstraints s.sub
    → is_some s.sub.replacement_committed_at ≡ true
    → MeetsConstraints (confirm now at s).row
confirm-MeetsConstraints now at s h kept committed = rw (confirm-row now at s h) (ground arith)

cleared_intent-IsCovered : (s : Session) → IsLocked s → IsCovered s.row false (cleared_intent s)
cleared_intent-IsCovered s (same, empty) = ground arith

refuse_commit-MeetsConstraints :
    (w : Surroundings) (s : Session)
    → IsLocked s
    → MeetsConstraints s.sub
    → s.sub.replacement_cancel_confirmed_at ≡ none
    → MeetsConstraints (refuse_commit w s).row
unfolding refuse_commit
refuse_commit-MeetsConstraints w s h kept unconfirmed =
    let t = (abandon_unless_active w (cleared_intent s) cancel_refused not_active none).2 in
    rw
      (save_updated-row w.stamp t (
        abandon_unless_active-IsCovered w (cleared_intent s) cancel_refused not_active none
          (cleared_intent-IsCovered s h)))
      (restamped-MeetsConstraints t.sub w.stamp (
        abandon_unless_active-MeetsConstraints w (cleared_intent s) cancel_refused not_active none
          (ground arith)))

still_committed_lem :
    (intent : Intent) (sub : Subscription)
    → still_committed intent sub ≡ true
    → is_some sub.replacement_committed_at ≡ true
still_committed_lem intent sub e = ground arith

reissued-MeetsConstraints :
    (now stamp : ℕ) (intent : Intent) (reply : Reply) (s : Session)
    → IsLocked s
    → MeetsConstraints s.row
    → MeetsConstraints (record_reissued now stamp intent reply s).row
unfolding record_reissued
reissued-MeetsConstraints now stamp intent unavailable s h m = m
reissued-MeetsConstraints now stamp intent not_configured s h m = m
reissued-MeetsConstraints now stamp intent (rejected status code why) s h m = m
reissued-MeetsConstraints now stamp intent (answered entity) s h m =
    elim (Bool-cases (still_committed intent s.sub)) [
      | inr gone ↦ rw gone m
      | inl here ↦
          let confirmed =
            confirm-MeetsConstraints now stamp s h (rw (← h.0) m)
              (still_committed_lem intent s.sub here) in
          rw here (
            if_keeps (λ (t : Session). MeetsConstraints t.row)
              (is_none s.sub.replacement_cancel_confirmed_at) confirmed m)
    ]

-- A refusal of a cancel that is confirmed by then.
abbrev pub IsLateRefusal : Reply → Session → Type 0
IsLateRefusal reply s =
    (s.row.replacement_cancel_confirmed_at ≢ none)
    × ((status : Value) × (code : Value) × (why : Value) × (reply ≡ rejected status code why))

-- On a locked row that meets its check constraints, whatever the provider answers: the second
-- transaction of the sweep's repeated call leaves a row that meets them, and so does T2, unless the
-- provider refuses a cancel that is already recorded as confirmed.
pub record_outcome-MeetsConstraints :
    (w : Surroundings) (now : ℕ) (intent : Intent) (reply : Reply) (s : Session)
    → IsLocked s
    → MeetsConstraints s.row
    → MeetsConstraints (record_reissued now w.stamp intent reply s).row
      × (MeetsConstraints (record_outcome w now intent reply s).1.row ⊎ IsLateRefusal reply s)
unfolding record_outcome
record_outcome-MeetsConstraints w now intent unavailable s h m =
    (reissued-MeetsConstraints now w.stamp intent unavailable s h m, inl m)
record_outcome-MeetsConstraints w now intent not_configured s h m =
    (reissued-MeetsConstraints now w.stamp intent not_configured s h m, inl m)
record_outcome-MeetsConstraints w now intent (answered entity) s h m = (
  reissued-MeetsConstraints now w.stamp intent (answered entity) s h m,
  elim (Bool-cases (still_committed intent s.sub)) [
    | inr gone ↦ rw gone (inl m)
    | inl here ↦ rw here (
        inl (
          confirm-MeetsConstraints now w.stamp s h (rw (← h.0) m)
            (still_committed_lem intent s.sub here)))
  ],
)
record_outcome-MeetsConstraints w now intent (rejected status code why) s h m = (
  reissued-MeetsConstraints now w.stamp intent (rejected status code why) s h m,
  elim (Option-cases s.row.replacement_cancel_confirmed_at) [
    | inr (at, e) ↦ inr ((λ none_yet. cc (e, none_yet)), (status, code, why, refl))
    | inl unconfirmed ↦ inl (
        if_keeps (λ (r : Bool × Session). MeetsConstraints r.1.row) (still_committed intent s.sub)
          (refuse_commit-MeetsConstraints w s h (rw (← h.0) m) (rw (← h.0) unconfirmed)) m)
  ],
)
