-- ===== src/Billing/Commit/Recovery.antt =====
-- A commit that the provider may not have heard of is found again, and keeps the check constraints.
use review_flow.Base.{
  ℕ, Bool, true, false, ◌&&◌, ◌≡◌, Option, none, some, [], ◌∷◌, arith, is_some, if_keeps,
  option_keeps, Bool-cases, inl, inr,
}
use review_flow.Billing.Constraints.{MeetsConstraints}
use review_flow.Billing.Model.{verification_failed, Reason}
use review_flow.Billing.Provider.{Value, entity_status}
use review_flow.Billing.Session
use review_flow.Billing.Session.{Session, IsLocked}
use review_flow.Billing.Retire.{Surroundings, not_active, abandon_unless_active}
use review_flow.Billing.Retire.Covered.{abandon_unless_active-IsCovered}
use review_flow.Billing.Retire.Rows.{abandon_unless_active-MeetsConstraints}
use review_flow.Billing.Replacement.{save_updated}
use review_flow.Billing.Replacement.Saved.{save_updated-row, locked-IsCovered}
use review_flow.Billing.Exec.{Gates}
use review_flow.Billing.Request.Rows.{save_columns-row, restamped-MeetsConstraints}
use review_flow.Billing.Commit.{
  is_authenticated, downgrade_verified, commit_candidate, is_downgrade, commit_intent, saved_if,
  Intent, intent_of, read_of, commit_locked, confirm, reissue_due,
}

commit_intent-row :
    (now at : ℕ) (s : Session)
    → IsLocked s
    → (commit_intent now at s).row
      ≡ record s.sub { replacement_committed_at = some now; updated_at = at }
unfolding commit_intent
commit_intent-row now at s (same, empty) =
    save_columns-row (Session.replacement_committed_at ∷ []) at
      (record s.sub { replacement_committed_at = some now }) s (ground arith)

pub confirm-row :
    (now at : ℕ) (s : Session)
    → IsLocked s
    → (confirm now at s).row
      ≡ record s.sub { replacement_cancel_confirmed_at = some now; updated_at = at }
unfolding confirm
confirm-row now at s (same, empty) =
    save_columns-row (Session.replacement_cancel_confirmed_at ∷ []) at
      (record s.sub { replacement_cancel_confirmed_at = some now }) s (ground arith)

-- What T1 leaves: the row as it was, a replacement given up, or the intent of a candidate.
commit_cases :
    (P : Option Intent → Session → Type 0) (gates : Gates) (margin : Option ℕ) (w : Surroundings)
    (now : ℕ) (s : Session)
    → P none s
    → ((entity : Value)
        → let r = abandon_unless_active w s verification_failed not_active (some entity) in
          P none (saved_if w.stamp s r.0 r.2))
    → (commit_candidate s.sub ≡ true → P (some (intent_of s.sub)) (commit_intent now w.stamp s))
    → P (commit_locked gates margin w now s).0 (commit_locked gates margin w now s).1
unfolding commit_locked
commit_cases P gates margin w now s kept abandoned committed =
    elim (Bool-cases (commit_candidate s.sub && is_downgrade s.sub)) [
      | inr other ↦ rw other kept
      | inl may ↦ rw may (
          option_keeps (λ (r : Option Intent × Session). P r.0 r.1)
            (read_of s.sub.replacement_provider_ref w.reread) kept
            (λ entity e.
              if_keeps (λ (r : Option Intent × Session). P r.0 r.1)
                (is_authenticated (entity_status entity))
                (if_keeps (λ (r : Option Intent × Session). P r.0 r.1)
                  (downgrade_verified gates margin s.sub entity now) (committed (ground arith))
                  (abandoned entity))
                kept))
    ]

reissue_due-committed :
    (now at : ℕ) (s : Session)
    → IsLocked s
    → MeetsConstraints s.row
    → commit_candidate s.sub ≡ true
    → reissue_due (commit_intent now at s).row ≡ some (intent_of s.sub)
unfolding reissue_due commit_candidate
reissue_due-committed now at s h m may =
    let kept : MeetsConstraints s.sub = rw (← h.0) m in
    rw (commit_intent-row now at s h) (ground arith)

saved_cases :
    (at : ℕ) (s : Session) (saved : Bool) (t : Session)
    → MeetsConstraints s.row
    → MeetsConstraints (save_updated at t).row
    → MeetsConstraints (saved_if at s saved t).row
saved_cases at s true t m n = n
saved_cases at s false t m n = m

commit_intent-MeetsConstraints :
    (now at : ℕ) (s : Session)
    → IsLocked s
    → MeetsConstraints s.sub
    → commit_candidate s.sub ≡ true
    → MeetsConstraints (commit_intent now at s).row
unfolding commit_candidate
commit_intent-MeetsConstraints now at s h kept may =
    rw (commit_intent-row now at s h) (ground arith)

saved_if-MeetsConstraints :
    (w : Surroundings) (s : Session) (why : Reason) (given : Option Value)
    → IsLocked s
    → MeetsConstraints s.row
    → let r = abandon_unless_active w s why not_active given in
      MeetsConstraints (saved_if w.stamp s r.0 r.2).row
saved_if-MeetsConstraints w s why given h m =
    let r = abandon_unless_active w s why not_active given in
    saved_cases w.stamp s r.0 r.2 m (
      rw
        (save_updated-row w.stamp r.2
          (abandon_unless_active-IsCovered w s why not_active given (locked-IsCovered s h)))
        (restamped-MeetsConstraints r.2.sub w.stamp
          (abandon_unless_active-MeetsConstraints w s why not_active given (rw (← h.0) m))))

-- The commit of T1 on a locked row that meets its check constraints leaves one that does; and if it
-- returns the references that the provider is then called with, the sweep that reads this row, the
-- provider never called or its answer lost, calls it with the same references.
pub commit_locked-recovered :
    (gates : Gates) (margin : Option ℕ) (w : Surroundings) (now : ℕ) (s : Session)
    → IsLocked s
    → MeetsConstraints s.row
    → let (intent, after) = commit_locked gates margin w now s in
      MeetsConstraints after.row × (is_some intent ≡ true → reissue_due after.row ≡ intent)
commit_locked-recovered gates margin w now s h m =
    commit_cases
      (λ intent after.
        MeetsConstraints after.row × (is_some intent ≡ true → reissue_due after.row ≡ intent))
      gates margin w now s (m, λ e. ground arith)
      (λ entity.
        (saved_if-MeetsConstraints w s verification_failed (some entity) h m, λ e. ground arith))
      (λ may.
        let kept : MeetsConstraints s.sub = rw (← h.0) m in
        (
          commit_intent-MeetsConstraints now w.stamp s h kept may,
          λ _. reissue_due-committed now w.stamp s h m may,
        ))
