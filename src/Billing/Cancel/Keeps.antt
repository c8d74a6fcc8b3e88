-- ===== src/Billing/Cancel/Keeps.antt =====
-- The cancellations keep the check constraints of the stored row.
use review_flow.Base.{
  List, [], ◌∷◌, if_keeps, if_keeps, List, ℕ, Bool, true, ◌≡◌, refl, ap, ◌∙◌, Option, none, some,
  String, arith, is_some,
}
use review_flow.Billing.Constraints.{MeetsConstraints}
use review_flow.Billing.Model.{
  Plan, past_due, same_status, ProviderStatus, Subscription, Reason, row_ended, merchant_cancelled,
}
use review_flow.Billing.Provider.{Value, Reply}
use review_flow.Billing.Session.{Session, IsLocked}
use review_flow.Billing.Retire.{not_active, retire_replacement, abandon_unless_active}
use review_flow.Billing.Retire.Cases.{abandon_cases}
use review_flow.Billing.Retire.Covered.{retire_replacement-IsCovered}
use review_flow.Billing.Retire.Rows.{
  retired_row, retired_row-MeetsConstraints, retire_replacement-sub,
}
use review_flow.Billing.Replacement.{save_updated}
use review_flow.Billing.Replacement.Saved.{save_updated-row, locked-IsCovered}
use review_flow.Billing.Exec.{Env, pure, ◌>>◌, put, relocked}
use review_flow.Billing.Exec.Keeps.{
  Ensures, Keeps, Any, Ensures-pure, Ensures-raise, Ensures-if, Ensures-savepoint, Ensures-bind,
  forget, Keeps-bind, Keeps-call, Keeps-now, Keeps-put, Keeps-refuse_any,
}
use review_flow.Billing.Request.{surroundings}
use review_flow.Billing.Request.Rows.{save_columns-row, restamped-MeetsConstraints}
use review_flow.Billing.Request.Keeps.{IsGood, Sound, relocked-IsGood, cancel_first-Keeps}
use review_flow.Billing.Checkout.Keeps.{require_request-Keeps, lock_current_subscription-Sound}
use review_flow.Billing.PlanChange.{is_current}
use review_flow.Billing.Cancel.{
  refetch_replacement, readable, cancel_and_retire_replacement, retire_pending, retire_found,
  cancel_replacement, request_cancellation, ended_now, end_past_due, given_up, with_status,
  is_cancellable,
}
use review_flow.Billing.Session

-- A good row is stored, and is what the step returns.
pub stored-IsGood :
    (s : Session)
    → MeetsConstraints s.row
    → Ensures Sound IsGood (put (relocked s) >> pure (relocked s))
stored-IsGood s m =
    Keeps-bind _ _ (Keeps-put (relocked s) (relocked-IsGood s m))
      (λ _. Ensures-pure (relocked s) (relocked-IsGood s m))

-- A replacement that is retired and saved, committed or not.
pub saved_retired-row :
    (plans : List Plan) (at : ℕ) (s : Session) (entity : Value) (why : Reason) (actor : Option ℕ)
    → IsLocked s
    → (save_updated at (retire_replacement plans at s entity why actor)).row
      ≡ record (retired_row plans s.sub entity) { updated_at = at }
saved_retired-row plans at s entity why actor h =
    save_updated-row at _
      (retire_replacement-IsCovered plans at s entity why actor (locked-IsCovered s h))
    ∙ ap (λ (sub : Subscription). record sub { updated_at = at })
        (retire_replacement-sub plans at s entity why actor)

saved_retired-MeetsConstraints :
    (plans : List Plan) (at : ℕ) (s : Session) (entity : Value) (why : Reason) (actor : Option ℕ)
    → IsGood s
    → is_some s.sub.replacement_provider_ref ≡ true
    → MeetsConstraints (save_updated at (retire_replacement plans at s entity why actor)).row
saved_retired-MeetsConstraints plans at s entity why actor (h, m) pending =
    rw (saved_retired-row plans at s entity why actor h) (
      restamped-MeetsConstraints (retired_row plans s.sub entity) at
        (retired_row-MeetsConstraints plans s.sub entity pending (rw (← h.0) m)))

-- A good row in a status that its owner may cancel.
abbrev pub MayCancel : Session → Type 0
MayCancel s = IsGood s × (is_cancellable s.sub.status ≡ true)

refetch_replacement-Keeps :
    (env : Env) (ref : Option String) → Keeps Sound (refetch_replacement env ref)
unfolding refetch_replacement
refetch_replacement-Keeps env none = Ensures-pure none tt
refetch_replacement-Keeps env (some ref) =
    Keeps-bind _ _ (Keeps-call env _) (λ reply. Ensures-pure _ tt)

readable-Keeps : (read : Option Value) → Keeps Sound (readable read)
readable-Keeps none = Ensures-raise _
readable-Keeps (some entity) = Ensures-pure entity tt

module _ (env : Env) (actor : Option ℕ) where
  -- The session that is stored, with whatever `P` the retired rows share.
  cancel_and_retire_replacement-Ensures :
      (P : Session → Type 0) (why : Reason) (refuse_committed : Bool) (s : Session)
      → IsGood s
      → is_some s.sub.replacement_provider_ref ≡ true
      → ((at : ℕ) (entity : Value)
          → P (relocked (save_updated at (retire_replacement env.plans at s entity why actor))))
      → Ensures Sound
          (λ after. IsGood after × P after)
          (cancel_and_retire_replacement env actor why refuse_committed s)
  unfolding cancel_and_retire_replacement
  cancel_and_retire_replacement-Ensures P why refuse_committed s good pending keep =
      Ensures-savepoint _ (
        Keeps-bind _ _ (Keeps-refuse_any _ _) (λ _.
          Keeps-bind _ _ (refetch_replacement-Keeps env s.sub.replacement_provider_ref) (λ read.
            Keeps-bind _ _ (readable-Keeps read) (λ entity.
              Keeps-bind _ _ (Keeps-refuse_any _ _) (λ _.
                Keeps-bind _ _ (Keeps-refuse_any _ _) (λ _.
                  Keeps-bind _ _ (cancel_first-Keeps env _) (λ _.
                    Keeps-bind _ _ (Keeps-now env) (λ at.
                      let t =
                        save_updated at (retire_replacement env.plans at s entity why actor) in
                      let t_good = relocked-IsGood t (
                        saved_retired-MeetsConstraints env.plans at s entity why actor good
                          pending) in
                      Keeps-bind _ _ (Keeps-put (relocked t) t_good)
                        (λ _. Ensures-pure (relocked t) (t_good, keep at entity))))))))))

  pub retire_pending-MayCancel :
      (refuse_committed : Bool) (s : Session)
      → MayCancel s
      → Ensures Sound MayCancel (retire_pending env actor refuse_committed s)
  retire_pending-MayCancel refuse_committed s (good, may) =
      Ensures-if (is_some s.sub.replacement_provider_ref) _ _
        (λ pending.
          cancel_and_retire_replacement-Ensures (λ after. is_cancellable after.sub.status ≡ true)
            merchant_cancelled refuse_committed s good pending
            (λ at entity.
              rw (saved_retired-row env.plans at s entity merchant_cancelled actor good.0) may))
        (λ _. Ensures-pure s (good, may))

  retire_found-Keeps :
      (stored : Option Session) → Sound stored → Keeps Sound (retire_found env actor stored)
  retire_found-Keeps none h = Ensures-pure none tt
  retire_found-Keeps (some s) h =
      Keeps-bind _ _
        (Ensures-if (is_some s.sub.replacement_provider_ref) _ _
          (λ pending. forget (
            cancel_and_retire_replacement-Ensures Any merchant_cancelled true s h pending
              (λ at entity. tt)))
          (λ _. Ensures-pure s tt))
        (λ after. Ensures-pure (some after) tt)

  pub cancel_replacement-Keeps : Keeps Sound (cancel_replacement env actor)
  unfolding cancel_replacement
  cancel_replacement-Keeps =
      Keeps-bind _ _ (require_request-Keeps env)
        (λ merchant_id. Ensures-bind Sound _ _ lock_current_subscription-Sound retire_found-Keeps)

pub requested-MeetsConstraints :
    (at : ℕ) (actor : Option ℕ) (s : Session)
    → IsGood s
    → MeetsConstraints (request_cancellation at actor s).row
unfolding request_cancellation
requested-MeetsConstraints at actor s ((same, empty), m) =
    let kept : MeetsConstraints s.sub = rw (← same) m in
    rw
      (save_columns-row (Session.cancel_at_period_end ∷ []) at
        (record s.sub { cancel_at_period_end = true }) s (ground arith))
      (ground arith)

pub ended-MeetsConstraints :
    (at : ℕ) (actor : Option ℕ) (s : Session)
    → IsGood s
    → same_status s.sub.status past_due ≡ true
    → MeetsConstraints (end_past_due at actor s).row
unfolding end_past_due
ended-MeetsConstraints at actor s ((same, empty), m) late =
    let kept : MeetsConstraints s.sub = rw (← same) m in
    rw
      (save_columns-row (Session.status ∷ Session.past_due_at ∷ Session.dunning_stage ∷ []) at
        (ended_now s.sub) s (ground arith))
      (ground arith)

pub with_status-IsGood :
    (ref : String) (status : Option ProviderStatus) (s : Session)
    → IsGood s
    → IsGood (with_status ref status s)
with_status-IsGood ref none s good = good
with_status-IsGood ref (some status) s ((same, empty), m) =
    if_keeps IsGood (is_current ref s.row.payment_provider_ref) ((refl, empty), ground arith)
      ((same, empty), m)

pub given_up-IsGood :
    (env : Env) (reply : Reply) (stamp : ℕ) (s : Session)
    → IsGood s
    → let r = abandon_unless_active (surroundings env reply stamp) s row_ended not_active none in
      IsGood (given_up stamp s r.0 r.2)
given_up-IsGood env reply stamp s good =
    abandon_cases (λ gone t. IsGood (given_up stamp s gone t)) (surroundings env reply stamp) s
      row_ended not_active none good
      (λ entity read.
        relocked-IsGood
          (save_updated stamp (retire_replacement env.plans stamp s entity row_ended none))
          (saved_retired-MeetsConstraints env.plans stamp s entity row_ended none good
            (rw read.pending refl)))
