-- ===== src/Billing/Cancel/Sound.antt =====
-- The OWNER's requests keep the check constraints of the stored row.
use review_flow.Base.{Bool, ℕ, true, false, ◌≡◌, Option, none, some, String, arith}
use review_flow.Billing.Model.{active, past_due, same_status, ProviderStatus}
use review_flow.Billing.Provider.{
  Value, entity_status, provider_may_be_cancelled, Reply, answered, unavailable, rejected,
  not_configured,
}
use review_flow.Billing.Session.{Session}
use review_flow.Billing.Exec.{Env, World, relocked}
use review_flow.Billing.Exec.Keeps.{
  Ensures, Keeps, forget, Ensures-pure, Ensures-raise, Ensures-if, Ensures-savepoint, Ensures-bind,
  Keeps-bind, Keeps-call, Keeps-now, Keeps-expect, Keeps-put,
}
use review_flow.Billing.Request.Keeps.{
  IsGood, Sound, relocked-IsGood, reconcile-IsGood, reread_replacement-Keeps,
}
use review_flow.Billing.Checkout.Keeps.{
  start_checkout-Keeps, require_request-Keeps, lock_current_subscription-Sound,
}
use review_flow.Billing.Checkout.{start_checkout}
use review_flow.Billing.Cancel.{
  cancel_replacement, request_cancellation, cancel_at_cycle_end, cancel_at_period_end, end_past_due,
  end_locally, with_status, store_answer, tell_provider, cancel_past_due, is_paused,
  cancel_reconciled, cancel_active, cancel_alone, is_cancellable, cancel_locked, cancel_found,
  cancel_subscription,
}
use review_flow.Billing.Cancel.Keeps.{
  stored-IsGood, MayCancel, retire_pending-MayCancel, cancel_replacement-Keeps,
  requested-MeetsConstraints, ended-MeetsConstraints, with_status-IsGood, given_up-IsGood,
}

module _ (env : Env) (actor : Option ℕ) where
  end_locally-IsGood :
      (s : Session)
      → IsGood s
      → same_status s.sub.status past_due ≡ true
      → Ensures Sound IsGood (end_locally env actor s)
  unfolding end_locally
  end_locally-IsGood s good late = Keeps-bind _ _ (Keeps-now env) (λ at.
      let ended = relocked (end_past_due at actor s) in
      let ended_good =
        relocked-IsGood (end_past_due at actor s) (ended-MeetsConstraints at actor s good late) in
      Keeps-bind _ _ (Keeps-put ended ended_good) (λ _.
        Keeps-bind _ _ (reread_replacement-Keeps env true ended) (λ reply.
          Keeps-bind _ _ (Keeps-now env) (λ stamp.
            let after_good = given_up-IsGood env reply stamp ended ended_good in
            Keeps-bind _ _ (Keeps-put _ after_good) (λ _. Ensures-pure _ after_good)))))

  store_answer-IsGood :
      (ref : String) (reply : Reply) (s : Session)
      → IsGood s
      → Ensures Sound IsGood (store_answer ref reply s)
  store_answer-IsGood ref (answered entity) s good =
      let after = with_status-IsGood ref (entity_status entity) s good in
      Keeps-bind _ _ (Keeps-put (with_status ref (entity_status entity) s) after)
        (λ _. Ensures-pure (with_status ref (entity_status entity) s) after)
  store_answer-IsGood ref unavailable s good = Ensures-pure s good
  store_answer-IsGood ref (rejected status code why) s good = Ensures-pure s good
  store_answer-IsGood ref not_configured s good = Ensures-pure s good

  tell_provider-IsGood :
      (ref : Option String) (status : Option ProviderStatus) (s : Session)
      → IsGood s
      → Ensures Sound IsGood (tell_provider env ref status s)
  tell_provider-IsGood none status s good = Ensures-pure s good
  tell_provider-IsGood (some ref) status s good =
      Ensures-if (provider_may_be_cancelled status) _ _
        (λ _. Keeps-bind _ _ (Keeps-call env _) (λ reply. store_answer-IsGood ref reply s good))
        (λ _. Ensures-pure s good)

  cancel_past_due-IsGood :
      (s : Session)
      → IsGood s
      → same_status s.sub.status past_due ≡ true
      → Ensures Sound IsGood (cancel_past_due env actor s)
  unfolding cancel_past_due
  cancel_past_due-IsGood s good late =
      Ensures-bind IsGood _ _ (Ensures-savepoint _ (end_locally-IsGood s good late))
        (tell_provider-IsGood s.sub.payment_provider_ref s.sub.provider_status)

  cancel_at_cycle_end-Keeps : (ref : Option String) → Keeps Sound (cancel_at_cycle_end env ref)
  cancel_at_cycle_end-Keeps none = Ensures-raise _
  cancel_at_cycle_end-Keeps (some ref) = Keeps-bind _ _ (Keeps-call env _) Keeps-expect

  cancel_at_period_end-IsGood :
      (s : Session) → IsGood s → Ensures Sound IsGood (cancel_at_period_end env actor s)
  unfolding cancel_at_period_end
  cancel_at_period_end-IsGood s good =
      Keeps-bind _ _ (cancel_at_cycle_end-Keeps s.sub.payment_provider_ref) (λ answer.
        Keeps-bind _ _ (Keeps-now env) (λ at.
          stored-IsGood (request_cancellation at actor s)
            (requested-MeetsConstraints at actor s good)))

  cancel_reconciled-IsGood :
      (read : Session × Value)
      → IsGood read.0
      → Ensures Sound IsGood (cancel_reconciled env actor read)
  cancel_reconciled-IsGood (s, entity) good =
      Ensures-if (same_status s.sub.status active) _ _
        (λ _.
          Ensures-if (is_paused (entity_status entity)) _ _ (λ _. Ensures-raise _)
            (λ _. cancel_at_period_end-IsGood s good))
        (λ _.
          Ensures-if (same_status s.sub.status past_due) _ _ (cancel_past_due-IsGood s good)
            (λ _. Ensures-raise _))

  cancel_active-IsGood :
      (s : Session) (ref : Option String)
      → IsGood s
      → Ensures Sound IsGood (cancel_active env actor s ref)
  cancel_active-IsGood s none good = Ensures-raise _
  cancel_active-IsGood s (some ref) good =
      Ensures-bind (λ read. IsGood read.0) _ _ (reconcile-IsGood env none ref s good)
        cancel_reconciled-IsGood

  cancel_alone-Keeps : (s : Session) → MayCancel s → Ensures Sound IsGood (cancel_alone env actor s)
  unfolding cancel_alone
  cancel_alone-Keeps s (good, may) =
      Ensures-if (same_status s.sub.status active) _ _
        (λ _.
          Ensures-if s.sub.cancel_at_period_end _ _ (λ _. Ensures-pure s good)
            (λ _. cancel_active-IsGood s s.sub.payment_provider_ref good))
        (λ other. cancel_past_due-IsGood s good (ground (arith, other, may)))

  cancel_found-Keeps :
      (stored : Option Session) → Sound stored → Keeps Sound (cancel_found env actor stored)
  unfolding cancel_locked
  cancel_found-Keeps none h = Ensures-raise _
  cancel_found-Keeps (some s) h =
      Ensures-if (is_cancellable s.sub.status) _ _
        (λ may. forget (
          Ensures-bind MayCancel _ _ (retire_pending-MayCancel env actor false s (h, may))
            cancel_alone-Keeps))
        (λ _. Ensures-raise _)

  cancel_subscription-Keeps : Keeps Sound (cancel_subscription env actor)
  unfolding cancel_subscription
  cancel_subscription-Keeps =
      Keeps-bind _ _ (require_request-Keeps env)
        (λ merchant_id. Ensures-bind Sound _ _ lock_current_subscription-Sound cancel_found-Keeps)

-- A stored row that is locked and meets its check constraints meets them after any of its owner's
-- requests, a checkout and either cancellation, whether it returns or raises and whatever the provider
-- answers, if the row of a concurrent first checkout does.
pub requests-Sound :
    (env : Env) (actor plan_id : Option ℕ) (acknowledged : Bool) (w : World)
    → Sound env.rival
    → Sound w.stored
    → Sound (start_checkout env actor plan_id acknowledged w).1.stored
      × Sound (cancel_subscription env actor w).1.stored
      × Sound (cancel_replacement env actor w).1.stored
requests-Sound env actor plan_id acknowledged w rival h = (
  ((start_checkout-Keeps env actor plan_id acknowledged rival).at w h).0,
  ((cancel_subscription-Keeps env actor).at w h).0,
  ((cancel_replacement-Keeps env actor).at w h).0,
)
