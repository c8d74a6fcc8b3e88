-- ===== src/Billing/Request/Refused.antt =====
-- A new subscription waits for the old one's cancel.
use review_flow.Base.{Bool, true, false, ◌≡◌, refl, ℕ, Option, some, String, List, arith, ◌≤◌}
use review_flow.Billing.Model.{Plan}
use review_flow.Billing.Provider.{Reply, answered, unavailable, rejected, not_configured}
use review_flow.Billing.Session.{Session}
use review_flow.Billing.Exec.{Env, World, Call, cancel, ◌>>=◌, call, expect, log}
use review_flow.Billing.Exec.Aborts.{has_failed, Aborts, Aborts-savepoint}
use review_flow.Billing.Exec.Creates.{
  creations, Creates, Fails, Creates-savepoint, Fails-savepoint, Creates-bind, Creates-pure,
  Creates-bind_Fails, Fails-bind, Fails-then,
}
use review_flow.Billing.Request.{cancel_old_provider_subscription, replace_provider_subscription}
use review_flow.Billing.Request.Creates.{cancel_old-Creates, clear_replacement_before_reset-Creates}

abbrev pub is_answered : Reply → Bool
is_answered (answered entity) = true
is_answered unavailable = false
is_answered (rejected status code why) = false
is_answered not_configured = false

expect-Fails : (r : Reply) → is_answered r ≡ false → Fails (expect r)
expect-Fails (answered entity) e = record { at = λ w. ground arith }
expect-Fails unavailable e = record { at = λ w. refl }
expect-Fails (rejected status code why) e = record { at = λ w. refl }
expect-Fails not_configured e = record { at = λ w. refl }

-- Whatever was called before, the provider does not answer the immediate cancel of `ref`.
abbrev pub RefusesCancel : Env → String → Type 0
RefusesCancel env ref =
    (calls : List Call) → is_answered (env.provider calls (cancel ref false)) ≡ false

module _ (env : Env) (ref : String) (refuses : RefusesCancel env ref) where
  cancel_old-Fails : Fails (cancel_old_provider_subscription env ref)
  unfolding cancel_old_provider_subscription ◌>>=◌ call
  cancel_old-Fails = record {
    at = λ w.
        (expect-Fails (env.provider w.calls (cancel ref false)) (refuses w.calls)).at
          (log (cancel ref false) w);
  }

  replace-Creates :
      (actor : Option ℕ) (p : Plan) (s : Session)
      → Creates 0 (replace_provider_subscription env actor p (some ref) s)
  unfolding replace_provider_subscription
  replace-Creates actor p s = Creates-savepoint _ (
      Creates-bind _ _ (clear_replacement_before_reset-Creates env s) (λ after.
        Creates-bind_Fails _ _
          (Creates-bind _ _ (cancel_old-Creates env ref) (λ _. Creates-pure tt))
          (Fails-bind _ _ cancel_old-Fails)))

  replace-Fails :
      (actor : Option ℕ) (p : Plan) (s : Session)
      → Fails (replace_provider_subscription env actor p (some ref) s)
  unfolding replace_provider_subscription
  replace-Fails actor p s =
      Fails-savepoint _ (Fails-then _ _ (λ after. Fails-bind _ _ (Fails-bind _ _ cancel_old-Fails)))

replace-Aborts :
    (env : Env) (actor : Option ℕ) (p : Plan) (cancel_ref : Option String) (s : Session)
    → Aborts (replace_provider_subscription env actor p cancel_ref s)
unfolding replace_provider_subscription
replace-Aborts env actor p cancel_ref s = Aborts-savepoint _

-- While the provider does not answer the cancel of the old subscription, the replacement of the
-- subscription raises, creates none at the provider and leaves the stored row as it was.
pub replace_provider_subscription_waits :
    (env : Env) (ref : String) (actor : Option ℕ) (p : Plan) (s : Session) (w : World)
    → RefusesCancel env ref
    → let (r, after) = replace_provider_subscription env actor p (some ref) s w in
      (has_failed r ≡ true) × (creations after ≤ creations w) × (after.stored ≡ w.stored)
replace_provider_subscription_waits env ref actor p s w refuses =
    let fails = (replace-Fails env ref refuses actor p s).at w in
    (
      fails,
      omega (arith, (replace-Creates env ref refuses actor p s).at w),
      (replace-Aborts env actor p (some ref) s).at w fails,
    )
