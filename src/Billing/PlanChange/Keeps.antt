-- ===== src/Billing/PlanChange/Keeps.antt =====
-- The plan change keeps the check constraints of the stored row.
use review_flow.Base.{ℕ, Bool, false, ◌&&◌, ◌≡◌, Option, none, some, String, arith, same_option}
use review_flow.Billing.Constraints.{MeetsConstraints}
use review_flow.Billing.Model.{Plan, Kind, upgrade, downgrade, Subscription}
use review_flow.Billing.Provider.{Value, Reply, answered, unavailable, rejected, not_configured}
use review_flow.Billing.Session.{Session, IsLocked}
use review_flow.Billing.Exec.{Env, pure, ◌>>◌, put, relocked}
use review_flow.Billing.Exec.Keeps.{
  Ensures, Keeps, Ensures-pure, Ensures-raise, Ensures-if, Ensures-savepoint, Ensures-bind,
  Keeps-bind, Keeps-call, Keeps-now, Keeps-expect, Keeps-put, Keeps-refuse_any,
}
use review_flow.Billing.Request.{unchanged, usable_ref}
use review_flow.Billing.Request.Rows.{save_columns-row, restamped-MeetsConstraints}
use review_flow.Billing.Request.Keeps.{
  IsGood, Sound, relocked-IsGood, fetch_invoices_if_needed-Keeps, checked_entity-Keeps,
  apply_snapshot_step-IsGood,
}
use review_flow.Billing.PlanChange.{
  checked_window, replacement_window, schedule_of, is_current, new_ref,
  create_replacement_subscription, with_replacement, store_replacement,
  start_plan_change_replacement, schedule_plan, upgraded, downgraded, updated, request_update,
  checkout_active, kind_of, is_update_unsupported_refusal,
}

-- A reference that is not the current one may be a replacement's.
with_replacement-MeetsConstraints :
    (k : Kind) (p : Plan) (ref : String) (expires_at : ℕ) (sub : Subscription)
    → is_current ref sub.payment_provider_ref ≡ false
    → MeetsConstraints sub
    → MeetsConstraints (with_replacement k p ref expires_at sub)
with_replacement-MeetsConstraints k p ref expires_at sub other m = ground arith

store_replacement-row :
    (at : ℕ) (actor : Option ℕ) (k : Kind) (p : Plan) (ref : String) (expires_at : ℕ) (s : Session)
    → IsLocked s
    → (store_replacement at actor k p ref expires_at s).row
      ≡ record (with_replacement k p ref expires_at s.sub) { updated_at = at }
unfolding store_replacement
store_replacement-row at actor upgrade p ref expires_at s (same, empty) =
    save_columns-row _ at _ s (ground arith)
store_replacement-row at actor downgrade p ref expires_at s (same, empty) =
    save_columns-row _ at _ s (ground arith)

store_replacement-MeetsConstraints :
    (at : ℕ) (actor : Option ℕ) (k : Kind) (p : Plan) (ref : String) (expires_at : ℕ) (s : Session)
    → IsGood s
    → is_current ref s.sub.payment_provider_ref ≡ false
    → MeetsConstraints (store_replacement at actor k p ref expires_at s).row
store_replacement-MeetsConstraints at actor k p ref expires_at s (h, m) other =
    rw (store_replacement-row at actor k p ref expires_at s h) (
      restamped-MeetsConstraints (with_replacement k p ref expires_at s.sub) at
        (with_replacement-MeetsConstraints k p ref expires_at s.sub other (rw (← h.0) m)))

schedule_plan-row :
    (at : ℕ) (actor : Option ℕ) (p : Plan) (s : Session)
    → IsLocked s
    → (schedule_plan at actor p s).row
      ≡ record s.sub { pending_plan_id = some p.id; updated_at = at }
unfolding schedule_plan
schedule_plan-row at actor p s (same, empty) = save_columns-row _ at _ s (ground arith)

schedule_plan-MeetsConstraints :
    (at : ℕ) (actor : Option ℕ) (p : Plan) (s : Session)
    → IsGood s
    → MeetsConstraints (schedule_plan at actor p s).row
schedule_plan-MeetsConstraints at actor p s (h, m) =
    let kept : MeetsConstraints s.sub = rw (← h.0) m in
    rw (schedule_plan-row at actor p s h) (ground arith)

checked_window-Keeps : (w : Option ℕ) → Keeps Sound (checked_window w)
checked_window-Keeps none = Ensures-raise _
checked_window-Keeps (some seconds) = Ensures-pure _ tt

schedule_of-Keeps :
    (env : Env) (k : Kind) (window at : ℕ) (period_end : Option ℕ)
    → Keeps Sound (schedule_of env k window at period_end)
schedule_of-Keeps env upgrade window at period_end = Ensures-pure _ tt
schedule_of-Keeps env downgrade window at none = Ensures-raise _
schedule_of-Keeps env downgrade window at (some period_end) =
    Ensures-if _ _ _ (λ _. Ensures-raise _) (λ _. Ensures-pure _ tt)

-- The reference of a new replacement is not the current one.
abbrev Differs : Option String → String → Type 0
Differs current ref = is_current ref current ≡ false

new_ref-Differs :
    (current ref : Option String) → Ensures Sound (Differs current) (new_ref current ref)
new_ref-Differs current none = Ensures-raise _
new_ref-Differs current (some ref) =
    Ensures-if (is_current ref current) _ _ (λ _. Ensures-raise _) (λ e. Ensures-pure ref e)

create_replacement_subscription-Differs :
    (env : Env) (p : Plan) (start_at : Option ℕ) (expire_by : ℕ) (current : Option String)
    → Ensures Sound
        (Differs current)
        (create_replacement_subscription env p start_at expire_by current)
unfolding create_replacement_subscription
create_replacement_subscription-Differs env p start_at expire_by current =
    Keeps-bind _ _ (Keeps-call env _) (λ reply.
      Keeps-bind _ _ (Keeps-expect reply) (λ entity. new_ref-Differs current (usable_ref entity)))

-- What is stored before the result is returned.
pub Keeps-stored :
    {A : Type 0} (s : Session) (a : A)
    → MeetsConstraints s.row
    → Keeps Sound (put (relocked s) >> pure a)
Keeps-stored s a m =
    Keeps-bind _ _ (Keeps-put (relocked s) (relocked-IsGood s m)) (λ _. Ensures-pure a tt)

start_plan_change_replacement-Keeps :
    (env : Env) (actor : Option ℕ) (p : Plan) (k : Kind) (acknowledged : Bool) (s : Session)
    → IsGood s
    → Keeps Sound (start_plan_change_replacement env actor p k acknowledged s)
unfolding start_plan_change_replacement replacement_window
start_plan_change_replacement-Keeps env actor p k acknowledged s good =
    Keeps-bind _ _ (checked_window-Keeps (env.window k)) (λ window.
      Keeps-bind _ _ (Keeps-now env) (λ at.
        Keeps-bind _ _ (schedule_of-Keeps env k window at s.sub.current_period_end) (λ times.
          Keeps-bind _ _ (Keeps-refuse_any _ _) (λ _. Keeps-bind _ _ (Keeps-refuse_any _ _) (λ _.
            Ensures-bind (Differs s.sub.payment_provider_ref) _ _
              (create_replacement_subscription-Differs env p times.start_at _ _)
              (λ ref other. Keeps-bind _ _ (Keeps-now env) (λ stamp.
                Keeps-stored (store_replacement stamp actor k p ref times.expires_at s) _ (
                  store_replacement-MeetsConstraints stamp actor k p ref times.expires_at s good
                    other))))))))

module _ (env : Env) (actor : Option ℕ) (p : Plan) where
  upgraded-Keeps :
      (ref : String) (started : ℕ) (answer : Value) (s : Session)
      → IsGood s
      → Keeps Sound (upgraded env actor ref started answer s)
  upgraded-Keeps ref started answer s good =
      Keeps-bind _ _ (checked_entity-Keeps ref answer) (λ entity.
        Keeps-bind _ _ (fetch_invoices_if_needed-Keeps env ref _ _ entity) (λ invoices.
          Ensures-bind (λ r. IsGood r.1) _ _
            (apply_snapshot_step-IsGood env s entity invoices started actor good)
            (λ _ _. Ensures-pure _ tt)))

  downgraded-Keeps : (s : Session) → IsGood s → Keeps Sound (downgraded env actor p s)
  downgraded-Keeps s good = Keeps-bind _ _ (Keeps-now env) (λ at.
      Keeps-stored (schedule_plan at actor p s) _
        (schedule_plan-MeetsConstraints at actor p s good))

  updated-Keeps :
      (acknowledged : Bool) (ref : String) (started : ℕ) (k : Kind) (reply : Reply) (s : Session)
      → IsGood s
      → Keeps Sound (updated env actor p acknowledged ref started k reply s)
  updated-Keeps acknowledged ref started upgrade (answered entity) s good =
      Ensures-savepoint _ (upgraded-Keeps ref started entity s good)
  updated-Keeps acknowledged ref started downgrade (answered entity) s good =
      Ensures-savepoint _ (downgraded-Keeps s good)
  updated-Keeps acknowledged ref started k (rejected status code why) s good =
      Ensures-if (is_update_unsupported_refusal env.gates status code why && env.is_enabled k) _ _
        (λ _. start_plan_change_replacement-Keeps env actor p k acknowledged s good)
        (λ _. Ensures-raise _)
  updated-Keeps acknowledged ref started k unavailable s good = Ensures-raise _
  updated-Keeps acknowledged ref started k not_configured s good = Ensures-raise _

  request_update-Keeps :
      (acknowledged : Bool) (ref : Option String) (s : Session)
      → IsGood s
      → Keeps Sound (request_update env actor p acknowledged ref s)
  request_update-Keeps acknowledged none s good = Ensures-raise _
  request_update-Keeps acknowledged (some ref) s good = Keeps-bind _ _ (Keeps-now env) (λ started.
      Keeps-bind _ _ (Keeps-call env _)
        (λ reply. updated-Keeps acknowledged ref started (kind_of p s.sub) reply s good))

  pub checkout_active-Keeps :
      (acknowledged : Bool) (s : Session)
      → IsGood s
      → Keeps Sound (checkout_active env actor p acknowledged s)
  unfolding checkout_active
  checkout_active-Keeps acknowledged s good = Keeps-bind _ _ (Keeps-refuse_any _ _) (λ _.
      Keeps-bind _ _ (Keeps-refuse_any _ _) (λ _.
        Ensures-if (same_option s.sub.pending_plan_id (some p.id)) (pure unchanged) _
          (λ _. Ensures-pure unchanged tt)
          (λ _. request_update-Keeps acknowledged s.sub.payment_provider_ref s good)))
