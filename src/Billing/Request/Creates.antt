-- ===== src/Billing/Request/Creates.antt =====
-- How many provider subscriptions the shared steps create.
use review_flow.Base.{
  ℕ, Bool, true, false, ◌&&◌, refl, Option, none, some, String, List, is_some, is_none,
}
use review_flow.Billing.Model.{Plan, Status, row_ended, Subscription}
use review_flow.Billing.Provider.{Value, get, as_text, is_text, Reply}
use review_flow.Billing.Session.{Session}
use review_flow.Billing.Retire.{not_active, abandon_unless_active}
use review_flow.Billing.Exec.{Env, Invoices, listed, failed, unimplemented}
use review_flow.Billing.Exec.Creates.{
  Creates, Creates-pure, Creates-raise, Creates-if, Creates-savepoint, Creates-call, Creates-create,
  Creates-call_invoices, Creates-now, Creates-put, Creates-refuse_if, Creates-expect, Creates-bind,
  Creates-first,
}
use review_flow.Billing.Request.{
  fetch_invoices_if_needed, invoices_of, needs_invoices, checked_entity, fetch_provider_entity,
  call_reread, must_reread, reread_replacement, apply_snapshot_step, reconcile,
  check_provider_state, created_ref, usable_ref, create_provider_subscription,
  cancel_old_provider_subscription, refuse_reset, cleared, clear_replacement_before_reset,
  cancel_first, create_and_store, replace_provider_subscription, is_active_entity, surroundings,
}

invoices_of-Creates : (i : Invoices) → Creates 0 (invoices_of i)
invoices_of-Creates (listed invoices) = Creates-pure _
invoices_of-Creates (failed (Reply.answered entity)) = Creates-raise _
invoices_of-Creates (failed Reply.unavailable) = Creates-raise _
invoices_of-Creates (failed (Reply.rejected status code why)) = Creates-raise _
invoices_of-Creates (failed Reply.not_configured) = Creates-raise _
invoices_of-Creates unimplemented = Creates-raise _

pub checked_entity-Creates : (ref : String) (entity : Value) → Creates 0 (checked_entity ref entity)
checked_entity-Creates ref entity =
    Creates-if (is_text (get entity "id") ref && is_some (as_text (get entity "status"))) _ _
      (Creates-pure entity) (Creates-raise _)

refuse_reset-Creates :
    (sub : Subscription) (entity : Option Value) → Creates 0 (refuse_reset sub entity)
refuse_reset-Creates sub none =
    Creates-if (is_none sub.replacement_committed_at) _ _ (Creates-raise _) (Creates-raise _)
refuse_reset-Creates sub (some entity) =
    Creates-if (is_active_entity entity) _ _ (Creates-raise _) (Creates-raise _)

cleared-Creates :
    (at : ℕ) (s : Session) (r : Bool × Option Value × Session) → Creates 0 (cleared at s r)
cleared-Creates at s (true, entity, t) = Creates-bind _ _ (Creates-put _) (λ _. Creates-pure _)
cleared-Creates at s (false, entity, t) = refuse_reset-Creates s.sub entity

created_ref-Creates : (entity : Value) (ref : Option String) → Creates 0 (created_ref entity ref)
created_ref-Creates entity none = Creates-raise _
created_ref-Creates entity (some ref) = Creates-pure _

module _ (env : Env) where
  pub fetch_invoices_if_needed-Creates :
      (ref : String) (old_status : Status) (old_start : Option ℕ) (entity : Value)
      → Creates 0 (fetch_invoices_if_needed env ref old_status old_start entity)
  unfolding fetch_invoices_if_needed
  fetch_invoices_if_needed-Creates ref old_status old_start entity =
      Creates-if (needs_invoices old_status old_start entity) _ _
        (Creates-bind _ _ (Creates-call_invoices env ref) invoices_of-Creates) (Creates-pure none)

  fetch_provider_entity-Creates : (ref : String) → Creates 0 (fetch_provider_entity env ref)
  unfolding fetch_provider_entity
  fetch_provider_entity-Creates ref = Creates-bind _ _ (Creates-call env _ refl) (λ reply.
      Creates-bind _ _ (Creates-expect reply) (λ entity. checked_entity-Creates ref entity))

  call_reread-Creates : (ref : Option String) → Creates 0 (call_reread env ref)
  call_reread-Creates none = Creates-pure _
  call_reread-Creates (some ref) = Creates-call env _ refl

  reread_replacement-Creates :
      (wanted : Bool) (s : Session) → Creates 0 (reread_replacement env wanted s)
  unfolding reread_replacement
  reread_replacement-Creates wanted s =
      Creates-if (wanted && must_reread s) _ _ (call_reread-Creates s.sub.replacement_provider_ref)
        (Creates-pure _)

  pub apply_snapshot_step-Creates :
      (s : Session) (entity : Value) (invoices : Option (List Value)) (started : ℕ)
      (actor : Option ℕ)
      → Creates 0 (apply_snapshot_step env s entity invoices started actor)
  unfolding apply_snapshot_step
  apply_snapshot_step-Creates s entity invoices started actor =
      Creates-bind _ _ (Creates-now env) (λ at.
        Creates-bind _ _ (reread_replacement-Creates _ s) (λ reply.
          Creates-bind _ _ (Creates-now env)
            (λ stamp. Creates-bind _ _ (Creates-put _) (λ _. Creates-pure _))))

  pub reconcile-Creates :
      (actor : Option ℕ) (ref : String) (s : Session) → Creates 0 (reconcile env actor ref s)
  unfolding reconcile
  reconcile-Creates actor ref s = Creates-bind _ _ (Creates-now env) (λ started.
      Creates-bind _ _ (fetch_provider_entity-Creates ref) (λ entity.
        Creates-bind _ _ (fetch_invoices_if_needed-Creates ref _ _ entity) (λ invoices.
          Creates-bind _ _ (apply_snapshot_step-Creates s entity invoices started actor)
            (λ applied. Creates-pure _))))

  pub check_provider_state-Creates : (entity : Value) → Creates 0 (check_provider_state env entity)
  check_provider_state-Creates entity =
      Creates-bind _ _ (Creates-refuse_if _ _) (λ _. Creates-refuse_if _ _)

  create_provider_subscription-Creates : (p : Plan) → Creates 1 (create_provider_subscription env p)
  unfolding create_provider_subscription
  create_provider_subscription-Creates p = Creates-first _ _ (Creates-create env _ _ _) (λ reply.
      Creates-bind _ _ (Creates-expect reply)
        (λ entity. created_ref-Creates entity (usable_ref entity)))

  pub cancel_old-Creates : (ref : String) → Creates 0 (cancel_old_provider_subscription env ref)
  unfolding cancel_old_provider_subscription
  cancel_old-Creates ref = Creates-bind _ _ (Creates-call env _ refl) Creates-expect

  cancel_first-Creates : (ref : Option String) → Creates 0 (cancel_first env ref)
  cancel_first-Creates none = Creates-pure tt
  cancel_first-Creates (some ref) = Creates-bind _ _ (cancel_old-Creates ref) (λ _. Creates-pure tt)

  pub clear_replacement_before_reset-Creates :
      (s : Session) → Creates 0 (clear_replacement_before_reset env s)
  unfolding clear_replacement_before_reset
  clear_replacement_before_reset-Creates s =
      Creates-if (is_none s.sub.replacement_provider_ref) _ _ (Creates-pure s) (
        Creates-bind _ _ (reread_replacement-Creates true s) (λ reply.
          Creates-bind _ _ (Creates-now env) (λ at.
            cleared-Creates at s
              (abandon_unless_active (surroundings env reply at) s row_ended not_active none))))

  pub create_and_store-Creates :
      (actor : Option ℕ) (p : Plan) (s : Session) → Creates 1 (create_and_store env actor p s)
  unfolding create_and_store
  create_and_store-Creates actor p s =
      Creates-first _ _ (create_provider_subscription-Creates p) (λ made.
        Creates-bind _ _ (Creates-now env)
          (λ at. Creates-bind _ _ (Creates-put _) (λ _. Creates-pure _)))

  pub replace_provider_subscription-Creates :
      (actor : Option ℕ) (p : Plan) (cancel_ref : Option String) (s : Session)
      → Creates 1 (replace_provider_subscription env actor p cancel_ref s)
  unfolding replace_provider_subscription
  replace_provider_subscription-Creates actor p cancel_ref s = Creates-savepoint _ (
      Creates-bind _ _ (clear_replacement_before_reset-Creates s) (λ after.
        Creates-bind _ _ (cancel_first-Creates cancel_ref)
          (λ _. create_and_store-Creates actor p after)))
