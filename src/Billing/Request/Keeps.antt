-- ===== src/Billing/Request/Keeps.antt =====
-- The shared steps keep the check constraints of the stored row.
use review_flow.Base.{ℕ, Bool, ◌&&◌, refl, Option, none, some, List, String, is_some}
use review_flow.Billing.Constraints.{MeetsConstraints}
use review_flow.Billing.Model.{Plan, Status}
use review_flow.Billing.Provider.{Value, Reply, get, as_text, is_text}
use review_flow.Billing.Session.{Session, IsLocked}
use review_flow.Billing.Snapshot.{SnapshotResult, apply_locked}
use review_flow.Billing.Snapshot.Constraints.{apply_locked-MeetsConstraints}
use review_flow.Billing.Exec.{
  Env, pure, ◌>>◌, put, relocked, Invoices, listed, failed, unimplemented,
}
use review_flow.Billing.Exec.Keeps.{
  Ensures, Keeps, Ensures-pure, Ensures-raise, Ensures-if, Ensures-bind, Keeps-bind, Keeps-call,
  Keeps-call_invoices, Keeps-now, Keeps-expect, Keeps-put, Keeps-refuse_any,
}
use review_flow.Billing.Request.{
  fetch_invoices_if_needed, invoices_of, fetch_provider_entity, checked_entity, reread_replacement,
  call_reread, must_reread, surroundings, apply_snapshot_step, reconcile, check_provider_state,
  create_provider_subscription, created_ref, usable_ref, cancel_old_provider_subscription,
  cancel_first, needs_invoices,
}

-- A locked row that meets its constraints; there may be none.
abbrev pub IsGood : Session → Type 0
IsGood s = IsLocked s × MeetsConstraints s.row

abbrev pub Sound : Option Session → Type 0
Sound none = Unit {0}
Sound (some s) = IsGood s

-- Whatever was saved is read again.
pub relocked-IsGood : (s : Session) → MeetsConstraints s.row → IsGood (relocked s)
relocked-IsGood s m = ((refl, refl), m)

invoices_of-Keeps : (i : Invoices) → Keeps Sound (invoices_of i)
invoices_of-Keeps (listed invoices) = Ensures-pure _ tt
invoices_of-Keeps (failed (Reply.answered entity)) = Ensures-raise _
invoices_of-Keeps (failed Reply.unavailable) = Ensures-raise _
invoices_of-Keeps (failed (Reply.rejected status code why)) = Ensures-raise _
invoices_of-Keeps (failed Reply.not_configured) = Ensures-raise _
invoices_of-Keeps unimplemented = Ensures-raise _

pub fetch_invoices_if_needed-Keeps :
    (env : Env) (ref : String) (old_status : Status) (old_start : Option ℕ) (entity : Value)
    → Keeps Sound (fetch_invoices_if_needed env ref old_status old_start entity)
unfolding fetch_invoices_if_needed
fetch_invoices_if_needed-Keeps env ref old_status old_start entity =
    Ensures-if (needs_invoices old_status old_start entity) _ _
      (λ _. Keeps-bind _ _ (Keeps-call_invoices env ref) invoices_of-Keeps)
      (λ _. Ensures-pure none tt)

pub checked_entity-Keeps : (ref : String) (entity : Value) → Keeps Sound (checked_entity ref entity)
checked_entity-Keeps ref entity =
    Ensures-if (is_text (get entity "id") ref && is_some (as_text (get entity "status"))) _ _
      (λ _. Ensures-pure entity tt) (λ _. Ensures-raise _)

pub fetch_provider_entity-Keeps :
    (env : Env) (ref : String) → Keeps Sound (fetch_provider_entity env ref)
unfolding fetch_provider_entity
fetch_provider_entity-Keeps env ref =
    Keeps-bind _ _ (Keeps-call env _)
      (λ reply. Keeps-bind _ _ (Keeps-expect reply) (λ entity. checked_entity-Keeps ref entity))

call_reread-Keeps : (env : Env) (ref : Option String) → Keeps Sound (call_reread env ref)
call_reread-Keeps env none = Ensures-pure _ tt
call_reread-Keeps env (some ref) = Keeps-call env _

pub reread_replacement-Keeps :
    (env : Env) (wanted : Bool) (s : Session) → Keeps Sound (reread_replacement env wanted s)
unfolding reread_replacement
reread_replacement-Keeps env wanted s =
    Ensures-if (wanted && must_reread s) _ _
      (λ _. call_reread-Keeps env s.sub.replacement_provider_ref) (λ _. Ensures-pure _ tt)

-- What a locked step made of the row is stored, and is the row of the next step.
applied_keeps :
    {A : Type 0} (r : A) (s : Session)
    → MeetsConstraints s.row
    → Ensures Sound
        (λ (made : A × Session). IsGood made.1)
        (put (relocked s) >> pure (r, relocked s))
applied_keeps r s m =
    Keeps-bind _ _ (Keeps-put (relocked s) (relocked-IsGood s m))
      (λ _. Ensures-pure (r, relocked s) (relocked-IsGood s m))

-- The snapshot's own row is good, and is the one that is locked next.
pub apply_snapshot_step-IsGood :
    (env : Env) (s : Session) (entity : Value) (invoices : Option (List Value)) (started : ℕ)
    (actor : Option ℕ)
    → IsGood s
    → Ensures Sound
        (λ (r : SnapshotResult × Session). IsGood r.1)
        (apply_snapshot_step env s entity invoices started actor)
unfolding apply_snapshot_step
apply_snapshot_step-IsGood env s entity invoices started actor (h, m) =
    Keeps-bind _ _ (Keeps-now env) (λ at.
      Keeps-bind _ _ (reread_replacement-Keeps env _ s) (λ reply.
        Keeps-bind _ _ (Keeps-now env) (λ stamp.
          applied_keeps _
            (apply_locked (surroundings env reply stamp) at s entity invoices started actor).1
            (apply_locked-MeetsConstraints (surroundings env reply stamp) at s entity invoices
              started actor h m))))

pub reconcile-IsGood :
    (env : Env) (actor : Option ℕ) (ref : String) (s : Session)
    → IsGood s
    → Ensures Sound (λ (r : Session × Value). IsGood r.0) (reconcile env actor ref s)
unfolding reconcile
reconcile-IsGood env actor ref s g = Keeps-bind _ _ (Keeps-now env) (λ started.
    Keeps-bind _ _ (fetch_provider_entity-Keeps env ref) (λ entity.
      Keeps-bind _ _ (fetch_invoices_if_needed-Keeps env ref _ _ entity) (λ invoices.
        Ensures-bind (λ (r : SnapshotResult × Session). IsGood r.1) _ _
          (apply_snapshot_step-IsGood env s entity invoices started actor g)
          (λ applied good. Ensures-pure _ good))))

created_ref-Keeps : (entity : Value) (ref : Option String) → Keeps Sound (created_ref entity ref)
created_ref-Keeps entity none = Ensures-raise _
created_ref-Keeps entity (some ref) = Ensures-pure _ tt

pub create_provider_subscription-Keeps :
    (env : Env) (p : Plan) → Keeps Sound (create_provider_subscription env p)
unfolding create_provider_subscription
create_provider_subscription-Keeps env p = Keeps-bind _ _ (Keeps-call env _) (λ reply.
    Keeps-bind _ _ (Keeps-expect reply) (λ entity. created_ref-Keeps entity (usable_ref entity)))

pub cancel_old_provider_subscription-Keeps :
    (env : Env) (ref : String) → Keeps Sound (cancel_old_provider_subscription env ref)
unfolding cancel_old_provider_subscription
cancel_old_provider_subscription-Keeps env ref =
    Keeps-bind _ _ (Keeps-call env _) (λ reply. Keeps-expect reply)

pub cancel_first-Keeps : (env : Env) (ref : Option String) → Keeps Sound (cancel_first env ref)
cancel_first-Keeps env none = Ensures-pure tt tt
cancel_first-Keeps env (some ref) =
    Keeps-bind _ _ (cancel_old_provider_subscription-Keeps env ref) (λ _. Ensures-pure tt tt)

pub check_provider_state-Keeps :
    (env : Env) (entity : Value) → Keeps Sound (check_provider_state env entity)
check_provider_state-Keeps env entity =
    Ensures-bind (λ _. Unit {0}) _ _ (Keeps-refuse_any _ _) (λ _ _. Keeps-refuse_any _ _)
