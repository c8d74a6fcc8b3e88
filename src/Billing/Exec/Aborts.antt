-- ===== src/Billing/Exec/Aborts.antt =====
-- What an endpoint's failure leaves of the stored rows.
use review_flow.Base.{arith, Bool, true, false, ◌≡◌, refl, ◌∙◌, Option, String, if◌then◌else◌}
use review_flow.Billing.Session.{Session}
use review_flow.Billing.Provider.{Reply, answered, unavailable, rejected, not_configured}
use review_flow.Billing.Exec.{
  Error, Call, Env, World, Result, ok, err, Exec, pure, raise, ◌>>=◌, refuse_if, savepoint, call,
  call_invoices, now, expect, put, continue, undone,
}

abbrev pub has_failed : {A : Type 0} → Result A → Bool
has_failed (ok a) = false
has_failed (err e) = true

-- The step writes nothing, whether it returns or raises.
pub record Quiet {A : Type 0} (m : Exec A) : Type 0 where
  pub at : (w : World) → (m w).1.stored ≡ w.stored

-- A step that raises leaves the rows as it found them.
pub record Aborts {A : Type 0} (m : Exec A) : Type 0 where
  pub at : (w : World) → has_failed (m w).0 ≡ true → (m w).1.stored ≡ w.stored

undone_stored :
    {A : Type 0} (before : Option Session) (r : Result A) (w : World)
    → has_failed (undone before (r, w)).0 ≡ true
    → (undone before (r, w)).1.stored ≡ before
undone_stored before (ok a) w e = ground arith
undone_stored before (err x) w e = refl

module _ {A : Type 0} where
  pub Aborts-Quiet : (m : Exec A) → Quiet m → Aborts m
  Aborts-Quiet m q = record { at = λ w e. q.at w }

  pub Aborts-savepoint : (m : Exec A) → Aborts (savepoint m)
  unfolding savepoint
  Aborts-savepoint m = record { at = λ w e. let (r, w') = m w in undone_stored w.stored r w' e }

  pub Quiet-pure : (a : A) → Quiet (pure a)
  Quiet-pure a = record { at = λ w. refl }

  pub Quiet-raise : (e : Error) → Quiet (raise {A = A} e)
  Quiet-raise e = record { at = λ w. refl }

  pub Aborts-pure : (a : A) → Aborts (pure a)
  Aborts-pure a = Aborts-Quiet (pure a) (Quiet-pure a)

  pub Aborts-raise : (e : Error) → Aborts (raise {A = A} e)
  Aborts-raise e = Aborts-Quiet (raise e) (Quiet-raise e)

  pub Aborts-if : (b : Bool) (m n : Exec A) → Aborts m → Aborts n → Aborts (if b then m else n)
  Aborts-if true m n am an = am
  Aborts-if false m n am an = an

  pub Quiet-if : (b : Bool) (m n : Exec A) → Quiet m → Quiet n → Quiet (if b then m else n)
  Quiet-if true m n qm qn = qm
  Quiet-if false m n qm qn = qn

pub Quiet-call : (env : Env) (c : Call) → Quiet (call env c)
unfolding call
Quiet-call env c = record { at = λ w. refl }

pub Quiet-call_invoices : (env : Env) (ref : String) → Quiet (call_invoices env ref)
unfolding call_invoices
Quiet-call_invoices env ref = record { at = λ w. refl }

pub Quiet-now : (env : Env) → Quiet (now env)
unfolding now
Quiet-now env = record { at = λ w. refl }

pub Quiet-refuse_if : (b : Bool) (e : Error) → Quiet (refuse_if b e)
Quiet-refuse_if true e = Quiet-raise e
Quiet-refuse_if false e = Quiet-pure tt

pub Quiet-expect : (r : Reply) → Quiet (expect r)
Quiet-expect (answered entity) = Quiet-pure entity
Quiet-expect unavailable = Quiet-raise _
Quiet-expect (rejected status code why) = Quiet-raise _
Quiet-expect not_configured = Quiet-raise _

module _ {A B : Type 0} where
  continue_stored :
      (r : Result A) (f : A → Exec B)
      → ((a : A) → Quiet (f a))
      → (w : World) → (continue r f w).1.stored ≡ w.stored
  continue_stored (ok a) f qf w = (qf a).at w
  continue_stored (err e) f qf w = refl

  continue-Aborts :
      (r : Result A) (f : A → Exec B)
      → ((a : A) → Aborts (f a))
      → (w : World) → has_failed (continue r f w).0 ≡ true
      → (continue r f w).1.stored ≡ w.stored
  continue-Aborts (ok a) f af w e = (af a).at w e
  continue-Aborts (err x) f af w e = refl

  pub Quiet-bind :
      (m : Exec A) (f : A → Exec B) → Quiet m → ((a : A) → Quiet (f a)) → Quiet (m >>= f)
  unfolding ◌>>=◌
  Quiet-bind m f qm qf = record {
    at = λ w. let (r, w') = m w in continue_stored r f qf w' ∙ qm.at w;
  }

  pub Aborts-bind :
      (m : Exec A) (f : A → Exec B) → Quiet m → ((a : A) → Aborts (f a)) → Aborts (m >>= f)
  unfolding ◌>>=◌
  Aborts-bind m f qm af = record {
    at = λ w e. let (r, w') = m w in continue-Aborts r f af w' e ∙ qm.at w;
  }

-- Writing is the last that the step does, but for returning.
pub Aborts-put : {A : Type 0} (s : Session) (a : A) → Aborts (put s >>= λ _. pure a)
unfolding ◌>>=◌
Aborts-put s a = record { at = λ w e. ground arith }
