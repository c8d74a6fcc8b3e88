-- ===== src/Billing/Exec/Creates.antt =====
-- How many provider subscriptions an endpoint creates.
use review_flow.Base.{
  ℕ, ◌+◌, ◌≤◌, Bool, true, false, ◌≡◌, refl, Option, String, arith, count_if, if◌then◌else◌,
}
use review_flow.Billing.Session.{Session}
use review_flow.Billing.Provider.{Reply, answered, unavailable, rejected, not_configured}
use review_flow.Billing.Exec.{
  Error, Call, fetch, cancel, create, update, list_invoices, Env, World, Result, ok, err, Exec,
  pure, raise, ◌>>=◌, refuse_if, savepoint, call, call_invoices, now, expect, put, continue, undone,
}
use review_flow.Billing.Exec.Aborts.{has_failed}
use review_flow.Billing.Exec.Keeps.{Post, Ensures}

abbrev pub is_create : Call → Bool
is_create (create plan_id start_at expire_by) = true
is_create (fetch ref) = false
is_create (cancel ref at_cycle_end) = false
is_create (update ref plan_id immediate) = false
is_create (list_invoices ref) = false

abbrev pub creations : World → ℕ
creations w = count_if is_create w.calls

-- The step creates at most `n` subscriptions.
pub record Creates {A : Type 0} (n : ℕ) (m : Exec A) : Type 0 where
  pub at : (w : World) → creations (m w).1 ≤ n + creations w

-- The step raises.
pub record Fails {A : Type 0} (m : Exec A) : Type 0 where
  pub at : (w : World) → has_failed (m w).0 ≡ true

creations-undone :
    {A : Type 0} (before : Option Session) (r : Result A) (w : World)
    → creations (undone before (r, w)).1 ≡ creations w
creations-undone before (ok a) w = refl
creations-undone before (err e) w = refl

undone_failed :
    {A : Type 0} (before : Option Session) (r : Result A) (w : World)
    → has_failed (undone before (r, w)).0 ≡ has_failed r
undone_failed before (ok a) w = refl
undone_failed before (err e) w = refl

module _ {A : Type 0} {n : ℕ} where
  pub Creates-pure : (a : A) → Creates n (pure a)
  Creates-pure a = record { at = λ w. omega arith }

  pub Creates-raise : (e : Error) → Creates n (raise {A = A} e)
  Creates-raise e = record { at = λ w. omega arith }

  pub Creates-if :
      (b : Bool) (m k : Exec A) → Creates n m → Creates n k → Creates n (if b then m else k)
  Creates-if true m k cm ck = cm
  Creates-if false m k cm ck = ck

  pub Creates-savepoint : (m : Exec A) → Creates n m → Creates n (savepoint m)
  unfolding savepoint
  Creates-savepoint m cm = record {
    at = λ w. let (r, w') = m w in rw (creations-undone w.stored r w') (cm.at w);
  }

pub Creates-weaken : {A : Type 0} {n : ℕ} (m : Exec A) → Creates 0 m → Creates n m
Creates-weaken m cm = record { at = λ w. omega (arith, cm.at w) }

pub Fails-savepoint : {A : Type 0} (m : Exec A) → Fails m → Fails (savepoint m)
unfolding savepoint
Fails-savepoint m fm = record {
  at = λ w. let (r, w') = m w in rw (undone_failed w.stored r w') (fm.at w);
}

pub Creates-call : (env : Env) (c : Call) → is_create c ≡ false → Creates 0 (call env c)
unfolding call
Creates-call env c e = record { at = λ w. ground arith }

pub Creates-create :
    (env : Env) (plan_id : Option String) (start_at expire_by : Option ℕ)
    → Creates 1 (call env (create plan_id start_at expire_by))
unfolding call
Creates-create env plan_id start_at expire_by = record { at = λ w. ground arith }

pub Creates-call_invoices : (env : Env) (ref : String) → Creates 0 (call_invoices env ref)
unfolding call_invoices
Creates-call_invoices env ref = record { at = λ w. ground arith }

pub Creates-now : (env : Env) → Creates 0 (now env)
unfolding now
Creates-now env = record { at = λ w. ground arith }

pub Creates-put : (s : Session) → Creates 0 (put s)
Creates-put s = record { at = λ w. ground arith }

pub Creates-refuse_if : (b : Bool) (e : Error) → Creates 0 (refuse_if b e)
Creates-refuse_if true e = Creates-raise e
Creates-refuse_if false e = Creates-pure tt

pub Creates-expect : (r : Reply) → Creates 0 (expect r)
Creates-expect (answered entity) = Creates-pure entity
Creates-expect unavailable = Creates-raise _
Creates-expect (rejected status code why) = Creates-raise _
Creates-expect not_configured = Creates-raise _

module _ {A B : Type 0} {n : ℕ} where
  creations-continue :
      (r : Result A) (f : A → Exec B)
      → ((a : A) → Creates n (f a))
      → (w : World) → creations (continue r f w).1 ≤ n + creations w
  creations-continue (ok a) f cf w = (cf a).at w
  creations-continue (err e) f cf w = omega arith

  -- A first step that creates none.
  pub Creates-bind :
      (m : Exec A) (f : A → Exec B)
      → Creates 0 m
      → ((a : A) → Creates n (f a))
      → Creates n (m >>= f)
  unfolding ◌>>=◌
  Creates-bind m f cm cf = record {
    at = λ w. let (r, w') = m w in omega (arith, creations-continue r f cf w', cm.at w);
  }

-- Only the first step creates.
module _ {A B : Type 0} {k : ℕ} where
  pub Creates-first :
      (m : Exec A) (f : A → Exec B)
      → Creates k m
      → ((a : A) → Creates 0 (f a))
      → Creates k (m >>= f)
  unfolding ◌>>=◌
  Creates-first m f cm cf = record {
    at = λ w. let (r, w') = m w in omega (arith, creations-continue r f cf w', cm.at w);
  }

-- What is asked of a value that the first step may return.
module _ {A B : Type 0} (Q : A → Type 0) where
  continue-Creates_none :
      (r : Result A) (f : A → Exec B)
      → Post Q r
      → ((a : A) → Q a → Creates 0 (f a))
      → (w : World) → creations (continue r f w).1 ≤ creations w
  continue-Creates_none (ok a) f q cf w = omega (arith, (cf a q).at w)
  continue-Creates_none (err e) f q cf w = omega arith

  pub Creates-first_of :
      {k : ℕ} (m : Exec A) (f : A → Exec B)
      → Creates k m
      → Ensures (λ _. Unit {0}) Q m
      → ((a : A) → Q a → Creates 0 (f a))
      → Creates k (m >>= f)
  unfolding ◌>>=◌
  Creates-first_of m f cm em cf = record {
    at = λ w.
        let (r, w') = m w in omega (arith, continue-Creates_none r f (em.at w tt).1 cf w', cm.at w);
  }

-- What follows a step that raises does not run.
module _ {A B : Type 0} where
  continue_raised :
      (r : Result A) (f : A → Exec B) (w : World)
      → has_failed r ≡ true
      → creations (continue r f w).1 ≡ creations w
  continue_raised (ok a) f w e = ground arith
  continue_raised (err x) f w e = refl

  continue_failed :
      (r : Result A) (f : A → Exec B) (w : World)
      → has_failed r ≡ true
      → has_failed (continue r f w).0 ≡ true
  continue_failed (ok a) f w e = ground arith
  continue_failed (err x) f w e = refl

  continue-Fails :
      (r : Result A) (f : A → Exec B)
      → ((a : A) → Fails (f a))
      → (w : World) → has_failed (continue r f w).0 ≡ true
  continue-Fails (ok a) f ff w = (ff a).at w
  continue-Fails (err e) f ff w = refl

  pub Creates-bind_Fails :
      {k : ℕ} (m : Exec A) (f : A → Exec B) → Creates k m → Fails m → Creates k (m >>= f)
  unfolding ◌>>=◌
  Creates-bind_Fails m f cm fm = record {
    at = λ w. let (r, w') = m w in rw (continue_raised r f w' (fm.at w)) (cm.at w);
  }

  pub Fails-bind : (m : Exec A) (f : A → Exec B) → Fails m → Fails (m >>= f)
  unfolding ◌>>=◌
  Fails-bind m f fm = record { at = λ w. let (r, w') = m w in continue_failed r f w' (fm.at w) }

  pub Fails-then : (m : Exec A) (f : A → Exec B) → ((a : A) → Fails (f a)) → Fails (m >>= f)
  unfolding ◌>>=◌
  Fails-then m f ff = record { at = λ w. let (r, w') = m w in continue-Fails r f ff w' }
