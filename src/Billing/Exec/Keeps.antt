-- ===== src/Billing/Exec/Keeps.antt =====
-- Invariants of the endpoints' steps, one rule for each way to build a step.
use review_flow.Base.{Bool, true, false, ◌≡◌, refl, Option, some, String, if◌then◌else◌}
use review_flow.Billing.Session.{Session}
use review_flow.Billing.Provider.{Reply, answered, unavailable, rejected, not_configured}
use review_flow.Billing.Exec.{
  Error, Call, Env, World, Result, ok, err, Exec, pure, raise, ◌>>=◌, refuse_if, savepoint, call,
  call_invoices, now, expect, put, continue, undone,
}

-- What holds of a returned value.
abbrev pub Post : {A : Type 0} → (A → Type 0) → Result A → Type 0
Post Q (ok a) = Q a
Post Q (err e) = Unit {0}

-- The step keeps `P` of the stored rows, whether it returns or raises, and returns what meets `Q`.
pub record Ensures {A : Type 0} (P : Option Session → Type 0) (Q : A → Type 0) (m : Exec A)
    : Type 0 where
  pub at : (w : World) → P w.stored → P (m w).1.stored × Post Q (m w).0

abbrev pub Any : {A : Type 0} → A → Type 0
Any a = Unit {0}

abbrev pub Keeps : {A : Type 0} → (Option Session → Type 0) → Exec A → Type 0
Keeps P m = Ensures P Any m

undone_keeps :
    {A : Type 0} (P : Option Session → Type 0) (Q : A → Type 0) (before : Option Session)
    (r : Result A) (w : World)
    → P before
    → P w.stored
    → Post Q r
    → P (undone before (r, w)).1.stored × Post Q (undone before (r, w)).0
undone_keeps P Q before (ok a) w h k q = (k, q)
undone_keeps P Q before (err e) w h k q = (h, tt)

module _ {A : Type 0} {P : Option Session → Type 0} {Q : A → Type 0} where
  pub Ensures-pure : (a : A) → Q a → Ensures P Q (pure a)
  Ensures-pure a q = record { at = λ w h. (h, q) }

  pub Ensures-raise : (e : Error) → Ensures P Q (raise {A = A} e)
  Ensures-raise e = record { at = λ w h. (h, tt) }

  pub Ensures-if :
      (b : Bool) (m n : Exec A)
      → (b ≡ true → Ensures P Q m)
      → (b ≡ false → Ensures P Q n)
      → Ensures P Q (if b then m else n)
  Ensures-if true m n km kn = km refl
  Ensures-if false m n km kn = kn refl

  pub Ensures-savepoint : (m : Exec A) → Ensures P Q m → Ensures P Q (savepoint m)
  unfolding savepoint
  Ensures-savepoint m km = record {
    at = λ w h. let (r, w') = m w in undone_keeps P Q w.stored r w' h (km.at w h).0 (km.at w h).1;
  }

forget_post : {A : Type 0} (r : Result A) → Post Any r
forget_post (ok a) = tt
forget_post (err e) = tt

pub forget :
    {A : Type 0} {P : Option Session → Type 0} {Q : A → Type 0} {m : Exec A}
    → Ensures P Q m
    → Keeps P m
forget {m = m} k = record { at = λ w h. ((k.at w h).0, forget_post (m w).0) }

module _ {P : Option Session → Type 0} where
  pub Keeps-refuse_if : (b : Bool) (e : Error) → Ensures P (λ _. b ≡ false) (refuse_if b e)
  Keeps-refuse_if true e = Ensures-raise e
  Keeps-refuse_if false e = Ensures-pure tt refl

  pub Keeps-refuse_any : (b : Bool) (e : Error) → Keeps P (refuse_if b e)
  Keeps-refuse_any true e = Ensures-raise e
  Keeps-refuse_any false e = Ensures-pure tt tt

  pub Keeps-call : (env : Env) (c : Call) → Keeps P (call env c)
  unfolding call
  Keeps-call env c = record { at = λ w h. (h, tt) }

  pub Keeps-call_invoices : (env : Env) (ref : String) → Keeps P (call_invoices env ref)
  unfolding call_invoices
  Keeps-call_invoices env ref = record { at = λ w h. (h, tt) }

  pub Keeps-now : (env : Env) → Keeps P (now env)
  unfolding now
  Keeps-now env = record { at = λ w h. (h, tt) }

  pub Keeps-expect : (r : Reply) → Keeps P (expect r)
  Keeps-expect (answered entity) = Ensures-pure entity tt
  Keeps-expect unavailable = Ensures-raise _
  Keeps-expect (rejected status code why) = Ensures-raise _
  Keeps-expect not_configured = Ensures-raise _

  pub Keeps-put : (s : Session) → P (some s) → Keeps P (put s)
  Keeps-put s h = record { at = λ w _. (h, tt) }

module _ {A B : Type 0} {P : Option Session → Type 0} (R : A → Type 0) {Q : B → Type 0} where
  continue_ensures :
      (r : Result A) (f : A → Exec B)
      → ((a : A) → R a → Ensures P Q (f a))
      → (w : World) → P w.stored
      → Post R r
      → P (continue r f w).1.stored × Post Q (continue r f w).0
  continue_ensures (ok a) f kf w h q = (kf a q).at w h
  continue_ensures (err e) f kf w h q = (h, tt)

  pub Ensures-bind :
      (m : Exec A) (f : A → Exec B)
      → Ensures P R m
      → ((a : A) → R a → Ensures P Q (f a))
      → Ensures P Q (m >>= f)
  unfolding ◌>>=◌
  Ensures-bind m f km kf = record {
    at = λ w h. let (r, w') = m w in continue_ensures r f kf w' (km.at w h).0 (km.at w h).1;
  }

-- A first step whose value nothing is asked of.
module _ {A B : Type 0} {P : Option Session → Type 0} {Q : B → Type 0} where
  pub Keeps-bind :
      (m : Exec A) (f : A → Exec B)
      → Keeps P m
      → ((a : A) → Ensures P Q (f a))
      → Ensures P Q (m >>= f)
  Keeps-bind m f km kf = Ensures-bind Any m f km (λ a _. kf a)
