-- ===== src/Billing/Exec/Gives.antt =====
-- Steps that return, with what then holds of the value and of the rows.
use review_flow.Base.{Bool, true, false, ◌≡◌, refl, Option, some, arith, if◌then◌else◌}
use review_flow.Billing.Session.{Session}
use review_flow.Billing.Exec.{
  Call, Env, World, Result, ok, err, Exec, pure, ◌>>=◌, savepoint, call, now, put, continue, undone,
}

abbrev pub Reached :
    {A : Type 0} → (A → Option Session → Type 0) → Result A → Option Session → Type 0
Reached Q (ok a) stored = Q a stored
Reached Q (err e) stored = false ≡ true

-- From rows that meet `P` the step returns a value and rows that meet `Q`.
pub record Gives {A : Type 0} (P : Option Session → Type 0) (Q : A → Option Session → Type 0)
    (m : Exec A) : Type 0 where
  pub at : (w : World) → P w.stored → Reached Q (m w).0 (m w).1.stored

reached_weaken :
    {A : Type 0} {Q R : A → Option Session → Type 0}
    → ((a : A) (stored : Option Session) → Q a stored → R a stored)
    → (r : Result A) (stored : Option Session) → Reached Q r stored
    → Reached R r stored
reached_weaken imp (ok a) stored q = imp a stored q
reached_weaken imp (err e) stored q = q

pub Gives-weaken :
    {A : Type 0} {P : Option Session → Type 0} {Q R : A → Option Session → Type 0} {m : Exec A}
    → ((a : A) (stored : Option Session) → Q a stored → R a stored)
    → Gives P Q m
    → Gives P R m
Gives-weaken {m = m} imp g = record {
  at = λ w h. reached_weaken imp (m w).0 (m w).1.stored (g.at w h);
}

-- What was reached, with the value.
pub reached_returns :
    {A : Type 0} (Q : A → Option Session → Type 0) (r : Result A) (stored : Option Session)
    → Reached Q r stored
    → (a : A) × (r ≡ ok a) × Q a stored
reached_returns Q (ok a) stored q = (a, refl, q)
reached_returns Q (err e) stored q = ground arith

undone_reached :
    {A : Type 0} (Q : A → Option Session → Type 0) (before : Option Session) (r : Result A)
    (w : World)
    → Reached Q r w.stored
    → Reached Q (undone before (r, w)).0 (undone before (r, w)).1.stored
undone_reached Q before (ok a) w q = q
undone_reached Q before (err e) w q = q

module _ {A : Type 0} {P : Option Session → Type 0} {Q : A → Option Session → Type 0} where
  pub Gives-pure :
      (a : A) → ((stored : Option Session) → P stored → Q a stored) → Gives P Q (pure a)
  Gives-pure a q = record { at = λ w h. q w.stored h }

  pub Gives-if :
      (b : Bool) (m n : Exec A)
      → (b ≡ true → Gives P Q m)
      → (b ≡ false → Gives P Q n)
      → Gives P Q (if b then m else n)
  Gives-if true m n gm gn = gm refl
  Gives-if false m n gm gn = gn refl

  pub Gives-savepoint : (m : Exec A) → Gives P Q m → Gives P Q (savepoint m)
  unfolding savepoint
  Gives-savepoint m gm = record {
    at = λ w h. let (r, w') = m w in undone_reached Q w.stored r w' (gm.at w h);
  }

module _ {P : Option Session → Type 0} where
  pub Gives-call : (env : Env) (c : Call) → Gives P (λ reply. P) (call env c)
  unfolding call
  Gives-call env c = record { at = λ w h. h }

  pub Gives-now : (env : Env) → Gives P (λ at. P) (now env)
  unfolding now
  Gives-now env = record { at = λ w h. h }

  pub Gives-put : (s : Session) → Gives P (λ _ stored. stored ≡ some s) (put s)
  Gives-put s = record { at = λ w h. refl }

module _ {A B : Type 0} (R : A → Option Session → Type 0) {Q : B → Option Session → Type 0} where
  continue_reached :
      (r : Result A) (f : A → Exec B)
      → ((a : A) → Gives (R a) Q (f a))
      → (w : World) → Reached R r w.stored
      → Reached Q (continue r f w).0 (continue r f w).1.stored
  continue_reached (ok a) f gf w h = (gf a).at w h
  continue_reached (err e) f gf w h = h

  pub Gives-bind :
      {P : Option Session → Type 0} (m : Exec A) (f : A → Exec B)
      → Gives P R m
      → ((a : A) → Gives (R a) Q (f a))
      → Gives P Q (m >>= f)
  unfolding ◌>>=◌
  Gives-bind m f gm gf = record {
    at = λ w h. let (r, w') = m w in continue_reached r f gf w' (gm.at w h);
  }
