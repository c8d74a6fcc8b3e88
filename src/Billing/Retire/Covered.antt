-- ===== src/Billing/Retire/Covered.antt =====
-- Giving up a replacement adds each column that it clears.
use review_flow.Billing.Retire.Cases.{abandon_cases}
use review_flow.Base.{ℕ, Bool, Option, none, arith, List}
use review_flow.Billing.Retire.{
  retire_replacement, Surroundings, abandon_unless_active, drop_pending,
}
use review_flow.Billing.Model.{Plan, Reason, ProviderStatus, Subscription}
use review_flow.Billing.Provider.{Value}
use review_flow.Billing.Session.{Session}
use review_flow.Billing.Session.Save.{IsCovered}

drop_pending-IsCovered :
    {row : Subscription} {marked : Bool} (b : Bool) (s : Session)
    → IsCovered row marked s
    → IsCovered row marked (drop_pending b s)
drop_pending-IsCovered b s h = ground arith

pub retire_replacement-IsCovered :
    {row : Subscription} {marked : Bool} (plans : List Plan) (stamp : ℕ) (s : Session)
    (entity : Value) (why : Reason) (actor : Option ℕ)
    → IsCovered row marked s
    → IsCovered row marked (retire_replacement plans stamp s entity why actor)
unfolding retire_replacement
retire_replacement-IsCovered plans stamp s entity why actor h = ground arith

pub abandon_unless_active-IsCovered :
    {row : Subscription} {marked : Bool} (w : Surroundings) (s : Session) (why : Reason)
    (abandonable : ProviderStatus → Bool) (given : Option Value)
    → IsCovered row marked s
    → IsCovered row marked (abandon_unless_active w s why abandonable given).2
abandon_unless_active-IsCovered {row} {marked} w s why abandonable given h =
    abandon_cases (λ _ t. IsCovered row marked t) w s why abandonable given h
      (λ entity _. retire_replacement-IsCovered w.plans w.stamp s entity why none h)
