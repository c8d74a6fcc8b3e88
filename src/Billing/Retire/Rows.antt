-- ===== src/Billing/Retire/Rows.antt =====
-- The subscription after a replacement has been given up, and its check constraints.
use review_flow.Billing.Retire.Cases.{abandon_cases}
use review_flow.Base.{refl, ℕ, Bool, true, ◌≡◌, Option, none, arith, List, if◌then◌else◌, is_some}
use review_flow.Billing.Constraints.{MeetsConstraints}
use review_flow.Billing.Model.{Plan, Subscription, Reason, ProviderStatus}
use review_flow.Billing.Provider.{Value}
use review_flow.Billing.Session.{Session}
use review_flow.Billing.Retire.{
  vacated, target_plan, is_pending, retire_replacement, abandon_unless_active, Surroundings,
}

-- The replacement's reference in the retired slot, its columns clear, and the pending plan dropped
-- if the replacement was for it.
abbrev pub retired_row : List Plan → Subscription → Value → Subscription
retired_row plans sub entity = record (vacated sub) {
  pending_plan_id =
      if is_pending sub.pending_plan_id (target_plan plans sub.replacement_plan entity)
      then none
      else sub.pending_plan_id;
}

pub retire_replacement-sub :
    (plans : List Plan) (stamp : ℕ) (s : Session) (entity : Value) (why : Reason) (actor : Option ℕ)
    → (retire_replacement plans stamp s entity why actor).sub ≡ retired_row plans s.sub entity
unfolding retire_replacement
retire_replacement-sub plans stamp s entity why actor = ground arith

pub retired_row-MeetsConstraints :
    (plans : List Plan) (sub : Subscription) (entity : Value)
    → is_some sub.replacement_provider_ref ≡ true
    → MeetsConstraints sub
    → MeetsConstraints (retired_row plans sub entity)
retired_row-MeetsConstraints plans sub entity e m = ground arith

pub abandon_unless_active-MeetsConstraints :
    (w : Surroundings) (s : Session) (why : Reason) (abandonable : ProviderStatus → Bool)
    (given : Option Value)
    → MeetsConstraints s.sub
    → MeetsConstraints (abandon_unless_active w s why abandonable given).2.sub
abandon_unless_active-MeetsConstraints w s why abandonable given m =
    abandon_cases (λ _ t. MeetsConstraints t.sub) w s why abandonable given m
      (λ entity may.
        rw (retire_replacement-sub w.plans w.stamp s entity why none)
          (retired_row-MeetsConstraints w.plans s.sub entity (rw may.pending refl) m))
