-- ===== src/Billing/Constraints.antt =====
-- The check constraints of `Subscription.Meta` (billing/models.py). The database refuses a row for
-- which one of them is false; a comparison with NULL is not false.
use review_flow.Base.{
  Bool, true, false, not, ◌&&◌, ◌||◌, ◌≡◌, Option, none, some, ℕ, String, ltb, ◌==◌, is_none,
  is_some,
}
use review_flow.Base.Text.{same_text}
use review_flow.Billing.Model.{Subscription, incomplete, past_due, same_status}

-- `a < b` of two nullable columns, and `a = b`.
abbrev null_or_lt : Option ℕ → Option ℕ → Bool
null_or_lt (some a) (some b) = ltb a b
null_or_lt none _ = true
null_or_lt (some _) none = true

abbrev null_or_ne : Option String → Option String → Bool
null_or_ne (some s) (some t) = not (same_text s t)
null_or_ne none _ = true
null_or_ne (some _) none = true

abbrev is_stage : Option ℕ → Bool
is_stage none = true
is_stage (some n) = n == 0 || n == 3 || n == 6

abbrev both_or_neither : Bool → Bool → Bool
both_or_neither true b = b
both_or_neither false b = not b

pub record MeetsConstraints (s : Subscription) : Type 0 where
  pub period_set :
      (same_status s.status incomplete
        || is_some s.current_period_start && is_some s.current_period_end)
      ≡ true
  pub period_order : null_or_lt s.current_period_start s.current_period_end ≡ true
  pub past_due_at : both_or_neither (same_status s.status past_due) (is_some s.past_due_at) ≡ true
  pub dunning_episode : both_or_neither (is_some s.dunning_stage) (is_some s.past_due_at) ≡ true
  pub dunning_stage : is_stage s.dunning_stage ≡ true
  pub replacement_ref_differs : null_or_ne s.replacement_provider_ref s.payment_provider_ref ≡ true
  pub replacement_expiry_set :
      both_or_neither (is_some s.replacement_provider_ref) (is_some s.replacement_expires_at) ≡ true
  pub replacement_plan_set :
      both_or_neither (is_some s.replacement_provider_ref) (is_some s.replacement_plan) ≡ true
  pub replacement_committed_needs_ref :
      (is_none s.replacement_committed_at || is_some s.replacement_provider_ref) ≡ true
  pub retired_kind_set :
      both_or_neither (is_some s.retired_provider_ref) (is_some s.retired_kind) ≡ true
  pub replacement_confirmed_needs_committed :
      (is_none s.replacement_cancel_confirmed_at || is_some s.replacement_committed_at) ≡ true
