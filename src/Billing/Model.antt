-- ===== src/Billing/Model.antt =====
-- The rows of billing/models.py, as one merchant's request or task reads them. Identifiers are
-- numbers, references and names are texts, prices are in hundredths, and an instant is the number
-- of microseconds since 0001-01-01T00:00Z, the first that Python's `datetime` holds.
use review_flow.Base.{ℕ, ◌*◌, Bool, true, false, Option, List, String}

abbrev pub second : ℕ
second = 1000000

abbrev pub days : ℕ → ℕ
days n = n * 86400 * second

-- `GRACE`
abbrev pub grace : ℕ
grace = days 7

pub data PlanName : Type 0 where
  starter growth pro business : PlanName

-- `Plan`, less the columns that no billing service reads (`currency`, `features_json`).
pub record Plan : Type 0 where
  pub id : ℕ
  pub name : PlanName
  pub monthly_price : ℕ
  pub quota_requests : ℕ
  pub provider_plan_id : Option String
  pub is_active : Bool

-- `Subscription.Status`
pub data Status : Type 0 where
  incomplete active past_due cancelled expired : Status

abbrev pub same_status : Status → Status → Bool
same_status incomplete incomplete = true
same_status active active = true
same_status past_due past_due = true
same_status cancelled cancelled = true
same_status expired expired = true
same_status _ _ = false

-- `Subscription.RetiredKind`
pub data RetiredKind : Type 0 where
  switched_old abandoned_replacement : RetiredKind

-- A provider status text, read by cases: the nine names of `RECOGNIZED_PROVIDER_STATUSES`, or any
-- other text.
pub data ProviderStatus : Type 0 where
  created authenticated active pending halted cancelled completed expired paused : ProviderStatus
  unrecognized : String → ProviderStatus

-- `Subscription`, with its plans joined in.
pub record Subscription : Type 0 where
  pub id : ℕ
  pub merchant_id : ℕ
  pub plan : Plan
  pub status : Status
  pub current_period_start : Option ℕ
  pub current_period_end : Option ℕ
  pub payment_provider_ref : Option String
  pub pending_plan_id : Option ℕ
  pub past_due_at : Option ℕ
  pub dunning_stage : Option ℕ
  pub cancel_at_period_end : Bool
  pub provider_status : Option ProviderStatus
  pub provider_synced_at : Option ℕ
  pub replacement_provider_ref : Option String
  pub replacement_expires_at : Option ℕ
  pub replacement_plan : Option Plan
  pub replacement_committed_at : Option ℕ
  pub replacement_cancel_confirmed_at : Option ℕ
  pub retired_provider_ref : Option String
  pub retired_kind : Option RetiredKind
  pub updated_at : ℕ

pub record UsageRecord : Type 0 where
  pub period_start : ℕ
  pub period_end : ℕ
  pub requests_used : ℕ

pub data AttemptType : Type 0 where
  renewal retry : AttemptType

-- `PaymentAttempt`; every row that a service writes has the provider `razorpay` and the status
-- `SUCCEEDED`.
pub record PaymentAttempt : Type 0 where
  pub merchant_id : ℕ
  pub provider_attempt_id : String
  pub attempt_type : AttemptType
  pub attempted_at : ℕ

pub record BillingEvent : Type 0 where
  pub provider_event_id : String
  pub event_type : String
  pub provider_ref : String
  pub created_at : ℕ
  pub processed_at : Option ℕ

-- The audit actions, `AUDIT_*`.
pub data Action : Type 0 where
  checkout_started plan_changed cancellation_requested activated went_past_due : Action
  dunning_checkpoint recovered subscription_cancelled subscription_expired : Action
  replacement_started replacement_committed replacement_abandoned replacement_paid_after_end :
      Action

pub data MetaKey : Type 0 where
  from_status to_status plan_id plan_name from_plan to_plan effective : MetaKey
  acknowledged_no_credit stage reason row_status kind : MetaKey

-- The `effective` of a plan change or a cancellation.
pub data Effect : Type 0 where
  applied immediate scheduled period_end replacement_immediate replacement_scheduled : Effect

-- Why a replacement was abandoned.
pub data Reason : Type 0 where
  past_due_row row_ended provider_failed deadline_passed committed_replacement_failed : Reason
  verification_failed cancel_refused merchant_cancelled : Reason

-- A replacement's kind, `UPGRADE` or `DOWNGRADE`.
pub data Kind : Type 0 where
  upgrade downgrade : Kind

pub data MetaValue : Type 0 where
  kind_value : Kind → MetaValue
  effect_value : Effect → MetaValue
  reason_value : Reason → MetaValue
  status_value : Status → MetaValue
  name_value : PlanName → MetaValue
  number : ℕ → MetaValue
  flag : Bool → MetaValue
  nothing : MetaValue

-- An audit row about the subscription: its action, the acting user and its metadata.
pub record AuditRow : Type 0 where
  pub action : Action
  pub actor : Option ℕ
  pub metadata : List (MetaKey × MetaValue)
