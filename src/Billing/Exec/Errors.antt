-- ===== src/Billing/Exec/Errors.antt =====
-- The exceptions of billing/exceptions.py, with what core.api.exception_handler answers for each.
use review_flow.Base.{ℕ, Option, none, some, String}

-- Those that a request ends in; a rejection of the provider is always translated. `not_implemented` is
-- `NotImplementedError`, `no_tenant` is `TenantContextError`, and the last two are those that no
-- endpoint means to raise (`RuntimeError`, `TypeError`).
pub data Error : Type 0 where
  provider_unavailable provider_not_configured state_unsupported plan_unsupported : Error
  subscription_past_due subscription_cancelling subscription_activating plan_unchanged : Error
  plan_not_available plan_change_unsupported replacement_in_progress : Error
  replacement_activating replacement_is_committed acknowledgement_required : Error
  not_cancellable webhook_rejected invalid_payload : Error
  not_implemented no_tenant outside_transaction internal : Error

-- `http_status`; an exception without one is a 500.
unfoldable pub http_status : Error → Option ℕ
http_status provider_unavailable = some 502
http_status provider_not_configured = some 503
http_status state_unsupported = some 409
http_status plan_unsupported = some 409
http_status subscription_past_due = some 409
http_status subscription_cancelling = some 409
http_status subscription_activating = some 409
http_status plan_unchanged = some 422
http_status plan_not_available = some 422
http_status plan_change_unsupported = some 409
http_status replacement_in_progress = some 409
http_status replacement_activating = some 409
http_status replacement_is_committed = some 409
http_status acknowledgement_required = some 422
http_status not_cancellable = some 409
http_status webhook_rejected = some 401
http_status invalid_payload = some 400
http_status not_implemented = none
http_status no_tenant = none
http_status outside_transaction = none
http_status internal = none

-- `code`
unfoldable pub code : Error → Option String
code provider_unavailable = some "billing_provider_unavailable"
code provider_not_configured = some "billing_not_configured"
code state_unsupported = some "subscription_provider_state_unsupported"
code plan_unsupported = some "subscription_plan_unsupported"
code subscription_past_due = some "subscription_past_due"
code subscription_cancelling = some "subscription_cancelling"
code subscription_activating = some "subscription_activating"
code plan_unchanged = some "validation_error"
code plan_not_available = some "validation_error"
code plan_change_unsupported = some "plan_change_unsupported"
code replacement_in_progress = some "replacement_in_progress"
code replacement_activating = some "replacement_activating"
code replacement_is_committed = some "replacement_committed"
code acknowledgement_required = some "no_credit_acknowledgement_required"
code not_cancellable = some "subscription_not_cancellable"
code webhook_rejected = some "invalid_signature"
code invalid_payload = some "invalid_payload"
code not_implemented = none
code no_tenant = none
code outside_transaction = none
code internal = none
