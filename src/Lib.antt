-- ===== src/Lib.antt =====
-- ReviewFlow's billing, event inbox, ledger of sales and tenancy. The billing keeps a merchant's
-- subscription and its quota in step with the payment provider Razorpay: its OWNER's checkouts and
-- cancellations create, change and end the provider's subscription; the provider's webhooks and a
-- periodic sweep make the service fetch the provider's entity and its invoices, and the answer, a
-- snapshot, is applied to the subscription's row under a row lock. Sending a review request
-- reserves one unit of the current period's quota. The inbox takes the sales that integrations
-- deliver, processes each once and retries failures; a processed sale enters the ledger. The
-- tenancy blocks give every transaction the merchant that its row-level security reads.
--
-- Billing.Model: the rows of billing/models.py. Billing.Constraints: the check constraints of
-- Subscription.Meta. The other files model billing/services.py:
-- Billing.Context: _merchant_id and the transaction guard, and what a guarded service ends in.
-- Billing.Provider: JSON values, the entity's status, _from_unix and the provider's replies.
-- Billing.Paid: current_period_paid, the invoice that proves the entity's own period paid.
-- Billing.Session: what a transaction on the locked row holds: the object in memory, the stored
-- row, the set of columns to save, and the usage records, payments, events and audit rows.
-- Billing.Transition: _apply_active, _apply_payment_failed, _apply_terminal, _take_plan,
-- _clear_grace, _audit_plan_change, _record_payment and reset_usage_period.
-- Billing.Retire: _refetch_replacement, _abandon_unless_active, _retire_replacement.
-- Billing.Snapshot: _apply_snapshot, which dispatches to the two files above and saves the row.
-- Billing.Replacement: _apply_replacement_snapshot, _replacement_active, _clear_failed_committed
-- and switch_to_replacement, the counterpart for the subscription that replaces the paying one.
-- Billing.Retired: _sync_retired, _retired_may_be_cancelled and _clear_retired.
-- Billing.Overview: the members of get_subscription_overview.
-- Billing.Exec: what the OWNER's endpoints run in, a state-and-error monad over the merchant's rows,
-- the calls made to the provider and the readings of the clock; its child modules have the rules
-- by which the endpoints' properties are proved.
-- Billing.Request: _reconcile and the creation and replacement of the provider subscription.
-- Billing.PlanChange: _checkout_active and start_plan_change_replacement.
-- Billing.Checkout: start_checkout. Billing.Cancel: cancel_subscription and cancel_replacement.
-- Billing.Commit: commit_downgrade_replacement, one function per transaction, and
-- _reissue_committed_cancel.
-- Billing.Sync: _sync_main, the marking of observed events, and sync_pending_events.
-- Billing.Maintenance: sync_subscription, _sync_replacement, and the commit and the retired slot with
-- their calls.
-- Billing.Webhook: receive_webhook, _parse_event and event_id_failure, with
-- verify_webhook_signature of billing/razorpay.py; the HMAC and json.loads are parameters.
-- Billing.Quota: get_entitlement and reserve_quota_unit.
-- Billing.Dunning: advance_dunning, _retry_owed_provider_cancel and maintenance_due.
--
-- Events models events/services.py and events/models.py: record_event, process_event with
-- _record_failure and _safe_error, and due_event_ids. Events.Attempts runs a list of attempts on one
-- event. The handling of an event's payload (integrations, locations, transactions) is a parameter.
--
-- Sales models record_sale of transactions/services.py with get_or_create_customer of
-- customers/services.py and validate_e164 of integrations/core/schemas.py.
--
-- Tenancy models core/tenancy.py: code as a tree of the blocks it opens (tenant_context,
-- tenant_atomic, the lookup scopes and plain transactions), run on the context variables and the
-- transaction-local settings that the row-level-security policies read. The form of a lookup's value
-- is checked by a regular expression (Tenancy.Forms) or by uuid.UUID: a scope takes the value, or
-- none if refused.
--
-- A billing operation is a function of the session to a result and a session. Instants are
-- microseconds since the first of Python's datetime; the readings of the clock are arguments.
-- Identifiers are numbers, and a row carries the plans that the code joins in. A save writes
-- exactly the columns of its set, as Django's update_fields does. The provider, which is no code
-- of the repository, is the reply or the entity that a function takes, or the provider of an
-- endpoint's Env, which answers each call after those already made. The other merchants' rows are
-- out of sight by row-level security, so a session holds one merchant's rows. Every loop is
-- structural recursion on a list; no fuel is used.
--
-- Not modelled: the ValueError of tenant_context for an argument that is no UUID (a block takes a
-- merchant's number), subscription instants before 1970 in _downgrade_verified, rows that are
-- deleted under a reservation (no service deletes one), logging, column widths, the unique
-- constraints that span merchants save that of the payments, other workers between the
-- transactions of a synchronisation, the HTTP client of the provider and the other Django
-- applications.
pub mod Base
pub mod Billing
pub mod Events
pub mod Tenancy
pub mod Sales
