-- ===== src/Billing.antt =====
-- The billing services (billing/services.py, billing/models.py), a module to a part.
pub mod Model
pub mod Context
pub mod Constraints
pub mod Provider
pub mod Paid
pub mod Session
pub mod Retire
pub mod Transition
pub mod Snapshot
pub mod Replacement
pub mod Quota
pub mod Dunning
pub mod Exec
pub mod Request
pub mod PlanChange
pub mod Checkout
pub mod Cancel
pub mod Commit
pub mod Sync
pub mod Webhook
pub mod Maintenance
pub mod Retired
pub mod Overview
mod Tests
