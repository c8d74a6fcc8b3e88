-- ===== src/Billing/Request/Rows.antt =====
-- The rows that the shared steps leave.
use review_flow.Base.{ℕ, true, false, ◌≡◌, Option, List, [], ◌∷◌, String, arith}
use review_flow.Billing.Constraints.{MeetsConstraints}
use review_flow.Billing.Model.{Plan, Subscription}
use review_flow.Billing.Provider.{Value}
use review_flow.Billing.Session
use review_flow.Billing.Session.{Session, Column, add, no_fields, save, IsLocked}
use review_flow.Billing.Session.Save.{IsCovered}
use review_flow.Billing.Replacement.Saved.{save_updated-row}
use review_flow.Billing.Request.{save_columns, fresh, store_new_provider_subscription}

-- The columns that a `save_columns` names are all that it changes.
abbrev pub Covers : List Column → Subscription → Session → Type 0
Covers columns changed s =
    IsCovered s.row false (record s { sub = changed; fields = add columns no_fields })

pub save_columns-row :
    (columns : List Column) (at : ℕ) (changed : Subscription) (s : Session)
    → Covers columns changed s
    → (save_columns columns at changed s).row ≡ record changed { updated_at = at }
unfolding save_columns
save_columns-row columns at changed s h = save_updated-row at _ h

fresh-IsCovered :
    (p : Plan) (ref : String) (entity : Value) (s : Session)
    → IsLocked s
    → IsCovered s.row true (record s {
      sub = fresh s.sub p ref entity;
      fields =
          add
            (Session.plan ∷ Session.status ∷ Session.payment_provider_ref ∷ Session.provider_status
              ∷ Session.pending_plan ∷ Session.cancel_at_period_end ∷ Session.provider_synced_at
              ∷ Session.current_period_start ∷ Session.current_period_end ∷ [])
            no_fields;
    })
fresh-IsCovered p ref entity s (same, empty) = ground arith

pub store_new_provider_subscription-row :
    (at : ℕ) (actor : Option ℕ) (p : Plan) (ref : String) (entity : Value) (s : Session)
    → IsLocked s
    → (store_new_provider_subscription at actor p ref entity s).row
      ≡ record (fresh s.sub p ref entity) { updated_at = at }
unfolding store_new_provider_subscription save_columns
store_new_provider_subscription-row at actor p ref entity s h =
    save_updated-row at _ (fresh-IsCovered p ref entity s h)

pub restamped-MeetsConstraints :
    (sub : Subscription) (at : ℕ)
    → MeetsConstraints sub
    → MeetsConstraints (record sub { updated_at = at })
restamped-MeetsConstraints sub at m = ground arith
