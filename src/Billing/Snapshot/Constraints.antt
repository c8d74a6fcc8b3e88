-- ===== src/Billing/Snapshot/Constraints.antt =====
-- `_apply_snapshot` keeps the check constraints, so its save is never refused by the database.
use review_flow.Base.{ℕ, Bool, Option, none, ◌≡◌, refl, List, if_keeps, true, false, arith}
use review_flow.Billing.Constraints.{MeetsConstraints}
use review_flow.Billing.Model.{Plan, Subscription, ProviderStatus, Reason}
use review_flow.Billing.Provider.{Value}
use review_flow.Billing.Session.{Session, IsLocked, save}
use review_flow.Billing.Retire.{Surroundings, not_active}
use review_flow.Billing.Retire.Rows.{abandon_unless_active-MeetsConstraints}
use review_flow.Billing.Transition.{Outcome, reset_usage_period}
use review_flow.Billing.Transition.Constraints.{
  apply_active-MeetsConstraints, apply_payment_failed-MeetsConstraints,
  apply_terminal-MeetsConstraints,
}
use review_flow.Billing.Snapshot.{
  SnapshotResult, by_status, finish, apply_locked, with_abandonment, stamped, ending,
  committed_downgrade_replacement,
}
use review_flow.Billing.Snapshot.Cases.{apply_locked_cases}
use review_flow.Billing.Snapshot.Saved.{apply_locked_saves}

with_abandonment-MeetsConstraints :
    (w : Surroundings) (why : Reason) (changed : Bool) (s : Session)
    → MeetsConstraints s.sub
    → MeetsConstraints (with_abandonment w why (changed, s)).1.sub
with_abandonment-MeetsConstraints w why false s m = m
with_abandonment-MeetsConstraints w why true s m =
    abandon_unless_active-MeetsConstraints w s why not_active none m

ending-MeetsConstraints :
    (w : Surroundings) (now : ℕ) (s : Session)
    → MeetsConstraints s.sub
    → MeetsConstraints (ending w now s).1.sub
unfolding ending
ending-MeetsConstraints w now s m =
    if_keeps (λ (r : Outcome × Session). MeetsConstraints r.1.sub)
      (committed_downgrade_replacement s.sub) m
      (with_abandonment-MeetsConstraints w _ _ _ (apply_terminal-MeetsConstraints s now m))

by_status-MeetsConstraints :
    (w : Surroundings) (now : ℕ) (s : Session) (entity : Value) (invoices : Option (List Value))
    (plan : Plan) (actor : Option ℕ) (status : ProviderStatus)
    → MeetsConstraints s.sub
    → MeetsConstraints (by_status w now s entity invoices plan actor status).1.sub
unfolding by_status
by_status-MeetsConstraints w now s entity invoices plan actor ProviderStatus.active m =
    apply_active-MeetsConstraints s entity invoices plan actor none m
by_status-MeetsConstraints w now s entity invoices plan actor ProviderStatus.pending m =
    with_abandonment-MeetsConstraints w _ _ _ (apply_payment_failed-MeetsConstraints s now m)
by_status-MeetsConstraints w now s entity invoices plan actor ProviderStatus.halted m =
    with_abandonment-MeetsConstraints w _ _ _ (apply_payment_failed-MeetsConstraints s now m)
by_status-MeetsConstraints w now s entity invoices plan actor ProviderStatus.cancelled m =
    ending-MeetsConstraints w now s m
by_status-MeetsConstraints w now s entity invoices plan actor ProviderStatus.completed m =
    ending-MeetsConstraints w now s m
by_status-MeetsConstraints w now s entity invoices plan actor ProviderStatus.expired m =
    ending-MeetsConstraints w now s m
by_status-MeetsConstraints w now s entity invoices plan actor _ m = m

pub finish-sub :
    (now : ℕ) (status : ProviderStatus) (fetched : ℕ) (o : Outcome) (s : Session)
    → (finish now status fetched (o, s)).1.sub ≡ (stamped status fetched s).sub
unfolding finish save reset_usage_period
finish-sub now status fetched o s =
    if_keeps (λ (t : Session). t.sub ≡ (stamped status fetched s).sub) o.advanced refl refl

stamped-MeetsConstraints :
    (status : ProviderStatus) (fetched : ℕ) (s : Session)
    → MeetsConstraints s.sub
    → MeetsConstraints (stamped status fetched s).sub
stamped-MeetsConstraints status fetched s m = ground arith

finish-MeetsConstraints :
    (now : ℕ) (status : ProviderStatus) (fetched : ℕ) (o : Outcome) (s : Session)
    → MeetsConstraints s.sub
    → MeetsConstraints (finish now status fetched (o, s)).1.sub
finish-MeetsConstraints now status fetched o s m =
    rw (finish-sub now status fetched o s) (stamped-MeetsConstraints status fetched s m)

updated-MeetsConstraints :
    (sub : Subscription) (at : ℕ)
    → MeetsConstraints sub
    → MeetsConstraints (record sub { updated_at = at })
updated-MeetsConstraints sub at m = ground arith

-- The row that `_apply_snapshot` leaves in the database meets every check constraint of its table if
-- the row before it does: no branch ends in an IntegrityError of the subscription.
pub apply_locked-MeetsConstraints :
    (w : Surroundings) (now : ℕ) (s : Session) (entity : Value) (invoices : Option (List Value))
    (fetched : ℕ) (actor : Option ℕ)
    → IsLocked s
    → MeetsConstraints s.row
    → MeetsConstraints (apply_locked w now s entity invoices fetched actor).1.row
apply_locked-MeetsConstraints w now s entity invoices fetched actor h m =
    let start : MeetsConstraints s.sub = rw (← h.0) m in
    rw (apply_locked_saves w now s entity invoices fetched actor h) (
      updated-MeetsConstraints _ _ (
        apply_locked_cases (λ (r : SnapshotResult × Session). MeetsConstraints r.1.sub) w now s
          entity invoices fetched actor start
          (λ plan status _ _ _ _.
            finish-MeetsConstraints now status fetched _ _
              (by_status-MeetsConstraints w now _ entity invoices plan actor status start))))
