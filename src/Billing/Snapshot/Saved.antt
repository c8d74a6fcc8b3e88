-- ===== src/Billing/Snapshot/Saved.antt =====
-- What `_apply_snapshot` saves.
use review_flow.Billing.Snapshot.{
  reset_usage_period, committed_downgrade_replacement, Outcome, ending, by_status,
  with_provider_fields, finish, apply_locked, with_abandonment, stamped,
}
use review_flow.Billing.Session.{save, updated_at, Fields, IsLocked, Session}
use review_flow.Billing.Transition.{reset_usage_period}
use review_flow.Billing.Snapshot.Cases.{apply_locked_cases}
use review_flow.Base.{
  if◌then◌else◌, ap, ℕ, Bool, Option, none, ◌≡◌, List, if_keeps, true, false, arith,
}
use review_flow.Billing.Retire.Covered.{abandon_unless_active-IsCovered}
use review_flow.Billing.Transition.Covered.{
  apply_active-IsCovered, apply_terminal-IsCovered, apply_payment_failed-IsCovered,
}
use review_flow.Billing.Model.{Plan, Subscription, ProviderStatus, Reason}
use review_flow.Billing.Provider.{Value}
use review_flow.Billing.Session.Save.{IsCovered, save-with_stamp}
use review_flow.Billing.Retire.{Surroundings, not_active}

with_abandonment-IsCovered :
    {row : Subscription} {marked : Bool} (w : Surroundings) (why : Reason) (changed : Bool)
    (s : Session)
    → IsCovered row marked s
    → IsCovered row marked (with_abandonment w why (changed, s)).1
with_abandonment-IsCovered w why false s h = h
with_abandonment-IsCovered w why true s h =
    abandon_unless_active-IsCovered w s why not_active none h

ending-IsCovered :
    {row : Subscription} {marked : Bool} (w : Surroundings) (now : ℕ) (s : Session)
    → IsCovered row marked s
    → IsCovered row marked (ending w now s).1
unfolding ending
ending-IsCovered {row} {marked} w now s h =
    if_keeps (λ (r : Outcome × Session). IsCovered row marked r.1)
      (committed_downgrade_replacement s.sub) h
      (with_abandonment-IsCovered w _ _ _ (apply_terminal-IsCovered s now h))

by_status-IsCovered :
    {row : Subscription} {marked : Bool} (w : Surroundings) (now : ℕ) (s : Session) (entity : Value)
    (invoices : Option (List Value)) (plan : Plan) (actor : Option ℕ) (status : ProviderStatus)
    → IsCovered row marked s
    → IsCovered row marked (by_status w now s entity invoices plan actor status).1
unfolding by_status
by_status-IsCovered w now s entity invoices plan actor ProviderStatus.active h =
    apply_active-IsCovered s entity invoices plan actor none h
by_status-IsCovered w now s entity invoices plan actor ProviderStatus.pending h =
    with_abandonment-IsCovered w _ _ _ (apply_payment_failed-IsCovered s now h)
by_status-IsCovered w now s entity invoices plan actor ProviderStatus.halted h =
    with_abandonment-IsCovered w _ _ _ (apply_payment_failed-IsCovered s now h)
by_status-IsCovered w now s entity invoices plan actor ProviderStatus.cancelled h =
    ending-IsCovered w now s h
by_status-IsCovered w now s entity invoices plan actor ProviderStatus.completed h =
    ending-IsCovered w now s h
by_status-IsCovered w now s entity invoices plan actor ProviderStatus.expired h =
    ending-IsCovered w now s h
by_status-IsCovered w now s entity invoices plan actor _ h = h

stamped-IsCovered :
    {row : Subscription} (status : ProviderStatus) (fetched : ℕ) (s : Session)
    → IsCovered row true s
    → IsCovered row true (stamped status fetched s)
stamped-IsCovered status fetched s h = ground arith

locked-IsCovered : (s : Session) → IsLocked s → IsCovered s.row true (with_provider_fields s)
locked-IsCovered s (same, empty) = ground (arith, ap (λ (f : Fields). f updated_at) empty)

finish-saves :
    {row : Subscription} (now : ℕ) (status : ProviderStatus) (fetched : ℕ) (o : Outcome)
    (s : Session)
    → IsCovered row true s
    → let (r, after) = finish now status fetched (o, s) in
      after.row ≡ record (after.sub) { updated_at = if r.changed then now else row.updated_at }
unfolding finish save reset_usage_period
finish-saves {row} now status fetched o s h =
    let saved = save-with_stamp now o.changed _ (stamped-IsCovered status fetched s h) in
    if_keeps
      (λ (t : Session).
        t.row ≡ record (t.sub) { updated_at = if o.changed then now else row.updated_at })
      o.advanced saved saved

-- The saved row is the subscription as the snapshot left it in memory: no write of any branch is
-- lost. `updated_at` moves to the time of the save exactly if the result says that a status, a plan
-- or a period changed.
pub apply_locked_saves :
    (w : Surroundings) (now : ℕ) (s : Session) (entity : Value) (invoices : Option (List Value))
    (fetched : ℕ) (actor : Option ℕ)
    → IsLocked s
    → let (r, after) = apply_locked w now s entity invoices fetched actor in
      after.row ≡ record (after.sub) { updated_at = if r.changed then now else s.row.updated_at }
apply_locked_saves w now s entity invoices fetched actor h =
    apply_locked_cases
      (λ r.
        r.1.row ≡ record (r.1.sub) { updated_at = if r.0.changed then now else s.row.updated_at })
      w now s entity invoices fetched actor (λ i. record (h.0 i) { updated_at = s.row.updated_at })
      (λ plan status _ _ _ _.
        finish-saves now status fetched _ _
          (by_status-IsCovered w now _ entity invoices plan actor status (locked-IsCovered s h)))
