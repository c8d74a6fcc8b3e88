-- ===== src/Billing/Snapshot/Usage.antt =====
-- Usage records under snapshots: none is reset or lost, and a new period always has one.
use review_flow.Base.{
  ℕ, Bool, Option, none, some, ◌≡◌, refl, List, [], ◌∷◌, true, false, arith, if_keeps, find, any,
  ◌∙◌,
}
use review_flow.Billing.Model.{Plan, UsageRecord, ProviderStatus, Reason}
use review_flow.Billing.Provider.{Value}
use review_flow.Billing.Session.{Session, save}
use review_flow.Billing.Retire.{Surroundings, retire_replacement, not_active}
use review_flow.Billing.Retire.Cases.{abandon_cases}
use review_flow.Billing.Transition.{Outcome, has_period, open_usage, reset_usage_period}
use review_flow.Billing.Transition.Usage.{
  apply_active-usage, apply_payment_failed-usage, apply_terminal-usage,
}
use review_flow.Billing.Snapshot.{
  SnapshotResult, finish, apply_locked, by_status, with_abandonment, ending,
  committed_downgrade_replacement, with_provider_fields,
}
use review_flow.Billing.Snapshot.Cases.{apply_locked_cases}

any_of_find :
    (start end : ℕ) (us : List UsageRecord) (u : UsageRecord)
    → find (has_period start end) us ≡ some u
    → any (has_period start end) us ≡ true
any_of_find start end [] u e = cc
any_of_find start end (x ∷ us) u e = ground (arith, any_of_find start end us u)

-- Opening a period's record keeps every record that is there.
pub find-open_usage :
    (start end : Option ℕ) (a b : ℕ) (us : List UsageRecord) (u : UsageRecord)
    → find (has_period a b) us ≡ some u
    → find (has_period a b) (open_usage start end us) ≡ some u
find-open_usage none end a b us u e = e
find-open_usage (some start) none a b us u e = e
find-open_usage (some start) (some end) a b us u e = ground (arith, any_of_find a b us u e)

-- The period whose record is opened has one afterwards.
pub any-open_usage :
    (start end : ℕ) (us : List UsageRecord)
    → any (has_period start end) (open_usage (some start) (some end) us) ≡ true
any-open_usage start end us = ground arith

retire_replacement-usage :
    (plans : List Plan) (stamp : ℕ) (s : Session) (entity : Value) (why : Reason) (actor : Option ℕ)
    → (retire_replacement plans stamp s entity why actor).usage ≡ s.usage
unfolding retire_replacement
retire_replacement-usage plans stamp s entity why actor = ground arith

with_abandonment-usage :
    (w : Surroundings) (why : Reason) (changed : Bool) (s : Session)
    → (with_abandonment w why (changed, s)).1.usage ≡ s.usage
with_abandonment-usage w why false s = refl
with_abandonment-usage w why true s =
    abandon_cases (λ _ t. t.usage ≡ s.usage) w s why not_active none refl
      (λ entity _. retire_replacement-usage w.plans w.stamp s entity why none)

ending-usage : (w : Surroundings) (now : ℕ) (s : Session) → (ending w now s).1.usage ≡ s.usage
unfolding ending
ending-usage w now s =
    if_keeps (λ (r : Outcome × Session). r.1.usage ≡ s.usage)
      (committed_downgrade_replacement s.sub) refl
      (with_abandonment-usage w _ _ _ ∙ apply_terminal-usage s now)

by_status-usage :
    (w : Surroundings) (now : ℕ) (s : Session) (entity : Value) (invoices : Option (List Value))
    (plan : Plan) (actor : Option ℕ) (status : ProviderStatus)
    → (by_status w now s entity invoices plan actor status).1.usage ≡ s.usage
unfolding by_status
by_status-usage w now s entity invoices plan actor ProviderStatus.active =
    apply_active-usage s entity invoices plan actor none
by_status-usage w now s entity invoices plan actor ProviderStatus.pending =
    with_abandonment-usage w _ _ _ ∙ apply_payment_failed-usage s now
by_status-usage w now s entity invoices plan actor ProviderStatus.halted =
    with_abandonment-usage w _ _ _ ∙ apply_payment_failed-usage s now
by_status-usage w now s entity invoices plan actor ProviderStatus.cancelled = ending-usage w now s
by_status-usage w now s entity invoices plan actor ProviderStatus.completed = ending-usage w now s
by_status-usage w now s entity invoices plan actor ProviderStatus.expired = ending-usage w now s
by_status-usage w now s entity invoices plan actor _ = refl

finish-find :
    (now : ℕ) (status : ProviderStatus) (fetched : ℕ) (o : Outcome) (s : Session) (a b : ℕ)
    {u : UsageRecord}
    → find (has_period a b) s.usage ≡ some u
    → find (has_period a b) (finish now status fetched (o, s)).1.usage ≡ some u
unfolding finish save reset_usage_period
finish-find now status fetched o s a b {u} e =
    if_keeps (λ (t : Session). find (has_period a b) t.usage ≡ some u) o.advanced
      (find-open_usage s.sub.current_period_start s.sub.current_period_end a b s.usage u e) e

-- A snapshot leaves every usage record as it is: the units used in a period are never reset.
pub usage_kept :
    (w : Surroundings) (now : ℕ) (s : Session) (entity : Value) (invoices : Option (List Value))
    (fetched : ℕ) (actor : Option ℕ) (start end : ℕ) (u : UsageRecord)
    → find (has_period start end) s.usage ≡ some u
    → find (has_period start end) (apply_locked w now s entity invoices fetched actor).1.usage
      ≡ some u
usage_kept w now s entity invoices fetched actor start end u e =
    apply_locked_cases
      (λ (r : SnapshotResult × Session). find (has_period start end) r.1.usage ≡ some u) w now s
      entity invoices fetched actor e
      (λ plan status _ _ _ _.
        finish-find now status fetched _ _ start end
          (rw (by_status-usage w now (with_provider_fields s) entity invoices plan actor status) e))
