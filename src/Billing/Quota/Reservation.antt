-- ===== src/Billing/Quota/Reservation.antt =====
-- What a reservation does to the usage records, and how it agrees with `get_entitlement`.
use mathlib.Core.Path.{subst}
use review_flow.Base.{
  option_keeps, not, if_keeps, sym, ap, ℕ, ◌+◌, ◌<◌, ◌≢◌, true, ◌≡◌, refl, ◌↔◌, Option, none, some,
  List, [], ◌∷◌, find, arith, Option-cases, Bool-cases, inl, inr, leb, if◌then◌else◌,
}
use review_flow.Billing.Quota.{
  usage_of, ReservationResult, reserved, quota_exhausted, not_entitled, usage_for, entitled_now,
  entitlement, add_unit, reserve, reserve_locked,
}
use review_flow.Billing.Model.{active, Subscription, UsageRecord}
use review_flow.Billing.Transition.{has_period}

find_period :
    (a b : ℕ) (us : List UsageRecord) (u : UsageRecord)
    → find (has_period a b) us ≡ some u
    → (u.period_start ≡ a) × (u.period_end ≡ b)
find_period a b [] u e = cc
find_period a b (x ∷ us) u e = elim (Bool-cases (has_period a b x)) [
  | inl hit ↦ ground arith
  | inr miss ↦ find_period a b us u (ground arith)
]

-- The period's record counts one unit more.
pub find-add_unit_self :
    (a b : ℕ) (us : List UsageRecord) (u : UsageRecord)
    → find (has_period a b) us ≡ some u
    → find (has_period a b) (add_unit a b us)
      ≡ some (record u { requests_used = u.requests_used + 1 })
unfolding add_unit
find-add_unit_self a b [] u e = cc
find-add_unit_self a b (x ∷ us) u e = ground (arith, find-add_unit_self a b us u)

-- The records of other periods are as they were.
pub find-add_unit_ne :
    (a b c d : ℕ) (us : List UsageRecord)
    → ¬ ((c ≡ a) × (d ≡ b))
    → find (has_period c d) (add_unit a b us) ≡ find (has_period c d) us
unfolding add_unit
find-add_unit_ne a b c d [] ne = refl
find-add_unit_ne a b c d (x ∷ us) ne = ground (arith, find-add_unit_ne a b c d us ne)

-- A row with the current period from `a` to `b`, whose record is `u`.
pub record HasUsage (sub : Subscription) (usage : List UsageRecord) (a b : ℕ) (u : UsageRecord)
    : Type 0 where
  pub starts : sub.current_period_start ≡ some a
  pub ends : sub.current_period_end ≡ some b
  pub recorded : find (has_period a b) usage ≡ some u

pub usage_for-HasUsage :
    (sub : Subscription) (usage : List UsageRecord) (a b : ℕ) (u : UsageRecord)
    → HasUsage sub usage a b u
    → usage_for sub usage ≡ some u
unfolding usage_for
usage_for-HasUsage sub usage a b u h = rw (h.starts, h.ends) h.recorded

-- What one reservation does on an unchanged row with a usage record.
abbrev pub attempt : ℕ → Subscription → List UsageRecord → ReservationResult × List UsageRecord
attempt now sub usage = reserve now now (some sub) (some sub) usage

pub attempt_lem :
    (now : ℕ) (sub : Subscription) (usage : List UsageRecord) (a b : ℕ) (u : UsageRecord)
    → HasUsage sub usage a b u
    → attempt now sub usage ≡ (
        if entitled_now now (some sub)
        then (if leb sub.plan.quota_requests u.requests_used
            then (quota_exhausted, usage)
            else (reserved, add_unit a b usage))
        else (not_entitled, usage))
unfolding reserve reserve_locked
attempt_lem now sub usage a b u h =
    let (p, q) = find_period a b usage u h.recorded in
    rw (usage_for-HasUsage sub usage a b u h) (ground (arith, h.starts, h.ends))

-- A unit that was reserved: the row under the lock, its current record, and the records afterwards.
pub record Reserved (now : ℕ) (row : Option Subscription) (usage after : List UsageRecord)
    : Type 0 where
  pub sub : Subscription
  pub start : ℕ
  pub end : ℕ
  pub before : UsageRecord
  pub was_read : row ≡ some sub
  pub is_active : sub.status ≡ active
  pub in_period : now < end
  pub current : HasUsage sub usage start end before
  pub below_quota : before.requests_used < sub.plan.quota_requests
  pub counted :
      find (has_period start end) after
      ≡ some (record before { requests_used = before.requests_used + 1 })
  pub others_kept :
      (c d : ℕ)
      → ¬ ((c ≡ start) × (d ≡ end))
      → find (has_period c d) after ≡ find (has_period c d) usage

usage_of-period :
    (start end : Option ℕ) (usage : List UsageRecord) (u : UsageRecord)
    → usage_of start end usage ≡ some u
    → (start ≡ some u.period_start)
      × (end ≡ some u.period_end)
      × (find (has_period u.period_start u.period_end) usage ≡ some u)
usage_of-period none end usage u e = cc
usage_of-period (some a) none usage u e = cc
usage_of-period (some a) (some b) usage u e =
    let (p, q) = find_period a b usage u e in
    (
      ap some (sym p),
      ap some (sym q),
      subst (λ x. find (has_period x u.period_end) usage ≡ some u) (sym p)
          (subst (λ y. find (has_period a y) usage ≡ some u) (sym q) e),
    )

pub HasUsage-usage_for :
    (sub : Subscription) (usage : List UsageRecord) (u : UsageRecord)
    → usage_for sub usage ≡ some u
    → HasUsage sub usage u.period_start u.period_end u
unfolding usage_for
HasUsage-usage_for sub usage u e =
    let (p, q, r) = usage_of-period sub.current_period_start sub.current_period_end usage u e in
    record { starts = p; ends = q; recorded = r }

reserve_locked-Reserved :
    (now : ℕ) (row : Option Subscription) (u : UsageRecord) (usage : List UsageRecord)
    → find (has_period u.period_start u.period_end) usage ≡ some u
    → (reserve_locked now row u usage).0 ≡ reserved
    → Reserved now row usage (reserve_locked now row u usage).1
unfolding reserve_locked entitled_now
reserve_locked-Reserved now none u usage found e = cc
reserve_locked-Reserved now (some sub) u usage found e =
    let within : (sub.status ≡ active)
        × (sub.current_period_start ≡ some u.period_start)
        × (sub.current_period_end ≡ some u.period_end)
        × (now < u.period_end)
        × (u.requests_used < sub.plan.quota_requests)
        × ((reserve_locked now (some sub) u usage).1 ≡ add_unit u.period_start u.period_end usage) =
      ground arith in
    let (live, starts, ends, early, room, after) = within in
    record {
      sub = sub;
      start = u.period_start;
      end = u.period_end;
      before = u;
      was_read = refl;
      is_active = live;
      in_period = early;
      current = record { starts = starts; ends = ends; recorded = found };
      below_quota = room;
      counted = rw after (find-add_unit_self u.period_start u.period_end usage u found);
      others_kept = λ c d ne. rw after (find-add_unit_ne u.period_start u.period_end c d usage ne);
    }

-- A unit is reserved only while the row, as it is under the UsageRecord's lock, is ACTIVE and inside
-- its period with used units below the plan's quota. The period's record then counts exactly one more
-- and every other record is as it was. The row that was read before the lock decides nothing of this.
pub reserve-Reserved :
    (now now' : ℕ) (first row : Option Subscription) (usage : List UsageRecord)
    → (reserve now now' first row usage).0 ≡ reserved
    → Reserved now' row usage (reserve now now' first row usage).1
unfolding reserve
reserve-Reserved now now' none row usage = λ e. cc
reserve-Reserved now now' (some first) row usage =
    if_keeps
      (λ (r : ReservationResult × List UsageRecord). r.0 ≡ reserved → Reserved now' row usage r.1)
      (not (entitled_now now (some first))) (λ e. cc)
      (option_keeps
        (λ (r : ReservationResult × List UsageRecord). r.0 ≡ reserved → Reserved now' row usage r.1)
        (usage_for first usage) (λ e. cc)
        (λ u found.
          reserve_locked-Reserved now' row u usage
            (HasUsage-usage_for first usage u found).recorded))

-- Any other answer leaves the records alone.
pub reserve_unchanged :
    (now now' : ℕ) (first row : Option Subscription) (usage : List UsageRecord)
    → (reserve now now' first row usage).0 ≢ reserved
    → (reserve now now' first row usage).1 ≡ usage
unfolding reserve reserve_locked
reserve_unchanged now now' first row usage ne = ground arith

-- `can_send` of the dashboard's entitlement is true exactly if a reservation of the same instant, on
-- the same row and records, succeeds.
pub can_send-reserved :
    (now : ℕ) (sub : Subscription) (usage : List UsageRecord)
    → ((entitlement now (some sub) usage).can_send ≡ true) ↔ ((attempt now sub usage).0 ≡ reserved)
unfolding entitlement reserve entitled_now
can_send-reserved now sub usage = elim (Option-cases (usage_for sub usage)) [
  | inl missing ↦ (λ e. ground arith, λ e. ground arith)
  | inr (u, found) ↦
      let h = HasUsage-usage_for sub usage u found in
      rw (attempt_lem now sub usage u.period_start u.period_end u h, found)
        (λ e. ground arith, λ e. ground arith)
]
