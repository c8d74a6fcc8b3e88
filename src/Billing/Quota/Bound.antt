-- ===== src/Billing/Quota/Bound.antt =====
-- Reservations one after the other, as the UsageRecord's row lock orders them.
use review_flow.Base.{ℕ, ◌+◌, ◌-◌, ◌<◌, ◌≤◌, ◌≡◌, List, [], ◌∷◌, arith, leb, if◌then◌else◌, length}
use Prim.Native.Nat.{min}
use review_flow.Billing.Model.{active, Subscription, UsageRecord}
use review_flow.Billing.Quota.{
  ReservationResult, reserved, quota_exhausted, not_entitled, entitled_now,
}
use review_flow.Billing.Quota.Reservation.{HasUsage, attempt, attempt_lem, find-add_unit_self}

abbrev counts : ReservationResult → ℕ
counts reserved = 1
counts quota_exhausted = 0
counts not_entitled = 0

-- How many of the reservations at the given instants succeed, and the records afterwards.
unfoldable pub reserve_all : List ℕ → Subscription → List UsageRecord → ℕ × List UsageRecord
reserve_all [] sub usage = (0, usage)
reserve_all (now ∷ later) sub usage =
    let (r, usage') = attempt now sub usage in
    let (n, usage'') = reserve_all later sub usage' in (counts r + n, usage'')

attempt-counted :
    (now : ℕ) (sub : Subscription) (usage : List UsageRecord) (a b : ℕ) (u : UsageRecord)
    → HasUsage sub usage a b u
    → HasUsage sub
        (attempt now sub usage).1
        a
        b
        (record u { requests_used = u.requests_used + counts (attempt now sub usage).0 })
attempt-counted now sub usage a b u h = rw (attempt_lem now sub usage a b u h) (record {
  starts = h.starts;
  ends = h.ends;
  recorded = ground (arith, h.recorded, find-add_unit_self a b usage u h.recorded);
})

attempt-le :
    (now : ℕ) (sub : Subscription) (usage : List UsageRecord) (a b : ℕ) (u : UsageRecord)
    → HasUsage sub usage a b u
    → u.requests_used ≤ sub.plan.quota_requests
    → u.requests_used + counts (attempt now sub usage).0 ≤ sub.plan.quota_requests
attempt-le now sub usage a b u h le = rw (attempt_lem now sub usage a b u h) (ground arith)

attempt-counts :
    (now : ℕ) (sub : Subscription) (usage : List UsageRecord) (a b : ℕ) (u : UsageRecord)
    → HasUsage sub usage a b u
    → sub.status ≡ active
    → now < b
    → counts (attempt now sub usage).0
      ≡ (if leb sub.plan.quota_requests u.requests_used then 0 else 1)
unfolding entitled_now
attempt-counts now sub usage a b u h live early =
    rw (attempt_lem now sub usage a b u h) (ground (arith, h.ends))

-- Any number of reservations on a row: the period's record counts each that succeeded, and as many
-- as succeed never take it past the plan's quota.
pub reserve_all-bounded :
    (times : List ℕ) (sub : Subscription) (usage : List UsageRecord) (a b : ℕ) (u : UsageRecord)
    → HasUsage sub usage a b u
    → u.requests_used ≤ sub.plan.quota_requests
    → let (n, after) = reserve_all times sub usage in
      HasUsage sub after a b (record u { requests_used = u.requests_used + n })
      × (u.requests_used + n ≤ sub.plan.quota_requests)
unfolding reserve_all
reserve_all-bounded [] sub usage a b u h le = (
  record { starts = h.starts; ends = h.ends; recorded = ground (arith, h.recorded) },
  omega arith,
)
reserve_all-bounded (now ∷ later) sub usage a b u h le =
    let first = attempt-counted now sub usage a b u h in
    let rest =
      reserve_all-bounded later sub (attempt now sub usage).1 a b
        (record u { requests_used = u.requests_used + counts (attempt now sub usage).0 }) first
        (attempt-le now sub usage a b u h le) in
    (
      record { starts = h.starts; ends = h.ends; recorded = ground (arith, rest.0.recorded) },
      omega (arith, rest.1),
    )

abbrev pub AllBefore : ℕ → List ℕ → Type 0
AllBefore end [] = Unit {0}
AllBefore end (now ∷ later) = (now < end) × AllBefore end later

-- Inside an ACTIVE period no unit is withheld: of any number of reservations exactly as many succeed
-- as units were left.
pub reserve_all-exact :
    (times : List ℕ) (sub : Subscription) (usage : List UsageRecord) (a b : ℕ) (u : UsageRecord)
    → HasUsage sub usage a b u
    → sub.status ≡ active
    → AllBefore b times
    → (reserve_all times sub usage).0
      ≡ min (length times) (sub.plan.quota_requests - u.requests_used)
unfolding reserve_all
reserve_all-exact [] sub usage a b u h live early = omega arith
reserve_all-exact (now ∷ later) sub usage a b u h live early =
    let first = attempt-counted now sub usage a b u h in
    let rest =
      reserve_all-exact later sub (attempt now sub usage).1 a b
        (record u { requests_used = u.requests_used + counts (attempt now sub usage).0 }) first live
        early.1 in
    ground (arith, rest, attempt-counts now sub usage a b u h live early.0)
