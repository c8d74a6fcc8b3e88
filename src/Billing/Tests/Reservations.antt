-- ===== src/Billing/Tests/Reservations.antt =====
-- Units of the merchant's quota.
use review_flow.Billing.Quota.{
  reserve_locked, usage_for, entitled_now, reserve, reserved, quota_exhausted, entitlement,
}
use review_flow.Base.{ℕ, ◌+◌, ◌≤◌, true, ◌≡◌, ◌≢◌, refl, some, List, [], ◌∷◌, arith, ◌↔◌}
use review_flow.Billing.Model.{UsageRecord}
use review_flow.Billing.Tests.{at, start_unix, end_unix, paying, unit_record, usage}
use review_flow.Billing.Quota.Reservation.{
  HasUsage, Reserved, attempt, reserve-Reserved, reserve_unchanged, can_send-reserved,
}
use review_flow.Billing.Quota.Bound.{reserve_all, reserve_all-bounded, reserve_all-exact}

abbrev during : ℕ
during = at (start_unix + 5)

one_unit : (reserve during during (some paying) (some paying) usage).0 ≡ reserved
unfolding reserve entitled_now usage_for reserve_locked
one_unit = refl

reserve-Reserved_example :
    Reserved during (some paying) usage (reserve during during (some paying) (some paying) usage).1
reserve-Reserved_example = reserve-Reserved during during (some paying) (some paying) usage one_unit

abbrev used_up : List UsageRecord
used_up = record unit_record { requests_used = 2 } ∷ []

no_unit : (reserve during during (some paying) (some paying) used_up).0 ≡ quota_exhausted
unfolding reserve entitled_now usage_for reserve_locked
no_unit = refl

no_unit-ne : (reserve during during (some paying) (some paying) used_up).0 ≢ reserved
no_unit-ne e = cc (no_unit, e)

reserve_unchanged_example : (reserve during during (some paying) (some paying) used_up).1 ≡ used_up
reserve_unchanged_example =
    reserve_unchanged during during (some paying) (some paying) used_up no_unit-ne

can_send-reserved_example :
    ((entitlement during (some paying) usage).can_send ≡ true)
    ↔ ((attempt during paying usage).0 ≡ reserved)
can_send-reserved_example = can_send-reserved during paying usage

current : HasUsage paying usage (at start_unix) (at end_unix) unit_record
current = record { starts = refl; ends = refl; recorded = refl }

abbrev thrice : List ℕ
thrice = during ∷ during ∷ during ∷ []

reserve_all-bounded_example :
    HasUsage paying
      (reserve_all thrice paying usage).1
      (at start_unix)
      (at end_unix)
      (record unit_record { requests_used = 1 + (reserve_all thrice paying usage).0 })
    × (1 + (reserve_all thrice paying usage).0 ≤ 2)
reserve_all-bounded_example =
    reserve_all-bounded thrice paying usage (at start_unix) (at end_unix) unit_record current
      (omega arith)

reserve_all-exact_example : (reserve_all thrice paying usage).0 ≡ 1
reserve_all-exact_example =
    reserve_all-exact thrice paying usage (at start_unix) (at end_unix) unit_record current refl
      (omega arith, (omega arith, (omega arith, _)))
