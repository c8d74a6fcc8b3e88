-- ===== src/Billing/Retire.antt =====
-- Giving up a plan-change replacement (billing/services.py): the re-read under the row lock, and
-- the move of the replacement's reference to the retired slot.
pub mod Cases
pub mod Covered
pub mod Rows
use review_flow.Base.{
  ℕ, Bool, true, false, ◌||◌, ◌&&◌, ◌==◌, Option, none, some, List, [], ◌∷◌, String, leb, is_none,
  is_some, if◌then◌else◌,
}
use review_flow.Base.Text.{same_text}
use review_flow.Billing.Model.{
  Plan, ProviderStatus, created, authenticated, pending, halted, cancelled, expired, Subscription,
  abandoned_replacement, replacement_abandoned, reason, plan_name, Reason, MetaValue, name_value,
  reason_value, nothing,
}
use review_flow.Billing.Provider.{
  Value, get, as_text, is_text, entity_status, Reply, answered, unavailable, rejected,
  not_configured, plan_named,
}
use review_flow.Billing.Session.{
  Session, Column, add, record_audit, mark_events_processed, pending_plan, replacement_provider_ref,
  replacement_expires_at, replacement_plan, replacement_committed_at,
  replacement_cancel_confirmed_at, retired_provider_ref, retired_kind,
}

-- `status in _REPLACEMENT_FAILED`
abbrev pub has_failed : ProviderStatus → Bool
has_failed pending = true
has_failed halted = true
has_failed cancelled = true
has_failed expired = true
has_failed _ = false

-- `status in _REPLACEMENT_NOT_ACTIVE`
abbrev pub not_active : ProviderStatus → Bool
not_active created = true
not_active authenticated = true
not_active pending = true
not_active halted = true
not_active cancelled = true
not_active expired = true
not_active _ = false

abbrev is_created : ProviderStatus → Bool
is_created created = true
is_created _ = false

-- `_failed_or_lapsed`. The deadline is set whenever there is a replacement (a check constraint).
abbrev pub failed_or_lapsed : ℕ → Option ℕ → ProviderStatus → Bool
failed_or_lapsed now none status = has_failed status
failed_or_lapsed now (some expires_at) status =
    has_failed status || is_created status && leb expires_at now

-- `_refetch_replacement` on the provider's answer: the entity, unless the read failed or the entity
-- is not that of `ref` with a status text.
unfoldable pub refetched : String → Reply → Option Value
refetched ref (answered entity) =
    if is_text (get entity "id") ref && is_some (as_text (get entity "status"))
    then some entity
    else none
refetched ref unavailable = none
refetched ref (rejected status code why) = none
refetched ref not_configured = none

abbrev plan_name_value : Option Plan → MetaValue
plan_name_value none = nothing
plan_name_value (some p) = name_value p.name

-- `sub.replacement_plan or _replacement_plan(entity)`
abbrev target_plan : List Plan → Option Plan → Value → Option Plan
target_plan plans (some p) entity = some p
target_plan plans none entity = plan_named plans (get entity "plan_id")

-- `target is not None and sub.pending_plan_id == target.pk`
abbrev is_pending : Option ℕ → Option Plan → Bool
is_pending none target = false
is_pending (some id) none = false
is_pending (some id) (some target) = id == target.id

-- The columns that leave with the replacement.
abbrev vacated : Subscription → Subscription
vacated sub = record sub {
  retired_provider_ref = sub.replacement_provider_ref;
  retired_kind = some abandoned_replacement;
  replacement_provider_ref = none;
  replacement_plan = none;
  replacement_expires_at = none;
  replacement_committed_at = none;
  replacement_cancel_confirmed_at = none;
}

abbrev drop_pending : Bool → Session → Session
drop_pending false s = s
drop_pending true s = record s {
  sub = record (s.sub) { pending_plan_id = none };
  fields = add (pending_plan ∷ []) s.fields;
}

abbrev mark_departed : Option String → ℕ → Session → Session
mark_departed none stamp s = s
mark_departed (some ref) stamp s = record s { events = mark_events_processed ref stamp s.events }

-- `_retire_replacement`
unfoldable pub retire_replacement : List Plan → ℕ → Session → Value → Reason → Option ℕ → Session
retire_replacement plans stamp s entity why actor =
    let target = target_plan plans s.sub.replacement_plan entity in
    let moved : Session = record s {
      sub = vacated s.sub;
      fields =
          add
            (retired_provider_ref ∷ retired_kind ∷ replacement_provider_ref ∷ replacement_plan
              ∷ replacement_expires_at ∷ replacement_committed_at ∷ replacement_cancel_confirmed_at
              ∷ [])
            s.fields;
    } in
    record_audit replacement_abandoned actor
      ((reason, reason_value why) ∷ (plan_name, plan_name_value target) ∷ [])
      (mark_departed s.sub.replacement_provider_ref stamp
        (drop_pending (is_pending s.sub.pending_plan_id target) moved))

-- What an abandonment reads of the world: the plans, the provider's answer to the re-read, and the
-- clock when the departed reference's events are stamped.
pub record Surroundings : Type 0 where
  pub plans : List Plan
  pub reread : Reply
  pub stamp : ℕ

abbrev pub status_allows : (ProviderStatus → Bool) → Option ProviderStatus → Bool
status_allows abandonable none = false
status_allows abandonable (some status) = abandonable status

-- The last two tests of `_abandon_unless_active`, on the entity that was read.
abandon_read :
    Surroundings
    → Session
    → Reason
    → (ProviderStatus → Bool)
    → Option Value
    → Bool × Option Value × Session
abandon_read w s why abandonable none = (false, none, s)
abandon_read w s why abandonable (some entity) =
    if status_allows abandonable (entity_status entity) && is_none s.sub.retired_provider_ref
    then (true, some entity, retire_replacement w.plans w.stamp s entity why none)
    else (false, some entity, s)

-- `_abandon_unless_active`; `given` is the entity that the caller has just read under this lock.
unfoldable pub abandon_unless_active :
    Surroundings
    → Session
    → Reason
    → (ProviderStatus → Bool)
    → Option Value
    → Bool × Option Value × Session
unfolding abandon_read
abandon_unless_active w s why abandonable given = elim s.sub.replacement_provider_ref [
  | none ↦ (false, none, s)
  | some ref ↦
      if is_some s.sub.replacement_committed_at
      then (false, none, s)
      else abandon_read w s why abandonable
          (elim given [ none ↦ refetched ref w.reread | some entity ↦ some entity ])
]
