-- ===== src/Billing/Commit.antt =====
-- The commit of a downgrade replacement (billing/services.py): T1 records the intent under the row
-- lock, the provider is told to end the old subscription, and T2 records its answer. Each locked step
-- is a function of the row as it is read then; the sweep repeats the call that T2 never confirmed.
pub mod Recovery
pub mod Outcome
use review_flow.Base.{
  ℕ, ◌+◌, ◌-◌, ◌*◌, Bool, true, false, ◌&&◌, ◌||◌, not, ◌==◌, Option, none, some, List, [], ◌∷◌,
  String, ltb, is_some, is_none, if◌then◌else◌,
}
use review_flow.Base.Int.{ℤ, pos, negsuc}
use review_flow.Base.Text.{same_text}
use review_flow.Billing.Model.{
  Plan, Subscription, Status, active, same_status, ProviderStatus, authenticated, second, Kind,
  downgrade, verification_failed, cancel_refused, from_plan, to_plan, effective,
  replacement_committed, name_value, effect_value, replacement_scheduled, nothing, MetaValue,
}
use review_flow.Billing.Provider.{
  Value, get, is_text, as_int, has_provider_plan_id, entity_status, Reply, answered, unavailable,
  rejected, not_configured, unix_epoch,
}
use review_flow.Billing.Session
use review_flow.Billing.Session.{Session, add, no_fields, record_audit}
use review_flow.Billing.Retire.{Surroundings, refetched, not_active, abandon_unless_active}
use review_flow.Billing.Replacement.{save_updated}
use review_flow.Billing.Exec.{Gates, relocked}
use review_flow.Billing.Request.{save_columns}
use review_flow.Billing.PlanChange.{timestamp}

-- `_is_downgrade`
unfoldable pub is_downgrade : Subscription → Bool
is_downgrade sub = elim sub.replacement_plan [
  | none ↦ false
  | some p ↦ ltb p.monthly_price sub.plan.monthly_price
]

abbrev is_authenticated : Option ProviderStatus → Bool
is_authenticated (some authenticated) = true
is_authenticated _ = false

abbrev pub equals : Option ℤ → ℕ → Bool
equals (some (pos n)) m = n == m
equals (some (negsuc n)) m = false
equals none m = false

-- `entity.get("plan_id") == target.provider_plan_id`, where both may be None.
abbrev same_plan_id : Option String → Value → Bool
same_plan_id (some id) plan_id = is_text plan_id id
same_plan_id none Value.null = true
same_plan_id none _ = false

abbrev targets : Option Plan → Value → Bool
targets none plan_id = false
targets (some p) plan_id = same_plan_id p.provider_plan_id plan_id

-- The period's end and the deadline against the entity's two fields and the clock. An ACTIVE row with
-- a replacement has both (check constraints).
abbrev in_time : Option ℕ → Option ℕ → Value → Value → ℕ → ℕ → Bool
in_time (some period_end) (some expires_at) start expiry margin now =
    equals (as_int start) (timestamp period_end)
    && equals (as_int expiry) (timestamp expires_at)
    && ltb now ((unix_epoch + timestamp expires_at) * second)
    && ltb (now + margin) period_end
in_time none expires_at start expiry margin now = false
in_time (some period_end) none start expiry margin now = false

-- `_downgrade_verified`; `margin` is the window of `DOWNGRADE`, `none` if it is not configured.
abbrev verified_fields : Option String → Option String → Option ℕ → Subscription → Value → ℕ → Bool
verified_fields (some start_field) (some expiry_field) (some margin) sub entity now =
    is_text (get entity "status") "authenticated"
    && targets sub.replacement_plan (get entity "plan_id")
    && in_time sub.current_period_end sub.replacement_expires_at (get entity start_field)
        (get entity expiry_field) (margin * second) now
verified_fields none expiry_field margin sub entity now = false
verified_fields (some start_field) none margin sub entity now = false
verified_fields (some start_field) (some expiry_field) none sub entity now = false

unfoldable pub downgrade_verified : Gates → Option ℕ → Subscription → Value → ℕ → Bool
downgrade_verified gates margin sub entity now =
    verified_fields gates.start_field gates.expiry_field margin sub entity now

-- `_commit_candidate` of a row.
unfoldable pub commit_candidate : Subscription → Bool
commit_candidate sub =
    same_status sub.status active
    && is_some sub.replacement_provider_ref
    && is_none sub.replacement_committed_at

abbrev name_of : Option Plan → MetaValue
name_of none = nothing
name_of (some p) = name_value p.name

-- The row that records the intent.
unfoldable pub commit_intent : ℕ → ℕ → Session → Session
commit_intent now at s =
    record_audit replacement_committed none
      ((from_plan, name_value s.sub.plan.name)
        ∷ (to_plan, name_of s.sub.replacement_plan)
        ∷ (effective, effect_value replacement_scheduled)
        ∷ [])
      (save_columns (Session.replacement_committed_at ∷ []) at
        (record s.sub { replacement_committed_at = some now }) s)

abbrev saved_if : ℕ → Session → Bool → Session → Session
saved_if at s true t = save_updated at t
saved_if at s false t = s

-- The references that the provider's call and T2 refer to.
pub record Intent : Type 0 where
  pub old_ref : Option String
  pub replacement_ref : Option String

abbrev pub intent_of : Subscription → Intent
intent_of sub = record {
  old_ref = sub.payment_provider_ref;
  replacement_ref = sub.replacement_provider_ref;
}

abbrev commit_read :
    Gates → Option ℕ → Surroundings → ℕ → Session → Option Value → Option Intent × Session
commit_read gates margin w now s none = (none, s)
commit_read gates margin w now s (some entity) =
    if is_authenticated (entity_status entity)
    then if downgrade_verified gates margin s.sub entity now
      then (some (intent_of s.sub), commit_intent now w.stamp s)
      else (let r = abandon_unless_active w s verification_failed not_active (some entity) in
          (none, saved_if w.stamp s r.0 r.2))
    else (none, s)

abbrev pub read_of : Option String → Reply → Option Value
read_of none reply = none
read_of (some ref) reply = refetched ref reply

-- T1 of `commit_downgrade_replacement`, on the locked row; `w.reread` answers the re-read under the
-- lock.
unfoldable pub commit_locked :
    Gates → Option ℕ → Surroundings → ℕ → Session → Option Intent × Session
commit_locked gates margin w now s =
    if commit_candidate s.sub && is_downgrade s.sub
    then commit_read gates margin w now s (read_of s.sub.replacement_provider_ref w.reread)
    else (none, s)

abbrev pub same_ref : Option String → Option String → Bool
same_ref none none = true
same_ref none (some b) = false
same_ref (some a) none = false
same_ref (some a) (some b) = same_text a b

-- The row still is the one of the intent.
abbrev pub still_committed : Intent → Subscription → Bool
still_committed intent sub =
    same_ref sub.payment_provider_ref intent.old_ref
    && same_ref sub.replacement_provider_ref intent.replacement_ref
    && is_some sub.replacement_committed_at

unfoldable pub confirm : ℕ → ℕ → Session → Session
confirm now at s =
    save_columns (Session.replacement_cancel_confirmed_at ∷ []) at
      (record s.sub { replacement_cancel_confirmed_at = some now }) s

-- The intent is cleared in memory, so the replacement may be given up, and both are saved at once.
abbrev cleared_intent : Session → Session
cleared_intent s = record s {
  sub = record s.sub { replacement_committed_at = none };
  fields = add (Session.replacement_committed_at ∷ []) s.fields;
}

unfoldable pub refuse_commit : Surroundings → Session → Session
refuse_commit w s =
    save_updated w.stamp
      (abandon_unless_active w (cleared_intent s) cancel_refused not_active none).2

-- T2, with the provider's reply to the cancel at the cycle's end; an unknown outcome opens no
-- transaction and counts as committed. `w.reread` answers the re-read of a refused commit.
unfoldable pub record_outcome : Surroundings → ℕ → Intent → Reply → Session → Bool × Session
record_outcome w now intent unavailable s = (true, s)
record_outcome w now intent not_configured s = (true, s)
record_outcome w now intent (answered entity) s =
    if still_committed intent s.sub then (true, confirm now w.stamp s) else (false, s)
record_outcome w now intent (rejected status code why) s =
    if still_committed intent s.sub then (false, refuse_commit w s) else (false, s)

-- The reading of `_reissue_committed_cancel`: what is called again.
unfoldable pub reissue_due : Subscription → Option Intent
reissue_due row =
    if same_status row.status active
      && is_some row.replacement_provider_ref
      && is_some row.replacement_committed_at
      && is_none row.replacement_cancel_confirmed_at
    then some (intent_of row)
    else none

-- Its second transaction; a failed or refused call changes nothing.
unfoldable pub record_reissued : ℕ → ℕ → Intent → Reply → Session → Session
record_reissued now at intent unavailable s = s
record_reissued now at intent not_configured s = s
record_reissued now at intent (rejected status code why) s = s
record_reissued now at intent (answered entity) s =
    if still_committed intent s.sub && is_none s.sub.replacement_cancel_confirmed_at
    then confirm now at s
    else s
