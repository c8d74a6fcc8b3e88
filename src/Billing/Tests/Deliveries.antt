-- ===== src/Billing/Tests/Deliveries.antt =====
-- Webhooks of the merchant on the growth plan, the sync that observes them, and the commit of a
-- downgrade.
use review_flow.Billing.Commit.{
  downgrade_verified, is_downgrade, commit_candidate, Intent, commit_locked, reissue_due,
  record_outcome, record_reissued, refuse_commit,
}
use review_flow.Billing.Provider.{
  provider_status_of, Value, text, int, dict, entries, Reply, answered, rejected, null,
}
use review_flow.Billing.Retire.{refetched, abandon_unless_active, Surroundings}
use review_flow.Billing.Webhook.{
  insert_event, parse_event, event_id_failure, verify_webhook_signature, Service, Inbox, Delivery,
  receive_webhook,
}
use review_flow.Tenancy.Forms.{is_valid_billing_ref}
use review_flow.Billing.Session.{written, save, Session}
use review_flow.Base.{◌⊎◌, ◌+◌, true, ◌≡◌, refl, none, some, [], ◌∷◌, any, arith, is_some}
use review_flow.Base.Int.{pos}
use review_flow.Billing.Constraints.{MeetsConstraints}
use review_flow.Billing.Model.{BillingEvent, Subscription}
use review_flow.Billing.Snapshot.{SnapshotResult}
use review_flow.Billing.Exec.{Gates}
use review_flow.Billing.Commit.Recovery.{commit_locked-recovered}
use review_flow.Billing.Commit.Outcome.{IsLateRefusal, record_outcome-MeetsConstraints}
use review_flow.Billing.Sync.{settle_main, pending}
use review_flow.Billing.Sync.Events.{Fates, is_left, settle_main-Fates}
use review_flow.Billing.Webhook.Deliveries.{Adds, receive_webhook-Adds, receive_webhook-repeated}
use review_flow.Billing.Tests.{
  at, start_unix, end_unix, paying, replacing, session, world, first_fetch, second_fetch, plans,
}

-- Recorded names of the two gated fields, as an example.
abbrev gates : Gates
gates = record { refusals = []; start_field = some "start_at"; expiry_field = some "expire_by" }

-- Authorized: it starts at the period's end, and may be authorized until a day before.
abbrev authorized : Value
authorized = dict (
    entries (
      ("id", text "sub_B")
      ∷ ("plan_id", text "plan_starter")
      ∷ ("status", text "authenticated")
      ∷ ("start_at", int (pos end_unix))
      ∷ ("expire_by", int (pos 1762500000))
      ∷ []))

abbrev pending_downgrade : Subscription
pending_downgrade = record replacing { replacement_expires_at = some (at 1762500000) }

abbrev rereading : Surroundings
rereading = record { plans = plans; reread = answered authorized; stamp = first_fetch }

commit_locked-recovered_example :
    let (intent, after) =
      commit_locked gates (some 3600) rereading first_fetch (session pending_downgrade) in
    MeetsConstraints after.row × (is_some intent ≡ true → reissue_due after.row ≡ intent)
commit_locked-recovered_example =
    commit_locked-recovered gates (some 3600) rereading first_fetch (session pending_downgrade)
      (refl, refl) (ground arith)

-- T1 has committed it.
abbrev committed_row : Subscription
committed_row = record pending_downgrade { replacement_committed_at = some first_fetch }

abbrev intent : Intent
intent = record { old_ref = some "sub_A"; replacement_ref = some "sub_B" }

abbrev refusal : Reply
refusal = rejected (text "400") (text "BAD_REQUEST_ERROR") null

record_outcome-MeetsConstraints_example :
    let s = session committed_row in
    MeetsConstraints (record_reissued second_fetch first_fetch intent refusal s).row
    × (MeetsConstraints (record_outcome rereading second_fetch intent refusal s).1.row
        ⊎ IsLateRefusal refusal s)
record_outcome-MeetsConstraints_example =
    record_outcome-MeetsConstraints rereading second_fetch intent refusal (session committed_row)
      (refl, refl) (ground arith)

-- Another worker has repeated the call and confirmed the cancel, the first call is then refused, and
-- the replacement cannot be read again: the save leaves a confirmation without a commit, which the
-- check constraint refuses.
abbrev confirmed_row : Subscription
confirmed_row = record committed_row { replacement_cancel_confirmed_at = some first_fetch }

refused_after_confirmation :
    let row = (record_outcome world second_fetch intent refusal (session confirmed_row)).1.row in
    (row.replacement_committed_at ≡ none) × (row.replacement_cancel_confirmed_at ≡ some first_fetch)
unfolding record_outcome refuse_commit save written abandon_unless_active refetched
refused_after_confirmation = (refl, refl)

-- An event that arrived two seconds before the fetch.
abbrev recent : BillingEvent
recent = record {
  provider_event_id = "evt_2";
  event_type = "subscription.charged";
  provider_ref = "sub_A";
  created_at = at (start_unix + 10);
  processed_at = none;
}

abbrev older : BillingEvent
older = record recent { provider_event_id = "evt_1"; created_at = at start_unix }

abbrev inbox_session : Session
inbox_session = record (session paying) { events = recent ∷ older ∷ [] }

abbrev settled_result : SnapshotResult
settled_result = record { changed = true; settled = true }

settle_main-Fates_example :
    let after = settle_main (at (start_unix + 12)) second_fetch settled_result inbox_session in
    Fates (at (start_unix + 12)) second_fetch none true (recent ∷ older ∷ []) after.events
    × (pending after.events ≡ any (is_left (at (start_unix + 12)) none true) (recent ∷ older ∷ []))
settle_main-Fates_example =
    settle_main-Fates (at (start_unix + 12)) second_fetch settled_result inbox_session

-- A signature that the example's HMAC makes of the secret and the body.
abbrev service : Service
service = record {
  secret = "whsec";
  hmac = λ secret body. "5f1d";
  loads = λ body. some (
      dict (
        entries (
          ("event", text "subscription.charged")
          ∷ (
            "payload",
            dict (
                entries (
                  (
                    "subscription",
                    dict (entries (("entity", dict (entries (("id", text "sub_A") ∷ []))) ∷ [])),
                  )
                  ∷ [])),
          )
          ∷ [])));
}

abbrev inbox : Inbox
inbox = record { rows = paying ∷ []; events = []; lookups = []; enqueued = [] }

abbrev delivery : Delivery
delivery = record { body = "{}"; signature = some "5f1d"; event_id = text "evt_1" }

receive_webhook-Adds_example :
    Adds service delivery first_fetch inbox
      (receive_webhook service none first_fetch delivery inbox).1
receive_webhook-Adds_example = receive_webhook-Adds service none first_fetch delivery inbox

receive_webhook-repeated_example :
    let (r, after) = receive_webhook service none first_fetch delivery inbox in
    let (r', again) = receive_webhook service none second_fetch delivery after in
    (r' ≡ r) × (again.events ≡ after.events) × (again.enqueued ≡ after.enqueued)
receive_webhook-repeated_example =
    receive_webhook-repeated service none first_fetch second_fetch delivery inbox

-- The delivery is stored, and its merchant's sync is enqueued.
stored_once : (receive_webhook service none first_fetch delivery inbox).1.enqueued ≡ 7 ∷ []
unfolding receive_webhook verify_webhook_signature event_id_failure parse_event entries
    is_valid_billing_ref insert_event
stored_once = refl

committed_now :
    (commit_locked gates (some 3600) rereading first_fetch (session pending_downgrade)).0
    ≡ some intent
unfolding commit_locked commit_candidate is_downgrade refetched entries provider_status_of
    downgrade_verified
committed_now = refl
