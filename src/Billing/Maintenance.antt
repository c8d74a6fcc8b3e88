-- ===== src/Billing/Maintenance.antt =====
-- The three steps of `sync_subscription` (billing/services.py), with the commit of a downgrade as the
-- replacement's step runs it.
use review_flow.Base.{
  ℕ, Bool, true, false, ◌&&◌, not, Option, none, some, List, String, is_none, is_some,
  if◌then◌else◌,
}
use review_flow.Billing.Model.{ProviderStatus, authenticated, RetiredKind, downgrade}
use review_flow.Billing.Provider.{
  Value, get, is_text, entity_status, Reply, answered, unavailable, rejected, not_configured,
}
use review_flow.Billing.Session.{Session}
use review_flow.Billing.Retire.{has_failed}
use review_flow.Billing.Replacement.{apply_replacement_locked, abandon_test, is_active_status}
use review_flow.Billing.Retired.{
  holds, retired_may_be_cancelled, clear_retired, fetched_status, confirmed,
}
use review_flow.Billing.Exec.{
  Call, fetch, cancel, Invoices, listed, failed, unimplemented, Env, World, Result, ok, err, Exec,
  no_tenant, not_implemented, pure, raise, ◌>>=◌, ◌>>◌, refuse_if, call, call_invoices, now, put,
  relocked, lock_current_subscription,
}
use review_flow.Billing.Request.{needs_invoices, surroundings}
use review_flow.Billing.Commit.{
  Intent, commit_candidate, is_downgrade, commit_locked, record_outcome, reissue_due,
  record_reissued, still_committed,
}
use review_flow.Billing.Sync.{settle_replacement, sync_main}

-- `try: ... finally: ...`; what the second step raises replaces what the first did.
abbrev after_finally : {A : Type 0} → Result A → Result A × World → Result A × World
after_finally first (ok a, w) = (first, w)
after_finally first (err e, w) = (err e, w)

unfoldable pub finally : {A : Type 0} → Exec A → Exec A → Exec A
finally m n w = let (r, w') = m w in after_finally r (n w')

-- A step on the row, if there is one, that stores what it makes of it.
abbrev on_row : {A : Type 0} → A → (Session → Exec (A × Session)) → Option Session → Exec A
on_row none_there step none = pure none_there
on_row none_there step (some s) = do made ← step s; put (relocked made.1); pure made.0

abbrev call_ref : Env → Option String → (String → Call) → Exec Reply
call_ref env none make = pure unavailable
call_ref env (some ref) make = call env (make ref)

abbrev commit_step : Env → Session → Exec (Option Intent × Session)
commit_step env s = do
  reread ←
      (if commit_candidate s.sub && is_downgrade s.sub
        then call_ref env s.sub.replacement_provider_ref fetch
        else pure unavailable)
  at ← now env
  stamp ← now env
  pure (commit_locked env.gates (env.window downgrade) (surroundings env reread stamp) at s)

abbrev is_refused : Reply → Bool
is_refused (rejected status code why) = true
is_refused (answered entity) = false
is_refused unavailable = false
is_refused not_configured = false

-- T2; the replacement is read again only for a refused commit.
abbrev outcome_step : Env → Intent → Reply → Session → Exec (Bool × Session)
outcome_step env intent reply s = do
  reread ←
      (if is_refused reply && still_committed intent s.sub
        then call_ref env s.sub.replacement_provider_ref fetch
        else pure unavailable)
  at ← now env
  stamp ← now env
  pure (record_outcome (surroundings env reread stamp) at intent reply s)

abbrev cancel_old : Env → Option Intent → Exec Bool
cancel_old env none = pure false
cancel_old env (some intent) = do
  reply ← call_ref env intent.old_ref (λ ref. cancel ref true)
  lock_current_subscription >>= on_row false (outcome_step env intent reply)

-- `commit_downgrade_replacement`
unfoldable pub commit_downgrade_replacement : Env → Exec Bool
commit_downgrade_replacement env = do
  refuse_if (is_none env.merchant_id) no_tenant
  stored ← lock_current_subscription
  intent ← on_row none (commit_step env) stored
  cancel_old env intent

abbrev reissue_step : Env → Intent → Reply → Session → Exec (Unit {0} × Session)
reissue_step env intent reply s = do
  at ← now env
  stamp ← now env
  pure (tt, record_reissued at stamp intent reply s)

abbrev reissue : Env → Option Intent → Exec (Unit {0})
reissue env none = pure tt
reissue env (some intent) = do
  reply ← call_ref env intent.old_ref (λ ref. cancel ref true)
  lock_current_subscription >>= on_row tt (reissue_step env intent reply)

abbrev due : Option Session → Option Intent
due none = none
due (some s) = reissue_due s.row

-- `_reissue_committed_cancel`
unfoldable pub reissue_committed_cancel : Env → Exec (Unit {0})
reissue_committed_cancel env = do
  refuse_if (is_none env.merchant_id) no_tenant
  stored ← lock_current_subscription
  reissue env (due stored)

-- The replacement's snapshot reads it again before it clears a failed commit or gives it up.
abbrev reads_again : Session → ℕ → Option ProviderStatus → Bool
reads_again s at none = false
reads_again s at (some status) =
    not (is_active_status status)
    && (if is_some s.sub.replacement_committed_at
        then has_failed status
        else abandon_test at s.sub status)

abbrev apply_replacement :
    Env → String → Value → Option (List Value) → ℕ → Session → Exec (Unit {0} × Session)
apply_replacement env ref entity invoices started s = do
  at ← now env
  reply ←
      (if holds s.sub.replacement_provider_ref ref && reads_again s at (entity_status entity)
        then call_ref env s.sub.replacement_provider_ref fetch
        else pure unavailable)
  stamp ← now env
  let applied = apply_replacement_locked (surroundings env reply stamp) at s entity invoices started
  marked ← now env
  pure (tt, settle_replacement started marked ref applied.0 (relocked applied.1))

abbrev is_authenticated : Option ProviderStatus → Bool
is_authenticated (some authenticated) = true
is_authenticated _ = false

abbrev commit_or_reissue : Env → Value → Exec (Unit {0})
commit_or_reissue env entity =
    if is_authenticated (entity_status entity)
    then commit_downgrade_replacement env
      >>= (λ done. if done then pure tt else reissue_committed_cancel env)
    else pure tt

abbrev apply_and_commit : Env → String → Value → Option (List Value) → ℕ → Exec (Unit {0})
apply_and_commit env ref entity invoices started = do
  stored ← lock_current_subscription
  on_row tt (apply_replacement env ref entity invoices started) stored
  commit_or_reissue env entity

abbrev with_invoices : Env → String → Value → ℕ → Invoices → Exec (Unit {0})
with_invoices env ref entity started (listed invoices) =
    apply_and_commit env ref entity (some invoices) started
with_invoices env ref entity started (failed reply) = pure tt
with_invoices env ref entity started unimplemented = raise not_implemented

abbrev replacement_fetched : Env → String → ℕ → Session → Reply → Exec (Unit {0})
replacement_fetched env ref started read (answered entity) =
    if is_text (get entity "id") ref
    then if needs_invoices read.row.status read.row.current_period_start entity
      then call_invoices env ref >>= with_invoices env ref entity started
      else apply_and_commit env ref entity none started
    else pure tt
replacement_fetched env ref started read unavailable = pure tt
replacement_fetched env ref started read (rejected status code why) = pure tt
replacement_fetched env ref started read not_configured = pure tt

abbrev fetch_replacement : Env → Session → Option String → Exec (Unit {0})
fetch_replacement env read none = pure tt
fetch_replacement env read (some ref) = do
  started ← now env
  reply ← call env (fetch ref)
  replacement_fetched env ref started read reply

abbrev replacement_read : Env → Option Session → Exec (Unit {0})
replacement_read env none = pure tt
replacement_read env (some s) = fetch_replacement env s s.row.replacement_provider_ref

-- `_sync_replacement`
unfoldable pub sync_replacement : Env → Exec (Unit {0})
sync_replacement env = do
  refuse_if (is_none env.merchant_id) no_tenant
  read ← lock_current_subscription
  replacement_read env read

abbrev is_cancelled_now : Option RetiredKind → Option ProviderStatus → Bool
is_cancelled_now kind none = false
is_cancelled_now kind (some status) = retired_may_be_cancelled kind status

abbrev clear_step : Env → String → Session → Exec (Unit {0} × Session)
clear_step env ref s = do at ← now env; stamp ← now env; pure (tt, clear_retired at stamp ref s)

abbrev retire_ref : Env → Option RetiredKind → Option String → Exec (Unit {0})
retire_ref env kind none = pure tt
retire_ref env kind (some ref) = do
  reply ← call env (fetch ref)
  let status = fetched_status ref reply
  cancel_reply ←
      (if is_cancelled_now kind status then call env (cancel ref false) else pure unavailable)
  if confirmed kind status cancel_reply
      then lock_current_subscription >>= on_row tt (clear_step env ref)
      else pure tt

abbrev retired_read : Env → Option Session → Exec (Unit {0})
retired_read env none = pure tt
retired_read env (some s) = retire_ref env s.row.retired_kind s.row.retired_provider_ref

-- `_sync_retired`, with its calls.
unfoldable pub sync_retired_slot : Env → Exec (Unit {0})
sync_retired_slot env = do
  refuse_if (is_none env.merchant_id) no_tenant
  read ← lock_current_subscription
  retired_read env read

-- `sync_subscription`
unfoldable pub sync_subscription : Env → Exec (Unit {0})
sync_subscription env =
    finally (sync_replacement env) (finally (sync_main env) (sync_retired_slot env))
