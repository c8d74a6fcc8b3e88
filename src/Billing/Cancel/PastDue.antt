-- ===== src/Billing/Cancel/PastDue.antt =====
-- The cancellation of a PAST_DUE subscription is local.
use review_flow.Base.{
  ℕ, Bool, true, ◌&&◌, ◌≡◌, refl, Option, none, some, String, arith, if_keeps, [], ◌∷◌,
}
use review_flow.Billing.Model.{cancelled, ProviderStatus, Subscription, row_ended}
use review_flow.Billing.Provider.{
  entity_status, provider_may_be_cancelled, Reply, answered, unavailable, rejected, not_configured,
}
use review_flow.Billing.Session
use review_flow.Billing.Session.{Session, IsLocked}
use review_flow.Billing.Retire.{not_active, abandon_unless_active}
use review_flow.Billing.Retire.Cases.{abandon_cases}
use review_flow.Billing.Exec.{Env, World, ok, put, pure, ◌>>◌, ◌>>=◌, relocked}
use review_flow.Billing.Exec.Gives.{
  Gives, reached_returns, Gives-pure, Gives-if, Gives-savepoint, Gives-call, Gives-now, Gives-bind,
}
use review_flow.Billing.Request.{surroundings, reread_replacement, must_reread, call_reread}
use review_flow.Billing.Request.Rows.{save_columns-row}
use review_flow.Billing.PlanChange.{is_current}
use review_flow.Billing.Cancel.{
  ended_now, end_past_due, given_up, end_locally, with_status, store_answer, tell_provider,
  cancel_past_due,
}
use review_flow.Billing.Cancel.Keeps.{saved_retired-row}

-- A row that has ended, and is out of its dunning episode.
abbrev pub HasEnded : Subscription → Type 0
HasEnded row = (row.status ≡ cancelled) × (row.past_due_at ≡ none) × (row.dunning_stage ≡ none)

-- It is stored and locked.
abbrev pub StoresEnded : Session → Option Session → Type 0
StoresEnded s stored = (stored ≡ some s) × IsLocked s × HasEnded s.row

end_past_due-HasEnded :
    (at : ℕ) (actor : Option ℕ) (s : Session) → IsLocked s → HasEnded (end_past_due at actor s).row
unfolding end_past_due
end_past_due-HasEnded at actor s (same, empty) =
    rw
      (save_columns-row (Session.status ∷ Session.past_due_at ∷ Session.dunning_stage ∷ []) at
        (ended_now s.sub) s (ground arith))
      (refl, refl, refl)

given_up-HasEnded :
    (env : Env) (reply : Reply) (stamp : ℕ) (s : Session)
    → IsLocked s
    → HasEnded s.row
    → let r = abandon_unless_active (surroundings env reply stamp) s row_ended not_active none in
      IsLocked (given_up stamp s r.0 r.2) × HasEnded (given_up stamp s r.0 r.2).row
given_up-HasEnded env reply stamp s h ended =
    abandon_cases
      (λ gone t. IsLocked (given_up stamp s gone t) × HasEnded (given_up stamp s gone t).row)
      (surroundings env reply stamp) s row_ended not_active none (h, ended)
      (λ entity read. (
        (refl, refl),
        rw (saved_retired-row env.plans stamp s entity row_ended none h) (rw (← h.0) ended),
      ))

Gives-stored :
    {P : Option Session → Type 0} (s : Session)
    → IsLocked s × HasEnded s.row
    → Gives P StoresEnded (put s >> pure s)
unfolding ◌>>=◌
Gives-stored s h = record { at = λ w _. (refl, h.0, h.1) }

module _ (env : Env) (actor : Option ℕ) where
  call_reread-Gives :
      {P : Option Session → Type 0} (ref : Option String) → Gives P (λ _. P) (call_reread env ref)
  call_reread-Gives none = Gives-pure _ (λ stored h. h)
  call_reread-Gives (some ref) = Gives-call env _

  reread_replacement-Gives :
      {P : Option Session → Type 0} (wanted : Bool) (s : Session)
      → Gives P (λ _. P) (reread_replacement env wanted s)
  unfolding reread_replacement
  reread_replacement-Gives wanted s =
      Gives-if (wanted && must_reread s) _ _ (λ _. call_reread-Gives s.sub.replacement_provider_ref)
        (λ _. Gives-pure _ (λ stored h. h))

  end_locally-Gives :
      (s : Session) → IsLocked s → Gives (λ _. Unit {0}) StoresEnded (end_locally env actor s)
  unfolding end_locally
  end_locally-Gives s h =
      Gives-bind (λ _ _. Unit {0}) _ _ (Gives-now env)
        (λ at.
          let ended = relocked (end_past_due at actor s) in
          let reread : Gives (λ _. Unit {0}) (λ _ _. Unit {0}) (reread_replacement env true ended) =
            reread_replacement-Gives true ended in
          Gives-bind (λ _ _. Unit {0}) _ _ (record { at = λ w _. tt })
            (λ _.
              Gives-bind (λ _ _. Unit {0}) _ _ reread
                (λ reply.
                  Gives-bind (λ _ _. Unit {0}) _ _ (Gives-now env)
                    (λ stamp.
                      let r =
                        abandon_unless_active (surroundings env reply stamp) ended row_ended
                          not_active none in
                      Gives-stored (given_up stamp ended r.0 r.2) (
                        given_up-HasEnded env reply stamp ended (refl, refl)
                          (end_past_due-HasEnded at actor s h))))))

  with_status-HasEnded :
      (ref : String) (status : Option ProviderStatus) (s : Session)
      → IsLocked s × HasEnded s.row
      → IsLocked (with_status ref status s) × HasEnded (with_status ref status s).row
  with_status-HasEnded ref none s h = h
  with_status-HasEnded ref (some status) s ((same, empty), ended) =
      if_keeps (λ t. IsLocked t × HasEnded t.row) (is_current ref s.row.payment_provider_ref)
        ((refl, empty), ended) ((same, empty), ended)

  stores_status :
      (ref : String) (status : Option ProviderStatus) (s : Session)
      → Gives
          (StoresEnded s)
          StoresEnded
          (put (with_status ref status s) >> pure (with_status ref status s))
  unfolding ◌>>=◌
  stores_status ref status s = record {
    at = λ w h.
        let (locked, ended) = with_status-HasEnded ref status s (h.1, h.2) in (refl, locked, ended);
  }

  store_answer-Gives :
      (ref : String) (reply : Reply) (s : Session)
      → Gives (StoresEnded s) StoresEnded (store_answer ref reply s)
  store_answer-Gives ref (answered entity) s = stores_status ref (entity_status entity) s
  store_answer-Gives ref unavailable s = Gives-pure s (λ stored h. h)
  store_answer-Gives ref (rejected status code why) s = Gives-pure s (λ stored h. h)
  store_answer-Gives ref not_configured s = Gives-pure s (λ stored h. h)

  tell_provider-Gives :
      (ref : Option String) (status : Option ProviderStatus) (s : Session)
      → Gives (StoresEnded s) StoresEnded (tell_provider env ref status s)
  tell_provider-Gives none status s = Gives-pure s (λ stored h. h)
  tell_provider-Gives (some ref) status s =
      Gives-if (provider_may_be_cancelled status) _ _
        (λ _.
          Gives-bind (λ _. StoresEnded s) _ _ (Gives-call env _)
            (λ reply. store_answer-Gives ref reply s))
        (λ _. Gives-pure s (λ stored h. h))

  cancel_past_due-Gives :
      (s : Session) → IsLocked s → Gives (λ _. Unit {0}) StoresEnded (cancel_past_due env actor s)
  unfolding cancel_past_due
  cancel_past_due-Gives s h =
      Gives-bind StoresEnded _ _ (Gives-savepoint _ (end_locally-Gives s h))
        (tell_provider-Gives s.sub.payment_provider_ref s.sub.provider_status)

-- The cancellation of a locked PAST_DUE row returns whatever the provider answers, or if it does not
-- answer, and what it returns is stored, CANCELLED and out of its dunning episode.
pub cancel_past_due_returns :
    (env : Env) (actor : Option ℕ) (s : Session) (w : World)
    → IsLocked s
    → (after : Session) × ((cancel_past_due env actor s w).0 ≡ ok after)
      × ((cancel_past_due env actor s w).1.stored ≡ some after)
      × HasEnded after.row
cancel_past_due_returns env actor s w h =
    let (after, e, (stored, locked, ended)) =
      reached_returns StoresEnded (cancel_past_due env actor s w).0
        (cancel_past_due env actor s w).1.stored ((cancel_past_due-Gives env actor s h).at w tt) in
    (after, e, stored, ended)
