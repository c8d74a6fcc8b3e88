-- ===== src/Billing/Request/Resets.antt =====
-- The replacement of the provider subscription keeps the check constraints of the stored row.
use review_flow.Base.{
  ℕ, Bool, true, false, ◌≡◌, refl, ap, ◌∙◌, Option, none, some, List, String, arith, is_some,
  is_none,
}
use review_flow.Billing.Constraints.{MeetsConstraints}
use review_flow.Billing.Model.{Plan, past_due, same_status, Subscription, row_ended}
use review_flow.Billing.Provider.{Value}
use review_flow.Billing.Session.{Session}
use review_flow.Billing.Retire.{not_active, abandon_unless_active, retire_replacement}
use review_flow.Billing.Retire.Cases.{abandon_cases}
use review_flow.Billing.Retire.Covered.{retire_replacement-IsCovered}
use review_flow.Billing.Retire.Rows.{
  retired_row, retired_row-MeetsConstraints, retire_replacement-sub,
}
use review_flow.Billing.Replacement.{save_updated}
use review_flow.Billing.Replacement.Saved.{save_updated-row, locked-IsCovered}
use review_flow.Billing.Exec.{Env, relocked}
use review_flow.Billing.Exec.Keeps.{
  Ensures, Keeps, Ensures-pure, Ensures-raise, Ensures-if, Ensures-savepoint, Ensures-bind,
  Keeps-bind, Keeps-now, Keeps-put,
}
use review_flow.Billing.Request.{
  surroundings, fresh, store_new_provider_subscription, refuse_reset, cleared,
  clear_replacement_before_reset, create_and_store, replace_provider_subscription, is_active_entity,
}
use review_flow.Billing.Request.Rows.{
  store_new_provider_subscription-row, restamped-MeetsConstraints,
}
use review_flow.Billing.Request.Keeps.{
  IsGood, Sound, relocked-IsGood, reread_replacement-Keeps, create_provider_subscription-Keeps,
  cancel_first-Keeps,
}

-- A row whose provider subscription may be replaced: not PAST_DUE, and with no replacement.
abbrev pub MayClear : Session → Type 0
MayClear s = IsGood s × (same_status s.row.status past_due ≡ false)

abbrev pub MayReset : Session → Type 0
MayReset s =
    IsGood s × (same_status s.row.status past_due ≡ false) × (s.row.replacement_provider_ref ≡ none)

fresh-MeetsConstraints :
    (sub : Subscription) (p : Plan) (ref : String) (entity : Value) (at : ℕ)
    → same_status sub.status past_due ≡ false
    → sub.replacement_provider_ref ≡ none
    → MeetsConstraints sub
    → MeetsConstraints (record (fresh sub p ref entity) { updated_at = at })
fresh-MeetsConstraints sub p ref entity at live free m = ground arith

stored-MeetsConstraints :
    (at : ℕ) (actor : Option ℕ) (p : Plan) (ref : String) (entity : Value) (s : Session)
    → MayReset s
    → MeetsConstraints (store_new_provider_subscription at actor p ref entity s).row
stored-MeetsConstraints at actor p ref entity s ((h, m), live, free) =
    rw (store_new_provider_subscription-row at actor p ref entity s h) (
      fresh-MeetsConstraints s.sub p ref entity at (rw (← h.0) live) (rw (← h.0) free)
        (rw (← h.0) m))

pub create_and_store-Keeps :
    (env : Env) (actor : Option ℕ) (p : Plan) (s : Session)
    → MayReset s
    → Keeps Sound (create_and_store env actor p s)
unfolding create_and_store
create_and_store-Keeps env actor p s may =
    Keeps-bind _ _ (create_provider_subscription-Keeps env p) (λ made.
      Keeps-bind _ _ (Keeps-now env) (λ at.
        Keeps-bind _ _
          (Keeps-put (relocked (store_new_provider_subscription at actor p made.0 made.1 s)) (
            relocked-IsGood (store_new_provider_subscription at actor p made.0 made.1 s)
              (stored-MeetsConstraints at actor p made.0 made.1 s may)))
          (λ _. Ensures-pure _ tt)))

-- A replacement that is given up leaves a row with none, in the status it had.
abandoned-MayReset :
    (plans : List Plan) (stamp at : ℕ) (s : Session) (entity : Value)
    → MayClear s
    → is_some s.sub.replacement_provider_ref ≡ true
    → MayReset (relocked (save_updated at (retire_replacement plans stamp s entity row_ended none)))
abandoned-MayReset plans stamp at s entity ((h, m), live) pending =
    let saved =
      save_updated-row at _
        (retire_replacement-IsCovered plans stamp s entity row_ended none (locked-IsCovered s h))
      ∙ ap (λ (sub : Subscription). record sub { updated_at = at })
          (retire_replacement-sub plans stamp s entity row_ended none) in
    (
      (
        (refl, refl),
        rw saved (
            restamped-MeetsConstraints (retired_row plans s.sub entity) at
              (retired_row-MeetsConstraints plans s.sub entity pending (rw (← h.0) m))),
      ),
      rw saved (rw (← h.0) live),
      rw saved refl,
    )

refuse_reset-Ensures :
    (sub : Subscription) (entity : Option Value) → Ensures Sound MayReset (refuse_reset sub entity)
refuse_reset-Ensures sub none =
    Ensures-if (is_none sub.replacement_committed_at) _ _ (λ _. Ensures-raise _)
      (λ _. Ensures-raise _)
refuse_reset-Ensures sub (some entity) =
    Ensures-if (is_active_entity entity) _ _ (λ _. Ensures-raise _) (λ _. Ensures-raise _)

-- Either outcome of the abandonment.
abbrev Clears : ℕ → Session → Bool × Option Value × Session → Type 0
Clears at s (given_up, entity, t) = given_up ≡ true → MayReset (relocked (save_updated at t))

cleared-MayReset :
    (at : ℕ) (s : Session) (r : Bool × Option Value × Session)
    → Clears at s r
    → Ensures Sound MayReset (cleared at s r)
cleared-MayReset at s (true, entity, t) may =
    Keeps-bind _ _ (Keeps-put (relocked (save_updated at t)) (may refl).0)
      (λ _. Ensures-pure (relocked (save_updated at t)) (may refl))
cleared-MayReset at s (false, entity, t) may = refuse_reset-Ensures s.sub entity

pub clear_replacement_before_reset-MayReset :
    (env : Env) (s : Session)
    → MayClear s
    → Ensures Sound MayReset (clear_replacement_before_reset env s)
unfolding clear_replacement_before_reset
clear_replacement_before_reset-MayReset env s may =
    Ensures-if (is_none s.sub.replacement_provider_ref) _ _
      (λ free. Ensures-pure s (may.0, may.1, ground arith))
      (λ _. Keeps-bind _ _ (reread_replacement-Keeps env true s) (λ reply.
        Keeps-bind _ _ (Keeps-now env) (λ at.
          cleared-MayReset at s
            (abandon_unless_active (surroundings env reply at) s row_ended not_active none)
            (abandon_cases (λ given_up t. given_up ≡ true → MayReset (relocked (save_updated at t)))
              (surroundings env reply at) s row_ended not_active none (λ e. ground arith)
              (λ entity read _.
                abandoned-MayReset env.plans at at s entity may (rw read.pending refl))))))

pub replace_provider_subscription-Keeps :
    (env : Env) (actor : Option ℕ) (p : Plan) (cancel_ref : Option String) (s : Session)
    → MayClear s
    → Keeps Sound (replace_provider_subscription env actor p cancel_ref s)
unfolding replace_provider_subscription
replace_provider_subscription-Keeps env actor p cancel_ref s may = Ensures-savepoint _ (
    Ensures-bind MayReset _ _ (clear_replacement_before_reset-MayReset env s may) (λ after reset.
      Keeps-bind _ _ (cancel_first-Keeps env cancel_ref)
        (λ _. create_and_store-Keeps env actor p after reset)))
