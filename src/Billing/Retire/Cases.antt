-- ===== src/Billing/Retire/Cases.antt =====
-- The ways through `_abandon_unless_active`: the session stays as it is, or a replacement that is
-- neither committed nor blocked by the retired slot, and whose status allows it, is retired.
use review_flow.Base.{
  String, Bool, true, false, ◌≡◌, ◌&&◌, Option, none, some, arith, option_keeps, is_none, is_some,
  inl, inr, Bool-cases,
}
use review_flow.Billing.Model.{Reason, ProviderStatus}
use review_flow.Billing.Provider.{Value, entity_status}
use review_flow.Billing.Session.{Session}
use review_flow.Billing.Retire.{
  retire_replacement, abandon_unless_active, Surroundings, refetched, status_allows,
}

-- What holds of the session when a replacement is retired on the reading `entity`.
pub record MayRetire (w : Surroundings) (s : Session) (abandonable : ProviderStatus → Bool)
    (given : Option Value) (entity : Value) : Type 0 where
  pub ref : String
  pub pending : s.sub.replacement_provider_ref ≡ some ref
  pub uncommitted : s.sub.replacement_committed_at ≡ none
  pub slot_free : s.sub.retired_provider_ref ≡ none
  pub was_read : elim given [ none ↦ refetched ref w.reread | some e ↦ some e ] ≡ some entity
  pub allowed : status_allows abandonable (entity_status entity) ≡ true

pub abandon_cases {ℓ} :
    (P : Bool → Session → Type ℓ) (w : Surroundings) (s : Session) (why : Reason)
    (abandonable : ProviderStatus → Bool) (given : Option Value)
    → P false s
    → ((entity : Value)
        → MayRetire w s abandonable given entity
        → P true (retire_replacement w.plans w.stamp s entity why none))
    → P
        (abandon_unless_active w s why abandonable given).0
        (abandon_unless_active w s why abandonable given).2
unfolding abandon_unless_active
abandon_cases P w s why abandonable given kept retired =
    option_keeps (λ (r : Bool × Option Value × Session). P r.0 r.2) s.sub.replacement_provider_ref
      kept
      (λ ref e. elim (Bool-cases (is_some s.sub.replacement_committed_at)) [
        | inl committed ↦ rw committed kept
        | inr uncommitted ↦ rw uncommitted (
            option_keeps (λ (r : Bool × Option Value × Session). P r.0 r.2)
              (elim given [ none ↦ refetched ref w.reread | some entity ↦ some entity ]) kept
              (λ entity q.
                elim (Bool-cases (
                  status_allows abandonable (entity_status entity)
                  && is_none s.sub.retired_provider_ref)) [
                    | inr refused ↦ rw refused kept
                    | inl allowed ↦ rw allowed (
                        retired entity (record {
                          ref = ref;
                          pending = e;
                          uncommitted = ground arith;
                          slot_free = ground arith;
                          was_read = q;
                          allowed = ground arith;
                        }))
                  ]))
      ])
