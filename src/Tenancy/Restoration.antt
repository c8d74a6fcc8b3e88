-- ===== src/Tenancy/Restoration.antt =====
-- Every block puts the context variables back.
use review_flow.Base.{
  ℕ, true, ◌≡◌, refl, sym, ap, ◌∙◌, ◌==◌, Option, none, some, is_some, is_none, if◌then◌else◌,
  if_keeps, arith, Bool-cases, inl, inr,
}
use review_flow.Tenancy.{
  user, api_key, integration, billing_ref, whatsapp_number, platform_write, Scope, set_scope,
  scope_number, State, Block, statement, raising, sequence, suppress, tenant_context, tenant_atomic,
  scope_atomic, atomic, Run, refused, opened, with_merchant, with_scope, other_active, run,
}

-- The variables and the depth of the atomic blocks are those of `s`.
abbrev pub Restored : State → State → Type 0
Restored s t =
    (t.merchant ≡ s.merchant) × ((k : Scope) → t.scopes k ≡ s.scopes k) × (t.depth ≡ s.depth)

abbrev scope_of : ℕ → Scope
scope_of n =
    if n == 0
    then user
    else if n == 1
    then api_key
    else if n == 2
    then integration
    else if n == 3
    then billing_ref
    else if n == 4
    then whatsapp_number
    else platform_write

scope_of-scope_number : (k : Scope) → scope_of (scope_number k) ≡ k
scope_of-scope_number user = refl
scope_of-scope_number api_key = refl
scope_of-scope_number integration = refl
scope_of-scope_number billing_ref = refl
scope_of-scope_number whatsapp_number = refl
scope_of-scope_number platform_write = refl

same_scope : (c k : Scope) → scope_number c == scope_number k ≡ true → k ≡ c
same_scope c k e =
    let same : scope_number k ≡ scope_number c = ground arith in
    sym (scope_of-scope_number k) ∙ ap scope_of same ∙ scope_of-scope_number c

reset_one :
    (k c : Scope) (v : Option ℕ) (before after : Scope → Option ℕ)
    → ((d : Scope) → after d ≡ set_scope k v before d)
    → set_scope k (before k) after c ≡ before c
reset_one k c v before after h = elim (Bool-cases (scope_number c == scope_number k)) [
  | inl same ↦ rw same (ap before (same_scope c k same))
  | inr differs ↦ let kept : after c ≡ before c = rw differs at (h c) in rw differs kept
]

-- However a block ends, the tenant of the context, the value of each lookup scope and the number of
-- open transactions are what they were before it: no exception leaves a merchant's context behind.
pub run-Restored : (b : Block) (s : State) → Restored s (run b s).state
unfolding run
run-Restored statement s = (refl, λ k. refl, refl)
run-Restored raising s = (refl, λ k. refl, refl)
run-Restored (sequence first second) s =
    let r = run-Restored first s in
    let next = run-Restored second (run first s).state in
    if_keeps (λ (x : Run). Restored s x.state) (run first s).ended
      (next.0 ∙ r.0, (λ k. next.1 k ∙ r.1 k), next.2 ∙ r.2) r
run-Restored (suppress body) s = run-Restored body s
run-Restored (tenant_context m body) s =
    let r = run-Restored body (record s { merchant = some m }) in
    if_keeps (λ (x : Run). Restored s x.state) (other_active s.merchant m) (refl, (λ k. refl), refl)
      (refl, r.1, r.2)
run-Restored (tenant_atomic durable body) s =
    let r = run-Restored body (with_merchant s.merchant (opened s)) in
    if_keeps (λ (x : Run). Restored s x.state) (is_none s.merchant) (refl, (λ k. refl), refl)
      (if_keeps (λ (x : Run). Restored s x.state) (refused durable s) (refl, (λ k. refl), refl)
        (r.0, r.1, refl))
run-Restored (scope_atomic k none body) s = (refl, λ k. refl, refl)
run-Restored (scope_atomic k (some v) body) s =
    let entered : State = record s { scopes = set_scope k (some v) s.scopes } in
    let r = run-Restored body (with_scope k v (opened entered)) in
    if_keeps (λ (x : Run). Restored s x.state) (is_some s.merchant) (refl, (λ k. refl), refl)
      (if_keeps (λ (x : Run). Restored s x.state) (refused true s)
        (refl, (λ c. reset_one k c (some v) s.scopes _ (λ d. refl)), refl)
        (r.0, (λ c. reset_one k c (some v) s.scopes _ r.1), refl))
run-Restored (atomic durable body) s =
    let r = run-Restored body (opened s) in
    if_keeps (λ (x : Run). Restored s x.state) (refused durable s) (refl, (λ k. refl), refl)
      (r.0, r.1, refl)
