-- ===== src/Tenancy/Isolation.antt =====
-- No statement reads under a merchant's setting and a lookup's at once.
use review_flow.Base.{
  ◌+◌, true, false, ◌==◌, ◌≡◌, refl, ◌∙◌, none, some, List, [], ◌∷◌, ◌++◌, is_some, is_none, arith,
  ◌⊎◌, inl, inr, if_keeps, Bool-cases,
}
use review_flow.Tenancy.{
  Scope, set_scope, Settings, no_settings, State, Block, statement, raising, sequence, suppress,
  tenant_context, tenant_atomic, scope_atomic, atomic, Run, closed, refused, opened, with_merchant,
  with_scope, other_active, run,
}

abbrev pub Each : (Settings → Type 0) → List Settings → Type 0
Each P [] = Unit {0}
Each P (s ∷ seen) = P s × Each P seen

Each-append :
    (P : Settings → Type 0) (xs ys : List Settings) → Each P xs → Each P ys → Each P (xs ++ ys)
Each-append P [] ys p q = q
Each-append P (x ∷ xs) ys (p, ps) q = (p, Each-append P xs ys ps q)

-- No tenant context is entered inside.
abbrev pub IsTenantFree : Block → Type 0
IsTenantFree statement = Unit {0}
IsTenantFree raising = Unit {0}
IsTenantFree (sequence first second) = IsTenantFree first × IsTenantFree second
IsTenantFree (suppress body) = IsTenantFree body
IsTenantFree (tenant_context m body) = true ≡ false
IsTenantFree (tenant_atomic durable body) = IsTenantFree body
IsTenantFree (scope_atomic k v body) = IsTenantFree body
IsTenantFree (atomic durable body) = IsTenantFree body

-- No tenant context is entered inside a lookup scope.
abbrev pub IsDisciplined : Block → Type 0
IsDisciplined statement = Unit {0}
IsDisciplined raising = Unit {0}
IsDisciplined (sequence first second) = IsDisciplined first × IsDisciplined second
IsDisciplined (suppress body) = IsDisciplined body
IsDisciplined (tenant_context m body) = IsDisciplined body
IsDisciplined (tenant_atomic durable body) = IsDisciplined body
IsDisciplined (scope_atomic k v body) = IsTenantFree body
IsDisciplined (atomic durable body) = IsDisciplined body

abbrev NoMerchant : Settings → Type 0
NoMerchant t = t.merchant ≡ none

abbrev pub Apart : Settings → Type 0
Apart t = (t.merchant ≡ none) ⊎ ((k : Scope) → t.scopes k ≡ none)

-- Without a merchant in the context or the settings, none comes.
record IsQuiet (s : State) : Type 0 where
  context : s.merchant ≡ none
  setting : s.settings.merchant ≡ none

abbrev Quiet : Run → Type 0
Quiet r = IsQuiet r.state × Each NoMerchant r.seen

closed-Quiet : (s : State) (r : Run) → IsQuiet s → Quiet r → Quiet (closed s r)
closed-Quiet s r q (after, seen) = (
  record {
    context = after.context;
    setting =
        if_keeps (λ (t : Settings). t.merchant ≡ none) (s.depth == 0) refl
          (if_keeps (λ (t : Settings). t.merchant ≡ none) r.ended after.setting q.setting);
  },
  seen,
)

run-Quiet : (b : Block) (s : State) → IsTenantFree b → IsQuiet s → Quiet (run b s)
unfolding run
run-Quiet statement s free q = (q, (q.setting, _))
run-Quiet raising s free q = (q, _)
run-Quiet (sequence first second) s (f1, f2) q =
    let r = run-Quiet first s f1 q in
    let next = run-Quiet second _ f2 r.0 in
    if_keeps Quiet (run first s).ended (next.0, Each-append NoMerchant _ _ r.1 next.1) r
run-Quiet (suppress body) s free q = run-Quiet body s free q
run-Quiet (tenant_context m body) s free q = cc free
run-Quiet (tenant_atomic durable body) s free q =
    let missing : is_none s.merchant ≡ true = rw q.context refl in rw missing (q, _)
run-Quiet (scope_atomic k none body) s free q = (q, _)
run-Quiet (scope_atomic k (some v) body) s free q =
    let entered : State = record s { scopes = set_scope k (some v) s.scopes } in
    let start : IsQuiet entered = record { context = q.context; setting = q.setting } in
    let inside : IsQuiet (with_scope k v (opened entered)) = record {
      context = q.context;
      setting = q.setting;
    } in
    let body_quiet = closed-Quiet entered _ start (run-Quiet body _ free inside) in
    if_keeps Quiet (is_some s.merchant) (q, _)
      (if_keeps Quiet (refused true s) (record { context = q.context; setting = q.setting }, _)
        (record { context = body_quiet.0.context; setting = body_quiet.0.setting }, body_quiet.1))
run-Quiet (atomic durable body) s free q =
    let inside : IsQuiet (opened s) = record { context = q.context; setting = q.setting } in
    if_keeps Quiet (refused durable s) (q, _) (closed-Quiet s _ q (run-Quiet body _ free inside))

abbrev NoScope : Settings → Type 0
NoScope t = (k : Scope) → t.scopes k ≡ none

-- Outside the lookup scopes: none is set, and nothing is outside a transaction.
record IsOutside (s : State) : Type 0 where
  scopes : NoScope s.settings
  clean : s.depth ≡ 0 → s.settings ≡ no_settings

-- A run that ends outside as it began, at the depth where it began.
abbrev Outside : State → Run → Type 0
Outside s r = IsOutside r.state × (r.state.depth ≡ s.depth) × Each Apart r.seen

Each-map :
    (P Q : Settings → Type 0) (xs : List Settings)
    → ((t : Settings) → P t → Q t)
    → Each P xs
    → Each Q xs
Each-map P Q [] f p = p
Each-map P Q (x ∷ xs) f (p, ps) = (f x p, Each-map P Q xs f ps)

closed-Outside :
    (s : State) (r : Run)
    → IsOutside s
    → NoScope r.state.settings
    → Each Apart r.seen
    → Outside s (closed s r)
closed-Outside s r o after seen = (
  record {
    scopes = if_keeps NoScope (s.depth == 0) (λ k. refl) (if_keeps NoScope r.ended after o.scopes);
    clean = λ e. rw e refl;
  },
  refl,
  seen,
)

opened-IsOutside : (s t : State) → t.depth ≡ s.depth + 1 → NoScope t.settings → IsOutside t
opened-IsOutside s t e free = record { scopes = free; clean = λ z. ground arith }

run-Outside : (b : Block) (s : State) → IsDisciplined b → IsOutside s → Outside s (run b s)
unfolding run
run-Outside statement s d o = (o, refl, (inr o.scopes, _))
run-Outside raising s d o = (o, refl, _)
run-Outside (sequence first second) s (d1, d2) o =
    let r = run-Outside first s d1 o in
    let next = run-Outside second _ d2 r.0 in
    if_keeps (Outside s) (run first s).ended
      (next.0, next.1 ∙ r.1, Each-append Apart _ _ r.2 next.2) r
run-Outside (suppress body) s d o = run-Outside body s d o
run-Outside (tenant_context m body) s d o =
    let start : IsOutside (record s { merchant = some m }) = record {
      scopes = o.scopes;
      clean = o.clean;
    } in
    let r = run-Outside body _ d start in
    if_keeps (Outside s) (other_active s.merchant m) (o, refl, _)
      (record { scopes = r.0.scopes; clean = r.0.clean }, r.1, r.2)
run-Outside (tenant_atomic durable body) s d o =
    let r =
      run-Outside body _ d
        (opened-IsOutside s (with_merchant s.merchant (opened s)) refl o.scopes) in
    if_keeps (Outside s) (is_none s.merchant) (o, refl, _)
      (if_keeps (Outside s) (refused durable s) (o, refl, _)
        (closed-Outside s (run body (with_merchant s.merchant (opened s))) o r.0.scopes r.2))
run-Outside (scope_atomic k none body) s d o = (o, refl, _)
run-Outside (scope_atomic k (some v) body) s d o = elim (Bool-cases (is_some s.merchant)) [
  | inl active ↦ rw active (o, refl, _)
  | inr none_active ↦ elim (Bool-cases (s.depth == 0)) [
    | inr nested ↦ rw (none_active, nested) (record { scopes = o.scopes; clean = o.clean }, refl, _)
    | inl outermost ↦
        let idle : s.settings ≡ no_settings = o.clean (ground arith) in
        let inside : IsQuiet
            (with_scope k v (opened (record s { scopes = set_scope k (some v) s.scopes }))) =
          record { context = ground arith; setting = rw idle refl } in
        let r = run-Quiet body _ d inside in
        rw (none_active, outermost)
          (
            record { scopes = λ c. refl; clean = λ e. refl },
            refl,
            Each-map NoMerchant Apart _ (λ t free. inl free) r.1,
          )
  ]
]
run-Outside (atomic durable body) s d o =
    let r = run-Outside body _ d (opened-IsOutside s (opened s) refl o.scopes) in
    if_keeps (Outside s) (refused durable s) (o, refl, _)
      (closed-Outside s (run body (opened s)) o r.0.scopes r.2)

-- A connection with nothing open.
abbrev pub IsIdle : State → Type 0
IsIdle s = (s.depth ≡ 0) × (s.settings ≡ no_settings)

-- Code that never enters a tenant context inside a lookup scope never runs a statement under a
-- merchant's setting and a lookup's at once, so the permissive policies are never combined; and it
-- leaves the connection idle, with no setting, whether or not it raises.
pub run-Apart :
    (b : Block) (s : State)
    → IsDisciplined b
    → IsIdle s
    → Each Apart (run b s).seen × IsIdle (run b s).state
run-Apart b s d (outermost, clean) =
    let o : IsOutside s = record { scopes = rw clean (λ k. refl); clean = λ e. clean } in
    let (after, depth, seen) = run-Outside b s d o in
    let ended = depth ∙ outermost in (seen, (ended, after.clean ended))
