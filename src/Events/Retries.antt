-- ===== src/Events/Retries.antt =====
-- An event that keeps failing is given up after five attempts.
use Prim.Native.Nat.{min}
use mathlib.Core.Path.{subst}
use review_flow.Base.{
  ℕ, ◌+◌, ◌≤◌, ◌<◌, true, false, ◌≡◌, refl, ap, ◌∙◌, List, [], ◌∷◌, leb, Bool-cases, inl, inr, ◌⊎◌,
  arith, length, zero, suc,
}
use review_flow.Events.{
  received, failed, dead_letter, Event, raised, Failure, skips, process_event, record_failure,
  backoff, is_due,
}
use review_flow.Events.Rules.{IsValid, process_event-IsValid}
use review_flow.Events.Attempts.{Attempt, attempt_all, attempt_all-IsValid}

-- The wait after the fourth failure, 40 minutes.
abbrev pub longest_wait : ℕ
longest_wait = 2400000000

backoff-longest : (n : ℕ) → n < 5 → backoff n ≤ longest_wait
unfolding backoff
backoff-longest zero h = omega arith
backoff-longest (suc zero) h = omega arith
backoff-longest (suc (suc zero)) h = omega arith
backoff-longest (suc (suc (suc zero))) h = omega arith
backoff-longest (suc (suc (suc (suc zero)))) h = omega arith
backoff-longest (suc (suc (suc (suc (suc n))))) h = omega arith

-- Every attempt runs at a connected integration, late enough after the save before it, and raises.
abbrev pub KeepsFailing : {Sales : Type 0} → ℕ → List (Attempt Sales) → Type 0
KeepsFailing since [] = Unit {0}
KeepsFailing {Sales} since (a ∷ later) =
    (a.disconnected ≡ false)
    × (since + longest_wait ≤ a.clock.decided)
    × ((e : Event) (sales : Sales) → (why : Failure) × (a.handle e sales ≡ raised why))
    × KeepsFailing a.clock.saved later

abbrev pub IsOpen : Event → Type 0
IsOpen e = (e.status ≡ received) ⊎ (e.status ≡ failed)

open_few : (e : Event) → IsOpen e → IsValid e → e.attempt_count < 5
open_few e (inl st) v = ground (arith, v.count)
open_few e (inr st) v = ground (arith, v.count)

tried :
    (now : ℕ) (e : Event)
    → IsOpen e
    → IsValid e
    → e.updated_at + longest_wait ≤ now
    → skips now e ≡ false
unfolding skips is_due
tried now e (inl st) v late = ground arith
tried now e (inr st) v late =
    ground (arith, backoff-longest e.attempt_count (open_few e (inr st) v))

failing_step :
    {Sales : Type 0} (a : Attempt Sales) (e : Event) (sales : Sales)
    → skips a.clock.decided e ≡ false
    → a.disconnected ≡ false
    → (why : Failure) → a.handle e sales ≡ raised why
    → process_event a.handle a.clock a.disconnected e sales
      ≡ (record_failure a.clock.saved e why, sales)
unfolding process_event
failing_step a e sales go connected why q = rw (go, connected, q) refl

attempt_all-step :
    {Sales : Type 0} (a : Attempt Sales) (later : List (Attempt Sales)) (e : Event) (sales : Sales)
    (r : Event × Sales)
    → process_event a.handle a.clock a.disconnected e sales ≡ r
    → attempt_all (a ∷ later) e sales ≡ attempt_all later r.0 r.1
unfolding attempt_all
attempt_all-step {Sales} a later e sales r step =
    ap (λ (t : Event × Sales). attempt_all later t.0 t.1) step

attempt_all-dead :
    {Sales : Type 0} (attempts : List (Attempt Sales)) (e : Event) (sales : Sales)
    → e.status ≡ dead_letter
    → (attempt_all attempts e sales).0 ≡ e
unfolding attempt_all process_event skips
attempt_all-dead [] e sales st = refl
attempt_all-dead {Sales} (a ∷ later) e sales st =
    let skipped : skips a.clock.decided e ≡ true = ground arith in
    let step : process_event a.handle a.clock a.disconnected e sales ≡ (e, sales) =
      rw skipped refl in
    ap (λ (t : Event × Sales). t.0) (attempt_all-step a later e sales (e, sales) step)
    ∙ attempt_all-dead later e sales st

-- The attempts that fail are counted, up to the fifth.
attempt_all-count :
    {Sales : Type 0} (attempts : List (Attempt Sales)) (e : Event) (sales : Sales)
    → IsOpen e
    → IsValid e
    → KeepsFailing e.updated_at attempts
    → (attempt_all attempts e sales).0.attempt_count ≡ min 5 (e.attempt_count + length attempts)
unfolding attempt_all record_failure
attempt_all-count [] e sales pending v f = let few = open_few e pending v in omega arith
attempt_all-count {Sales} (a ∷ later) e sales pending v (connected, late, fails, rest) =
    let few = open_few e pending v in
    let go = tried a.clock.decided e pending v late in
    let (why, q) = fails e sales in
    let next : Event = record_failure a.clock.saved e why in
    let step = failing_step a e sales go connected why q in
    let valid : IsValid next =
      subst (λ (r : Event × Sales). IsValid r.0) step
        (process_event-IsValid a.handle a.clock a.disconnected e sales v) in
    elim (Bool-cases (leb 5 (e.attempt_count + 1))) [
      | inl last ↦
          let dead : next.status ≡ dead_letter = rw last refl in
          rw
            (
              attempt_all-step a later e sales (next, sales) step,
              attempt_all-dead later next sales dead,
            )
            (ground arith)
      | inr more ↦
          let failing : next.status ≡ failed = rw more refl in
          rw (attempt_all-step a later e sales (next, sales) step)
            (rw (attempt_all-count later next sales (inr failing) valid rest) (ground arith))
    ]

dead_of_count : (e : Event) → IsValid e → e.attempt_count ≡ 5 → e.status ≡ dead_letter
dead_of_count e v five = ground (arith, v.count)

-- An open event whose handling fails every time becomes DEAD_LETTER: five failed attempts, counted
-- with those before, are enough, if each runs at least forty minutes after the save before it.
pub attempt_all-gives_up :
    {Sales : Type 0} (attempts : List (Attempt Sales)) (e : Event) (sales : Sales)
    → IsOpen e
    → IsValid e
    → KeepsFailing e.updated_at attempts
    → 5 ≤ e.attempt_count + length attempts
    → (attempt_all attempts e sales).0.status ≡ dead_letter
attempt_all-gives_up attempts e sales pending v fails enough =
    let counted = attempt_all-count attempts e sales pending v fails in
    dead_of_count _ (attempt_all-IsValid attempts e sales v) (omega arith)
