-- ===== src/Events/Attempts.antt =====
-- Any sequence of processing attempts on one event.
use mathlib.Core.List.{Memᴰ}
use mathlib.Core.Path.{subst}
use review_flow.Base.{ℕ, Bool, true, ◌≡◌, refl, some, List, [], ◌∷◌, inl, inr, ◌⊎◌, arith}
use review_flow.Events.{
  processed, Event, Handle, Handled, raised, sold, Clock, conclude, skips, process_event,
}
use review_flow.Events.Rules.{IsValid, process_event-IsValid, process_event_cases}

-- One delivery of the task: its clock, whether the integration is disconnected, and what the handler
-- does at that time.
pub record Attempt (Sales : Type 0) : Type 0 where
  pub clock : Clock
  pub disconnected : Bool
  pub handle : Handle Sales

unfoldable pub attempt_all : {Sales : Type 0} → List (Attempt Sales) → Event → Sales → Event × Sales
attempt_all [] e sales = (e, sales)
attempt_all (a ∷ later) e sales =
    let (e', sales') = process_event a.handle a.clock a.disconnected e sales in
    attempt_all later e' sales'

-- However often the event is attempted, its row keeps its rules.
pub attempt_all-IsValid :
    {Sales : Type 0} (attempts : List (Attempt Sales)) (e : Event) (sales : Sales)
    → IsValid e
    → IsValid (attempt_all attempts e sales).0
unfolding attempt_all
attempt_all-IsValid [] e sales v = v
attempt_all-IsValid (a ∷ later) e sales v =
    attempt_all-IsValid later _ _ (process_event-IsValid a.handle a.clock a.disconnected e sales v)

-- A processed event is left alone.
attempt_all-processed :
    {Sales : Type 0} (attempts : List (Attempt Sales)) (e : Event) (sales : Sales)
    → e.status ≡ processed
    → attempt_all attempts e sales ≡ (e, sales)
unfolding attempt_all process_event skips
attempt_all-processed [] e sales st = refl
attempt_all-processed (a ∷ later) e sales st =
    let skipped : skips a.clock.decided e ≡ true = ground arith in
    rw skipped (attempt_all-processed later e sales st)

-- One sale at most was recorded, by an attempt of the list on the sales as they were at first, and
-- then the event is PROCESSED; otherwise the sales are untouched.
abbrev pub SoldOnce : {Sales : Type 0} → List (Attempt Sales) → Sales → Event × Sales → Type 0
SoldOnce {Sales} attempts sales (after, sales') =
    (sales' ≡ sales)
    ⊎ ((a : Attempt Sales) × (e : Event) × (place : ℕ) × Memᴰ a attempts
        × (a.handle e sales ≡ sold place sales')
        × (after.status ≡ processed)
        × (after.location ≡ some place))

abbrev Step : {Sales : Type 0} → Attempt Sales → Sales → Event × Sales → Type 0
Step a sales (after, sales') =
    (sales' ≡ sales)
    ⊎ ((e : Event) × (place : ℕ) × (a.handle e sales ≡ sold place sales')
        × (after.status ≡ processed)
        × (after.location ≡ some place))

conclude-Step :
    {Sales : Type 0} (a : Attempt Sales) (e : Event) (sales : Sales) (h : Handled Sales)
    → a.handle e sales ≡ h
    → Step a sales (conclude a.clock e sales h)
conclude-Step a e sales (raised why) q = inl refl
conclude-Step a e sales (sold place after) q = inr (e, place, q, refl, refl)

process_event-Step :
    {Sales : Type 0} (a : Attempt Sales) (e : Event) (sales : Sales)
    → Step a sales (process_event a.handle a.clock a.disconnected e sales)
process_event-Step a e sales =
    process_event_cases (Step a sales) a.handle a.clock a.disconnected e sales (inl refl)
      (λ _. inl refl) (λ _. conclude-Step a e sales (a.handle e sales) refl)

later-SoldOnce :
    {Sales : Type 0} {attempts : List (Attempt Sales)} {sales : Sales} (r : Event × Sales)
    (a : Attempt Sales)
    → SoldOnce attempts sales r
    → SoldOnce (a ∷ attempts) sales r
later-SoldOnce r a (inl same) = inl same
later-SoldOnce r a (inr (b, e, place, m, q, st, at)) = inr (b, e, place, Memᴰ.tail m, q, st, at)

Step-SoldOnce :
    {Sales : Type 0} (a : Attempt Sales) (later : List (Attempt Sales)) (sales : Sales)
    (r : Event × Sales)
    → Step a sales r
    → SoldOnce later r.1 (attempt_all later r.0 r.1)
    → SoldOnce (a ∷ later) sales (attempt_all later r.0 r.1)
Step-SoldOnce a later sales r (inl same) rest =
    later-SoldOnce (attempt_all later r.0 r.1) a
      (subst (λ x. SoldOnce later x (attempt_all later r.0 r.1)) same rest)
Step-SoldOnce a later sales r (inr (e, place, q, st, at)) rest =
    rw (attempt_all-processed later r.0 r.1 st) (inr (a, e, place, Memᴰ.head refl, q, st, at))

-- However often an event is attempted, its sale is recorded at most once: the sales at the end are
-- those at the start, or what one successful handling made of those, and the event is then PROCESSED
-- at the location that this handling resolved.
pub attempt_all-SoldOnce :
    {Sales : Type 0} (attempts : List (Attempt Sales)) (e : Event) (sales : Sales)
    → SoldOnce attempts sales (attempt_all attempts e sales)
unfolding attempt_all
attempt_all-SoldOnce [] e sales = inl refl
attempt_all-SoldOnce (a ∷ later) e sales =
    let r = process_event a.handle a.clock a.disconnected e sales in
    Step-SoldOnce a later sales r (process_event-Step a e sales)
      (attempt_all-SoldOnce later r.0 r.1)
