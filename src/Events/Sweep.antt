-- ===== src/Events/Sweep.antt =====
-- The retry sweep agrees with the attempt that it starts.
use mathlib.Core.List.{Memᴰ}
use review_flow.Base.{
  ℕ, ◌≤◌, Bool, true, false, ◌≡◌, refl, sym, ap, if◌then◌else◌, List, [], ◌∷◌, Bool-cases, inl, inr,
  arith,
}
use review_flow.Events.{failed, Event, skips, is_due, is_listed, due_event_ids}

listed_tried :
    (now later : ℕ) (e : Event) → is_listed now e ≡ true → now ≤ later → skips later e ≡ false
unfolding is_listed skips is_due
listed_tried now later e listed le = ground arith

abbrev Tried : ℕ → List Event → ℕ → Type 0
Tried later events id = (e : Event) × Memᴰ e events × (e.id ≡ id) × (skips later e ≡ false)

later_row :
    (later : ℕ) (e : Event) (events : List Event) (id : ℕ)
    → Tried later events id
    → Tried later (e ∷ events) id
later_row later e events id (x, m, same, go) = (x, Memᴰ.tail m, same, go)

listed_head :
    (later : ℕ) (e : Event) (events : List Event) (id : ℕ) (rest : List ℕ)
    → skips later e ≡ false
    → (Memᴰ id rest → Tried later events id)
    → Memᴰ id (e.id ∷ rest)
    → Tried later (e ∷ events) id
listed_head later e events id rest go more (Memᴰ.head same) = (e, Memᴰ.head refl, sym same, go)
listed_head later e events id rest go more (Memᴰ.tail m) = later_row later e events id (more m)

-- Every event that the sweep lists is one of the rows it read, and an attempt that starts at the time
-- of the query or later does not skip it.
pub due_event_ids-tried :
    (now later : ℕ) (events : List Event) (id : ℕ)
    → Memᴰ id (due_event_ids now events)
    → now ≤ later
    → (e : Event) × Memᴰ e events × (e.id ≡ id) × (skips later e ≡ false)
unfolding due_event_ids
due_event_ids-tried now later [] id m le = elim m [ ]
due_event_ids-tried now later (e ∷ events) id m le = elim (Bool-cases (is_listed now e)) [
  | inl is_due_now ↦
      listed_head later e events id (due_event_ids now events)
        (listed_tried now later e is_due_now le)
        (λ rest. due_event_ids-tried now later events id rest le) (rw is_due_now at m)
  | inr is_early ↦
      later_row later e events id (due_event_ids-tried now later events id (rw is_early at m) le)
]

failed_listed :
    (now : ℕ) (e : Event) → e.status ≡ failed → skips now e ≡ false → is_listed now e ≡ true
unfolding skips is_listed
failed_listed now e st go = ground arith

cons_if :
    (b : Bool) (id x : ℕ) (rest : List ℕ) → Memᴰ id rest → Memᴰ id (if b then x ∷ rest else rest)
cons_if true id x rest m = Memᴰ.tail m
cons_if false id x rest m = m

pub listed_member :
    (now : ℕ) (events : List Event) (e : Event)
    → Memᴰ e events
    → is_listed now e ≡ true
    → Memᴰ e.id (due_event_ids now events)
unfolding due_event_ids
listed_member now [] e m listed = elim m [ ]
listed_member now (x ∷ events) e (Memᴰ.head same) listed =
    let due : is_listed now x ≡ true = rw (← same) listed in
    rw due (Memᴰ.head (ap (λ (t : Event). t.id) same))
listed_member now (x ∷ events) e (Memᴰ.tail m) listed =
    cons_if (is_listed now x) e.id x.id _ (listed_member now events e m listed)

-- A FAILED event that an attempt of the same instant would not skip is listed.
pub due_event_ids-complete :
    (now : ℕ) (events : List Event) (e : Event)
    → Memᴰ e events
    → e.status ≡ failed
    → skips now e ≡ false
    → Memᴰ e.id (due_event_ids now events)
due_event_ids-complete now events e m st go =
    listed_member now events e m (failed_listed now e st go)
