-- ===== src/Billing/Sync/Events.antt =====
-- What the end of a sync's main step does to the inbox (billing/services.py, _sync_main).
use review_flow.Base.{
  ℕ, ◌+◌, ◌*◌, ◌≤◌, ◌<◌, Bool, true, false, ◌&&◌, ◌||◌, ◌⊎◌, inl, inr, ◌≡◌, ◌≢◌, refl, ap, not,
  Option, none, some, List, [], ◌∷◌, arith, any, String, is_none, leb, if◌then◌else◌, Bool-cases,
}
use review_flow.Base.Text.{same_text_iff}
use review_flow.Billing.Model.{BillingEvent}
use review_flow.Billing.Session.{Session}
use review_flow.Billing.Retired.{holds}
use review_flow.Billing.Snapshot.{SnapshotResult}
use review_flow.Billing.Sync.{observed_by_main, mark_where, settle_main, pending}

-- The fetch, five seconds of the clocks' difference aside, began after the event had arrived, and the
-- event does not name the live replacement.
abbrev pub IsSeen : ℕ → Option String → BillingEvent → Type 0
IsSeen started replacement e =
    (e.created_at + 5 * 1000000 < started) × (replacement ≢ some e.provider_ref)

-- What becomes of one event: it is marked, or it stays as it is.
abbrev pub Fate : ℕ → ℕ → Option String → Bool → BillingEvent → BillingEvent → Type 0
Fate started stamp replacement settled e after =
    ((after ≡ record e { processed_at = some stamp })
      × (settled ≡ true)
      × (e.processed_at ≡ none)
      × IsSeen started replacement e)
    ⊎ ((after ≡ e)
        × ((settled ≡ false)
            ⊎ (e.processed_at ≢ none)
            ⊎ (started ≤ e.created_at + 5 * 1000000)
            ⊎ (replacement ≡ some e.provider_ref)))

abbrev pub Fates : ℕ → ℕ → Option String → Bool → List BillingEvent → List BillingEvent → Type 0
Fates started stamp replacement settled [] [] = Unit {0}
Fates started stamp replacement settled [] (f ∷ after) = ⊥
Fates started stamp replacement settled (e ∷ events) [] = ⊥
Fates started stamp replacement settled (e ∷ events) (f ∷ after) =
    Fate started stamp replacement settled e f
    × Fates started stamp replacement settled events after

holds-eq : (slot : Option String) (ref : String) → holds slot ref ≡ true → slot ≡ some ref
holds-eq none ref h = cc h
holds-eq (some stored) ref h = ap some ((same_text_iff stored ref).0 h)

holds-ne : (slot : Option String) (ref : String) → holds slot ref ≡ false → slot ≢ some ref
holds-ne none ref h e = cc e
holds-ne (some stored) ref h e = let own = (same_text_iff stored ref).1 (cc e) in cc (own, h)

marked-Fate :
    (started stamp : ℕ) (replacement : Option String) (e : BillingEvent)
    → Fate started stamp replacement true e (
        if observed_by_main started replacement e
        then record e { processed_at = some stamp }
        else e)
unfolding observed_by_main
marked-Fate started stamp replacement e = elim (Bool-cases (holds replacement e.provider_ref)) [
  | inl names ↦ let same = holds-eq replacement e.provider_ref names in ground (arith, same)
  | inr other ↦ let differ = holds-ne replacement e.provider_ref other in ground (arith, differ)
]

marked-Fates :
    (started stamp : ℕ) (replacement : Option String) (events : List BillingEvent)
    → Fates started stamp replacement true events
        (mark_where (observed_by_main started replacement) stamp events)
unfolding mark_where
marked-Fates started stamp replacement [] = tt
marked-Fates started stamp replacement (e ∷ events) =
    (marked-Fate started stamp replacement e, marked-Fates started stamp replacement events)

kept-Fates :
    (started stamp : ℕ) (replacement : Option String) (events : List BillingEvent)
    → Fates started stamp replacement false events events
kept-Fates started stamp replacement [] = tt
kept-Fates started stamp replacement (e ∷ events) =
    (inr (refl, inl refl), kept-Fates started stamp replacement events)

-- An unprocessed event that the main step leaves for the next one.
abbrev pub is_left : ℕ → Option String → Bool → BillingEvent → Bool
is_left started replacement settled e =
    is_none e.processed_at
    && (not settled || leb started (e.created_at + 5 * 1000000) || holds replacement e.provider_ref)

pending-marked :
    (started stamp : ℕ) (replacement : Option String) (events : List BillingEvent)
    → pending (mark_where (observed_by_main started replacement) stamp events)
      ≡ any (is_left started replacement true) events
unfolding mark_where observed_by_main
pending-marked started stamp replacement [] = refl
pending-marked started stamp replacement (e ∷ events) =
    ground (arith, pending-marked started stamp replacement events)

pending-kept :
    (started : ℕ) (replacement : Option String) (events : List BillingEvent)
    → pending events ≡ any (is_left started replacement false) events
pending-kept started replacement [] = refl
pending-kept started replacement (e ∷ events) =
    ground (arith, pending-kept started replacement events)

-- The marking at the end of the main step, after its snapshot, gives each event of the inbox its fate:
-- it is marked exactly if the snapshot was settled, the event was unprocessed, arrived more than five
-- seconds before the fetch began and does not name the live replacement, and stays as it is otherwise.
-- So the inbox has an unprocessed event afterwards, for which the next task fetches, exactly if one
-- was left for such a reason.
pub settle_main-Fates :
    (started stamp : ℕ) (result : SnapshotResult) (s : Session)
    → let after = settle_main started stamp result s in
      let replacement = s.row.replacement_provider_ref in
      Fates started stamp replacement result.settled s.events after.events
      × (pending after.events ≡ any (is_left started replacement result.settled) s.events)
unfolding settle_main
settle_main-Fates started stamp result s =
    let replacement = s.row.replacement_provider_ref in
    elim (Bool-cases result.settled) [
      | inl marks ↦ rw marks (
        marked-Fates started stamp replacement s.events,
        pending-marked started stamp replacement s.events,
      )
      | inr open_ ↦
          rw open_ (
            kept-Fates started stamp replacement s.events,
            pending-kept started replacement s.events,
          )
    ]
