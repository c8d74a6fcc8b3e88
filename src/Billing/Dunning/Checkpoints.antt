-- ===== src/Billing/Dunning/Checkpoints.antt =====
-- What a dunning sweep does to a PAST_DUE row, and that sweeps may be repeated.
use review_flow.Base.{
  Bool, false, ◌||◌, List, [], ◌∷◌, ltb, ℕ, ◌+◌, ◌<◌, ◌≡◌, refl, ◌∙◌, Bool-cases, inl, inr, none,
  some, arith, max, leb, ◌*◌, if◌then◌else◌, length,
}
use review_flow.Billing.Model.{past_due, expired, days, grace}
use review_flow.Billing.Session.{Session, save, written, no_fields}
use review_flow.Billing.Dunning.{
  reach_stage, reach_first, expire_grace, advance_past_due, advance_dunning,
}

-- The checkpoint that is due when a row has been past due for the time from `since` to `now`.
abbrev pub due_stage : ℕ → ℕ → ℕ
due_stage since now =
    if leb (since + days 6) now then 6 else if leb (since + days 3) now then 3 else 0

abbrev pub swept : ℕ → ℕ → Session → Session
swept now stamp s = advance_dunning now stamp (record s { sub = s.row; fields = no_fields })

-- Before the seventh day a sweep moves the stage to the highest checkpoint that is due, and never
-- back; nothing else of the row changes but `updated_at`, and an audit row is written exactly if the
-- stage moves.
pub swept_in_grace :
    (now stamp : ℕ) (s : Session) (since n : ℕ)
    → s.row.status ≡ past_due
    → s.row.past_due_at ≡ some since
    → s.row.dunning_stage ≡ some n
    → now < since + grace
    → let after = swept now stamp s in
      (after.row ≡ record (s.row) {
        dunning_stage = some (max n (due_stage since now));
        updated_at = if ltb n (due_stage since now) then now else s.row.updated_at;
      })
      × (length after.audit ≡ length s.audit + (if ltb n (due_stage since now) then 1 else 0))
unfolding advance_dunning advance_past_due reach_first reach_stage
swept_in_grace now stamp s since n st at stage early = (ground arith, ground arith)

-- The sweep of a row that is past due, at a given time: it ends the grace period or moves the stage.
swept_past_due :
    (now stamp : ℕ) (s : Session) (since n : ℕ)
    → s.row.status ≡ past_due
    → s.row.past_due_at ≡ some since
    → s.row.dunning_stage ≡ some n
    → let row = (swept now stamp s).row in
      let over = leb (since + 7 * 86400 * 1000000) now in
      (row.status ≡ (if over then expired else past_due))
      × (row.past_due_at ≡ (if over then none else some since))
      × (row.dunning_stage ≡ (if over then none else some (max n (due_stage since now))))
unfolding advance_dunning advance_past_due reach_first reach_stage expire_grace save written
swept_past_due now stamp s since n st at stage = ground arith

swept_other :
    (now stamp : ℕ) (s : Session) → s.row.status ≡ expired → (swept now stamp s).row ≡ s.row
unfolding advance_dunning
swept_other now stamp s st = ground arith

-- Sweeps one after the other, each with its reading of the clock and the time of its save.
abbrev pub sweep_all : List (ℕ × ℕ) → Session → Session
sweep_all [] s = s
sweep_all ((now, stamp) ∷ sweeps) s = sweep_all sweeps (swept now stamp s)

-- Whether one of the sweeps is at the seventh day (of 86400 seconds) or later.
abbrev pub week_over : ℕ → List (ℕ × ℕ) → Bool
week_over since [] = false
week_over since ((now, stamp) ∷ sweeps) =
    leb (since + 7 * 86400 * 1000000) now || week_over since sweeps

-- The highest checkpoint that was due at one of the sweeps, or the stage before them.
abbrev pub reached : ℕ → ℕ → List (ℕ × ℕ) → ℕ
reached since n [] = n
reached since n ((now, stamp) ∷ sweeps) = reached since (max n (due_stage since now)) sweeps

sweep_all-expired :
    (sweeps : List (ℕ × ℕ)) (s : Session)
    → s.row.status ≡ expired
    → (sweep_all sweeps s).row ≡ s.row
sweep_all-expired [] s st = refl
sweep_all-expired ((now, stamp) ∷ sweeps) s st =
    let same = swept_other now stamp s st in
    sweep_all-expired sweeps (swept now stamp s) (rw same st) ∙ same

-- After any sweeps, in whatever order of their times, a row that was PAST_DUE at a dunning stage is
-- EXPIRED, out of its episode, exactly if one of them was at the seventh day, of 86400 seconds each, or
-- later. Otherwise it is PAST_DUE since the same instant, at the highest checkpoint that was due at one
-- of them, or at its stage before if that is higher.
pub sweep_all-row :
    (sweeps : List (ℕ × ℕ)) (s : Session) (since n : ℕ)
    → s.row.status ≡ past_due
    → s.row.past_due_at ≡ some since
    → s.row.dunning_stage ≡ some n
    → let row = (sweep_all sweeps s).row in
      let over = week_over since sweeps in
      (row.status ≡ (if over then expired else past_due))
      × (row.past_due_at ≡ (if over then none else some since))
      × (row.dunning_stage ≡ (if over then none else some (reached since n sweeps)))
sweep_all-row [] s since n st at stage = (st, at, stage)
sweep_all-row ((now, stamp) ∷ sweeps) s since n st at stage =
    let (st', at', stage') = swept_past_due now stamp s since n st at stage in
    elim (Bool-cases (leb (since + 7 * 86400 * 1000000) now)) [
      | inl over ↦
          let ended = sweep_all-expired sweeps (swept now stamp s) (rw over at st') in
          rw (over, ended) (rw over at st', rw over at at', rw over at stage')
      | inr early ↦ rw early (
          sweep_all-row sweeps (swept now stamp s) since (max n (due_stage since now))
            (rw early at st') (rw early at at') (rw early at stage'))
    ]
