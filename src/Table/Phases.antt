-- ===== src/Table/Phases.antt =====
-- table.go: any sequence of calls on a table, and what its phases allow.
use brc100_poker.Base.{
  ℕ, ◌≡◌, refl, sym, ap, subst, Bool, true, false, not, List, [], ◌∷◌, ◌++◌, arith, ltb, if_both, ℤ,
  pos, negsuc, leb_ℤ, ltb_ℤ, Text, length, ◌||◌,
}
use brc100_poker.Table.{
  Terms, Table, Phase, phase_open, ok, err, TableError, error_if, validate, new, is_empty, is_open,
  is_closed, is_funding, Outcome, join, touch, close_roster, mark_refund_held, mark_funded,
  fully_funded, begin_deal, is_allowed, advance, stall, close, min_seats, max_seats, no_table_id,
  bad_seat_count,
}
use brc100_poker.Table.Roster.{
  IsSeated, touch-IsSeated, mark_refund_held-IsSeated, mark_funded-IsSeated, IsSeated-phase,
}
use brc100_poker.Table.Joining.{join-IsSeated}

-- A call that changes a table.
pub data Op : Type 0 where
  join_op : ℕ → Text → Op
  touch_op : ℕ → ℤ → Op
  close_roster_op : Op
  refund_op : ℤ → Op
  fund_op : ℤ → Op
  begin_op : Op
  advance_op : Phase → Op
  stall_op : ℤ → Text → Op
  close_op : Op

unfoldable pub step : Op → Table → Table
step (join_op now key) t = (join now key t).0
step (touch_op now seat) t = (touch now seat t).0
step close_roster_op t = (close_roster t).0
step (refund_op seat) t = (mark_refund_held seat t).0
step (fund_op seat) t = (mark_funded seat t).0
step begin_op t = (begin_deal t).0
step (advance_op to) t = (advance to t).0
step (stall_op seat reason) t = (stall seat reason t).0
step close_op t = close t

unfoldable pub run : List Op → Table → Table
run [] t = t
run (op ∷ ops) t = run ops (step op t)

module _ {ℓ} (P : Table → Type ℓ) where
  abbrev On : Outcome (Unit {0}) → Type ℓ
  On o = P o.0

  -- The calls that write only the phase and the stall.
  phase_calls :
      (t : Table)
      → P t
      → ((phase : Phase) (reason : Text) (seat : ℤ)
          → P (record t { phase = phase; stall_reason = reason; stalled_seat = seat }))
      → P (close_roster t).0
        × P (begin_deal t).0
        × ((to : Phase) → P (advance to t).0)
        × ((seat : ℤ) (reason : Text) → P (stall seat reason t).0)
        × P (close t)
  unfolding close_roster begin_deal advance stall close
  phase_calls t h k = (
    if_both On (not (is_open t.phase)) (λ _. h)
        (λ _. if_both On (ltb (length t.seats) min_seats) (λ _. h) (λ _. k _ _ _)),
    if_both On (not (is_funding t.phase)) (λ _. h)
        (λ _. if_both On (not (fully_funded t)) (λ _. h) (λ _. k _ _ _)),
    (λ to. if_both On (is_allowed t.phase to) (λ _. k _ _ _) (λ _. h)),
    (λ seat reason.
        if_both On (is_empty reason) (λ _. h)
          (λ _.
            if_both On (is_closed t.phase) (λ _. h)
              (λ _. if_both On (leb_ℤ (pos (length t.seats)) seat) (λ _. h) (λ _. k _ _ _)))),
    k _ _ _,
  )

step-IsSeated : (op : Op) (t : Table) → IsSeated t → IsSeated (step op t)
unfolding step
step-IsSeated (join_op now key) t h = join-IsSeated now key t h
step-IsSeated (touch_op now seat) t h = touch-IsSeated now seat t h
step-IsSeated close_roster_op t h = (phase_calls IsSeated t h (λ p r s. IsSeated-phase t p r s h)).0
step-IsSeated (refund_op seat) t h = mark_refund_held-IsSeated seat t h
step-IsSeated (fund_op seat) t h = mark_funded-IsSeated seat t h
step-IsSeated begin_op t h = (phase_calls IsSeated t h (λ p r s. IsSeated-phase t p r s h)).1
step-IsSeated (advance_op to) t h =
    (phase_calls IsSeated t h (λ p r s. IsSeated-phase t p r s h)).2 to
step-IsSeated (stall_op seat reason) t h =
    (phase_calls IsSeated t h (λ p r s. IsSeated-phase t p r s h)).3 seat reason
step-IsSeated close_op t h = (phase_calls IsSeated t h (λ p r s. IsSeated-phase t p r s h)).4

run_from-IsSeated : (ops : List Op) (t : Table) → IsSeated t → IsSeated (run ops t)
unfolding run
run_from-IsSeated [] t h = h
run_from-IsSeated (op ∷ ops) t h = run_from-IsSeated ops (step op t) (step-IsSeated op t h)

error_if-nil :
    (b : Bool) (e : TableError) (es : List TableError)
    → error_if b e ++ es ≡ []
    → (b ≡ false) × (es ≡ [])
error_if-nil true e es h = absurd (cc h)
error_if-nil false e es h = (refl, h)

validate-seats : (terms : Terms) → validate terms ≡ [] → leb_ℤ (pos 0) terms.seats ≡ true
unfolding validate
validate-seats terms e =
    let rest = error_if-nil (is_empty terms.table_id) no_table_id _ e in
    let seats =
      error_if-nil (ltb_ℤ terms.seats (pos min_seats) || ltb_ℤ (pos max_seats) terms.seats)
        bad_seat_count _ rest.1 in
    ground (arith, seats.0)

new-IsSeated : (terms : Terms) {t : Table} → new terms ≡ ok t → IsSeated t × (t.phase ≡ phase_open)
unfolding new
new-IsSeated terms {t} e = checked (validate terms) refl e
  where
    fresh : Table
    fresh = record {
      terms = terms;
      phase = phase_open;
      seats = [];
      by_identity = [];
      stall_reason = [];
      stalled_seat = negsuc 0;
    }

    checked :
        (es : List TableError)
        → validate terms ≡ es
        → elim es [ [] ↦ ok fresh | x ∷ xs ↦ err x ] ≡ ok t
        → IsSeated t × (t.phase ≡ phase_open)
    checked [] v h =
        let same : fresh ≡ t = cc in
        (
          subst IsSeated same (record {
            indexed = tt;
            entries = refl;
            one_each = tt;
            normal = tt;
            covered = tt;
            within = validate-seats terms v;
          }),
          ap (λ (u : Table). u.phase) (sym same),
        )
    checked (x ∷ xs) v h = absurd (cc h)

-- A table that `New` opened stays well seated under any calls: each seat stands at its index, the
-- index by identity is that of the seats, no identity holds two seats, no seat is funded whose
-- refund is not held, and there are at most as many seats as the terms say.
pub run-IsSeated :
    (terms : Terms) (ops : List Op) {t : Table} → new terms ≡ ok t → IsSeated (run ops t)
run-IsSeated terms ops {t} e = run_from-IsSeated ops t (new-IsSeated terms e).0
