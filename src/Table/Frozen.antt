-- ===== src/Table/Frozen.antt =====
-- table.go: phases never go back, and the roster is fixed once the table has left `open`.
use brc100_poker.Base.{
  ℕ, ◌≤◌, ◌<◌, ◌≡◌, refl, inl, inr, ◌∙◌, true, false, not, Option, none, some, List, [], ◌∷◌, ◌++◌,
  arith, leb, ltb, if◌then◌else◌, if_both, Bool-cases, ℤ, pos, negsuc, leb_ℤ, Text, normalise,
  length, get_elem?, modify_at,
}
use brc100_poker.Table.{
  Seat, Table, Phase, phase_open, phase_funding, phase_dealing, phase_betting, phase_settling,
  phase_closed, phase_stalled, ok, err, is_empty, is_open, is_closed, is_funding, Outcome, join,
  touch, close_roster, mark_refund_held, mark_funded, mark_funded_at, update_seat, fully_funded,
  begin_deal, lookup, is_allowed, advance, stall, close, min_seats, already_seated, table_full,
  new_seat, no_such_seat, no_refund,
}
use brc100_poker.Table.Roster.{keys, modify_at-keys, KeepsSeat}
use brc100_poker.Table.Phases.{
  Op, join_op, touch_op, close_roster_op, refund_op, fund_op, begin_op, advance_op, stall_op,
  close_op, step, run,
}

-- How far along a phase is; a stall comes after play, and closing last.
abbrev pub rank : Phase → ℕ
rank phase_open = 0
rank phase_funding = 1
rank phase_dealing = 2
rank phase_betting = 3
rank phase_settling = 4
rank phase_stalled = 5
rank phase_closed = 6

is_allowed-rank : (p q : Phase) → is_allowed p q ≡ true → rank p < rank q
unfolding is_allowed
is_allowed-rank p q h = ground arith

rank_open : (p : Phase) → is_open p ≡ true → rank p ≡ 0
rank_open p h = ground arith

ranked : (p : Phase) → is_open p ≡ false → 0 < rank p
ranked p h = ground arith

rank_funding : (p : Phase) → is_funding p ≡ true → rank p ≡ 1
rank_funding p h = ground arith

rank_not_closed : (p : Phase) → is_closed p ≡ false → rank p ≤ 5
rank_not_closed p h = ground arith

-- What a call keeps: the terms, and the identities unless the table is open.
record Keeps (t t' : Table) : Type 0 where
  forward : rank t.phase ≤ rank t'.phase
  same_terms : t'.terms ≡ t.terms
  same_keys : is_open t.phase ≡ false → keys t'.seats ≡ keys t.seats

Keeps-refl : (t : Table) → Keeps t t
Keeps-refl t = record { forward = omega arith; same_terms = refl; same_keys = λ _. refl }

Keeps-phase :
    (t : Table) (phase : Phase) → rank t.phase ≤ rank phase → Keeps t (record t { phase = phase })
Keeps-phase t phase h = record { forward = h; same_terms = refl; same_keys = λ _. refl }

abbrev KeepsOn : {A : Type 0} → Table → Outcome A → Type 0
KeepsOn t o = Keeps t o.0

modify_at-Keeps :
    (t : Table) (i : ℕ) (f : Seat → Seat)
    → KeepsSeat f
    → Keeps t (record t { seats = modify_at i f t.seats })
modify_at-Keeps t i f k = record {
  forward = omega arith;
  same_terms = refl;
  same_keys = λ _. modify_at-keys f i t.seats k;
}

update_seat-Keeps :
    (t : Table) (seat : ℤ) (f : Seat → Seat) → KeepsSeat f → KeepsOn t (update_seat seat f t)
unfolding update_seat
update_seat-Keeps t (negsuc n) f k = Keeps-refl t
update_seat-Keeps t (pos i) f k =
    if_both (KeepsOn {A = Unit {0}} t) (leb (length t.seats) i) (λ _. Keeps-refl t)
      (λ _. modify_at-Keeps t i f k)

mark_funded-Keeps : (t : Table) (seat : ℤ) → KeepsOn t (mark_funded seat t)
unfolding mark_funded mark_funded_at
mark_funded-Keeps t (negsuc n) =
    if_both (KeepsOn {A = Unit {0}} t) (not (is_funding t.phase)) (λ _. Keeps-refl t)
      (λ _. Keeps-refl t)
mark_funded-Keeps t (pos i) =
    if_both (KeepsOn {A = Unit {0}} t) (not (is_funding t.phase)) (λ _. Keeps-refl t)
      (λ _. found (get_elem? t.seats i))
  where
    found :
        (m : Option Seat)
        → KeepsOn {A = Unit {0}} t (elim m [
          | none ↦ (t, err no_such_seat)
          | some s ↦ if not s.refund_held then (t, err no_refund) else (
            record t { seats = modify_at i (λ s. record s { funded = true }) t.seats },
            ok tt,
          )
        ])
    found none = Keeps-refl t
    found (some s) =
        if_both (KeepsOn {A = Unit {0}} t) (not s.refund_held) (λ _. Keeps-refl t)
          (λ _. modify_at-Keeps t i _ (λ s. (refl, refl)))

join-Keeps : (now : ℕ) (key : Text) (t : Table) → KeepsOn t (join now key t)
unfolding join
join-Keeps now key t =
    if_both (KeepsOn {A = ℕ} t) (is_empty (normalise key)) (λ _. Keeps-refl t)
      (λ _.
        if_both (KeepsOn {A = ℕ} t) (not (is_open t.phase)) (λ _. Keeps-refl t)
          (λ opened. free (ground arith) (lookup (normalise key) t.by_identity)))
  where
    free :
        is_open t.phase ≡ true
        → (m : Option ℕ)
        → KeepsOn {A = ℕ} t (elim m [
          | some i ↦ (t, err already_seated)
          | none ↦ if leb_ℤ t.terms.seats (pos (length t.seats)) then (t, err table_full) else (
            record t {
              seats = t.seats ++ new_seat (length t.seats) (normalise key) now ∷ [];
              by_identity = t.by_identity ++ (normalise key, length t.seats) ∷ [];
            },
            ok (length t.seats),
          )
        ])
    free opened (some i) = Keeps-refl t
    free opened none =
        if_both (KeepsOn {A = ℕ} t) (leb_ℤ t.terms.seats (pos (length t.seats))) (λ _. Keeps-refl t)
          (λ _. record {
            forward = omega arith;
            same_terms = refl;
            same_keys = λ shut. absurd (cc (opened, shut));
          })

phase-Keeps :
    (t : Table)
    → KeepsOn t (close_roster t)
      × KeepsOn t (begin_deal t)
      × ((to : Phase) → KeepsOn t (advance to t))
      × ((seat : ℤ) (reason : Text) → KeepsOn t (stall seat reason t))
      × Keeps t (close t)
unfolding close_roster begin_deal advance stall close
phase-Keeps t =
    let On = KeepsOn {A = Unit {0}} t in
    (
      if_both On (not (is_open t.phase)) (λ _. Keeps-refl t)
          (λ o.
            if_both On (ltb (length t.seats) min_seats) (λ _. Keeps-refl t)
              (λ _. Keeps-phase t phase_funding (omega (arith, rank_open t.phase (ground arith))))),
      if_both On (not (is_funding t.phase)) (λ _. Keeps-refl t)
          (λ f.
            if_both On (not (fully_funded t)) (λ _. Keeps-refl t)
              (λ _.
                Keeps-phase t phase_dealing (omega (arith, rank_funding t.phase (ground arith))))),
      (λ to.
          if_both On (is_allowed t.phase to)
            (λ a. Keeps-phase t to (omega (arith, is_allowed-rank t.phase to a)))
            (λ _. Keeps-refl t)),
      (λ seat reason.
          if_both On (is_empty reason) (λ _. Keeps-refl t)
            (λ _.
              if_both On (is_closed t.phase) (λ _. Keeps-refl t)
                (λ c.
                  if_both On (leb_ℤ (pos (length t.seats)) seat) (λ _. Keeps-refl t)
                    (λ _. record {
                      forward = omega (arith, rank_not_closed t.phase c);
                      same_terms = refl;
                      same_keys = λ _. refl;
                    })))),
      Keeps-phase t phase_closed (ground arith),
    )

step-Keeps : (op : Op) (t : Table) → Keeps t (step op t)
unfolding step touch mark_refund_held
step-Keeps (join_op now key) t = join-Keeps now key t
step-Keeps (touch_op now seat) t = update_seat-Keeps t seat _ (λ s. (refl, refl))
step-Keeps close_roster_op t = (phase-Keeps t).0
step-Keeps (refund_op seat) t = update_seat-Keeps t seat _ (λ s. (refl, refl))
step-Keeps (fund_op seat) t = mark_funded-Keeps t seat
step-Keeps begin_op t = (phase-Keeps t).1
step-Keeps (advance_op to) t = (phase-Keeps t).2 to
step-Keeps (stall_op seat reason) t = (phase-Keeps t).3 seat reason
step-Keeps close_op t = (phase-Keeps t).4

Keeps-trans : (t u v : Table) → Keeps t u → Keeps u v → Keeps t v
Keeps-trans t u v h k = record {
  forward = omega (arith, h.forward, k.forward);
  same_terms = k.same_terms ∙ h.same_terms;
  same_keys = λ shut. k.same_keys (still shut) ∙ h.same_keys shut;
}
  where
    still : is_open t.phase ≡ false → is_open u.phase ≡ false
    still shut = elim (Bool-cases (is_open u.phase)) [
      | inl o ↦ absurd (omega (arith, h.forward, rank_open u.phase o, ranked t.phase shut))
      | inr c ↦ c
    ]

run-Keeps : (ops : List Op) (t : Table) → Keeps t (run ops t)
unfolding run
run-Keeps [] t = Keeps-refl t
run-Keeps (op ∷ ops) t =
    Keeps-trans t (step op t) (run ops (step op t)) (step-Keeps op t) (run-Keeps ops (step op t))

-- Whatever calls are made, a table's phase never goes back, its terms never change, and once it has
-- left `open` the identities of its seats, in order, never change.
pub run-fixes_roster :
    (ops : List Op) (t : Table)
    → (rank t.phase ≤ rank (run ops t).phase)
      × ((run ops t).terms ≡ t.terms)
      × (is_open t.phase ≡ false → keys (run ops t).seats ≡ keys t.seats)
run-fixes_roster ops t = let k = run-Keeps ops t in (k.forward, k.same_terms, k.same_keys)
