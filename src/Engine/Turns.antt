-- ===== src/Engine/Turns.antt =====
-- engine.go: the order of a hand in `nextStreet` and `advance`.
use brc100_poker.Base.{
  ℕ, zero, suc, ◌+◌, ◌≤◌, ◌<◌, ◌≡◌, refl, inl, inr, false, none, some, arith, ltb, ◌==◌, ℤ, pos,
  negsuc, pos_part, Bool-cases, if_both, length, tests,
}
use brc100_poker.Engine.State.{
  Street, preflop, flop, turn, river, complete, State, panicked, Outcome,
}
use brc100_poker.Engine.Betting.{next_able_to_act, live_count}
use brc100_poker.Engine.Streets.{
  open_street, is_river, deal_board, cards_due, street_due, finish_street_transition, next_street,
  street_fuel, advance, is_closed,
}
use brc100_poker.Engine.Order.{
  streets_left, cards_left, CanAct, IsBetting, KeepsOrder, next_able_to_act-CanAct,
}
use brc100_poker.Engine.Progress.{
  settle-KeepsOrder, in_turn-KeepsOrder, Advances, finish_street_transition-KeepsOrder,
}

-- The next street is nearer to the end, and its cards are those that this one leaves.
street_due_lem :
    (s : Street)
    → 0 < streets_left s
    → is_river s ≡ false
    → (0 < streets_left (street_due s))
      × (suc (streets_left (street_due s)) ≡ streets_left s)
      × (cards_due s + cards_left (street_due s) ≡ cards_left s)
street_due_lem preflop h r = (omega arith, refl, refl)
street_due_lem flop h r = (omega arith, refl, refl)
street_due_lem turn h r = (omega arith, refl, refl)
street_due_lem river h r = absurd (cc r)
street_due_lem complete h r = absurd (omega arith)

-- The board of the next street is dealt from a deck that holds it.
dealt-KeepsOrder :
    (fuel need : ℕ) (due : Street) (next : State → Outcome) (st : State)
    → Advances fuel next
    → st.done ≡ false
    → st.awaiting_board ≡ false
    → st.awaiting_showdown ≡ false
    → 0 < streets_left due
    → streets_left due ≤ fuel
    → st.deck_pos + (need + cards_left due) ≤ length st.deck
    → KeepsOrder (elim (deal_board need st) [
      | none ↦ (st, some panicked)
      | some dealt ↦ finish_street_transition next (record dealt { street = due })
    ])
unfolding deal_board
dealt-KeepsOrder fuel need due next st h d b w open' near deck =
    elim (Bool-cases (ltb (length st.deck) (st.deck_pos + need))) [
      | inl short ↦ absurd (omega tests)
      | inr enough ↦ rw enough (
          finish_street_transition-KeepsOrder fuel next h _
            (record {
              not_done = d;
              no_board = b;
              no_showdown = w;
              street_open = open';
              deck_enough = omega arith;
            })
            near)
    ]

pub next_street-KeepsOrder : (fuel : ℕ) → Advances fuel (next_street fuel)
unfolding next_street open_street
next_street-KeepsOrder zero st b l = absurd (omega (arith, b.street_open))
next_street-KeepsOrder (suc fuel) st b l =
    if_both KeepsOrder (is_river st.street) (λ _. settle-KeepsOrder st b)
      (λ r.
        let (open', nearer, cards) = street_due_lem st.street b.street_open r in
        if_both KeepsOrder st.defer_reveal
          (λ _. record {
            orderly = record {
              done_no_wait = λ e. absurd (cc b.not_done);
              one_wait = λ _. b.no_showdown;
              street_open = λ _. b.street_open;
              deck_enough = λ _. b.deck_enough;
              pending_open = λ _. open';
              pending_enough = λ _. omega (arith, b.deck_enough);
              can_act = tt;
            };
            no_play_fault = refl;
            goes_on = λ _. ground arith;
          })
          (λ _.
            dealt-KeepsOrder fuel (cards_due st.street) (street_due st.street) (next_street fuel)
              (open_street st) (next_street-KeepsOrder fuel) b.not_done b.no_board b.no_showdown
              open' (omega arith) (omega (arith, b.deck_enough))))

-- A betting state has four streets left at most.
pub streets_left-le : (s : Street) → streets_left s ≤ street_fuel
streets_left-le preflop = omega arith
streets_left-le flop = omega arith
streets_left-le turn = omega arith
streets_left-le river = omega arith
streets_left-le complete = omega arith

pub advance-KeepsOrder : (st : State) → IsBetting st → KeepsOrder (advance st)
unfolding advance
advance-KeepsOrder st b =
    if_both KeepsOrder (live_count st.seats == 1) (λ _. settle-KeepsOrder st b)
      (λ _.
        if_both KeepsOrder (is_closed st) (λ _. next)
          (λ _.
            turn (next_able_to_act st.seats (pos_part st.to_act))
              (next_able_to_act-CanAct st.seats (pos_part st.to_act))))
  where
    next : KeepsOrder (next_street street_fuel st)
    next = next_street-KeepsOrder street_fuel st b (streets_left-le st.street)

    turn :
        (z : ℤ)
        → CanAct st.seats z
        → KeepsOrder (elim z [
          | pos i ↦ (record st { to_act = pos i }, none)
          | negsuc n ↦ next_street street_fuel st
        ])
    turn (pos i) t = in_turn-KeepsOrder st i b t
    turn (negsuc n) t = next
