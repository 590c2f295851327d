-- ===== src/Engine/Entry.antt =====
-- engine.go: the order of a hand, panics and overflow in `Apply`, `SupplyBoard` and
-- `CompleteShowdown`.
use brc100_poker.Base.{
  ℕ, ◌+◌, ◌-◌, ◌<◌, ◌≡◌, ◌≢◌, refl, inl, inr, true, false, not, ◌&&◌, ◌||◌, Option, none, some,
  List, ap, ◌∙◌, arith, min, leb, ltb, ◌==◌, if◌then◌else◌, ℤ, pos, negsuc, pos_part, leb_ℤ, ltb_ℤ,
  eqb_ℤ, all, Bool-cases, if_both, subst, length, get_elem?, modify_at, eqb_ℤ→eq,
}
use brc100_poker.Cards.{Card, is_valid}
use brc100_poker.Engine.State.{
  is_play_fault, int64_limit, Outcome, Seat, State, Error, panicked, Result, ok, err, Action,
  ActionKind, fold, check, call, bet, raise, other, hand_complete, waiting_for_board,
  waiting_for_showdown, out_of_turn, not_waiting_for_board, wrong_board_count, invalid_card,
  not_waiting_for_showdown,
}
use brc100_poker.Engine.Betting.{commit, legal}
use brc100_poker.Engine.Streets.{next_street, street_fuel, advance, supply_board, complete_showdown}
use brc100_poker.Engine.Hand.{apply, apply_turn, act, mark_acted, bet_or_raise, raise_by, reopen}
use brc100_poker.Engine.Order.{CanAct, IsOrderly, IsBetting, is_seat, KeepsOrder, IsTidy}
use brc100_poker.Engine.Conserve.{IsConsistent, IsSound}
use brc100_poker.Engine.Moves.{
  refused-IsSound, apply-IsSound, supply_board-IsSound, complete_showdown-IsSound,
}
use brc100_poker.Engine.Progress.{score_and_pay-KeepsOrder, finish_street_transition-KeepsOrder}
use brc100_poker.Engine.Turns.{next_street-KeepsOrder, streets_left-le, advance-KeepsOrder}

-- A refused operation leaves an orderly state.
refused-KeepsOrder :
    (st : State) (e : Error)
    → IsOrderly st
    → is_play_fault (some e) ≡ false
    → KeepsOrder (st, some e)
refused-KeepsOrder st e h f = record {
  orderly = h;
  no_play_fault = f;
  goes_on = λ n. absurd (cc n);
}

-- What the `switch` of `Apply` leaves: a betting state, or an error that is no fault.
data PlaysOn : Result State → Type 0 where
  played : {st : State} → IsBetting st → PlaysOn (ok st)
  refused : {e : Error} → is_play_fault (some e) ≡ false → PlaysOn (err e)

raise_by-IsBetting :
    (st : State) (i : ℕ) (s : Seat) (add : ℕ) → IsBetting st → IsBetting (raise_by st i s add)
unfolding raise_by
raise_by-IsBetting st i s add b =
    if_both IsBetting (ltb st.current_bet (commit add s).street_commit) (λ _. same) (λ _. same')
  where
    same : IsBetting (record st {
      min_raise =
          if leb st.min_raise (s.street_commit + add - st.current_bet)
          then s.street_commit + add - st.current_bet
          else st.min_raise;
      current_bet = (commit add s).street_commit;
      seats = reopen i 0 (modify_at i (commit add) st.seats);
    })
    same = record {
      not_done = b.not_done;
      no_board = b.no_board;
      no_showdown = b.no_showdown;
      street_open = b.street_open;
      deck_enough = b.deck_enough;
    }

    same' : IsBetting (record st { seats = modify_at i (commit add) st.seats })
    same' = record {
      not_done = b.not_done;
      no_board = b.no_board;
      no_showdown = b.no_showdown;
      street_open = b.street_open;
      deck_enough = b.deck_enough;
    }

-- The seats do not matter to a betting state.
IsBetting-seats :
    (st : State) (seats : List Seat) → IsBetting st → IsBetting (record st { seats = seats })
IsBetting-seats st seats b = record {
  not_done = b.not_done;
  no_board = b.no_board;
  no_showdown = b.no_showdown;
  street_open = b.street_open;
  deck_enough = b.deck_enough;
}

bet_or_raise-PlaysOn :
    (st : State) (i : ℕ) (s : Seat) (to : ℤ) → IsBetting st → PlaysOn (bet_or_raise st i s to)
unfolding bet_or_raise
bet_or_raise-PlaysOn st i s to b =
    let l = legal st in
    let top = s.street_commit + s.stack in
    let add = min (pos_part to) top - s.street_commit in
    if_both PlaysOn (not l.can_bet_raise) (λ _. refused refl)
      (λ _.
        if_both PlaysOn (not (leb_ℤ (pos top) to) && (ltb_ℤ to l.min_to || ltb_ℤ (pos l.max_to) to))
          (λ _. refused refl)
          (λ _.
            if_both PlaysOn (add == 0) (λ _. refused refl)
              (λ _. played (raise_by-IsBetting st i s add b))))

act-PlaysOn :
    (kind : ActionKind) (to : ℤ) (st : State) (i : ℕ) (s : Seat)
    → IsBetting st
    → PlaysOn (act kind to st i s)
unfolding act
act-PlaysOn fold to st i s b = played (IsBetting-seats st _ b)
act-PlaysOn check to st i s b =
    if_both PlaysOn (ltb s.street_commit st.current_bet) (λ _. refused refl) (λ _. played b)
act-PlaysOn call to st i s b =
    if_both PlaysOn (leb st.current_bet s.street_commit) (λ _. refused refl)
      (λ _. played (IsBetting-seats st _ b))
act-PlaysOn bet to st i s b = bet_or_raise-PlaysOn st i s to b
act-PlaysOn raise to st i s b = bet_or_raise-PlaysOn st i s to b
act-PlaysOn other to st i s b = refused refl

mark_acted-IsBetting : (i : ℕ) (st : State) → IsBetting st → IsBetting (mark_acted i st)
unfolding mark_acted
mark_acted-IsBetting i st b = IsBetting-seats st _ b

-- Past its guards an action of the seat to act plays on.
apply_turn-KeepsOrder :
    (st : State) (a : Action)
    → IsOrderly st
    → IsBetting st
    → is_seat st.to_act ≡ true
    → KeepsOrder (apply_turn st a)
unfolding apply_turn
apply_turn-KeepsOrder st a h b seat = turn st.to_act h.can_act seat
  where
    acted :
        (i : ℕ) (r : Result State)
        → PlaysOn r
        → KeepsOrder (elim r [ err e ↦ (st, some e) | ok st' ↦ advance (mark_acted i st') ])
    acted i (ok st') (played b') =
        advance-KeepsOrder (mark_acted i st') (mark_acted-IsBetting i st' b')
    acted i (err e) (refused f) = refused-KeepsOrder st e h f

    seated :
        (i : ℕ) (m : Option Seat)
        → m ≢ none
        → KeepsOrder (elim m [
          | none ↦ (st, some panicked)
          | some s ↦ elim (act a.kind a.to st i s) [
            | err e ↦ (st, some e)
            | ok st' ↦ advance (mark_acted i st')
          ]
        ])
    seated i none there = absurd (there refl)
    seated i (some s) there = acted i (act a.kind a.to st i s) (act-PlaysOn a.kind a.to st i s b)

    turn :
        (z : ℤ)
        → CanAct st.seats z
        → is_seat z ≡ true
        → KeepsOrder (elim z [
          | negsuc n ↦ (st, some panicked)
          | pos i ↦ elim (get_elem? st.seats i) [
            | none ↦ (st, some panicked)
            | some s ↦ elim (act a.kind a.to st i s) [
              | err e ↦ (st, some e)
              | ok st' ↦ advance (mark_acted i st')
            ]
          ]
        ])
    turn (negsuc n) t is = absurd (cc is)
    turn (pos i) (s, e, able) is = seated i (get_elem? st.seats i) (λ gone. absurd (cc e))

waiting_for_action :
    (st : State)
    → IsOrderly st
    → st.done ≡ false
    → st.awaiting_board ≡ false
    → st.awaiting_showdown ≡ false
    → IsBetting st
waiting_for_action st h d b w = record {
  not_done = d;
  no_board = b;
  no_showdown = w;
  street_open = h.street_open d;
  deck_enough = h.deck_enough d;
}

apply-KeepsOrder :
    (st : State) (a : Action) → IsOrderly st → is_seat a.seat ≡ true → KeepsOrder (apply st a)
unfolding apply
apply-KeepsOrder st a h seat =
    if_both KeepsOrder st.done (λ _. refused-KeepsOrder st hand_complete h refl)
      (λ d.
        if_both KeepsOrder st.awaiting_board (λ _. refused-KeepsOrder st waiting_for_board h refl)
          (λ b.
            if_both KeepsOrder st.awaiting_showdown
              (λ _. refused-KeepsOrder st waiting_for_showdown h refl)
              (λ w.
                if_both KeepsOrder (not (eqb_ℤ a.seat st.to_act))
                  (λ _. refused-KeepsOrder st out_of_turn h refl)
                  (λ same. apply_turn-KeepsOrder st a h (waiting_for_action st h d b w) (
                    subst (λ z. is_seat z ≡ true) (eqb_ℤ→eq a.seat st.to_act (ground arith))
                      seat)))))

supply_board-KeepsOrder :
    (st : State) (revealed : List Card) → IsOrderly st → KeepsOrder (supply_board revealed st)
unfolding supply_board
supply_board-KeepsOrder st revealed h =
    if_both KeepsOrder (not st.awaiting_board)
      (λ _. refused-KeepsOrder st not_waiting_for_board h refl)
      (λ waits.
        if_both KeepsOrder (not (length revealed == st.pending_board_count))
          (λ _. refused-KeepsOrder st wrong_board_count h refl)
          (λ _.
            if_both KeepsOrder (not (all is_valid revealed))
              (λ _. refused-KeepsOrder st invalid_card h refl)
              (λ _.
                let b : st.awaiting_board ≡ true = ground arith in
                finish_street_transition-KeepsOrder street_fuel (next_street street_fuel)
                  (next_street-KeepsOrder street_fuel) _
                  (record {
                    not_done = elim (Bool-cases st.done) [
                      | inl d ↦ absurd (cc ((h.done_no_wait d).0))
                      | inr d ↦ d
                    ];
                    no_board = refl;
                    no_showdown = h.one_wait b;
                    street_open = h.pending_open b;
                    deck_enough = h.pending_enough b;
                  })
                  (streets_left-le st.pending_street))))

complete_showdown-KeepsOrder : (st : State) → IsOrderly st → KeepsOrder (complete_showdown st)
unfolding complete_showdown
complete_showdown-KeepsOrder st h =
    if_both KeepsOrder (not st.awaiting_showdown)
      (λ _. refused-KeepsOrder st not_waiting_for_showdown h refl)
      (λ waits. score_and_pay-KeepsOrder _ (refl, no_board (ground arith), refl, refl))
  where
    no_board : st.awaiting_showdown ≡ true → st.awaiting_board ≡ false
    no_board w = elim (Bool-cases st.awaiting_board) [
      | inl b ↦ absurd (cc (h.one_wait b))
      | inr b ↦ b
    ]

pub supply_board-refused :
    (st : State) (revealed : List Card)
    → st.awaiting_board ≡ false
    → supply_board revealed st ≡ (st, some not_waiting_for_board)
unfolding supply_board
supply_board-refused st revealed b =
    if_both (λ o. o ≡ (st, some not_waiting_for_board)) (not st.awaiting_board) (λ _. refl)
      (λ waits. absurd (cc (ap not b ∙ refl)))

pub complete_showdown-refused :
    (st : State)
    → st.awaiting_showdown ≡ false
    → complete_showdown st ≡ (st, some not_waiting_for_showdown)
unfolding complete_showdown
complete_showdown-refused st w =
    if_both (λ o. o ≡ (st, some not_waiting_for_showdown)) (not st.awaiting_showdown) (λ _. refl)
      (λ waits. absurd (cc (ap not w ∙ refl)))

-- The two halves of what an operation owes.
KeepsOrder-IsTidy : (total : ℕ) (o : Outcome) → KeepsOrder o → IsSound total o → IsTidy o
KeepsOrder-IsTidy total o k (c, paid, soft) = record {
  orderly = k.orderly;
  no_fault = rw (k.no_play_fault, soft) refl;
  goes_on = k.goes_on;
}

module _ (total : ℕ) (bounded : total < int64_limit) where
  -- In an orderly and consistent hand to which fewer than 2 ^ 63 chips were brought, an action that
  -- names a seat from 0 on, legal or not, ends in an orderly hand without a panic, that of a payout
  -- to a seat that is not there included, and without an overflow of the chips. A seat that is named
  -- to act there is at the table, has not folded and is not all-in. If the action is accepted, the
  -- hand is over, waits for cards, or has a seat to act.
  pub apply-IsTidy :
      (st : State) (a : Action)
      → IsOrderly st
      → IsConsistent total st
      → is_seat a.seat ≡ true
      → IsTidy (apply st a)
  apply-IsTidy st a h c seat =
      KeepsOrder-IsTidy total (apply st a) (apply-KeepsOrder st a h seat)
        (apply-IsSound total bounded st a c)

  supply_board-ends :
      (st : State) (revealed : List Card)
      → IsOrderly st
      → IsConsistent total st
      → IsSound total (supply_board revealed st)
  supply_board-ends st revealed h c = elim (Bool-cases st.done) [
    | inl d ↦
        rw (supply_board-refused st revealed ((h.done_no_wait d).0))
          (refused-IsSound total bounded st not_waiting_for_board refl c)
    | inr d ↦ supply_board-IsSound total bounded st revealed d c
  ]

  -- Supplying the board to an orderly and consistent hand to which fewer than 2 ^ 63 chips were
  -- brought, with any cards at all, ends in an orderly and consistent hand without a panic, that of a
  -- payout to a seat that is not there included, and without an overflow of the chips. If the cards
  -- are accepted, the hand is over, waits for cards, or has a seat to act.
  pub supply_board-IsTidy :
      (st : State) (revealed : List Card)
      → IsOrderly st
      → IsConsistent total st
      → IsTidy (supply_board revealed st) × IsConsistent total (supply_board revealed st).0
  supply_board-IsTidy st revealed h c =
      let sound = supply_board-ends st revealed h c in
      (
        KeepsOrder-IsTidy total (supply_board revealed st) (supply_board-KeepsOrder st revealed h)
            sound,
        sound.0,
      )

  complete_showdown-ends :
      (st : State) → IsOrderly st → IsConsistent total st → IsSound total (complete_showdown st)
  complete_showdown-ends st h c = elim (Bool-cases st.done) [
    | inl d ↦
        rw (complete_showdown-refused st ((h.done_no_wait d).1))
          (refused-IsSound total bounded st not_waiting_for_showdown refl c)
    | inr d ↦ complete_showdown-IsSound total bounded st d c
  ]

  -- Scoring a deferred showdown of an orderly and consistent hand to which fewer than 2 ^ 63 chips
  -- were brought ends in an orderly and consistent hand without a panic or an overflow, and if it is
  -- accepted the hand is over, waits for cards, or has a seat to act.
  pub complete_showdown-IsTidy :
      (st : State)
      → IsOrderly st
      → IsConsistent total st
      → IsTidy (complete_showdown st) × IsConsistent total (complete_showdown st).0
  complete_showdown-IsTidy st h c =
      let sound = complete_showdown-ends st h c in
      (
        KeepsOrder-IsTidy total (complete_showdown st) (complete_showdown-KeepsOrder st h) sound,
        sound.0,
      )
