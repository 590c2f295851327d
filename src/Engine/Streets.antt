-- ===== src/Engine/Streets.antt =====
-- engine.go: `advance`, the streets, `settle`, and what a deferred reveal supplies.
use brc100_poker.Base.{
  ℕ, zero, suc, ◌+◌, Bool, true, false, not, ◌&&◌, ◌||◌, Option, none, some, List, [], ◌∷◌, ◌++◌,
  map, leb, ltb, ◌==◌, if◌then◌else◌, ℤ, pos, negsuc, pos_part, minus_one, length, take, drop, all,
  keep_if, sum_of, modify_at,
}
use brc100_poker.Cards.{Card, is_valid}
use brc100_poker.Engine.State.{
  Street, preflop, flop, turn, river, complete, Seat, State, not_waiting_for_board,
  wrong_board_count, invalid_card, seat_out_of_range, not_waiting_for_showdown, panicked,
  overflowed, out_of_fuel, Outcome, int64_limit,
}
use brc100_poker.Engine.Betting.{next_able_to_act, live_count, able_to_act_count}
use brc100_poker.Engine.Scoring.{set_payout, score_and_pay}

abbrev pub is_river : Street → Bool
is_river river = true
is_river _ = false

-- `live[0].Stack += won`, on the first seat that has not folded.
unfoldable pub award_first_live : ℕ → List Seat → List Seat
award_first_live won [] = []
award_first_live won (s ∷ seats) =
    let rest = award_first_live won seats in
    if s.folded then s ∷ rest else record s { stack = s.stack + won } ∷ seats

-- `st.Done = true; st.Street = Complete; st.ToAct = -1`.
abbrev pub finished : State → State
finished st = record st { done = true; street = complete; to_act = minus_one }

-- The end of `settle` for two live seats or more.
unfoldable pub show_down : State → Outcome
show_down st =
    if st.defer_reveal
    then (record st { awaiting_showdown = true; to_act = minus_one }, none)
    else score_and_pay (finished st)

-- The sums of `settle` only grow, so that none wraps where the stack that they end in fits.
unfoldable pub settle : State → Outcome
settle st = elim (keep_if (λ (s : Seat). not s.folded) st.seats) [
  | [] ↦ show_down st
  | s ∷ live ↦ elim live [
    | [] ↦
        let won = sum_of (λ (t : Seat). t.total_commit) st.seats in
        if ltb (s.stack + won) int64_limit
        then (
          record (finished st) {
            seats = award_first_live won st.seats;
            payouts = set_payout s.index won st.payouts;
          },
          none,
        )
        else (finished st, some overflowed)
    | t ∷ more ↦ show_down st
  ]
]

-- The reset that opens a street.
unfoldable pub clear_seat : Seat → Seat
clear_seat s = record s { street_commit = 0; acted_this_street = false }

unfoldable pub open_street : State → State
open_street st = record st {
  seats = map clear_seat st.seats;
  current_bet = 0;
  min_raise = st.big_blind;
}

-- `need` and `next` of `nextStreet`.
abbrev pub cards_due : Street → ℕ
cards_due preflop = 3
cards_due _ = 1

abbrev pub street_due : Street → Street
street_due preflop = flop
street_due flop = turn
street_due turn = river
street_due _ = turn

-- The loop that deals the board; a deck that is too short is a panic.
unfoldable pub deal_board : ℕ → State → Option State
deal_board need st =
    if ltb (length st.deck) (st.deck_pos + need)
    then none
    else some (record st {
      board = st.board ++ take need (drop st.deck_pos st.deck);
      deck_pos = st.deck_pos + need;
    })

-- `finishStreetTransition`, which is given `nextStreet`.
unfoldable pub finish_street_transition : (State → Outcome) → State → Outcome
finish_street_transition next st =
    if leb (able_to_act_count st.seats) 1
    then (if is_river st.street then settle st else next st)
    else elim (next_able_to_act st.seats st.button) [
      | pos i ↦ (record st { to_act = pos i }, none)
      | negsuc n ↦ next (record st { to_act = negsuc n })
    ]

-- `nextStreet`. Each round that recurs has moved to a later street.
unfoldable pub next_street : ℕ → State → Outcome
next_street zero st = (st, some out_of_fuel)
next_street (suc fuel) st =
    let opened = open_street st in
    let due = street_due st.street in
    let need = cards_due st.street in
    if is_river st.street
    then settle st
    else if st.defer_reveal
    then (
      record opened {
        pending_street = due;
        pending_board_count = need;
        awaiting_board = true;
        to_act = minus_one;
      },
      none,
    )
    else elim (deal_board need opened) [
      | none ↦ (opened, some panicked)
      | some dealt ↦ finish_street_transition (next_street fuel) (record dealt { street = due })
    ]

abbrev pub street_fuel : ℕ
street_fuel = 4

-- A seat that the street does not wait for.
abbrev pub is_closed_for : ℕ → Seat → Bool
is_closed_for bet s = s.folded || (s.all_in || (s.acted_this_street && s.street_commit == bet))

abbrev pub has_acted : Seat → Bool
has_acted s = s.folded || (s.all_in || s.acted_this_street)

unfoldable pub is_closed : State → Bool
is_closed st =
    all (is_closed_for st.current_bet) st.seats
    || (leb (able_to_act_count st.seats) 1 && all has_acted st.seats)

unfoldable pub advance : State → Outcome
advance st =
    if live_count st.seats == 1
    then settle st
    else if is_closed st
    then next_street street_fuel st
    else elim (next_able_to_act st.seats (pos_part st.to_act)) [
      | pos i ↦ (record st { to_act = pos i }, none)
      | negsuc n ↦ next_street street_fuel st
    ]

-- `SupplyBoard`.
unfoldable pub supply_board : List Card → State → Outcome
supply_board revealed st =
    if not st.awaiting_board
    then (st, some not_waiting_for_board)
    else if not (length revealed == st.pending_board_count)
    then (st, some wrong_board_count)
    else if not (all is_valid revealed)
    then (st, some invalid_card)
    else finish_street_transition (next_street street_fuel) (record st {
      board = st.board ++ revealed;
      street = st.pending_street;
      awaiting_board = false;
      pending_board_count = 0;
    })

-- `SetRevealedHole`.
unfoldable pub set_revealed_hole : ℤ → List Card → State → Outcome
set_revealed_hole (negsuc n) hole st = (st, some seat_out_of_range)
set_revealed_hole (pos i) hole st =
    if leb (length st.seats) i
    then (st, some seat_out_of_range)
    else if not (all is_valid hole)
    then (st, some invalid_card)
    else (record st { seats = modify_at i (λ s. record s { hole = hole }) st.seats }, none)

-- `CompleteShowdown`.
unfoldable pub complete_showdown : State → Outcome
complete_showdown st =
    if not st.awaiting_showdown
    then (st, some not_waiting_for_showdown)
    else score_and_pay (finished (record st { awaiting_showdown = false }))
