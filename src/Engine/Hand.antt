-- ===== src/Engine/Hand.antt =====
-- engine.go: `New` and `Apply`.
use brc100_poker.Base.{
  ℕ, suc, ◌+◌, ◌-◌, ◌*◌, ◌%◌, min, Bool, true, false, not, ◌&&◌, ◌||◌, Option, none, some, List, [],
  ◌∷◌, leb, ltb, ◌==◌, if◌then◌else◌, ℤ, pos, negsuc, pos_part, leb_ℤ, ltb_ℤ, eqb_ℤ, length,
  get_elem?, modify_at, take, drop, any,
}
use brc100_poker.Cards.{Card}
use brc100_poker.Engine.State.{
  preflop, ActionKind, fold, check, call, bet, raise, other, Action, min_seats, max_seats, Seat,
  State, Config, Error, too_few_seats, too_many_seats, button_out_of_range, blinds_not_positive,
  small_exceeds_big, bad_stack, short_deck, hand_complete, waiting_for_board, waiting_for_showdown,
  out_of_turn, cannot_check, nothing_to_call, cannot_bet, outside_range, no_increase,
  unknown_action, panicked, Result, ok, err, Outcome,
}
use brc100_poker.Engine.Betting.{commit, post_blind, is_able, next_able_to_act, legal}
use brc100_poker.Engine.Streets.{advance}

-- The seats of a new hand: hole cards go out seat by seat from the top of the deck.
unfoldable pub deal_seats : ℕ → ℕ → List Card → List ℤ → List Seat
deal_seats i hole_count deck [] = []
deal_seats i hole_count deck (stack ∷ stacks) =
    record {
      index = i;
      stack = pos_part stack;
      hole = take hole_count deck;
      folded = false;
      all_in = false;
      street_commit = 0;
      total_commit = 0;
      acted_this_street = false;
    }
    ∷ deal_seats (suc i) hole_count (drop hole_count deck) stacks

-- A zero `HoleCards` means two.
abbrev pub hole_count : Config → ℕ
hole_count cfg = if eqb_ℤ cfg.hole_cards (pos 0) then 2 else pos_part cfg.hole_cards

abbrev pub small_blind_seat : ℕ → ℕ → ℕ
small_blind_seat n button = if n == 2 then button else (button + 1) % n

abbrev pub big_blind_seat : ℕ → ℕ → ℕ
big_blind_seat n button = if n == 2 then (button + 1) % n else (button + 2) % n

-- `len(cfg.Deck) < holeCount*n + 5`; where `HoleCards` is negative the product is taken off.
abbrev pub is_short_for : Config → ℕ → Bool
is_short_for cfg n = elim cfg.hole_cards [
  | pos h ↦ ltb (length cfg.deck) (hole_count cfg * n + 5)
  | negsuc k ↦ ltb (length cfg.deck) (5 - suc k * n)
]

-- The checks of `New`, in order; `none` where they pass. A negative `HoleCards` panics where the hole
-- cards are made.
unfoldable pub check_config : Config → Option Error
check_config cfg =
    let n = length cfg.stacks in
    if ltb n min_seats
    then some too_few_seats
    else if ltb max_seats n
    then some too_many_seats
    else if ltb_ℤ cfg.button (pos 0) || leb_ℤ (pos n) cfg.button
    then some button_out_of_range
    else if leb_ℤ cfg.big_blind (pos 0) || leb_ℤ cfg.small_blind (pos 0)
    then some blinds_not_positive
    else if ltb_ℤ cfg.big_blind cfg.small_blind
    then some small_exceeds_big
    else if any (λ s. leb_ℤ s (pos 0)) cfg.stacks
    then some bad_stack
    else if is_short_for cfg n
    then some short_deck
    else if ltb_ℤ cfg.hole_cards (pos 0)
    then some panicked
    else none

-- The state before the blinds are posted.
unfoldable pub dealt_state : Config → State
dealt_state cfg = record {
  seats = deal_seats 0 (hole_count cfg) cfg.deck cfg.stacks;
  board = [];
  street = preflop;
  button = pos_part cfg.button;
  small_blind = pos_part cfg.small_blind;
  big_blind = pos_part cfg.big_blind;
  current_bet = 0;
  min_raise = 0;
  to_act = pos 0;
  done = false;
  awaiting_board = false;
  pending_board_count = 0;
  awaiting_showdown = false;
  payouts = [];
  use_hole = cfg.use_hole;
  deck = cfg.deck;
  deck_pos = hole_count cfg * length cfg.stacks;
  pending_street = preflop;
  defer_reveal = cfg.defer_reveal;
}

-- The blinds go in and the first seat to act is found.
unfoldable pub start : State → State
start st =
    let n = length st.seats in
    let posted =
      post_blind (big_blind_seat n st.button) st.big_blind
        (post_blind (small_blind_seat n st.button) st.small_blind st) in
    record posted {
      current_bet = st.big_blind;
      min_raise = st.big_blind;
      to_act = next_able_to_act posted.seats (big_blind_seat n st.button);
    }

-- `New`.
unfoldable pub new : Config → Result State
new cfg = elim (check_config cfg) [ some e ↦ err e | none ↦ ok (start (dealt_state cfg)) ]

-- A raise reopens the action for every other seat that can act; `j` is the position of the head.
unfoldable pub reopen : ℕ → ℕ → List Seat → List Seat
reopen i j [] = []
reopen i j (o ∷ seats) =
    (if not (i == j) && is_able o then record o { acted_this_street = false } else o)
    ∷ reopen i (suc j) seats

-- `st.commit(s, add)` and what follows it for a bet or a raise.
unfoldable pub raise_by : State → ℕ → Seat → ℕ → State
unfolding commit reopen
raise_by st i s add =
    let s' = commit add s in
    let increment = s.street_commit + add - st.current_bet in
    let committed = modify_at i (commit add) st.seats in
    if ltb st.current_bet s'.street_commit
    then record st {
      min_raise = if leb st.min_raise increment then increment else st.min_raise;
      current_bet = s'.street_commit;
      seats = reopen i 0 committed;
    }
    else record st { seats = committed }

-- The `Bet, Raise` case.
unfoldable pub bet_or_raise : State → ℕ → Seat → ℤ → Result State
bet_or_raise st i s to =
    let l = legal st in
    let top = s.street_commit + s.stack in
    let add = min (pos_part to) top - s.street_commit in
    if not l.can_bet_raise
    then err cannot_bet
    else if not (leb_ℤ (pos top) to) && (ltb_ℤ to l.min_to || ltb_ℤ (pos l.max_to) to)
    then err outside_range
    else if add == 0
    then err no_increase
    else ok (raise_by st i s add)

-- The `switch` of `Apply`.
unfoldable pub act : ActionKind → ℤ → State → ℕ → Seat → Result State
act fold to st i s =
    ok (record st { seats = modify_at i (λ t. record t { folded = true }) st.seats })
act check to st i s = if ltb s.street_commit st.current_bet then err cannot_check else ok st
act call to st i s =
    if leb st.current_bet s.street_commit
    then err nothing_to_call
    else ok (record st {
      seats = modify_at i (commit (min (st.current_bet - s.street_commit) s.stack)) st.seats;
    })
act bet to st i s = bet_or_raise st i s to
act raise to st i s = bet_or_raise st i s to
act other to st i s = err unknown_action

-- `s.ActedThisStreet = true`.
unfoldable pub mark_acted : ℕ → State → State
mark_acted i st = record st {
  seats = modify_at i (λ s. record s { acted_this_street = true }) st.seats;
}

-- `Apply` past its guards. With nobody to act, an action for seat -1 indexes the seats by -1 and
-- panics.
unfoldable pub apply_turn : State → Action → Outcome
apply_turn st a = elim st.to_act [
  | negsuc n ↦ (st, some panicked)
  | pos i ↦ elim (get_elem? st.seats i) [
    | none ↦ (st, some panicked)
    | some s ↦ elim (act a.kind a.to st i s) [
      | err e ↦ (st, some e)
      | ok st' ↦ advance (mark_acted i st')
    ]
  ]
]

-- `Apply`.
unfoldable pub apply : State → Action → Outcome
apply st a =
    if st.done
    then (st, some hand_complete)
    else if st.awaiting_board
    then (st, some waiting_for_board)
    else if st.awaiting_showdown
    then (st, some waiting_for_showdown)
    else if not (eqb_ℤ a.seat st.to_act)
    then (st, some out_of_turn)
    else apply_turn st a
