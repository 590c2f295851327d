-- ===== src/Tests/EngineTests.antt =====
-- A hand at concrete inputs.
use brc100_poker.Base.{
  ℕ, zero, suc, ◌+◌, ◌/◌, ◌%◌, ◌<◌, ◌≡◌, none, refl, true, false, List, [], ◌∷◌, pos, arith, Bool,
}
use brc100_poker.Cards.{Card, is_valid}
use brc100_poker.Eval.{best_constrained, best, best_using, combinations, best_of, picks}
use brc100_poker.Engine.State.{
  State, Seat, Action, ActionKind, check, call, raise, Config, ok, int64_limit,
}
use brc100_poker.Engine.Scoring.{
  levels, score_layers, pay_out, layer_winners, winners_among, layer_pot, pay_layer, find_winners,
  live_at, sort_ints, score_and_pay,
}
use brc100_poker.Engine.Hand.{
  new, apply, start, dealt_state, check_config, apply_turn, act, mark_acted, bet_or_raise, raise_by,
  deal_seats,
}
use brc100_poker.Engine.Betting.{
  commit, post_blind, next_able_to_act, legal, live_count, able_to_act_count,
}
use brc100_poker.Engine.Streets.{
  advance, show_down, settle, next_street, finish_street_transition, is_closed, open_street,
  clear_seat, deal_board, supply_board,
}
use brc100_poker.Engine.Payout.{paid, stacks, commits, paid_out, pay_out-pays_pot}
use brc100_poker.Engine.Layers.{AddUpTo, levels-AddUpTo}
use brc100_poker.Engine.Winners.{BestWin, layer_winners-BestWin}
use brc100_poker.Engine.Conserve.{IsConsistent, IsSound}
use brc100_poker.Engine.Order.{IsOrderly, IsTidy}
use brc100_poker.Engine.Moves.{apply-IsSound}
use brc100_poker.Engine.Entry.{apply-IsTidy, supply_board-IsTidy}
use brc100_poker.Engine.Opening.{brought, new-opens}
use brc100_poker.Engine.Runs.{Op, play, board, reveal, showdown, run, step, run-IsSafe}

-- The cards of index n - 1 down to 0.
abbrev cards_down : ℕ → List Card
cards_down zero = []
cards_down (suc n) = record { rank = n / 4 + 2; suit = n % 4 } ∷ cards_down n

-- Three seats, of which seat 1 is short.
abbrev three_seats : Config
three_seats = record {
  stacks = pos 100 ∷ pos 30 ∷ pos 80 ∷ [];
  button = pos 0;
  small_blind = pos 5;
  big_blind = pos 10;
  deck = cards_down 20;
  hole_cards = pos 0;
  use_hole = pos 0;
  defer_reveal = false;
}

abbrev opened : State
opened = start (dealt_state three_seats)

three_seats-ok : new three_seats ≡ ok opened
unfolding new check_config
three_seats-ok = refl

-- Names on this definition's line are open wherever it is unfolded.
engine_code : Unit {0}
unfolding start dealt_state deal_seats post_blind commit next_able_to_act apply apply_turn act
    mark_acted bet_or_raise raise_by legal advance live_count able_to_act_count settle next_street
    finish_street_transition is_closed open_street clear_seat deal_board score_and_pay score_layers
    levels layer_winners winners_among layer_pot pay_layer find_winners live_at sort_ints pay_out
    best_constrained best best_of combinations picks best_using run step show_down is_valid
engine_code = tt

abbrev act_of : ActionKind → ℕ → ℕ → Op
act_of kind seat to = play kind seat (pos to)

-- Everybody goes all-in before the flop.
abbrev all_in : List Op
all_in = act_of raise 0 100 ∷ act_of call 1 0 ∷ act_of call 2 0 ∷ []

all_in_pays : ((run all_in opened).done ≡ true) × (paid (run all_in opened).payouts ≡ 210)
unfolding engine_code
all_in_pays = (refl, refl)

opened_facts : IsConsistent 210 opened × IsOrderly opened × (opened.done ≡ false)
opened_facts = new-opens three_seats three_seats-ok

new-opens_example :
    IsConsistent (brought three_seats) opened × IsOrderly opened × (opened.done ≡ false)
new-opens_example = new-opens three_seats three_seats-ok

abbrev short_raise : Action
short_raise = record { kind = raise; seat = pos 0; to = pos 12 }

few : 210 < int64_limit
few = omega arith

apply-IsSound_example : IsSound 210 (apply opened short_raise)
apply-IsSound_example = apply-IsSound 210 few opened short_raise opened_facts.0

apply-IsTidy_example : IsTidy (apply opened short_raise)
apply-IsTidy_example = apply-IsTidy 210 few opened short_raise opened_facts.1 opened_facts.0 refl

-- A hand that waits for the flop.
abbrev deferred : Config
deferred = record three_seats { defer_reveal = true }

abbrev deferred_opened : State
deferred_opened = start (dealt_state deferred)

deferred-ok : new deferred ≡ ok deferred_opened
unfolding new check_config
deferred-ok = refl

abbrev everyone_calls : List Op
everyone_calls = act_of call 0 0 ∷ act_of call 1 0 ∷ act_of check 2 0 ∷ []

flop_awaited : (run everyone_calls deferred_opened).awaiting_board ≡ true
unfolding engine_code
flop_awaited = refl

awaited_facts :
    IsConsistent 210 (run everyone_calls deferred_opened)
    × IsOrderly (run everyone_calls deferred_opened)
awaited_facts = (run-IsSafe 210 few everyone_calls deferred_opened opening).0
  where
    opening : IsConsistent 210 deferred_opened × IsOrderly deferred_opened
    opening = let (c, h, d) = new-opens deferred deferred-ok in (c, h)

supply_board-IsTidy_example :
    let st = supply_board (cards_down 3) (run everyone_calls deferred_opened) in
    IsTidy st × IsConsistent 210 st.0
supply_board-IsTidy_example =
    supply_board-IsTidy 210 few (run everyone_calls deferred_opened) (cards_down 3) awaited_facts.1
      awaited_facts.0

-- A showdown with a side pot: seat 1 is all-in for 30, seat 3 has folded after 50.
abbrev seat_of : ℕ → ℕ → ℕ → Bool → List Card → Seat
seat_of i stack commit folded hole = record {
  index = i;
  stack = stack;
  hole = hole;
  folded = folded;
  all_in = true;
  street_commit = 0;
  total_commit = commit;
  acted_this_street = true;
}

abbrev side_pot : State
side_pot = record opened {
  seats =
      seat_of 0 0 80 false (record { rank = 9; suit = 0 } ∷ record { rank = 9; suit = 1 } ∷ [])
      ∷ seat_of 1 0 30 false (record { rank = 14; suit = 0 } ∷ record { rank = 14; suit = 1 } ∷ [])
      ∷ seat_of 2 0 80 false (record { rank = 9; suit = 2 } ∷ record { rank = 9; suit = 3 } ∷ [])
      ∷ seat_of 3 45 50 true []
      ∷ [];
  board = cards_down 5;
  payouts = [];
}

levels-AddUpTo_example : AddUpTo (commits side_pot.seats) 0 (levels side_pot.seats) side_pot.seats
levels-AddUpTo_example = levels-AddUpTo side_pot.seats (omega arith)

layer_winners-BestWin_example : BestWin side_pot 80 (0 ∷ 2 ∷ [])
unfolding engine_code
layer_winners-BestWin_example = layer_winners-BestWin side_pot 80 refl

-- What the layers of the side pot award.
abbrev side_pot_shares : List (ℕ × ℕ)
side_pot_shares = (1, 120) ∷ (0, 60) ∷ (2, 60) ∷ []

side_pot_scored : score_layers side_pot 0 (levels side_pot.seats) [] ≡ ok side_pot_shares
unfolding engine_code
side_pot_scored = refl

pay_out-pays_pot_example :
    (pay_out side_pot_shares side_pot ≡ (paid_out side_pot_shares side_pot, none))
    × (let st' = paid_out side_pot_shares side_pot in
        (stacks st'.seats ≡ stacks side_pot.seats + commits side_pot.seats)
        × (commits st'.seats ≡ commits side_pot.seats)
        × (paid st'.payouts ≡ commits side_pot.seats))
pay_out-pays_pot_example =
    pay_out-pays_pot side_pot side_pot_shares (omega arith) refl (omega arith) side_pot_scored

-- Two seats that the blinds put all-in, with deferred reveals.
abbrev short_stacks : Config
short_stacks = record three_seats {
  small_blind = pos 10;
  big_blind = pos 10;
  deck = cards_down 9;
  defer_reveal = true;
}

abbrev futile : List Op
futile = act_of call 0 0 ∷ reveal (pos 1) (cards_down 2) ∷ showdown ∷ board (cards_down 3) ∷ []
