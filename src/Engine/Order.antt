-- ===== src/Engine/Order.antt =====
-- engine.go: the order of a hand. What an orderly state is, and that the seat that the engine
-- names to act is one that can.
use brc100_poker.Base.{
  ℕ, zero, suc, ◌+◌, ◌%◌, ◌≤◌, ◌<◌, ◌≡◌, refl, Bool, true, false, ◌||◌, Option, none, some, List,
  if◌then◌else◌, ℤ, pos, negsuc, minus_one, if_both, length, get_elem?,
}
use brc100_poker.Engine.State.{
  Street, preflop, flop, turn, river, complete, Seat, State, is_play_fault, is_fault, Outcome,
}
use brc100_poker.Engine.Betting.{is_able, scan_able, next_able_to_act}

-- Streets and board cards that a street still has before it.
abbrev pub streets_left : Street → ℕ
streets_left preflop = 4
streets_left flop = 3
streets_left turn = 2
streets_left river = 1
streets_left complete = 0

abbrev pub cards_left : Street → ℕ
cards_left preflop = 5
cards_left flop = 2
cards_left turn = 1
cards_left _ = 0

-- The seat to act is at the table, has not folded and is not all-in.
abbrev pub CanAct : List Seat → ℤ → Type 0
CanAct seats (negsuc n) = Unit
CanAct seats (pos i) = (s : Seat) × (get_elem? seats i ≡ some s) × (is_able s ≡ true)

-- The hand is in at most one of three modes: done, waiting for the board, waiting for the hole
-- cards. Until it is done its street is a betting round and the deck holds the board to come.
pub record IsOrderly (st : State) : Type 0 where
  pub done_no_wait : st.done ≡ true → (st.awaiting_board ≡ false) × (st.awaiting_showdown ≡ false)
  pub one_wait : st.awaiting_board ≡ true → st.awaiting_showdown ≡ false
  pub street_open : st.done ≡ false → 0 < streets_left st.street
  pub deck_enough : st.done ≡ false → st.deck_pos + cards_left st.street ≤ length st.deck
  pub pending_open : st.awaiting_board ≡ true → 0 < streets_left st.pending_street
  pub pending_enough :
      st.awaiting_board ≡ true → st.deck_pos + cards_left st.pending_street ≤ length st.deck
  pub can_act : CanAct st.seats st.to_act

-- An orderly hand that waits for an action.
pub record IsBetting (st : State) : Type 0 where
  pub not_done : st.done ≡ false
  pub no_board : st.awaiting_board ≡ false
  pub no_showdown : st.awaiting_showdown ≡ false
  pub street_open : 0 < streets_left st.street
  pub deck_enough : st.deck_pos + cards_left st.street ≤ length st.deck

abbrev pub is_seat : ℤ → Bool
is_seat (pos i) = true
is_seat (negsuc n) = false

-- The hand is over, waits for cards, or has a seat to act.
abbrev pub has_next : State → Bool
has_next st = st.done || (st.awaiting_board || (st.awaiting_showdown || is_seat st.to_act))

-- An operation ends in an orderly state, and where it does not err the hand is over, waits for cards,
-- or has a seat to act; it does not panic before the payout.
pub record KeepsOrder (o : Outcome) : Type 0 where
  pub orderly : IsOrderly o.0
  pub no_play_fault : is_play_fault o.1 ≡ false
  pub goes_on : o.1 ≡ none → has_next o.0 ≡ true

-- The same, and without any panic or overflow.
pub record IsTidy (o : Outcome) : Type 0 where
  pub orderly : IsOrderly o.0
  pub no_fault : is_fault o.1 ≡ false
  pub goes_on : o.1 ≡ none → has_next o.0 ≡ true

scan_able-CanAct : (seats : List Seat) (at rounds : ℕ) → CanAct seats (scan_able seats at rounds)
unfolding scan_able
scan_able-CanAct seats at zero = tt
scan_able-CanAct seats at (suc rounds) =
    found (scan_able-CanAct seats (at + 1) rounds) (get_elem? seats (at % length seats)) refl
  where
    found :
        CanAct seats (scan_able seats (at + 1) rounds)
        → (m : Option Seat) → get_elem? seats (at % length seats) ≡ m
        → CanAct seats (elim m [
          | none ↦ minus_one
          | some s ↦ if is_able s then pos (at % length seats) else scan_able seats (at + 1) rounds
        ])
    found later none e = tt
    found later (some s) e = if_both (CanAct seats) (is_able s) (λ able. (s, e, able)) (λ _. later)

-- The seat that comes next to act is at the table and can act.
pub next_able_to_act-CanAct :
    (seats : List Seat) (from : ℕ) → CanAct seats (next_able_to_act seats from)
unfolding next_able_to_act
next_able_to_act-CanAct seats from = scan_able-CanAct seats (from + 1) (length seats)
