-- ===== src/Money.antt =====
-- internal/protocol/table/moneystate.go: what each seat is told about its own funds. The map of
-- states has the seats from 0 on as keys and never gains or loses one, so that it is the list of
-- its values; a range over it treats each seat by itself. `t.now()` is a number that the caller
-- passes, read once for a call. A call returns the new states beside its error, if any.
pub mod Refund
pub mod Runs
pub mod Outcome
use brc100_poker.Base.{
  ℕ, zero, suc, ◌+◌, Bool, true, false, not, ◌&&◌, ◌||◌, Option, none, some, List, [], ◌∷◌, ◌++◌,
  map, leb, ltb, ◌==◌, if◌then◌else◌, ℤ, pos, negsuc, minus_one, ltb_ℤ, Text, length, get_elem?,
  modify_at,
}
use brc100_poker.Table.{min_seats, max_seats, is_empty}

pub data MoneyPhase : Type 0 where
  uncommitted refund_held committed settling settled stalled recovered : MoneyPhase

pub record MoneyState : Type 0 where
  pub hand_id : Text
  pub seat : ℕ
  pub phase : MoneyPhase
  pub stake_satoshis : ℕ
  pub pot_satoshis : ℕ
  pub has_refund : Bool
  pub refund_spendable_at_height : ℕ
  pub current_height : ℕ
  pub payout_satoshis : ℕ
  pub settlement_txid : Text
  pub payout_spendable : Bool
  pub stalled_seat : ℤ
  pub stall_reason : Text
  pub updated_at : ℕ

pub data MoneyError : Type 0 where
  bad_seats no_refund_height no_seat no_refund no_reason : MoneyError

pub data Result {ℓ} (A : Type ℓ) : Type ℓ where
  ok : A → Result A
  err : MoneyError → Result A

abbrev pub States : Type 0
States = List MoneyState

-- `AtRisk`.
unfoldable pub at_risk : MoneyState → Bool
at_risk s = elim s.phase [ committed ↦ true | settling ↦ true | stalled ↦ true | _ ↦ false ]

abbrev pub new_state : ℕ → ℕ → ℕ → ℕ → ℕ → MoneyState
new_state now stake pot height seat = record {
  hand_id = [];
  seat = seat;
  phase = uncommitted;
  stake_satoshis = stake;
  pot_satoshis = pot;
  has_refund = false;
  refund_spendable_at_height = height;
  current_height = 0;
  payout_satoshis = 0;
  settlement_txid = [];
  payout_spendable = false;
  stalled_seat = minus_one;
  stall_reason = [];
  updated_at = now;
}

-- The seats from `i` on, `n` of them.
unfoldable pub new_states : ℕ → ℕ → ℕ → ℕ → ℕ → ℕ → States
new_states now stake pot height i zero = []
new_states now stake pot height i (suc n) =
    new_state now stake pot height i ∷ new_states now stake pot height (suc i) n

-- `NewMoneyTracker`.
unfoldable pub new_money_tracker : ℕ → ℤ → ℕ → ℕ → ℕ → Result States
new_money_tracker now (negsuc n) stake pot height = err bad_seats
new_money_tracker now (pos n) stake pot height =
    if ltb n min_seats || ltb max_seats n
    then err bad_seats
    else if height == 0
    then err no_refund_height
    else ok (new_states now stake pot height 0 n)

-- `State`.
unfoldable pub state : ℤ → States → Result MoneyState
state (negsuc n) states = err no_seat
state (pos i) states = elim (get_elem? states i) [ none ↦ err no_seat | some s ↦ ok s ]

-- `SetHand`.
unfoldable pub set_hand : ℕ → Text → States → States
set_hand now hand_id states =
    map (λ (s : MoneyState). record s { hand_id = hand_id; updated_at = now }) states

-- `update`, whose argument may refuse.
unfoldable pub update_at :
    ℕ → ℕ → (MoneyState → Result MoneyState) → States → States × Option MoneyError
update_at now i f states = elim (get_elem? states i) [
  | none ↦ (states, some no_seat)
  | some s ↦ elim (f s) [
    | err e ↦ (states, some e)
    | ok s' ↦ (modify_at i (λ _. record s' { updated_at = now }) states, none)
  ]
]

unfoldable pub update :
    ℕ → ℤ → (MoneyState → Result MoneyState) → States → States × Option MoneyError
update now (negsuc n) f states = (states, some no_seat)
update now (pos i) f states = update_at now i f states

abbrev pub hold_refund : MoneyPhase → MoneyPhase
hold_refund uncommitted = refund_held
hold_refund phase = phase

-- `RefundHeld`.
unfoldable pub mark_refund : ℕ → ℤ → States → States × Option MoneyError
mark_refund now seat states =
    update now seat (λ s. ok (record s { has_refund = true; phase = hold_refund s.phase })) states

-- `Committed`.
unfoldable pub mark_committed : ℕ → ℤ → States → States × Option MoneyError
mark_committed now seat states =
    update now seat
      (λ s. if not s.has_refund then err no_refund else ok (record s { phase = committed })) states

abbrev pub is_committed : MoneyPhase → Bool
is_committed committed = true
is_committed _ = false

-- `Settling`.
unfoldable pub mark_settling : ℕ → Text → States → States
mark_settling now txid states =
    map
      (λ (s : MoneyState).
        if is_committed s.phase
        then record s { phase = settling; settlement_txid = txid; updated_at = now }
        else s)
      states

abbrev pub settle_state : ℕ → Text → (ℕ → ℕ) → MoneyState → MoneyState
settle_state now txid payouts s = record s {
  phase = settled;
  settlement_txid = txid;
  payout_satoshis = payouts s.seat;
  updated_at = now;
}

-- `Settled`; the payout of a seat that the map lacks is 0.
unfoldable pub mark_settled : ℕ → Text → (ℕ → ℕ) → States → States
mark_settled now txid payouts states = map (settle_state now txid payouts) states

-- `PayoutReceived`.
unfoldable pub payout_received : ℕ → ℤ → States → States × Option MoneyError
payout_received now seat states =
    update now seat (λ s. ok (record s { payout_spendable = true })) states

abbrev pub is_final : MoneyPhase → Bool
is_final settled = true
is_final recovered = true
is_final _ = false

abbrev pub stall_state : ℕ → ℤ → Text → MoneyState → MoneyState
stall_state now seat reason s =
    if is_final s.phase
    then s
    else record s { phase = stalled; stalled_seat = seat; stall_reason = reason; updated_at = now }

-- `Stalled`.
unfoldable pub mark_stalled : ℕ → ℤ → Text → States → States × Option MoneyError
mark_stalled now seat reason states =
    if is_empty reason
    then (states, some no_reason)
    else (map (stall_state now seat reason) states, none)

-- `Recovered`.
unfoldable pub mark_recovered : ℕ → ℤ → States → States × Option MoneyError
mark_recovered now seat states = update now seat (λ s. ok (record s { phase = recovered })) states

-- `SetHeight`.
unfoldable pub set_height : ℕ → States → States
set_height height states = map (λ (s : MoneyState). record s { current_height = height }) states
